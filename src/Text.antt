-- ===== src/Text.antt =====
-- kernel/ktext.cpp: the printing of numbers and of formats. What a function prints is the list of the
-- characters that it hands to `iputc`.
pub mod Format
pub mod ReadBack
mod Tests
use xivix.Base.{
  ℕ, zero, suc, ◌+◌, ◌-◌, ◌*◌, ◌/◌, ◌%◌, ◌^◌, min, Bool, true, false, ◌&&◌, if◌then◌else◌, ◌==◌,
  ltb, List, [], ◌∷◌, ◌++◌, Option, none, some, length,
}
use mathlib.Core.Option

-- The loop of `iprintdec` that fills `num` from its end, with room for `n` digits: none where it would write
-- before the array.
unfoldable pub dec_digits : ℕ → ℕ → List ℕ → Option (List ℕ)
dec_digits zero d num = if d == 0 then some num else none
dec_digits (suc n) d num =
    let rest = dec_digits n (d / 10) ((d % 10 + 48) ∷ num) in if d == 0 then some num else rest

-- The loop that fills up to `s` characters, where there are `l`.
unfoldable pub fill : ℕ → ℕ → ℕ → List ℕ
fill zero l sf = []
fill (suc s) l sf = let rest = fill s l sf in if ltb l (suc s) then sf ∷ rest else []

-- `iprintdec`, with the 20 digits of `num`.
unfoldable pub iprintdec : ℕ → ℕ → ℕ → Option (List ℕ)
iprintdec d s sf =
    Option.map (λ num. fill s (length num) sf ++ num)
      (if d == 0 then some (48 ∷ []) else dec_digits 20 d [])

-- The digit of `v` at the place `i`, with the shift of the machine, by the last six bits.
unfoldable pub hex_place : ℕ → ℕ → ℕ
hex_place i v = v / 2 ^ (i * 4 % 64) % 16

-- `if(c > 9) c += 7; c += '0';`
unfoldable pub hex_char : ℕ → ℕ
hex_char c = if ltb 9 c then c + 7 + 48 else c + 48

-- The loop that prints the last `n` digits.
unfoldable pub hex_digits : ℕ → ℕ → List ℕ
hex_digits zero v = []
hex_digits (suc n) v = hex_char (hex_place n v) ∷ hex_digits n v

-- The loop that gets the number of digits, at most `n`.
unfoldable pub hex_width : ℕ → ℕ → ℕ
hex_width zero v = 0
hex_width (suc n) v =
    let rest = hex_width n v in if ltb 0 n && hex_place n v == 0 then rest else suc n

-- `iprinthex` for 32 and for 64 bits.
unfoldable pub iprinthex32 : ℕ → List ℕ
iprinthex32 v = hex_digits (hex_width 8 v) v

unfoldable pub iprinthex64 : ℕ → List ℕ
iprinthex64 v = hex_digits (hex_width 16 v) v

-- The characters that stand for the digits that are left out.
unfoldable pub blanks : ℕ → ℕ → List ℕ
blanks zero sf = []
blanks (suc n) sf = sf ∷ blanks n sf

-- The second loop of the functions below runs once where the first starts at 0: it then prints the digit at
-- the place -1, that is 15.
unfoldable pub some_digits : ℕ → ℕ → List ℕ
some_digits zero v = hex_char (hex_place 15 v) ∷ []
some_digits (suc n) v = hex_digits (suc n) v

-- `iprinthexs` for 32 bits, and with a length and a character.
unfoldable pub iprinthexs32 : ℕ → List ℕ
iprinthexs32 v = let n = hex_width 8 v in blanks (8 - n) 32 ++ hex_digits n v

unfoldable pub iprinthexs : ℕ → ℕ → ℕ → List ℕ
iprinthexs v s sf = let n = hex_width s v in blanks (s - n) sf ++ some_digits n v

-- `iprinthexx`, for a number of bits, and `iprinthex` with one, whose shifts have five bits.
unfoldable pub iprinthexx : ℕ → ℕ → List ℕ
iprinthexx v bits = some_digits (min 64 bits / 4) v

unfoldable pub iprinthex_bits : ℕ → ℕ → List ℕ
iprinthex_bits v bits =
    let n = min 32 bits / 4 in if n == 0 then hex_char (v / 2 ^ 28 % 16) ∷ [] else hex_digits n v
