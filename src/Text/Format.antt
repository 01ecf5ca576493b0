-- ===== src/Text/Format.antt =====
-- kernel/ktext.cpp: `ivprintf`, a state machine over the characters of the format.
use xivix.Base.{ℕ, ◌+◌, ◌-◌, ◌*◌, if◌then◌else◌, ◌==◌, ◌&&◌, leb, List, [], ◌∷◌, ◌++◌}
use xivix.Base.Word.{u8, u32, u64}
use xivix.Text.{iprintdec, iprinthex32, iprinthex64, iprinthexs}
use mathlib.Core.Option

-- An argument: a number or a string.
pub data Argument : Type 0 where
  word : ℕ → Argument
  text : List ℕ → Argument

-- `rs`, `pad` and `padl`, the arguments that are left, and what is printed.
pub record Format : Type 0 where
  pub rs : ℕ
  pub pad : ℕ
  pub padl : ℕ
  pub arguments : List Argument
  pub out : List ℕ

abbrev pub emit : List ℕ → Format → Format
emit cs f = record f { out = f.out ++ cs }

-- `va_arg` for a number and for a string. Without an argument of that type the source reads something else,
-- here 0 or no text.
abbrev pub next_word : List Argument → ℕ
next_word (word n ∷ rest) = n
next_word _ = 0

abbrev pub next_text : List Argument → List ℕ
next_text (text t ∷ rest) = t
next_text _ = []

abbrev pub rest_of : List Argument → List Argument
rest_of [] = []
rest_of (a ∷ rest) = rest

abbrev pub used : Format → Format
used f = record f { arguments = rest_of f.arguments }

abbrev pub fill_char : Format → ℕ
fill_char f = if f.pad == 2 then 32 else 48

-- The decimal number of a conversion; `iprintdec` has room for it (Text/ReadBack).
unfoldable pub print_dec : ℕ → Format → Format
print_dec n f = emit (Option.get_or (iprintdec n f.padl (fill_char f)) []) (used f)

-- The hexadecimal number of a conversion, of 32 bits or of 64.
unfoldable pub print_hex : ℕ → List ℕ → Format → Format
print_hex n plain f =
    if f.pad == 0 then emit plain (used f) else emit (iprinthexs n f.padl (fill_char f)) (used f)

-- The conversions `d`, `s` and `x` in the states 1 and 2, with what else `%` and a character print.
unfoldable pub convert : ℕ → Format → Format
convert c f =
    let n = u32 (next_word f.arguments) in
    if c == b'd'
    then print_dec n f
    else if c == b's'
    then emit (next_text f.arguments) (used f)
    else if c == b'x'
    then print_hex n (iprinthex32 n) f
    else emit (b'%' ∷ c ∷ []) f

-- A character after `%`.
unfoldable pub after_percent : ℕ → Format → Format
after_percent c f =
    if c == b'0'
    then record f { pad = 1; rs = 1; padl = 8 }
    else if c == b' '
    then record f { pad = 2; rs = 1; padl = 8 }
    else if leb b'1' c && leb c b'9'
    then record f { rs = 2; padl = c - b'0' }
    else if c == b'l'
    then record f { rs = 3 }
    else if c == b'%'
    then emit (c ∷ []) f
    else if c == b'c'
    then emit (u8 (next_word f.arguments) ∷ []) (used f)
    else convert c f

-- A character after the first digit of the length.
unfoldable pub after_digit : ℕ → Format → Format
after_digit c f =
    if leb b'0' c && leb c b'9'
    then record f { padl = f.padl * 10 + (c - b'0'); rs = 2 }
    else if c == b'l'
    then record f { rs = 3 }
    else convert c f

-- A character after `l`.
unfoldable pub after_long : ℕ → Format → Format
after_long c f =
    let n = u64 (next_word f.arguments) in
    if c == b'0'
    then record f { pad = 1; rs = 2 }
    else if c == b' '
    then record f { pad = 2; rs = 2 }
    else if c == b'd'
    then print_dec n f
    else if c == b'x'
    then print_hex n (iprinthex64 n) f
    else emit (b'%' ∷ c ∷ []) f

-- A round of the loop of `ivprintf`.
unfoldable pub format_char : ℕ → Format → Format
format_char c f =
    let f' : Format = record f { rs = 0 } in
    if f.rs == 0
    then if c == b'%' then record f { rs = 1; pad = 0 } else emit (c ∷ []) f
    else if f.rs == 1
    then after_percent c f'
    else if f.rs == 2
    then after_digit c f'
    else if f.rs == 3
    then after_long c f'
    else f

unfoldable pub format_chars : List ℕ → Format → Format
format_chars [] f = f
format_chars (c ∷ cs) f = format_chars cs (format_char c f)

-- `ivprintf`
unfoldable pub ivprintf : List ℕ → List Argument → List ℕ
ivprintf ftr arguments =
    (format_chars ftr (record { rs = 0; pad = 0; padl = 0; arguments = arguments; out = [] })).out
