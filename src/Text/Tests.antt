-- ===== src/Text/Tests.antt =====
-- Runs of the printing, and its theorem at an input.
use Prim.Native.Char.{code}
use Prim.Native.String.{String}
use xivix.Base.{ℕ, ◌≡◌, refl, List, [], ◌∷◌, some, arith, inl, ◌^◌, ◌-◌}
use xivix.Text.{
  iprintdec, iprinthex32, iprinthex64, iprinthexs, iprinthexs32, iprinthexx, iprinthex_bits,
  dec_digits, fill, hex_digits, hex_width, hex_place, hex_char, blanks, some_digits,
}
use xivix.Text.Format.{
  word, text, ivprintf, format_chars, format_char, after_percent, after_digit, after_long, convert,
  print_dec, print_hex,
}
use xivix.Text.ReadBack.{read, printed_numbers_read}

abbrev codes : String → List ℕ
codes String.[] = []
codes (String.◌∷◌ c s) = code c ∷ codes s

program : Unit {0}
unfolding iprintdec iprinthex32 iprinthex64 iprinthexs iprinthexs32 iprinthexx iprinthex_bits
    dec_digits fill hex_digits hex_width hex_place hex_char blanks some_digits ivprintf format_chars
    format_char after_percent after_digit after_long convert print_dec print_hex
program = tt

printed_numbers_read_example :
    ((cs : List ℕ) × (iprintdec 80_2701 8 48 ≡ some cs) × (read 10 0 cs ≡ 80_2701))
    × (read 16 0 (iprinthex64 80_2701) ≡ 80_2701)
printed_numbers_read_example = printed_numbers_read 80_2701 8 48 (omega arith) (inl refl)

iprintdec-largest : iprintdec (2 ^ 64 - 1) 0 48 ≡ some (codes "18446744073709551615")
unfolding program
iprintdec-largest = refl

iprinthex-lengths :
    (iprinthex32 0 ≡ codes "0")
    × (iprinthexs 0xbeef 8 48 ≡ codes "0000BEEF")
    × (iprinthexs32 0xbeef ≡ codes "    BEEF")
    × (iprinthexx 0xbeef 24 ≡ codes "00BEEF")
    × (iprinthex_bits 0xbeef 8 ≡ codes "EF")
unfolding program
iprinthex-lengths = (refl, refl, refl, refl, refl)

ivprintf-line :
    ivprintf (codes "%s: %08x/%d%%\n") (text (codes "vmm") ∷ word 0xc0de ∷ word 7 ∷ [])
    ≡ codes "vmm: 0000C0DE/00000007%\n"
unfolding program
ivprintf-line = refl

-- The length of a conversion stays for the next one, here the 8 of the first.
ivprintf-length_stays :
    ivprintf (codes "%08x %d") (word 1 ∷ word 7 ∷ []) ≡ codes "00000001 00000007"
unfolding program
ivprintf-length_stays = refl
