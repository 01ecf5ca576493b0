-- ===== src/Kmain/Commands.antt =====
-- The commands of a line are those of its characters, whatever older lines left behind them.
use xivix.Base.{
  ℕ, zero, suc, ◌/◌, ◌≤◌, ◌<◌, ◌≡◌, refl, arith, ap, ap₂, ◌∙◌, sym, List, length, Bool-cases, false,
  inl, inr, ◌==◌, leb, ◌&&◌, bit_or, bit_xor,
}
use xivix.Base.Bits.{bit_or_halves}
use xivix.Net.Packet.{Bytes}
use xivix.Net.Dhcp.Recv.{memeq}
use xivix.Kmain.Console.{
  bytes, matches, short_command, long_commands, commands, arp_text, pkt_text, die_text, eth_text,
  acpi_text, serial_text, debug_text,
}

or_zero : (k x y : ℕ) → y ≤ k → bit_or x y ≡ 0 → y ≡ 0
or_zero zero x y h e = omega (arith, h)
or_zero (suc k) x y h e =
    let half : bit_or (x / 2) (y / 2) ≡ 0 = omega (arith, e, bit_or_halves x y) in
    omega (arith, e, bit_or_halves x y, or_zero k (x / 2) (y / 2) (omega (arith, h)) half)

memeq_same :
    (n : ℕ) (a b text : Bytes) → ((i : ℕ) → i < n → a i ≡ b i) → memeq n a text ≡ memeq n b text
unfolding memeq
memeq_same zero a b text h = refl
memeq_same (suc n) a b text h =
    ap₂ (λ x y. bit_or (bit_xor x (text n)) y) (h n (omega arith))
      (memeq_same n a b text (λ i k. h i (omega (arith, k))))

matches_same :
    (n : ℕ) (text : List ℕ) (a b : Bytes)
    → ((i : ℕ) → i < n → a i ≡ b i)
    → matches n text a ≡ matches n text b
unfolding matches
matches_same n text a b h = ap (λ x. x == 0) (memeq_same n a b (bytes text) h)

-- A line that does not begin like "acpi" with three characters is not taken for it.
matches_acpi : (a : Bytes) → matches 3 acpi_text a ≡ false → matches 4 acpi_text a ≡ false
unfolding matches memeq
matches_acpi a h = elim (Bool-cases (matches 4 acpi_text a)) [
  | inr other ↦ other
  | inl taken ↦
      let x = bit_xor (a 3) (bytes acpi_text 3) in
      let r = memeq 3 a (bytes acpi_text) in
      let all_zero : bit_or x r ≡ 0 = ground (arith, taken) in
      let zero_rest = or_zero r x r (omega arith) all_zero in absurd (ground (arith, h, zero_rest))
]

-- The line is not "acp", which takes its fourth character from an older line.
abbrev pub IsWhole : List ℕ → Type 0
IsWhole text = length text ≡ 3 → matches 3 acpi_text (bytes text) ≡ false

six_same :
    (n : ℕ) (text : List ℕ) (a b : Bytes)
    → ((i : ℕ) → i < n → a i ≡ b i)
    → (n == 6 && matches 6 text a) ≡ (n == 6 && matches 6 text b)
six_same n text a b same = elim (Bool-cases (n == 6)) [
  | inr other ↦ rw other refl
  | inl six ↦
      let e : n ≡ 6 = ground (arith, six) in
      ap (λ t. n == 6 && t) (matches_same 6 text a b (λ i h. same i (omega (arith, h, e))))
]

acpi_same :
    (n : ℕ) (a b : Bytes)
    → 3 ≤ n
    → (n ≡ 3 → matches 3 acpi_text b ≡ false)
    → ((i : ℕ) → i < n → a i ≡ b i)
    → matches 4 acpi_text a ≡ matches 4 acpi_text b
acpi_same n a b long whole same = elim (Bool-cases (n == 3)) [
  | inl three ↦
      let e : n ≡ 3 = ground (arith, three) in
      let none_taken = whole e in
      let none_taken' =
        matches_same 3 acpi_text a b (λ i h. same i (omega (arith, h, e))) ∙ none_taken in
      matches_acpi a none_taken' ∙ sym (matches_acpi b none_taken)
  | inr more ↦
      let four : 4 ≤ n = ground (arith, more, long) in
      matches_same 4 acpi_text a b (λ i h. same i (omega (arith, h, four)))
]

long_same :
    (n : ℕ) (a b : Bytes)
    → 3 ≤ n
    → (n ≡ 3 → matches 3 acpi_text b ≡ false)
    → ((i : ℕ) → i < n → a i ≡ b i)
    → long_commands n a ≡ long_commands n b
unfolding long_commands
long_same n a b long whole same =
    let three =
      λ (text : List ℕ). matches_same 3 text a b (λ i h. same i (omega (arith, h, long))) in
    rw
      (
        three arp_text,
        three pkt_text,
        three die_text,
        three eth_text,
        acpi_same n a b long whole same,
        six_same n serial_text a b same,
        six_same n debug_text a b same,
      )
      refl

-- What the commands of a line read is the line.
pub commands_same :
    (text : List ℕ) (a : Bytes)
    → IsWhole text
    → ((i : ℕ) → i < length text → a i ≡ bytes text i)
    → commands (length text) a ≡ commands (length text) (bytes text)
unfolding commands
commands_same text a whole same =
    let n = length text in
    elim (Bool-cases (n == 1)) [
      | inl one ↦ rw one (ap short_command (same 0 (ground (arith, one))))
      | inr other ↦ elim (Bool-cases (leb 3 n)) [
        | inl long ↦ rw (other, long) (long_same n a (bytes text) (ground (arith, long)) whole same)
        | inr short ↦ rw (other, short) refl
      ]
    ]
