-- ===== src/Text/ReadBack.antt =====
-- The numbers that are printed are read back as they were.
use xivix.Base.{
  ℕ, zero, suc, ◌+◌, ◌-◌, ◌*◌, ◌/◌, ◌%◌, ◌^◌, ◌≤◌, ◌<◌, ◌≡◌, refl, ap, ap₂, subst, sym, ◌∙◌, true,
  false, ◌&&◌, if◌then◌else◌, ◌==◌, ltb, List, [], ◌∷◌, ◌++◌, some, length, arith, ◌⊎◌, inl, inr,
  Bool-cases,
}
use xivix.Text.{
  dec_digits, fill, iprintdec, hex_place, hex_char, hex_digits, hex_width, iprinthex64,
}
use native.Mathlib.Nat.{
  pow-suc, add-mul, mul_assoc, zero-mul, zero-add, div-add-mod', mod-lt, mul-le-mul_right,
  mul-add-mod_self_right, mod-eq_of_lt, one-le-pow,
}

-- The number that a text stands for, in a base, after the number before it; spaces do not count.
abbrev pub digit_of : ℕ → ℕ
digit_of c = if ltb 57 c then c - 55 else c - 48

unfoldable pub read : ℕ → ℕ → List ℕ → ℕ
read base n [] = n
read base n (c ∷ cs) = if c == 32 then read base n cs else read base (n * base + digit_of c) cs

read-dec_char : (d : ℕ) (num : List ℕ) → read 10 (d / 10) ((d % 10 + 48) ∷ num) ≡ read 10 d num
unfolding read
read-dec_char d num =
    let shown : (d % 10 + 48 == 32) ≡ false = ground arith in
    let low : ltb 57 (d % 10 + 48) ≡ false = ground arith in
    let whole : d / 10 * 10 + (d % 10 + 48 - 48) ≡ d = omega arith in rw (shown, low, whole) refl

-- With room for its digits, a number is read back.
dec_digits-some :
    (room d : ℕ) (num : List ℕ)
    → d < 10 ^ room
    → (cs : List ℕ) × (dec_digits room d num ≡ some cs) × (read 10 0 cs ≡ read 10 d num)
unfolding dec_digits
dec_digits-some zero d num h =
    let none_left : d ≡ 0 = omega arith in
    (num, rw none_left refl, ap (λ n. read 10 n num) (sym none_left))
dec_digits-some (suc room) d num h = elim (Bool-cases (d == 0)) [
  | inl done ↦
      let none_left : d ≡ 0 = ground arith in
      (num, rw done refl, ap (λ n. read 10 n num) (sym none_left))
  | inr more ↦
      let rest =
        dec_digits-some room (d / 10) ((d % 10 + 48) ∷ num) (omega (arith, pow-suc 10 room)) in
      (rest.0, rw more rest.1, rest.2 ∙ read-dec_char d num)
]

-- What fills up a number does not change it.
read-fill :
    (s l sf : ℕ) (num : List ℕ)
    → (sf ≡ 48) ⊎ (sf ≡ 32)
    → read 10 0 (fill s l sf ++ num) ≡ read 10 0 num
unfolding read fill
read-fill zero l sf num ok = refl
read-fill (suc s) l sf num ok = elim (Bool-cases (ltb l (suc s))) [
  | inr full ↦ rw full refl
  | inl room ↦ rw room (elim ok [
    | inl digit ↦
        let shown : (sf == 32) ≡ false = ground (arith, digit) in
        let none_yet : 0 + digit_of sf ≡ 0 = ground (arith, digit) in
        rw (shown, none_yet) (read-fill s l sf num (inl digit))
    | inr space ↦
        let blank : (sf == 32) ≡ true = ground (arith, space) in
        rw blank (read-fill s l sf num (inr space))
  ])
]

iprintdec-read :
    (d s sf : ℕ)
    → d < 2 ^ 64
    → (sf ≡ 48) ⊎ (sf ≡ 32)
    → (cs : List ℕ) × (iprintdec d s sf ≡ some cs) × (read 10 0 cs ≡ d)
unfolding iprintdec read
iprintdec-read d s sf h ok = elim (Bool-cases (d == 0)) [
  | inl zero_number ↦
      let e : d ≡ 0 = ground arith in
      (fill s 1 sf ++ 48 ∷ [], rw zero_number refl, read-fill s 1 sf (48 ∷ []) ok ∙ sym e)
  | inr more ↦
      let digits = dec_digits-some 20 d [] (omega arith) in
      (
        fill s (length digits.0) sf ++ digits.0,
        rw (more, digits.1) refl,
        read-fill s (length digits.0) sf digits.0 ok ∙ digits.2,
      )
]

hex_char-digit :
    (n v : ℕ) (cs : List ℕ) → v < 16 → read 16 n (hex_char v ∷ cs) ≡ read 16 (n * 16 + v) cs
unfolding read hex_char
hex_char-digit n v cs h =
    let shown : (hex_char v == 32) ≡ false = ground arith in
    let digit : digit_of (hex_char v) ≡ v = ground arith in rw (shown, digit) refl

-- A remainder by its last digit in base 16.
mod_split : (p v : ℕ) → 0 < p → v % (p * 16) ≡ v / p % 16 * p + v % p
mod_split p v h =
    let q : ℕ = v / p in
    let r : ℕ = q % 16 * p + v % p in
    let places : q ≡ q / 16 * 16 + q % 16 = omega arith in
    let swap : 16 * p ≡ p * 16 = omega arith in
    let parts : q * p ≡ q / 16 * (p * 16) + q % 16 * p =
      ap (λ n. n * p) places
      ∙ add-mul (q / 16 * 16) (q % 16) p
      ∙ ap (λ n. n + q % 16 * p) (mul_assoc (q / 16) 16 p ∙ ap (λ n. q / 16 * n) swap) in
    let whole : v ≡ q / 16 * (p * 16) + r = omega (arith, div-add-mod' v p, parts) in
    let small : r < p * 16 = omega (arith, mod-lt v h, mul-le-mul_right p (le15 (v / p))) in
    ap (λ n. n % (p * 16)) whole ∙ mul-add-mod_self_right (q / 16) (p * 16) r ∙ mod-eq_of_lt small
  where
    le15 : (n : ℕ) → n % 16 ≤ 15
    le15 n = omega arith

place_pow : (n : ℕ) → n ≤ 15 → 2 ^ (n * 4 % 64) ≡ 16 ^ n
place_pow n h = let e : n * 4 % 64 ≡ n * 4 = omega arith in ap (λ k. 2 ^ k) e ∙ powers n
  where
    powers : (n : ℕ) → 2 ^ (n * 4) ≡ 16 ^ n
    powers zero = refl
    powers (suc n) =
        let e : suc n * 4 ≡ suc (suc (suc (suc (n * 4)))) = omega arith in
        ap (λ k. 2 ^ k) e
        ∙ omega (
          arith,
          pow-suc 2 (suc (suc (suc (n * 4)))),
          pow-suc 2 (suc (suc (n * 4))),
          pow-suc 2 (suc (n * 4)),
          pow-suc 2 (n * 4),
          pow-suc 16 n,
          powers n,
        )

hex_place_lem : (n v : ℕ) → n ≤ 15 → hex_place n v ≡ v / 16 ^ n % 16
unfolding hex_place
hex_place_lem n v h = ap (λ k. v / k % 16) (place_pow n h)

-- The last `n` digits of a number.
hex_digits-read : (n a v : ℕ) → n ≤ 16 → read 16 a (hex_digits n v) ≡ a * 16 ^ n + v % 16 ^ n
unfolding hex_digits read
hex_digits-read zero a v h = omega arith
hex_digits-read (suc n) a v h =
    let p : ℕ = 16 ^ n in
    let x : ℕ = hex_place n v in
    let place : x ≡ v / p % 16 = hex_place_lem n v (omega arith) in
    let digit : x < 16 = omega (arith, place) in
    let swap : 16 * p ≡ p * 16 = omega arith in
    let parts : (a * 16 + x) * p ≡ a * (p * 16) + v / p % 16 * p =
      add-mul (a * 16) x p
      ∙ ap₂ (λ m k. m + k * p) (mul_assoc a 16 p ∙ ap (λ m. a * m) swap) place in
    hex_char-digit a x (hex_digits n v) digit
    ∙ hex_digits-read n (a * 16 + x) v (omega arith)
    ∙ omega (arith, parts, mod_split p v (one-le-pow n 16 (omega arith)))
    ∙ ap (λ m. a * m + v % m) (sym (pow-suc 16 n))

-- The digits that are left out are zero.
hex_width-fits : (n v : ℕ) → n ≤ 16 → v < 16 ^ n → (v < 16 ^ hex_width n v) × (hex_width n v ≤ n)
unfolding hex_width
hex_width-fits zero v h k = (k, omega arith)
hex_width-fits (suc n) v h k = elim (Bool-cases (ltb 0 n && hex_place n v == 0)) [
  | inr shown ↦ rw shown (k, omega arith)
  | inl hidden ↦
      let p : ℕ = 16 ^ n in
      let pos : 0 < p = one-le-pow n 16 (omega arith) in
      let none_there : v / p % 16 ≡ 0 = ground (arith, hidden, hex_place_lem n v (omega arith)) in
      let all : v ≡ v % (p * 16) = sym (mod-eq_of_lt (subst (λ m. v < m) (pow-suc 16 n) k)) in
      let last : v / p % 16 * p ≡ 0 = ap (λ m. m * p) none_there ∙ zero-mul p in
      let small : v < p = omega (arith, all, last, mod_split p v pos, mod-lt v pos) in
      let rest = hex_width-fits n v (omega arith) small in rw hidden (rest.0, omega (arith, rest.1))
]

-- A number below 2 ^ 64 fits in the 20 characters of `iprintdec`, and what it prints, filled up with zeros or
-- spaces to any length, reads as the number in base 10; what `iprinthex` prints reads as it in base 16.
pub printed_numbers_read :
    (d s sf : ℕ)
    → d < 2 ^ 64
    → (sf ≡ 48) ⊎ (sf ≡ 32)
    → ((cs : List ℕ) × (iprintdec d s sf ≡ some cs) × (read 10 0 cs ≡ d))
      × (read 16 0 (iprinthex64 d) ≡ d)
unfolding iprinthex64
printed_numbers_read d s sf h ok =
    let width = hex_width-fits 16 d (omega arith) (omega arith) in
    (
      iprintdec-read d s sf h ok,
      hex_digits-read (hex_width 16 d) 0 d width.1
          ∙ ap (λ m. m + d % 16 ^ hex_width 16 d) (zero-mul (16 ^ hex_width 16 d))
          ∙ zero-add (d % 16 ^ hex_width 16 d)
          ∙ mod-eq_of_lt width.0,
    )
