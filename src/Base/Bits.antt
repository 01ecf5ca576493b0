-- ===== src/Base/Bits.antt =====
-- The bitwise operations at variables: digit by digit, and field by field.
use Prim.Native.Nat.{
  ℕ, zero, suc, ◌+◌, ◌-◌, ◌*◌, ◌/◌, ◌%◌, ◌^◌, ◌≤◌, ◌<◌, min, max, differ, bit_and, bit_or, bit_xor,
  digits, bitwise, bit_and-bitwise, bit_or-bitwise, bit_xor-bitwise,
}
use mathlib.Core.Path.{◌≡◌, refl, sym, ap, ap₂, ◌≡⟨◌⟩◌, ◌∎}
use native.Mathlib.Nat.{pow-suc, one-le-pow, div-add-mod', mod-lt}
use native.Mathlib.Omega.{arith}

module _ (rest : ℕ → ℕ) (f : ℕ → ℕ → ℕ) where
  -- More fuel than the first number changes nothing.
  digits-enough : (m n a b : ℕ) → a ≤ m → a ≤ n → digits rest f m a b ≡ digits rest f n a b
  digits-enough zero zero a b h k = refl
  digits-enough zero (suc n) zero b h k = refl
  digits-enough zero (suc n) (suc a) b h k = absurd (omega arith)
  digits-enough (suc m) zero zero b h k = refl
  digits-enough (suc m) zero (suc a) b h k = absurd (omega arith)
  digits-enough (suc m) (suc n) zero b h k = refl
  digits-enough (suc m) (suc n) (suc a) b h k =
      rw (digits-enough m n (suc a / 2) (b / 2) (omega arith) (omega arith))

  bitwise_unfold :
      (a b : ℕ)
      → bitwise rest f (suc a) b ≡ bitwise rest f (suc a / 2) (b / 2) * 2 + f (suc a % 2) (b % 2)
  bitwise_unfold a b =
      omega (arith, digits-enough a (suc a / 2) (suc a / 2) (b / 2) (omega arith) (omega arith))

pub bit_and_halves : (a b : ℕ) → bit_and a b ≡ bit_and (a / 2) (b / 2) * 2 + min (a % 2) (b % 2)
bit_and_halves zero b = simp bit_and-bitwise (omega arith)
bit_and_halves (suc a) b = simp bit_and-bitwise (bitwise_unfold (λ y. 0) min a b)

pub bit_or_halves : (a b : ℕ) → bit_or a b ≡ bit_or (a / 2) (b / 2) * 2 + max (a % 2) (b % 2)
bit_or_halves zero b = simp bit_or-bitwise (omega arith)
bit_or_halves (suc a) b = simp bit_or-bitwise (bitwise_unfold (λ y. y) max a b)

pub bit_xor_halves : (a b : ℕ) → bit_xor a b ≡ bit_xor (a / 2) (b / 2) * 2 + differ (a % 2) (b % 2)
bit_xor_halves zero b = simp bit_xor-bitwise (omega arith)
bit_xor_halves (suc a) b = simp bit_xor-bitwise (bitwise_unfold (λ y. y) differ a b)

double-pow : (q k : ℕ) → q * 2 ^ suc k ≡ 2 * (q * 2 ^ k)
double-pow q k = omega (arith, ap (λ (t : ℕ). q * t) (pow-suc 2 k))

-- An operation on digits works on the parts above and below any place separately.
module _ (op f : ℕ → ℕ → ℕ)
    (halves : (a b : ℕ) → op a b ≡ op (a / 2) (b / 2) * 2 + f (a % 2) (b % 2))
    (none : op 0 0 ≡ 0) where
  pub op_split :
      (k a b c d : ℕ)
      → b < 2 ^ k
      → d < 2 ^ k
      → op (a * 2 ^ k + b) (c * 2 ^ k + d) ≡ op a c * 2 ^ k + op b d
  op_split zero zero zero zero zero hb hd = omega (arith, none)
  op_split zero a b c d hb hd =
      let b0 : b ≡ 0 = omega arith in
      let d0 : d ≡ 0 = omega arith in
      let ea : a * 2 ^ 0 + 0 ≡ a = omega arith in
      let ec : c * 2 ^ 0 + 0 ≡ c = omega arith in rw (b0, d0, ea, ec) (omega (arith, none))
  op_split (suc k) a b c d hb hd =
      let ha : (a * 2 ^ suc k + b) / 2 ≡ a * 2 ^ k + b / 2 = omega (arith, double-pow a k) in
      let hc : (c * 2 ^ suc k + d) / 2 ≡ c * 2 ^ k + d / 2 = omega (arith, double-pow c k) in
      let la : (a * 2 ^ suc k + b) % 2 ≡ b % 2 = omega (arith, double-pow a k) in
      let lc : (c * 2 ^ suc k + d) % 2 ≡ d % 2 = omega (arith, double-pow c k) in
      rw (halves (a * 2 ^ suc k + b) (c * 2 ^ suc k + d), ha, hc, la, lc)
        (omega (
          arith,
          op_split k a (b / 2) c (d / 2) (omega (arith, pow-suc 2 k)) (omega (arith, pow-suc 2 k)),
          halves b d,
          double-pow (op a c) k,
        ))

pub bit_and-zero : (a : ℕ) → bit_and a 0 ≡ 0
bit_and-zero a = below (suc a) a (omega arith)
  where
    below : (n a : ℕ) → a < n → bit_and a 0 ≡ 0
    below zero a h = absurd (omega arith)
    below (suc n) zero h = refl
    below (suc n) (suc a) h =
        omega (arith, bit_and_halves (suc a) 0, below n (suc a / 2) (omega arith))

pub bit_or-zero : (a : ℕ) → bit_or a 0 ≡ a
bit_or-zero a = below (suc a) a (omega arith)
  where
    below : (n a : ℕ) → a < n → bit_or a 0 ≡ a
    below zero a h = absurd (omega arith)
    below (suc n) zero h = refl
    below (suc n) (suc a) h =
        omega (arith, bit_or_halves (suc a) 0, below n (suc a / 2) (omega arith))

pub bit_xor-zero : (a : ℕ) → bit_xor a 0 ≡ a
bit_xor-zero a = below (suc a) a (omega arith)
  where
    differ-zero : (d : ℕ) → differ d 0 ≡ d
    differ-zero zero = refl
    differ-zero (suc d) = refl

    below : (n a : ℕ) → a < n → bit_xor a 0 ≡ a
    below zero a h = absurd (omega arith)
    below (suc n) zero h = refl
    below (suc n) (suc a) h = omega (
      arith,
      bit_xor_halves (suc a) 0,
      differ-zero (suc a % 2),
      below n (suc a / 2) (omega arith),
    )

pub zero-bit_or : (b : ℕ) → bit_or 0 b ≡ b
zero-bit_or b = bit_or-bitwise 0 b

pub zero-bit_and : (b : ℕ) → bit_and 0 b ≡ 0
zero-bit_and b = bit_and-bitwise 0 b

pub bit_and_split :
    (k a b c d : ℕ)
    → b < 2 ^ k
    → d < 2 ^ k
    → bit_and (a * 2 ^ k + b) (c * 2 ^ k + d) ≡ bit_and a c * 2 ^ k + bit_and b d
bit_and_split = op_split bit_and min bit_and_halves refl

pub bit_or_split :
    (k a b c d : ℕ)
    → b < 2 ^ k
    → d < 2 ^ k
    → bit_or (a * 2 ^ k + b) (c * 2 ^ k + d) ≡ bit_or a c * 2 ^ k + bit_or b d
bit_or_split = op_split bit_or max bit_or_halves refl

-- `(q << k) | r` is a sum when `r` has at most `k` digits.
pub bit_or_sum : (k q r : ℕ) → r < 2 ^ k → bit_or (q * 2 ^ k) r ≡ q * 2 ^ k + r
bit_or_sum k q r h =
    let pos : 0 < 2 ^ k = one-le-pow k 2 (omega arith) in
    let e : q * 2 ^ k ≡ q * 2 ^ k + 0 = omega arith in
    let d : r ≡ 0 * 2 ^ k + r = omega arith in
    bit_or (q * 2 ^ k) r
    ≡⟨ ap₂ bit_or e d ⟩ bit_or (q * 2 ^ k + 0) (0 * 2 ^ k + r)
    ≡⟨ bit_or_split k q 0 0 r pos h ⟩ bit_or q 0 * 2 ^ k + bit_or 0 r
    ≡⟨ (rw (bit_or-zero, zero-bit_or)) ⟩ q * 2 ^ k + r ∎

bit_and_ones : (k r : ℕ) → r < 2 ^ k → bit_and r (2 ^ k - 1) ≡ r
bit_and_ones zero r h = let r0 : r ≡ 0 = omega arith in rw r0
bit_and_ones (suc k) r h =
    let half : (2 ^ suc k - 1) / 2 ≡ 2 ^ k - 1 = omega (arith, pow-suc 2 k, one-le-pow k 2) in
    let low : (2 ^ suc k - 1) % 2 ≡ 1 = omega (arith, pow-suc 2 k, one-le-pow k 2) in
    rw (bit_and_halves r (2 ^ suc k - 1), half, low)
      (omega (arith, bit_and_ones k (r / 2) (omega (arith, pow-suc 2 k))))

-- A mask of the `k` lowest digits is the remainder by `2 ^ k`.
pub bit_and_mask : (k x : ℕ) → bit_and x (2 ^ k - 1) ≡ x % 2 ^ k
bit_and_mask k x = ground (
  arith,
  one-le-pow k 2,
  bit_and_split k (x / 2 ^ k) (x % 2 ^ k) 0 (2 ^ k - 1),
  bit_and-zero (x / 2 ^ k),
  bit_and_ones k (x % 2 ^ k),
)

-- The digit of `a` at place `j`.
abbrev pub digit : ℕ → ℕ → ℕ
digit zero a = a % 2
digit (suc j) a = digit j (a / 2)

module _ (op f : ℕ → ℕ → ℕ)
    (halves : (a b : ℕ) → op a b ≡ op (a / 2) (b / 2) * 2 + f (a % 2) (b % 2))
    (small : (x y : ℕ) → x < 2 → y < 2 → f x y < 2) where
  digit-op : (j a b : ℕ) → digit j (op a b) ≡ f (digit j a) (digit j b)
  digit-op zero a b = omega (arith, halves a b, small (a % 2) (b % 2) (omega arith) (omega arith))
  digit-op (suc j) a b =
      let half : op a b / 2 ≡ op (a / 2) (b / 2) =
        omega (arith, halves a b, small (a % 2) (b % 2) (omega arith) (omega arith)) in
      rw half (digit-op j (a / 2) (b / 2))

pub differ-lt : (x y : ℕ) → x < 2 → y < 2 → differ x y < 2
differ-lt zero y h k = k
differ-lt (suc zero) zero h k = omega arith
differ-lt (suc zero) (suc zero) h k = omega arith
differ-lt (suc zero) (suc (suc y)) h k = absurd (omega arith)
differ-lt (suc (suc x)) y h k = absurd (omega arith)

pub digit-bit_and : (j a b : ℕ) → digit j (bit_and a b) ≡ min (digit j a) (digit j b)
digit-bit_and = digit-op bit_and min bit_and_halves (λ x y h k. omega arith)

pub digit-bit_or : (j a b : ℕ) → digit j (bit_or a b) ≡ max (digit j a) (digit j b)
digit-bit_or = digit-op bit_or max bit_or_halves (λ x y h k. omega arith)

pub digit-bit_xor : (j a b : ℕ) → digit j (bit_xor a b) ≡ differ (digit j a) (digit j b)
digit-bit_xor = digit-op bit_xor differ bit_xor_halves differ-lt

pub digit-lt : (j a : ℕ) → digit j a < 2
digit-lt zero a = omega arith
digit-lt (suc j) a = digit-lt j (a / 2)

-- `word & (1 << k)` keeps the one digit.
pub bit_and_place : (k x : ℕ) → bit_and x (2 ^ k) ≡ x / 2 ^ k % 2 * 2 ^ k
bit_and_place k x =
    let pos : 0 < 2 ^ k = one-le-pow k 2 (omega arith) in
    let e : 1 * 2 ^ k + 0 ≡ 2 ^ k = omega arith in
    let d : x / 2 ^ k * 2 ^ k + x % 2 ^ k ≡ x = div-add-mod' x (2 ^ k) in
    bit_and x (2 ^ k)
    ≡⟨ ap₂ bit_and (sym d) (sym e) ⟩ bit_and (x / 2 ^ k * 2 ^ k + x % 2 ^ k) (1 * 2 ^ k + 0)
    ≡⟨ bit_and_split k (x / 2 ^ k) (x % 2 ^ k) 1 0 (mod-lt x pos) pos ⟩
      bit_and (x / 2 ^ k) 1 * 2 ^ k + bit_and (x % 2 ^ k) 0
    ≡⟨ rw (bit_and-zero, bit_and_mask 1 (x / 2 ^ k)) (omega arith) ⟩ x / 2 ^ k % 2 * 2 ^ k ∎
