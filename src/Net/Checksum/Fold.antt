-- ===== src/Net/Checksum/Fold.antt =====
-- kernel/net/queue.cpp, `ipchksum`: the fold to 16 bits.
use xivix.Base.{
  ℕ, zero, suc, ◌+◌, ◌-◌, ◌*◌, ◌/◌, ◌%◌, ◌^◌, ◌≤◌, ◌<◌, ◌≡◌, refl, arith, bit_and, if◌then◌else◌,
  ◌==◌, ◌∙◌, Bool-cases, ltb, ltb→lt, ltb→le, sym, inl, inr,
}
use xivix.Base.Bits.{bit_and_mask, bit_and_split, bit_and-zero}
use xivix.Net.Checksum.{fold_once, fold}

-- The sum of 16-bit words with the carry added at the low end: 0 only for 0.
unfoldable pub ones_sum : ℕ → ℕ
ones_sum v = if v == 0 then 0 else (v - 1) % 0xffff + 1

high_mask : (v : ℕ) → v < 2 ^ 32 → bit_and v 0xffff0000 ≡ v / 0x10000 * 0x10000
high_mask v h =
    let parts : v / 0x10000 * 2 ^ 16 + v % 0x10000 ≡ v = omega arith in
    let masked : bit_and v (0xffff * 2 ^ 16 + 0)
        ≡ bit_and (v / 0x10000) 0xffff * 2 ^ 16 + bit_and (v % 0x10000) 0 =
      rw parts at
        (bit_and_split 16 (v / 0x10000) (v % 0x10000) 0xffff 0 (omega arith) (omega arith)) in
    omega (arith, masked, bit_and-zero (v % 0x10000), bit_and_mask 16 (v / 0x10000))

fold_once_lem : (v : ℕ) → v < 2 ^ 32 → fold_once v ≡ v % 0x10000 + v / 0x10000
unfolding fold_once
fold_once_lem v h = omega (arith, bit_and_mask 16 v)

pub ones_sum-fold_once : (v : ℕ) → v < 2 ^ 32 → ones_sum (fold_once v) ≡ ones_sum v
unfolding ones_sum
ones_sum-fold_once v h = ground (arith, fold_once_lem v h)

fold_small : (f v : ℕ) → v < 0x10000 → fold f v ≡ v
unfolding fold
fold_small zero v h = refl
fold_small (suc f) v h = ground (arith, high_mask v (omega arith))

fold_more : (f v : ℕ) → 0x10000 ≤ v → v < 2 ^ 32 → fold (suc f) v ≡ fold f (fold_once v)
unfolding fold
fold_more f v h k = ground (arith, high_mask v k)

ones_sum_small : (v : ℕ) → v < 0x10000 → ones_sum v ≡ v
unfolding ones_sum
ones_sum_small v h = ground arith

pub ones_sum-lt : (v : ℕ) → ones_sum v < 0x10000
unfolding ones_sum
ones_sum-lt v = ground arith

fold_by :
    (f v : ℕ)
    → v < 2 ^ 32
    → (0x10000 ≤ v → fold f (fold_once v) ≡ ones_sum (fold_once v))
    → fold (suc f) v ≡ ones_sum v
fold_by f v h next = elim (Bool-cases (ltb v 0x10000)) [
  | inl small ↦
      fold_small (suc f) v (ltb→lt v 0x10000 small)
      ∙ sym (ones_sum_small v (ltb→lt v 0x10000 small))
  | inr large ↦
      let le = ltb→le v 0x10000 large in fold_more f v le h ∙ next le ∙ ones_sum-fold_once v h
]

-- The loop stops by its test after at most two passes from a 32-bit number.
pub fold_lem : (v : ℕ) → v < 2 ^ 32 → fold 3 v ≡ ones_sum v
fold_lem v h =
    let v1 = fold_once v in
    let v2 = fold_once v1 in
    fold_by 2 v h λ le. fold_by 1 v1 (omega (arith, fold_once_lem v h)) λ le1.
      let small : v2 < 0x10000 = omega (arith, fold_once_lem v h, fold_once_lem v1) in
      fold_small 1 v2 small ∙ sym (ones_sum_small v2 small)
