-- ===== src/Net/Pool/Enough.antt =====
-- In a pool with more packets than there are references, some packet is free.
use xivix.Base.{
  ℕ, zero, suc, ◌+◌, ◌≤◌, ◌<◌, ◌≡◌, refl, List, [], ◌∷◌, Option, none, some, get_or, length, arith,
  inl, inr, Option-cases, ◌==◌, ltb, if◌then◌else◌,
}
use xivix.Net.Pool.{Pool, first_free}
use xivix.Net.Pool.Counts.{count, is_to}
use xivix.Net.Pool.Exact.{Exact}

-- f 0 + … + f (n - 1)
unfoldable total : ℕ → (ℕ → ℕ) → ℕ
total zero f = 0
total (suc n) f = total n f + f n

total_mono : (n : ℕ) (f g : ℕ → ℕ) → ((p : ℕ) → p < n → f p ≤ g p) → total n f ≤ total n g
unfolding total
total_mono zero f g h = omega arith
total_mono (suc n) f g h =
    omega (arith, total_mono n f g (λ p k. h p (omega (arith, k))), h n (omega arith))

total-add : (n : ℕ) (f g : ℕ → ℕ) → total n (λ p. f p + g p) ≡ total n f + total n g
unfolding total
total-add zero f g = refl
total-add (suc n) f g = omega (arith, total-add n f g)

total-zero : (n : ℕ) → total n (λ p. 0) ≡ 0
unfolding total
total-zero zero = refl
total-zero (suc n) = omega (arith, total-zero n)

total-one : (n : ℕ) → total n (λ p. 1) ≡ n
unfolding total
total-one zero = refl
total-one (suc n) = omega (arith, total-one n)

total_at : (n q : ℕ) → total n (λ p. if p == q then 1 else 0) ≡ (if ltb q n then 1 else 0)
unfolding total
total_at zero q = ground arith
total_at (suc n) q = ground (arith, total_at n q)

total-is_to : (n : ℕ) (r : Option ℕ) → total n (λ p. is_to p r) ≤ 1
unfolding is_to total
total-is_to zero none = omega arith
total-is_to (suc n) none = omega (arith, total-is_to n none)
total-is_to n (some q) = ground (arith, total_at n q)

total-count : (n : ℕ) (rs : List (Option ℕ)) → total n (λ p. count p rs) ≤ length rs
unfolding count
total-count n [] = omega (arith, total-zero n)
total-count n (r ∷ rs) =
    omega (arith, total-add n (λ p. is_to p r) (λ p. count p rs), total-is_to n r, total-count n rs)

first_free-none :
    (cs : List ℕ) (i p : ℕ) → first_free cs i ≡ none → p < length cs → 1 ≤ get_or cs p 0
unfolding first_free
first_free-none [] i p h k = absurd (omega (arith, k))
first_free-none (c ∷ cs) i zero h k = ground (arith, h)
first_free-none (c ∷ cs) i (suc p) h k =
    let rest : first_free cs (i + 1) ≡ none = ground (arith, h) in
    first_free-none cs (i + 1) p rest (omega (arith, k))

-- Of `n` packets, with fewer references than that, `request_packet` finds one.
pub first_free-some :
    (rs ts l : List (Option ℕ)) (s : Pool)
    → length rs + length ts + length l < length s.ref_count
    → Exact rs ts l s
    → (p : ℕ) × (first_free s.ref_count 0 ≡ some p)
first_free-some rs ts l s room exact = elim (Option-cases (first_free s.ref_count 0)) [
  | inr found ↦ found
  | inl missing ↦
      let n = length s.ref_count in
      absurd (
        omega (
          arith,
          room,
          total-one n,
          total_mono n (λ p. 1) (λ p. count p rs + count p ts + count p l)
              (λ p k. omega (arith, exact p, first_free-none s.ref_count 0 p missing k)),
          total-add n (λ p. count p rs + count p ts) (λ p. count p l),
          total-add n (λ p. count p rs) (λ p. count p ts),
          total-count n rs,
          total-count n ts,
          total-count n l,
        ))
]
