-- ===== src/Net/Pool/Counts.antt =====
-- How often the references in a list are to a packet, and what the operations of the pool do to a count.
use xivix.Base.{
  ℕ, zero, suc, ◌+◌, ◌≤◌, ◌<◌, ◌≡◌, refl, List, [], ◌∷◌, Option, none, some, if◌then◌else◌, ◌==◌,
  get_or, set, length, length-set, get_or-set_self, get_or-set_ne, arith, Bool-cases, inl, inr,
}
use xivix.Base.Word.{u32, sub32}
use xivix.Net.Pool.{Pool, ref_at, addref, deref, take_ref, drop_ref, first_free}

-- 1 where the reference is to `p`.
unfoldable pub is_to : ℕ → Option ℕ → ℕ
is_to p none = 0
is_to p (some q) = if p == q then 1 else 0

unfoldable pub count : ℕ → List (Option ℕ) → ℕ
count p [] = 0
count p (r ∷ rs) = is_to p r + count p rs

pub is_to-le : (p : ℕ) (r : Option ℕ) → is_to p r ≤ 1
unfolding is_to
is_to-le p none = omega arith
is_to-le p (some q) = ground arith

pub is_to_self : (p : ℕ) → is_to p (some p) ≡ 1
unfolding is_to
is_to_self p = ground arith

-- A slot that is written: what was there is exchanged for what is new.
pub count-set :
    (p : ℕ) (rs : List (Option ℕ)) (i : ℕ) (v : Option ℕ)
    → i < length rs
    → count p (set rs i v) + is_to p (get_or rs i none) ≡ count p rs + is_to p v
unfolding count
count-set p [] i v h = absurd (omega arith)
count-set p (r ∷ rs) zero v h = omega arith
count-set p (r ∷ rs) (suc i) v h = omega (arith, count-set p rs i v (omega arith))

pub count-slot : (p : ℕ) (rs : List (Option ℕ)) (i : ℕ) → is_to p (get_or rs i none) ≤ count p rs
unfolding count is_to
count-slot p [] i = omega arith
count-slot p (r ∷ rs) zero = omega arith
count-slot p (r ∷ rs) (suc i) = omega (arith, count-slot p rs i)

pub count-le : (p : ℕ) (rs : List (Option ℕ)) → count p rs ≤ length rs
unfolding count
count-le p [] = omega arith
count-le p (r ∷ rs) = omega (arith, is_to-le p r, count-le p rs)

-- The reference is null or to a packet of the pool.
unfoldable pub In : Option ℕ → Pool → Type 0
In none s = 0 ≤ 0
In (some p) s = p < length s.ref_count

get_or-set :
    (xs : List ℕ) (i j v : ℕ)
    → i < length xs
    → get_or (set xs i v) j 0 ≡ (if j == i then v else get_or xs j 0)
get_or-set xs i j v h = elim (Bool-cases (j == i)) [
  | inl same ↦ let e : j ≡ i = ground (arith, same) in rw same (rw e (get_or-set_self xs i v 0 h))
  | inr other ↦ rw other (get_or-set_ne xs i j v 0 (λ e. absurd (ground (arith, other, e))))
]

pub take_ref-at :
    (r : Option ℕ) (s : Pool) (p : ℕ)
    → In r s
    → ref_at s p + 1 < 0x1_0000_0000
    → ref_at (take_ref r s) p ≡ ref_at s p + is_to p r
unfolding take_ref addref is_to In
take_ref-at none s p h b = omega arith
take_ref-at (some q) s p h b = elim (Bool-cases (p == q)) [
  | inl same ↦
      let e : p ≡ q = ground (arith, same) in
      rw (get_or-set s.ref_count q p (u32 (ref_at s q + 1)) h, same, ← e) (omega (arith, b))
  | inr other ↦ rw (get_or-set s.ref_count q p (u32 (ref_at s q + 1)) h, other) (omega arith)
]

pub drop_ref-at :
    (r : Option ℕ) (s : Pool) (p : ℕ)
    → In r s
    → is_to p r ≤ ref_at s p
    → ref_at s p < 0x1_0000_0000
    → ref_at (drop_ref r s) p + is_to p r ≡ ref_at s p
unfolding drop_ref deref is_to In
drop_ref-at none s p h k b = omega arith
drop_ref-at (some q) s p h k b = elim (Bool-cases (p == q)) [
  | inl same ↦
      let e : p ≡ q = ground (arith, same) in
      let one : 1 ≤ ref_at s p = ground (arith, same, k) in
      rw (get_or-set s.ref_count q p (sub32 (ref_at s q) 1) h, same, ← e) (omega (arith, b, one))
  | inr other ↦ rw (get_or-set s.ref_count q p (sub32 (ref_at s q) 1) h, other) (omega arith)
]

pub length-take_ref :
    (r : Option ℕ) (s : Pool) → length (take_ref r s).ref_count ≡ length s.ref_count
unfolding take_ref addref
length-take_ref none s = refl
length-take_ref (some q) s = length-set s.ref_count q (u32 (ref_at s q + 1))

pub length-drop_ref :
    (r : Option ℕ) (s : Pool) → length (drop_ref r s).ref_count ≡ length s.ref_count
unfolding drop_ref deref
length-drop_ref none s = refl
length-drop_ref (some q) s = length-set s.ref_count q (sub32 (ref_at s q) 1)

first_free_from :
    (cs : List ℕ) (i p : ℕ)
    → first_free cs i ≡ some p
    → (j : ℕ) × (p ≡ i + j) × (j < length cs) × (get_or cs j 0 ≡ 0)
unfolding first_free
first_free_from [] i p h = absurd (cc)
first_free_from (c ∷ cs) i p h = elim (Bool-cases (c == 0)) [
  | inl unused ↦ (0, ground (arith, h, unused), omega arith, ground (arith, unused))
  | inr counted ↦
      let rest : first_free cs (i + 1) ≡ some p = ground (arith, h, counted) in
      let (j, e, k, z) = first_free_from cs (i + 1) p rest in
      (suc j, omega (arith, e), omega (arith, k), z)
]

-- The packet that is found is one of the pool, and nothing refers to it.
pub first_free_lem :
    (cs : List ℕ) (p : ℕ) → first_free cs 0 ≡ some p → (p < length cs) × (get_or cs p 0 ≡ 0)
first_free_lem cs p h =
    let (j, e, k, z) = first_free_from cs 0 p h in
    let here : p ≡ j = omega (arith, e) in (omega (arith, e, k), rw here z)
