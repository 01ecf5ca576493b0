-- ===== src/Net/Pool/Exact.antt =====
-- The count of each packet is the number of references to it: what copies, ends and writes to slots keep.
use xivix.Base.{
  ℕ, zero, suc, ◌+◌, ◌≤◌, ◌<◌, ◌≡◌, List, [], ◌∷◌, Option, none, some, get_or, set, length, arith,
  ◌∙◌,
}
use xivix.Net.Pool.{Pool, ref_at, take_ref, drop_ref, reset}
use xivix.Net.Pool.Counts.{
  count, is_to, is_to-le, count-set, count-slot, count-le, In, take_ref-at, drop_ref-at,
  length-take_ref,
}

-- The references are those of two lists of slots and a list of others.
abbrev pub Exact : List (Option ℕ) → List (Option ℕ) → List (Option ℕ) → Pool → Type 0
Exact rs ts l s = (p : ℕ) → ref_at s p ≡ count p rs + count p ts + count p l

-- So few references that no count wraps.
abbrev pub Few : List (Option ℕ) → List (Option ℕ) → List (Option ℕ) → Type 0
Few rs ts l = length rs + length ts + length l + 2 < 0x1_0000_0000

pub ref_at-past : (s : Pool) (p : ℕ) → 1 ≤ ref_at s p → p < length s.ref_count
ref_at-past s p h = past s.ref_count p h
  where
    past : (xs : List ℕ) (i : ℕ) → 1 ≤ get_or xs i 0 → i < length xs
    past [] i h = absurd (omega (arith, h))
    past (x ∷ xs) zero h = omega arith
    past (x ∷ xs) (suc i) h = omega (arith, past xs i h)

module _ (rs ts l : List (Option ℕ)) (s : Pool) (few : Few rs ts l) (exact : Exact rs ts l s) where
  ref_at_bound : (p : ℕ) → ref_at s p + 2 < 0x1_0000_0000
  ref_at_bound p = omega (arith, few, exact p, count-le p rs, count-le p ts, count-le p l)

  -- What is counted is in the pool.
  pub counted-In : (r : Option ℕ) → ((p : ℕ) → is_to p r ≤ ref_at s p) → In r s
  unfolding In is_to
  counted-In none h = omega arith
  counted-In (some q) h = ref_at-past s q (ground (arith, h q))

  pub slot-In : (i : ℕ) → In (get_or rs i none) s
  slot-In i = counted-In (get_or rs i none) (λ p. omega (arith, exact p, count-slot p rs i))

  -- A copy of a reference is one more of the others.
  pub take_ref-Exact : (r : Option ℕ) → In r s → Exact rs ts (r ∷ l) (take_ref r s)
  unfolding count
  take_ref-Exact r h p =
      take_ref-at r s p h (omega (arith, ref_at_bound p)) ∙ omega (arith, exact p)

-- The first of the others ends.
pub drop_ref-Exact :
    (rs ts l : List (Option ℕ)) (r : Option ℕ) (s : Pool)
    → Few rs ts (r ∷ l)
    → Exact rs ts (r ∷ l) s
    → Exact rs ts l (drop_ref r s)
unfolding count
drop_ref-Exact rs ts l r s few exact p =
    let below : is_to p r ≤ ref_at s p = omega (arith, exact p) in
    let inside = counted-In rs ts (r ∷ l) s few exact r (λ q. omega (arith, exact q)) in
    omega (
      arith,
      exact p,
      drop_ref-at r s p inside below
          (omega (arith, few, exact p, is_to-le p r, count-le p rs, count-le p ts, count-le p l)),
    )

In-take_ref : (r v : Option ℕ) (s : Pool) → In r s → In r (take_ref v s)
unfolding In
In-take_ref none v s h = h
In-take_ref (some q) v s h = omega (arith, h, length-take_ref v s)

-- `Ref::reset` of a slot.
pub reset-Exact :
    (rs ts l : List (Option ℕ)) (i : ℕ) (v : Option ℕ) (s : Pool)
    → Few rs ts l
    → i < length rs
    → In v s
    → Exact rs ts l s
    → Exact (set rs i v) ts l (reset (get_or rs i none) v s)
unfolding reset count
reset-Exact rs ts l i v s few h inside exact p =
    let old = get_or rs i none in
    let taken = take_ref-Exact rs ts l s few exact v inside in
    let old_in = In-take_ref old v s (slot-In rs ts l s few exact i) in
    let below : is_to p old ≤ ref_at (take_ref v s) p = omega (arith, taken p, count-slot p rs i) in
    let bound : ref_at (take_ref v s) p < 0x1_0000_0000 =
      omega (arith, few, taken p, is_to-le p v, count-le p rs, count-le p ts, count-le p l) in
    omega
      (arith, taken p, drop_ref-at old (take_ref v s) p old_in below bound, count-set p rs i v h)
