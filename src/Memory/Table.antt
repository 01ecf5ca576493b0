-- ===== src/Memory/Table.antt =====
-- What holds of the extents of a table, and how many of its entries are empty.
use xivix.Base.{
  ℕ, zero, suc, ◌+◌, ◌%◌, ◌≤◌, ◌<◌, ◌≡◌, if◌then◌else◌, ◌==◌, List, [], ◌∷◌, some, length, get_or,
  set, arith, ◌≢◌, Bool-cases, inl, inr, Option-cases,
}
use xivix.Memory.{
  Extent, unset_extent, find_extent, next_empty_extent, check_empty, empty_or_invalid,
}
use xivix.Memory.Cover.{stop, cover_sum, in_use, find_extent-some, find_extent-none}

-- An extent lies in the first 4 GB, and starts at a page.
abbrev pub Fits : Extent → Type 0
Fits e = (e.base % 0x1000 ≡ 0) × (0 < e.length) × (stop e < 0x1_0000_0000)

abbrev pub IsExtent : Extent → Type 0
IsExtent e = (e.flags < 10) × (e.flags ≢ 0 → Fits e)

abbrev pub Extents : List Extent → Type 0
Extents es = (i : ℕ) → i < length es → IsExtent (get_or es i unset_extent)

-- Every page belongs to one extent at most.
abbrev pub Disjoint : List Extent → Type 0
Disjoint es = (a : ℕ) → cover_sum in_use a es ≤ 1

pub Extents-set :
    (es : List Extent) (i : ℕ) (e : Extent) → Extents es → IsExtent e → Extents (set es i e)
Extents-set [] i e all h j k = all j k
Extents-set (x ∷ es) zero e all h zero k = h
Extents-set (x ∷ es) zero e all h (suc j) k = all (suc j) k
Extents-set (x ∷ es) (suc i) e all h zero k = all zero (omega arith)
Extents-set (x ∷ es) (suc i) e all h (suc j) k =
    Extents-set es i e (λ n m. all (suc n) (omega arith)) h j (omega arith)

-- The number of empty entries.
unfoldable pub empties : List Extent → ℕ
empties [] = 0
empties (e ∷ es) = (if e.flags == 0 then 1 else 0) + empties es

pub empties-set :
    (es : List Extent) (i : ℕ) (e : Extent)
    → i < length es
    → empties es ≤ empties (set es i e) + (if (get_or es i unset_extent).flags == 0 then 1 else 0)
unfolding empties
empties-set [] i e h = absurd (omega arith)
empties-set (x ∷ es) zero e h = omega arith
empties-set (x ∷ es) (suc i) e h = omega (arith, empties-set es i e (omega arith))

empties-some :
    (es : List Extent)
    → 0 < empties es
    → (i : ℕ) × (i < length es) × ((get_or es i unset_extent).flags ≡ 0)
unfolding empties
empties-some [] h = absurd (omega arith)
empties-some (x ∷ es) h = elim (Bool-cases (x.flags == 0)) [
  | inl unset ↦ (0, omega arith, ground arith)
  | inr used ↦
      let found = empties-some es (ground arith) in (suc found.0, omega (arith, found.1), found.2)
]

-- With an empty entry in the table, `next_empty_extent` finds one.
pub next_empty_extent-some :
    (es : List Extent)
    → Extents es
    → 0 < empties es
    → (i : ℕ) × (next_empty_extent es ≡ some i)
      × (i < length es)
      × ((get_or es i unset_extent).flags ≡ 0)
unfolding next_empty_extent check_empty
next_empty_extent-some es all room = elim (Option-cases (find_extent empty_or_invalid es)) [
  | inl missed ↦
      let found = empties-some es room in
      absurd (ground (arith, find_extent-none empty_or_invalid es found.0 missed found.1, found.2))
  | inr (j, found) ↦
      let hit = find_extent-some empty_or_invalid es j found in
      let unset : (get_or es j unset_extent).flags ≡ 0 = ground (arith, hit.1, all j hit.0) in
      (j, rw found (ground (arith, unset)), hit.0, unset)
]
