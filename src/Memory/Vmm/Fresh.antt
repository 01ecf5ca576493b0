-- ===== src/Memory/Vmm/Fresh.antt =====
-- The free pages of an allocator, and what a page that is taken leaves of them.
use xivix.Base.{
  ℕ, zero, suc, ◌+◌, ◌%◌, ◌≤◌, ◌<◌, ◌≡◌, refl, arith, Bool-cases, inl, inr, List, [], ◌∷◌, get_or,
  ltb, ◌==◌,
}
use xivix.Memory.{PageAllocator, Extent, extent_at, unset_extent}
use xivix.Memory.Cover.{cover, cover_sum, of_kind}
use xivix.Memory.Set.{owners}
use xivix.Memory.Allocate.Grant.{Granted}

-- The free pages of the `m` pages at `b`.
unfoldable pub free_in : ℕ → ℕ → PageAllocator → ℕ
free_in b zero s = 0
free_in b (suc m) s = owners 5 b s + free_in (b + 0x1000) m s

cover-free :
    (a : ℕ) (es : List Extent)
    → 0 < cover_sum (of_kind 5) a es
    → (i : ℕ) × ((get_or es i unset_extent).flags ≡ 5) × (1 ≤ (get_or es i unset_extent).length)
unfolding cover_sum cover
cover-free a [] h = absurd (omega (arith, h))
cover-free a (e ∷ es) h = elim (Bool-cases (ltb 0 (cover (of_kind 5) a e))) [
  | inl here ↦ (0, ground (arith, here), ground (arith, here))
  | inr later ↦
      let found = cover-free a es (ground (arith, h, later)) in (suc found.0, found.1, found.2)
]

-- Where a page is free there is an extent of free pages.
pub free_extent :
    (b m : ℕ) (s : PageAllocator)
    → 0 < free_in b m s
    → (i : ℕ) × ((extent_at s i).flags ≡ 5) × (1 ≤ (extent_at s i).length)
unfolding free_in owners
free_extent b zero s h = absurd (omega (arith, h))
free_extent b (suc m) s h = elim (Bool-cases (ltb 0 (owners 5 b s))) [
  | inl here ↦ cover-free b s.extents (ground (arith, here))
  | inr later ↦ free_extent (b + 0x1000) m s (ground (arith, h, later))
]

module _ (mm : ℕ) (s s' : PageAllocator) (taken : Granted 1 8 s mm s') where
  free_in-behind : (b m : ℕ) → mm + 0x1000 ≤ b → free_in b m s' ≡ free_in b m s
  unfolding free_in
  free_in-behind b zero h = refl
  free_in-behind b (suc m) h =
      ground (arith, taken.owned 5 b, free_in-behind (b + 0x1000) m (omega (arith, h)), h)

  -- One page is taken.
  pub free_in-taken : (b m : ℕ) → b % 0x1000 ≡ 0 → free_in b m s ≤ free_in b m s' + 1
  unfolding free_in
  free_in-taken b zero at = omega arith
  free_in-taken b (suc m) at = elim (Bool-cases (mm == b)) [
    | inl here ↦
        let behind : mm + 0x1000 ≤ b + 0x1000 = ground (arith, here) in
        let one : owners 5 b s ≡ 1 = taken.free b (ground (arith, here)) (ground (arith, here)) in
        omega (arith, one, free_in-behind (b + 0x1000) m behind)
    | inr other ↦
        let same : owners 5 b s' ≡ owners 5 b s =
          ground (arith, taken.owned 5 b, taken.place, at, other) in
        omega (arith, same, free_in-taken (b + 0x1000) m (omega (arith, at)))
  ]
