-- ===== src/Memory/Allocate/Grant.antt =====
-- What `allocate` gives where a free extent is long enough.
use xivix.Base.{
  ℕ, ◌+◌, ◌*◌, ◌%◌, ◌≤◌, ◌<◌, ◌≡◌, refl, ap, true, false, ◌==◌, some, leb, length, arith, ◌≢◌,
  Bool-cases, Option-cases, inl, inr, ◌∙◌,
}
use xivix.Memory.{PageAllocator, extent_at, set_extent, find_free_extent, find_type_extent}
use xivix.Memory.Cover.{
  cover, of_kind, cover_sum-only, find_extent-some, find_extent-none, used_inside,
}
use xivix.Memory.Table.{Fits, IsExtent, empties}
use xivix.Memory.Replace.{Holds, over}
use xivix.Memory.Set.{IsTable, owners, set_extent-owners, set_extent-IsTable, set_extent-Placed}
use xivix.Memory.Allocate.{Part, Request, take_free, serves, within, allocate_free, allocate}

-- The `l` pages at `mm` were free and are of the kind `f`, and no other page changed its owner. The table uses at most
-- two more entries.
pub record Granted (l f : ℕ) (s : PageAllocator) (mm : ℕ) (s' : PageAllocator) : Type 0 where
  pub free : (a : ℕ) → mm ≤ a → a < mm + l * 0x1000 → owners 5 a s ≡ 1
  pub owned : (g a : ℕ) → owners g a s' ≡ over mm l a (of_kind g f) (owners g a s)
  pub table : IsTable s'
  pub left : empties s.extents ≤ empties s'.extents + 2
  pub place : (mm % 0x1000 ≡ 0) × (mm + l * 0x1000 < 0x1_0000_0000)

module _ (l f : ℕ) (s : PageAllocator) (table : IsTable s) (room : 1 < empties s.extents)
    (pos : 0 < l) (kind : f ≢ 0) (known : f < 10) where
  -- The entry `i` is a free extent of `l` pages or more.
  abbrev Serves : ℕ → Type 0
  Serves i = ((extent_at s i).flags ≡ 5) × (l ≤ (extent_at s i).length)

  module _ (i : ℕ) (ok : Serves i) where
    inside : i < length s.extents
    inside = used_inside s.extents i (ground (arith, ok))

    fits : Fits (extent_at s i)
    fits = (table.valid i inside).1 (ground (arith, ok))

    holds : Holds (extent_at s i).base l (extent_at s i)
    holds = (ground (arith, ok), omega arith, ground (arith, ok))

    set_extent-Granted : Granted l f s (extent_at s i).base (set_extent (extent_at s i).base l f s)
    unfolding owners cover
    set_extent-Granted =
        let mm = (extent_at s i).base in
        let new : IsExtent (record { flags = f; base = mm; length = l }) =
          ground (arith, fits, ok, known) in
        record {
          free = λ a h k.
              cover_sum-only (of_kind 5) a s.extents i refl (table.disjoint a) inside
                (ground (arith, ok))
              ∙ ground (arith, ok);
          owned = λ g a. set_extent-owners mm l f g a s table room new kind (inl (i, holds));
          table = set_extent-IsTable mm l f s table room new kind (inl (i, holds));
          left =
              (set_extent-Placed mm l f s table.valid table.disjoint new kind room
                (inl (i, holds))).left;
          place = ground (arith, fits, ok);
        }

    found_free : (j : ℕ) × (find_type_extent l 5 s.extents ≡ some j) × Serves j
    unfolding find_type_extent
    found_free = elim (Option-cases (find_type_extent l 5 s.extents)) [
      | inl missed ↦ absurd (ground (arith, ok, find_extent-none _ s.extents i missed inside))
      | inr (j, found) ↦
          let hit = find_extent-some _ s.extents j found in
          (j, found, (ground (arith, hit.1), ground (arith, hit.1)))
    ]

-- `take_free` from a free extent that is long enough, where `ifree` may have been another one.
module _ (l f : ℕ) (s : PageAllocator) (table : IsTable s) (room : 1 < empties s.extents)
    (pos : 0 < l) (kind : f ≢ 0) (known : f < 10) where
  take_free-Granted :
      (j : ℕ)
      → Serves l f s table room pos kind known j
      → let r = take_free l f (record s { ifree = j }) in Granted l f s r.0 r.1
  unfolding take_free owners
  take_free-Granted j ok =
      let s' : PageAllocator = record s { ifree = j } in
      let table' : IsTable s' = record {
        size = table.size;
        valid = table.valid;
        disjoint = table.disjoint;
      } in
      let g = set_extent-Granted l f s' table' room pos kind known j ok in
      record { free = g.free; owned = g.owned; table = g.table; left = g.left; place = g.place }

  module _ (i : ℕ) (ok : Serves l f s table room pos kind known i) where
    found_lem :
        (j : ℕ) × (find_free_extent l s ≡ record s { ifree = j })
        × Serves l f s table room pos kind known j
    unfolding find_free_extent
    found_lem =
        let found = found_free l f s table room pos kind known i ok in
        (found.0, rw found.1 refl, found.2)

-- What `allocate` gives where it does not ask for more memory.
pub record Served {S : Type 0} (p : Part S) (l f : ℕ) (s : S) (r : ℕ × S) : Type 0 where
  pub mm : ℕ
  pub after : PageAllocator
  pub result : r ≡ (mm, p.put after s)
  pub granted : Granted l f (p.get s) mm after

module _ {S : Type 0} (p : Part S) (l f : ℕ) (s : S) (table : IsTable (p.get s))
    (room : 1 < empties (p.get s).extents) (pos : 0 < l) (kind : f ≢ 0) (known : f < 10)
    (request : Request S) (i : ℕ) (ok : Serves l f (p.get s) table room pos kind known i) where
  taken-Served :
      (j : ℕ) (r : ℕ × S)
      → Serves l f (p.get s) table room pos kind known j
      → r ≡ within p s (take_free l f (record (p.get s) { ifree = j }))
      → Served p l f s r
  taken-Served j r ok_j e =
      let t = take_free l f (record (p.get s) { ifree = j }) in
      record {
        mm = t.0;
        after = t.1;
        result = e;
        granted = take_free-Granted l f (p.get s) table room pos kind known j ok_j;
      }

  again : (a : PageAllocator) (t : ℕ × PageAllocator) → within p (p.put a s) t ≡ within p s t
  again a t = ap (λ x. (t.0, x)) (p.put_put t.1 a s)

  -- `allocate_free` from the table with another `ifree`, where that is of free memory.
  allocate_free-Served :
      (k : ℕ)
      → (extent_at (p.get s) k).flags ≡ 5
      → Served p l f s (allocate_free p request l f (p.put (record (p.get s) { ifree = k }) s))
  unfolding allocate_free find_free_extent
  allocate_free-Served k free =
      let a : PageAllocator = record (p.get s) { ifree = k } in
      elim (Bool-cases (leb l (extent_at (p.get s) k).length)) [
        | inl long ↦
            taken-Served k (allocate_free p request l f (p.put a s)) (free, ground (arith, long))
              (rw (p.get_put a s, long) (again a (take_free l f a)))
        | inr short ↦
            let found = found_free l f (p.get s) table room pos kind known i ok in
            let b : PageAllocator = record (p.get s) { ifree = found.0 } in
            let serves_b : serves l b ≡ true = ground (arith, found.2) in
            taken-Served found.0 (allocate_free p request l f (p.put a s)) found.2
              (rw (p.get_put a s, short, found.1, serves_b) (again a (take_free l f b)))
      ]

  ready-Served :
      ((extent_at (p.get s) (p.get s).ifree).flags == 5) ≡ true
      → Served p l f s (allocate p request l f s)
  unfolding allocate
  ready-Served ready =
      rw (ready, ready) (allocate_free-Served (p.get s).ifree (ground (arith, ready)))

  stale-Served :
      ((extent_at (p.get s) (p.get s).ifree).flags == 5) ≡ false
      → Served p l f s (allocate p request l f s)
  unfolding allocate
  stale-Served stale =
      let (j, found, ok_j) = found_lem l f (p.get s) table room pos kind known i ok in
      let free_j : ((extent_at (p.get s) j).flags == 5) ≡ true = ground (arith, ok_j) in
      rw (stale, found, free_j) (allocate_free-Served j (ground (arith, ok_j)))

-- Where some free extent has `l` pages or more, `allocate` gives `l` pages that were free, for the use
-- `f` alone, changes the owner of no other page, leaves a table without overlaps with at most two more entries in
-- use, and changes nothing of the state around the table. The table is one of extents below 4 GB without overlaps
-- and with two empty entries, `l` is not 0, and `f` is a kind. The memory that it could ask for does not matter.
pub allocate-Granted :
    {S : Type 0} (p : Part S) (l f : ℕ) (s : S) (request : Request S) (i : ℕ)
    → IsTable (p.get s)
    → 1 < empties (p.get s).extents
    → 0 < l
    → f ≢ 0
    → f < 10
    → (extent_at (p.get s) i).flags ≡ 5
    → l ≤ (extent_at (p.get s) i).length
    → Served p l f s (allocate p request l f s)
allocate-Granted p l f s request i table room pos kind known free long =
    elim (Bool-cases ((extent_at (p.get s) (p.get s).ifree).flags == 5)) [
      | inl ready ↦ ready-Served p l f s table room pos kind known request i (free, long) ready
      | inr stale ↦ stale-Served p l f s table room pos kind known request i (free, long) stale
    ]
