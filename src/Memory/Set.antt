-- ===== src/Memory/Set.antt =====
-- `set_extent` gives pages a new use, and changes nothing else about any page.
use xivix.Base.{
  ℕ, ◌+◌, ◌*◌, ◌≤◌, ◌<◌, ◌≡◌, refl, ◌==◌, Option, none, some, length, arith, ◌≢◌, ◌⊎◌, Bool-cases,
  Option-cases, inl, inr, sym, ap, ◌∙◌, subst,
}
use xivix.Memory.{
  PageAllocator, extent_at, max_ext, set_extent, place_extent, refresh_free, find_free_extent,
  intersect_extent, previous, set_start, joins, add_extent,
}
use xivix.Memory.Trie.{set_trie_extent}
use xivix.Memory.Cover.{
  cover, cover_sum, in_use, of_kind, cover_sum-zero, find_extent-some, find_extent-none,
  used_inside,
}
use xivix.Memory.Table.{Fits, IsExtent, Extents, Disjoint, empties}
use xivix.Memory.Add.{
  fresh, end-stop, add_extent-Added, Added-sum, Added-Extents, Added-length, Added-empties,
}
use xivix.Memory.Replace.{Holds, Placed, over, split_start-Placed}
use xivix.Memory.Join.{join_start-Placed}
use xivix.Memory.Inside.{split_inside-Placed}

-- A table of extents in the first 4 GB that do not overlap.
pub record IsTable (s : PageAllocator) : Type 0 where
  pub size : length s.extents ≡ max_ext
  pub valid : Extents s.extents
  pub disjoint : Disjoint s.extents

-- The number of extents of a kind that hold the address `a`.
unfoldable pub owners : ℕ → ℕ → PageAllocator → ℕ
owners g a s = cover_sum (of_kind g) a s.extents

-- No extent holds a page of the `l` pages at `b`.
abbrev pub Clear : ℕ → ℕ → PageAllocator → Type 0
Clear b l s = (a : ℕ) → b ≤ a → a < b + l * 0x1000 → cover_sum in_use a s.extents ≡ 0

-- One extent holds all of the pages, or none holds any of them.
abbrev pub Placeable : ℕ → ℕ → PageAllocator → Type 0
Placeable b l s = ((i : ℕ) × Holds b l (extent_at s i)) ⊎ Clear b l s

refresh_free-extents : (s : PageAllocator) → (refresh_free s).extents ≡ s.extents
unfolding refresh_free find_free_extent
refresh_free-extents s = ground arith

module _ (b l f : ℕ) (s : PageAllocator) (all : Extents s.extents) (disjoint : Disjoint s.extents)
    (new : IsExtent (fresh b l f)) (kind : f ≢ 0) (room : 1 < empties s.extents) where
  new-Fits : Fits (fresh b l f)
  new-Fits = new.1 kind

  start-Placed :
      (i : ℕ) (o : Option ℕ)
      → Holds b l (extent_at s i)
      → b ≡ (extent_at s i).base
      → Placed b l f s (set_start b l f i o s)
  unfolding set_start
  start-Placed i none holds start =
      split_start-Placed b l f s i all disjoint holds new kind start (omega arith)
  start-Placed i (some j) holds start = elim (Bool-cases (joins b f j s)) [
    | inl joined ↦
        rw joined (join_start-Placed b l f s i all disjoint holds new kind start j joined)
    | inr apart ↦
        rw apart (split_start-Placed b l f s i all disjoint holds new kind start (omega arith))
  ]

  found-Placed :
      (i : ℕ) → Holds b l (extent_at s i) → Placed b l f s (place_extent b l f (some i) s)
  unfolding place_extent
  found-Placed i holds = elim (Bool-cases (b == (extent_at s i).base)) [
    | inl start ↦ rw start (start-Placed i (previous b s.extents) holds (ground arith))
    | inr later ↦
        rw later (split_inside-Placed b l f s i all disjoint holds new kind (ground arith) room)
  ]

  Clear-Placed : Clear b l s → Placed b l f s (add_extent b l f s)
  unfolding cover
  Clear-Placed clear =
      let added = add_extent-Added b l f s all (omega arith) new kind (omega (arith, new-Fits.1)) in
      record {
        sum = λ w a z. ground (
          arith,
          Added-sum added w a z,
          λ (h : b ≤ a) (k : a < b + l * 0x1000). cover_sum-zero w a s.extents z (clear a h k),
        );
        all = Added-Extents added all;
        size = Added-length added;
        left = omega (arith, Added-empties added);
      }

  -- What `intersect_extent` finds holds the pages, and where some extent does, it finds one.
  intersect-Holds : (i : ℕ) → intersect_extent b l s.extents ≡ some i → Holds b l (extent_at s i)
  unfolding intersect_extent
  intersect-Holds i found =
      let hit = find_extent-some _ s.extents i found in
      let used : (extent_at s i).flags ≢ 0 = ground (arith, hit.1) in
      ground (arith, hit.1, used, end-stop (extent_at s i) ((all i hit.0).1 used), new-Fits)

  intersect-Clear : intersect_extent b l s.extents ≡ none → Placeable b l s → Clear b l s
  unfolding intersect_extent
  intersect-Clear missed (inr clear) = clear
  intersect-Clear missed (inl (i, holds)) =
      let at = used_inside s.extents i holds.0 in
      let test = find_extent-none _ s.extents i missed at in
      absurd
        (ground (arith, test, holds, end-stop (extent_at s i) ((all i at).1 holds.0), new-Fits))

  placed : Placeable b l s → Placed b l f s (place_extent b l f (intersect_extent b l s.extents) s)
  unfolding place_extent
  placed ok = elim (Option-cases (intersect_extent b l s.extents)) [
    | inl missed ↦ rw missed (Clear-Placed (intersect-Clear missed ok))
    | inr (i, found) ↦ rw found (found-Placed i (intersect-Holds i found))
  ]

  same_extents-Placed :
      Placeable b l s
      → Placed b l f s (refresh_free (place_extent b l f (intersect_extent b l s.extents) s))
  same_extents-Placed ok =
      let p = placed ok in
      let same = refresh_free-extents (place_extent b l f (intersect_extent b l s.extents) s) in
      record {
        sum = λ w a z. ap (cover_sum w a) same ∙ p.sum w a z;
        all = subst Extents (sym same) p.all;
        size = ap length same ∙ p.size;
        left = rw (ap empties same) p.left;
      }

pub set_extent-Placed :
    (b l f : ℕ) (s : PageAllocator)
    → Extents s.extents
    → Disjoint s.extents
    → IsExtent (fresh b l f)
    → f ≢ 0
    → 1 < empties s.extents
    → Placeable b l s
    → Placed b l f s (set_extent b l f s)
unfolding set_extent
set_extent-Placed b l f s all disjoint new kind room ok =
    let s' : PageAllocator = record s { trie = set_trie_extent b f l s.trie } in
    let p = same_extents-Placed b l f s' all disjoint new kind room ok in
    record { sum = p.sum; all = p.all; size = p.size; left = p.left }

-- A page of the region has the kind `f` alone after `set_extent`, and every other page has the owners
-- that it had: where the table is one of extents below 4 GB without overlaps and with two empty entries,
-- `f` is a kind, and the region is of pages below 4 GB that one extent holds or none.
pub set_extent-owners :
    (b l f g a : ℕ) (s : PageAllocator)
    → IsTable s
    → 1 < empties s.extents
    → IsExtent (fresh b l f)
    → f ≢ 0
    → Placeable b l s
    → owners g a (set_extent b l f s) ≡ over b l a (of_kind g f) (owners g a s)
unfolding owners
set_extent-owners b l f g a s table room new kind ok =
    (set_extent-Placed b l f s table.valid table.disjoint new kind room ok).sum (of_kind g) a refl

-- Under the same conditions the table stays one of extents below 4 GB without overlaps.
pub set_extent-IsTable :
    (b l f : ℕ) (s : PageAllocator)
    → IsTable s
    → 1 < empties s.extents
    → IsExtent (fresh b l f)
    → f ≢ 0
    → Placeable b l s
    → IsTable (set_extent b l f s)
set_extent-IsTable b l f s table room new kind ok =
    let p = set_extent-Placed b l f s table.valid table.disjoint new kind room ok in
    record {
      size = p.size ∙ table.size;
      valid = p.all;
      disjoint = λ a. ground (arith, p.sum in_use a refl, table.disjoint a);
    }
