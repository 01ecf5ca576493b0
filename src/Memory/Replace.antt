-- ===== src/Memory/Replace.antt =====
-- The pages of an extent that `set_extent` gives a new use, case by case.
use xivix.Base.{
  ℕ, ◌+◌, ◌-◌, ◌*◌, ◌/◌, ◌≤◌, ◌<◌, ◌≡◌, if◌then◌else◌, ◌&&◌, leb, ltb, length, set, arith, ◌≢◌,
  Bool-cases, inl, inr, ◌∙◌, length-set,
}
use xivix.Memory.{Extent, PageAllocator, extent_at, set_extent_at, add_extent, shrink, split_start}
use xivix.Memory.Cover.{stop, cover, cover_sum, cover_sum-set, cover_sum-only, in_use, used_inside}
use xivix.Memory.Table.{Fits, IsExtent, Extents, Extents-set, Disjoint, empties, empties-set}
use xivix.Memory.Add.{
  fresh, add_extent-Added, Added-sum, Added-Extents, Added-length, Added-empties,
}

-- `new` at the addresses of the `l` pages at `b`, and `old` elsewhere.
abbrev pub over : ℕ → ℕ → ℕ → ℕ → ℕ → ℕ
over b l a new old = if leb b a && ltb a (b + l * 0x1000) then new else old

-- The extent `p` holds the `l` pages at `b`.
abbrev pub Holds : ℕ → ℕ → Extent → Type 0
Holds b l p = (p.flags ≢ 0) × (p.base ≤ b) × (b + l * 0x1000 ≤ stop p)

-- What `set_extent` does to a table.
pub record Placed (b l f : ℕ) (s s' : PageAllocator) : Type 0 where
  pub sum :
      (w : ℕ → ℕ) (a : ℕ)
      → w 0 ≡ 0
      → cover_sum w a s'.extents ≡ over b l a (w f) (cover_sum w a s.extents)
  pub all : Extents s'.extents
  pub size : length s'.extents ≡ length s.extents
  pub left : empties s.extents ≤ empties s'.extents + 2

module _ (b l f : ℕ) (p : Extent) (fits : Fits p) (new : Fits (fresh b l f)) (holds : Holds b l p)
    (w : ℕ → ℕ) (a : ℕ) where
  pub cover-inside :
      let m = (b - p.base) / 0x1000 in
      cover w a p
      ≡ cover w a (record p { length = m })
        + cover w a (fresh b l p.flags)
        + cover w a (fresh (b + l * 0x1000) (p.length - (l + m)) p.flags)
  unfolding cover
  cover-inside = ground (arith, fits, new, holds)

  pub cover-start :
      b ≡ p.base
      → cover w a p
        ≡ cover w a (fresh b l p.flags)
          + cover w a (record p { length = p.length - l; base = b + l * 0x1000 })
  unfolding cover
  cover-start start = ground (arith, fits, new, holds, start)

-- Where the table changes by the new use less the old one, the pages have the new use alone.
module _ (b l f : ℕ) (s s' : PageAllocator) (i : ℕ) (disjoint : Disjoint s.extents)
    (at : i < length s.extents) (holds : Holds b l (extent_at s i)) (w : ℕ → ℕ) (a : ℕ)
    (z : w 0 ≡ 0) where
  pub balance_sum :
      cover_sum w a s'.extents + cover w a (fresh b l (extent_at s i).flags)
        ≡ cover_sum w a s.extents + cover w a (fresh b l f)
      → cover_sum w a s'.extents ≡ over b l a (w f) (cover_sum w a s.extents)
  unfolding cover
  balance_sum balance = elim (Bool-cases (leb b a && ltb a (b + l * 0x1000))) [
    | inl here ↦
        let used : cover in_use a (extent_at s i) ≡ 1 = ground (arith, here, holds) in
        let only = cover_sum-only w a s.extents i z (disjoint a) at used in
        ground (arith, here, holds, balance, only)
    | inr there ↦ ground (arith, there, balance)
  ]

-- The cases of `set_extent` on an extent `i` that holds the pages.
module _ (b l f : ℕ) (s : PageAllocator) (i : ℕ) (all : Extents s.extents)
    (disjoint : Disjoint s.extents) (holds : Holds b l (extent_at s i))
    (new : IsExtent (fresh b l f)) (kind : f ≢ 0) where
  pub at : i < length s.extents
  at = used_inside s.extents i holds.0

  pub fits : Fits (extent_at s i)
  fits = (all i at).1 holds.0

  pub fresh-Fits : Fits (fresh b l f)
  fresh-Fits = new.1 kind

  -- The extent starts at the address, and is longer.
  unfoldable pub shrunk : Extent
  shrunk = record (extent_at s i) { length = (extent_at s i).length - l; base = b + l * 0x1000 }

  module _ (start : b ≡ (extent_at s i).base) (longer : l < (extent_at s i).length) where
    pub shrink_lem : shrink l (extent_at s i) ≡ shrunk
    unfolding shrink shrunk
    shrink_lem = ground (arith, fits, fresh-Fits, start, longer)

    pub shrunk-IsExtent : IsExtent shrunk
    unfolding shrunk
    shrunk-IsExtent = ground (arith, fits, fresh-Fits, start, longer, all i at, holds)

    pub shrunk_sum :
        (w : ℕ → ℕ) (a : ℕ)
        → cover_sum w a (set s.extents i shrunk) + cover w a (fresh b l (extent_at s i).flags)
          ≡ cover_sum w a s.extents
    unfolding shrunk
    shrunk_sum w a = omega (
      arith,
      cover_sum-set w a s.extents i shrunk at,
      cover-start b l f (extent_at s i) fits fresh-Fits holds w a start,
    )

    split_longer :
        0 < empties s.extents
        → Placed b l f s (add_extent b l f (set_extent_at i (shrink l (extent_at s i)) s))
    split_longer room =
        let s1 : PageAllocator = set_extent_at i shrunk s in
        let all1 : Extents s1.extents = Extents-set s.extents i shrunk all shrunk-IsExtent in
        let room1 : 0 < empties s1.extents =
          ground (arith, empties-set s.extents i shrunk at, holds) in
        let added = add_extent-Added b l f s1 all1 room1 new kind (ground (arith, fresh-Fits)) in
        rw shrink_lem (record {
          sum = λ w a z.
              balance_sum b l f s (add_extent b l f s1) i disjoint at holds w a z
                (omega (arith, Added-sum added w a z, shrunk_sum w a));
          all = Added-Extents added all1;
          size = Added-length added ∙ length-set s.extents i shrunk;
          left = ground (arith, Added-empties added, empties-set s.extents i shrunk at, holds);
        })

  -- The new use of the whole extent.
  consumed : Extent
  consumed = record (extent_at s i) { length = l; flags = f }

  module _ (start : b ≡ (extent_at s i).base) (whole : (extent_at s i).length ≤ l) where
    consumed-IsExtent : IsExtent consumed
    unfolding consumed
    consumed-IsExtent = ground (arith, new, kind, start)

    cover-consumed : (w : ℕ → ℕ) (a : ℕ) → cover w a consumed ≡ cover w a (fresh b l f)
    unfolding consumed cover
    cover-consumed w a = ground (arith, start)

    pub cover-whole :
        (w : ℕ → ℕ) (a : ℕ)
        → cover w a (extent_at s i) ≡ cover w a (fresh b l (extent_at s i).flags)
    unfolding cover
    cover-whole w a = ground (arith, start, whole, holds)

    split_whole : Placed b l f s (set_extent_at i consumed s)
    split_whole = record {
      sum = λ w a z. balance_sum b l f s (set_extent_at i consumed s) i disjoint at holds w a z (
          omega (
            arith,
            cover_sum-set w a s.extents i consumed at,
            cover-consumed w a,
            cover-whole w a,
          ));
      all = Extents-set s.extents i consumed all consumed-IsExtent;
      size = length-set s.extents i consumed;
      left = ground (arith, empties-set s.extents i consumed at, holds);
    }

  pub split_start-Placed :
      b ≡ (extent_at s i).base → 0 < empties s.extents → Placed b l f s (split_start b l f i s)
  unfolding split_start consumed
  split_start-Placed start room = elim (Bool-cases (ltb l (extent_at s i).length)) [
    | inl longer ↦ rw longer (split_longer start (ground arith) room)
    | inr whole ↦ rw whole (split_whole start (ground arith))
  ]
