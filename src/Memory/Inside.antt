-- ===== src/Memory/Inside.antt =====
-- `set_extent` where the pages are inside an extent, which is cut in two or three.
use xivix.Base.{
  ℕ, ◌+◌, ◌-◌, ◌*◌, ◌/◌, ◌≤◌, ◌<◌, ◌≡◌, refl, ◌==◌, length, arith, ◌≢◌, Bool-cases, inl, inr, ap,
  ◌∙◌, length-set,
}
use xivix.Base.Word.{u32, u64}
use xivix.Memory.{Extent, PageAllocator, extent_at, set_extent_at, add_extent, cut, split_inside}
use xivix.Memory.Cover.{stop, cover, cover_sum, cover_sum-set}
use xivix.Memory.Table.{Fits, IsExtent, Extents, Extents-set, Disjoint, empties, empties-set}
use xivix.Memory.Add.{
  fresh, add_extent-Added, Added-sum, Added-Extents, Added-length, Added-empties, Added-keeps,
}
use xivix.Memory.Replace.{Holds, Placed, at, fits, cover-inside, balance_sum}

-- The rest of the extent, which may be empty.
module _ (b l f i : ℕ) (s : PageAllocator) (all : Extents s.extents) (room : 0 < empties s.extents)
    (kind : f ≢ 0) (new : 0 < l → IsExtent (fresh b l f)) (used : (extent_at s i).flags ≢ 0)
    (apart : 0 < l → stop (extent_at s i) ≢ b) where
  record Extended (s' : PageAllocator) : Type 0 where
    pub sum :
        (w : ℕ → ℕ) (a : ℕ)
        → w 0 ≡ 0
        → cover_sum w a s'.extents ≡ cover_sum w a s.extents + cover w a (fresh b l f)
    pub extents : Extents s'.extents
    pub size : length s'.extents ≡ length s.extents
    pub keeps : extent_at s' i ≡ extent_at s i
    pub left : empties s.extents ≤ empties s'.extents + 1

  nothing_covers : (w : ℕ → ℕ) (a : ℕ) → l ≡ 0 → cover w a (fresh b l f) ≡ 0
  unfolding cover
  nothing_covers w a empty = ground (arith, empty)

  add_nothing : l ≡ 0 → add_extent b l f s ≡ s
  unfolding add_extent
  add_nothing empty = ground (arith, empty)

  add_extent-Extended : Extended (add_extent b l f s)
  add_extent-Extended = elim (Bool-cases (l == 0)) [
    | inl empty ↦
        let zero_pages : l ≡ 0 = ground arith in
        rw (add_nothing zero_pages) (record {
          sum = λ w a z. omega (arith, nothing_covers w a zero_pages);
          extents = all;
          size = refl;
          keeps = refl;
          left = omega arith;
        })
    | inr pages ↦
        let pos : 0 < l = ground arith in
        let added = add_extent-Added b l f s all room (new pos) kind pos in
        record {
          sum = Added-sum added;
          extents = Added-Extents added all;
          size = Added-length added;
          keeps = Added-keeps added i used (apart pos);
          left = Added-empties added;
        }
  ]

module _ (b l f : ℕ) (s : PageAllocator) (i : ℕ) (all : Extents s.extents)
    (disjoint : Disjoint s.extents) (holds : Holds b l (extent_at s i))
    (new : IsExtent (fresh b l f)) (kind : f ≢ 0) (later : b ≢ (extent_at s i).base)
    (room : 1 < empties s.extents) where
  p-Fits : Fits (extent_at s i)
  p-Fits = fits b l f s i all disjoint holds new kind

  new-Fits : Fits (fresh b l f)
  new-Fits = new.1 kind

  -- The pages before the new ones, and those after.
  before : ℕ
  before = (b - (extent_at s i).base) / 0x1000

  after : ℕ
  after = (extent_at s i).length - (l + (b - (extent_at s i).base) / 0x1000)

  first : PageAllocator
  first = add_extent b l f s

  first-Extended :
      Extended b l f i s all
        (omega arith)
        kind
        (λ _. new)
        holds.0
        (λ _ e. absurd (omega arith))
        first
  unfolding first
  first-Extended =
      add_extent-Extended b l f i s all (omega arith) kind (λ _. new) holds.0
        (λ _ e. absurd (omega arith))

  after_valid : 0 < after → IsExtent (fresh (b + l * 0x1000) after (extent_at s i).flags)
  unfolding after
  after_valid pos =
      ground (arith, p-Fits, new-Fits, holds, all i (at b l f s i all disjoint holds new kind))

  -- The middle of the extent gets the new use.
  second : PageAllocator
  second = add_extent (b + l * 0x1000) after (extent_at s i).flags first

  cut_valid : IsExtent (record (extent_at s i) { length = before })
  unfolding before
  cut_valid =
      ground
        (arith, p-Fits, new-Fits, holds, later, all i (at b l f s i all disjoint holds new kind))

  split_parts :
      split_inside b l f i s
      ≡ cut before i (add_extent (b + l * 0x1000) after (extent_at s i).flags (add_extent b l f s))
  unfolding split_inside before after first
  split_parts =
      let p = extent_at s i in
      let m : ℕ = (b - p.base) / 0x1000 in
      let inner : l + m ≤ p.length = omega (arith, p-Fits, new-Fits, holds.1, holds.2) in
      let e1 : u32 (l * 0x1000) ≡ l * 0x1000 = omega (arith, new-Fits.2) in
      let e2 : u64 (b + l * 0x1000) ≡ b + l * 0x1000 = omega (arith, new-Fits.2) in
      let e3 : u32 (p.length + 0x1_0000_0000_0000_0000 - (l + m)) ≡ p.length - (l + m) =
        omega (arith, p-Fits.2, inner) in
      let e4 : u32 m ≡ m = omega (arith, p-Fits.2, inner) in
      let kept : extent_at (add_extent b l f s) i ≡ p = first-Extended.keeps in
      rw (kept, e1, e2, e3, e4) refl

  pub split_inside-Placed : Placed b l f s (split_inside b l f i s)
  unfolding cut before after first second
  split_inside-Placed =
      let p = extent_at s i in
      let here = at b l f s i all disjoint holds new kind in
      let e1 = first-Extended in
      let more : 0 < empties first.extents = omega (arith, e1.left, room) in
      let used : (extent_at first i).flags ≢ 0 = rw e1.keeps holds.0 in
      let far : 0 < after → stop (extent_at first i) ≢ b + l * 0x1000 =
        rw e1.keeps (λ pos e. absurd (omega (arith, p-Fits, new-Fits, holds, later, e, pos))) in
      let e2 =
        add_extent-Extended (b + l * 0x1000) after p.flags i first e1.extents more holds.0
          after_valid used far in
      let within : i < length second.extents = omega (arith, e2.size, e1.size, here) in
      let same : extent_at second i ≡ p = e2.keeps ∙ e1.keeps in
      let part : Extent = record p { length = before } in
      rw (split_parts, same)
        (record {
          sum = λ w a z.
              balance_sum b l f s (set_extent_at i part second) i disjoint here holds w a z (
                omega (
                  arith,
                  cover_sum-set w a second.extents i part within,
                  ap (cover w a) same,
                  cover-inside b l f p p-Fits new-Fits holds w a,
                  e2.sum w a z,
                  e1.sum w a z,
                ));
          all = Extents-set second.extents i part e2.extents cut_valid;
          size = length-set second.extents i part ∙ e2.size ∙ e1.size;
          left = ground (
            arith,
            empties-set second.extents i part within,
            ap (λ q. q.flags) same,
            holds.0,
            e1.left,
            e2.left,
          );
        })
