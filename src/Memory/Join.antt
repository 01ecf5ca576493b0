-- ===== src/Memory/Join.antt =====
-- `set_extent` where the pages go to the extent that ends before them.
use xivix.Base.{
  ℕ, ◌+◌, ◌<◌, ◌≡◌, refl, true, ltb, length, arith, ◌≢◌, Bool-cases, inl, inr, sym, ap, ◌∙◌,
  length-set, get_or-set_ne,
}
use xivix.Memory.{Extent, PageAllocator, unset_extent, extent_at, set_extent_at, join_start, joins}
use xivix.Memory.Cover.{stop, cover, cover_sum, cover_sum-set, used_inside, cover-unset}
use xivix.Memory.Table.{Fits, IsExtent, Extents, Extents-set, Disjoint, empties-set}
use xivix.Memory.Add.{fresh, merged, merged-Fits, cover-merged, end-stop}
use xivix.Memory.Replace.{
  Holds, Placed, at, fits, shrunk, shrunk-IsExtent, shrink_lem, cover-start, cover-whole,
  balance_sum,
}

module _ (b l f : ℕ) (s : PageAllocator) (i : ℕ) (all : Extents s.extents)
    (disjoint : Disjoint s.extents) (holds : Holds b l (extent_at s i))
    (new : IsExtent (fresh b l f)) (kind : f ≢ 0) (start : b ≡ (extent_at s i).base) (j : ℕ)
    (joined : joins b f j s ≡ true) where
  prev_at : j < length s.extents
  unfolding joins
  prev_at = used_inside s.extents j (ground (arith, joined, kind))

  prev_kind : (extent_at s j).flags ≡ f
  unfolding joins
  prev_kind = ground (arith, joined)

  prev-Fits : Fits (extent_at s j)
  prev-Fits = (all j prev_at).1 (ground (arith, prev_kind, kind))

  next : stop (extent_at s j) ≡ b
  unfolding joins
  next = sym (end-stop (extent_at s j) prev-Fits) ∙ ground (arith, joined)

  p-Fits : Fits (extent_at s i)
  p-Fits = fits b l f s i all disjoint holds new kind

  new-Fits : Fits (fresh b l f)
  new-Fits = new.1 kind

  apart : j ≢ i
  apart e =
      let same : stop (extent_at s j) ≡ stop (extent_at s i) = ap (λ k. stop (extent_at s k)) e in
      absurd (omega (arith, same, next, start, p-Fits.1))

  grown : Extent
  unfolding merged
  grown = merged (extent_at s j) (fresh b l f)

  grown_state : PageAllocator
  unfolding grown
  grown_state = set_extent_at j grown s

  grown-Extents : Extents grown_state.extents
  unfolding grown_state grown
  grown-Extents = Extents-set s.extents j grown all (
    ground (arith, prev_kind, new),
    λ u. merged-Fits (extent_at s j) (fresh b l f) prev-Fits new-Fits next prev_kind,
  )

  grown_keeps : extent_at grown_state i ≡ extent_at s i
  unfolding grown_state grown
  grown_keeps = get_or-set_ne s.extents j i grown unset_extent apart

  grown_sum :
      (w : ℕ → ℕ) (a : ℕ)
      → cover_sum w a grown_state.extents ≡ cover_sum w a s.extents + cover w a (fresh b l f)
  unfolding grown_state grown
  grown_sum w a = omega (
    arith,
    cover_sum-set w a s.extents j grown prev_at,
    cover-merged (extent_at s j) (fresh b l f) prev-Fits new-Fits next prev_kind w a,
  )

  -- What `set_extent` writes to the extent `i` next.
  module _ (e : Extent) (valid : IsExtent e)
      (less : (w : ℕ → ℕ) (a : ℕ)
        → w 0 ≡ 0
        → cover w a (extent_at s i)
          ≡ cover w a e + cover w a (fresh b l (extent_at s i).flags)) where
    joined_with : Placed b l f s (set_extent_at i e grown_state)
    unfolding grown_state
    joined_with =
        let here : i < length grown_state.extents =
          omega (arith, length-set s.extents j grown, at b l f s i all disjoint holds new kind) in
        record {
          sum = λ w a z.
              balance_sum b l f s (set_extent_at i e grown_state) i disjoint
                (at b l f s i all disjoint holds new kind) holds w a z
                (omega (
                  arith,
                  cover_sum-set w a grown_state.extents i e here,
                  ap (cover w a) grown_keeps,
                  grown_sum w a,
                  less w a z,
                ));
          all = Extents-set grown_state.extents i e grown-Extents valid;
          size = length-set grown_state.extents i e ∙ length-set s.extents j grown;
          left = ground (
            arith,
            empties-set s.extents j grown prev_at,
            empties-set grown_state.extents i e here,
            ap (λ p. p.flags) grown_keeps,
            holds.0,
            prev_kind,
            kind,
          );
        }

  pub join_start-Placed : Placed b l f s (join_start l i j s)
  unfolding join_start grown_state grown merged shrunk
  join_start-Placed = elim (Bool-cases (ltb l (extent_at s i).length)) [
    | inl longer ↦
        let long : l < (extent_at s i).length = ground arith in
        rw (grown_keeps, longer, shrink_lem b l f s i all disjoint holds new kind start long)
          (joined_with (shrunk b l f s i all disjoint holds new kind)
            (shrunk-IsExtent b l f s i all disjoint holds new kind start long)
            λ w a z.
              omega (arith, cover-start b l f (extent_at s i) p-Fits new-Fits holds w a start))
    | inr whole ↦
        rw (grown_keeps, whole)
          (joined_with (record (extent_at s i) { flags = 0 }) (ground arith)
            λ w a z. omega (
              arith,
              cover-unset w a (record (extent_at s i) { flags = 0 }) z refl,
              cover-whole b l f s i all disjoint holds new kind start (ground arith) w a,
            ))
  ]
