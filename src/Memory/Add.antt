-- ===== src/Memory/Add.antt =====
-- `add_extent` changes one entry, which then takes the pages that are added.
use xivix.Base.{
  ℕ, ◌+◌, ◌≤◌, ◌<◌, ◌≡◌, refl, ◌==◌, ◌&&◌, length, arith, ◌≢◌, ◌⊎◌, Bool-cases, inl, inr, sym, ap,
  ◌∙◌, subst, length-set, get_or-set_ne,
}
use xivix.Base.Word.{u32}
use xivix.Memory.{
  Extent, PageAllocator, unset_extent, extent_at, set_extent_at, end, add_extent, fill_empty,
  next_empty_extent,
}
use xivix.Memory.Cover.{stop, cover, cover_sum, cover_sum-set, cover-unset, used_inside}
use xivix.Memory.Table.{
  Fits, IsExtent, Extents, Extents-set, empties, empties-set, next_empty_extent-some,
}

-- The extent of the pages that are added.
abbrev pub fresh : ℕ → ℕ → ℕ → Extent
fresh b l f = record { flags = f; base = b; length = l }

-- The entry `j` of `s` becomes `e`, with the pages of `n` as well.
pub record Added (n : Extent) (s s' : PageAllocator) : Type 0 where
  pub place : ℕ
  pub entry : Extent
  pub same : s' ≡ set_extent_at place entry s
  pub inside : place < length s.extents
  pub valid : IsExtent entry
  pub kept : entry.flags ≢ 0
  pub covers :
      (w : ℕ → ℕ) (a : ℕ) → w 0 ≡ 0 → cover w a entry ≡ cover w a (extent_at s place) + cover w a n
  pub before : ((extent_at s place).flags ≡ 0) ⊎ (stop (extent_at s place) ≡ n.base)

pub end-stop : (e : Extent) → Fits e → end e ≡ stop e
unfolding end
end-stop e h = omega arith

-- An extent with the next one's pages as well.
unfoldable pub merged : Extent → Extent → Extent
merged e n = record e { length = u32 (e.length + n.length) }

module _ (e n : Extent) (h : Fits e) (k : Fits n) (next : stop e ≡ n.base)
    (kind : e.flags ≡ n.flags) where
  pub merged-Fits : Fits (merged e n)
  unfolding merged
  merged-Fits = ground (arith, h, k, next)

  pub cover-merged : (w : ℕ → ℕ) (a : ℕ) → cover w a (merged e n) ≡ cover w a e + cover w a n
  unfolding merged cover
  cover-merged w a = ground (arith, h, k, next, ap w kind)

module _ (b l f : ℕ) (s : PageAllocator) (all : Extents s.extents) (room : 0 < empties s.extents)
    (new : IsExtent (fresh b l f)) (kind : f ≢ 0) where
  fill_empty-Added : Added (fresh b l f) s (fill_empty b l f (next_empty_extent s.extents) s)
  unfolding fill_empty
  fill_empty-Added =
      let hit = next_empty_extent-some s.extents all room in
      rw hit.1 (record {
        place = hit.0;
        entry = fresh b l f;
        same = refl;
        inside = hit.2;
        valid = new;
        kept = kind;
        covers = λ w a z. omega (arith, cover-unset w a (extent_at s hit.0) z hit.3);
        before = inl hit.3;
      })

  merge_Added :
      (extent_at s s.ifree).flags ≡ 5
      → f ≡ 5
      → end (extent_at s s.ifree) ≡ b
      → Added (fresh b l f) s (set_extent_at s.ifree (merged (extent_at s s.ifree) (fresh b l f)) s)
  unfolding merged
  merge_Added free same_kind adjacent =
      let e = extent_at s s.ifree in
      let at : s.ifree < length s.extents = used_inside s.extents s.ifree (ground (arith, free)) in
      let h : Fits e = (all s.ifree at).1 (ground (arith, free)) in
      let k : Fits (fresh b l f) = new.1 kind in
      let next : stop e ≡ b = sym (end-stop e h) ∙ adjacent in
      record {
        place = s.ifree;
        entry = merged e (fresh b l f);
        same = refl;
        inside = at;
        valid = (
          ground (arith, free),
          λ u. merged-Fits e (fresh b l f) h k next (free ∙ sym same_kind),
        );
        kept = ground (arith, free);
        covers = λ w a z. cover-merged e (fresh b l f) h k next (free ∙ sym same_kind) w a;
        before = inr next;
      }

  pub add_extent-Added : 0 < l → Added (fresh b l f) s (add_extent b l f s)
  unfolding add_extent merged
  add_extent-Added pos =
      elim (Bool-cases
        (f == 5 && (extent_at s s.ifree).flags == 5 && end (extent_at s s.ifree) == b)) [
          | inl merge ↦ ground (arith, merge, new, kind, merge_Added)
          | inr other ↦ ground (arith, other, new, kind, fill_empty-Added)
        ]

module _ {n : Extent} {s s' : PageAllocator} (added : Added n s s') where
  pub Added-sum :
      (w : ℕ → ℕ) (a : ℕ)
      → w 0 ≡ 0
      → cover_sum w a s'.extents ≡ cover_sum w a s.extents + cover w a n
  Added-sum w a z = rw (ap (λ t. t.extents) added.same) (
      omega (
        arith,
        cover_sum-set w a s.extents added.place added.entry added.inside,
        added.covers w a z,
      ))

  pub Added-Extents : Extents s.extents → Extents s'.extents
  Added-Extents all =
      subst (λ t. Extents t) (sym (ap (λ t. t.extents) added.same))
        (Extents-set s.extents added.place added.entry all added.valid)

  pub Added-length : length s'.extents ≡ length s.extents
  Added-length = rw (ap (λ t. t.extents) added.same) (length-set s.extents added.place added.entry)

  pub Added-empties : empties s.extents ≤ empties s'.extents + 1
  Added-empties =
      rw (ap (λ t. t.extents) added.same)
        (ground (arith, empties-set s.extents added.place added.entry added.inside))

  -- An extent that the new pages do not follow is left alone.
  pub Added-keeps :
      (i : ℕ)
      → (extent_at s i).flags ≢ 0
      → stop (extent_at s i) ≢ n.base
      → extent_at s' i ≡ extent_at s i
  Added-keeps i used apart = rw (ap (λ t. t.extents) added.same) (
      get_or-set_ne s.extents added.place i added.entry unset_extent (λ e. elim added.before [
        | inl unset ↦ used (rw (← e) unset)
        | inr next ↦ apart (rw (← e) next)
      ]))
