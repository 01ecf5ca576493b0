-- ===== src/Memory/Vmm/Mapped.antt =====
-- The loop that maps fresh pages: every page has a page of physical memory of its own.
use xivix.Base.{
  ℕ, zero, suc, ◌+◌, ◌*◌, ◌/◌, ◌%◌, ◌≤◌, ◌<◌, ◌≡◌, refl, sym, ap, ◌∙◌, subst, arith, ◌≢◌, Bool,
  true, false, has, ◌==◌, if◌then◌else◌,
}
use xivix.Memory.{PageAllocator}
use xivix.Memory.Table.{empties}
use xivix.Memory.Set.{IsTable, owners}
use xivix.Memory.Allocate.{Request, allocate}
use xivix.Memory.Allocate.Grant.{Granted, allocate-Granted}
use xivix.Memory.Paging.{translate_page, set_page, map_page}
use xivix.Memory.Paging.Translate.{set_page-translate}
use xivix.Memory.Paging.Range.{
  Ready, Separate, map_page-Ready, set_page-Ready, set_page-Separate, set_page-keeps,
}
use xivix.Memory.Vmm.{Vm, physical, map_fresh}
use xivix.Memory.Vmm.Fresh.{free_in, free_extent, free_in-taken}

-- The physical address of the page `k` from `bega` on.
abbrev pub page : ℕ → ℕ → Vm → ℕ
page bega k s = translate_page (bega + k * 0x1000) s.paging

-- The `n` pages from `bega` on have pages of physical memory that were free, each its own.
pub record Mapped (n bega : ℕ) (s s' : Vm) : Type 0 where
  pub bytes :
      (k o : ℕ)
      → k < n
      → o < 0x1000
      → translate_page (bega + k * 0x1000 + o) s'.paging ≡ page bega k s' + o
  pub free : (k : ℕ) → k < n → owners 5 (page bega k s') s.phymm ≡ 1
  pub owned : (k : ℕ) → k < n → owners 8 (page bega k s') s'.phymm ≡ 1
  pub apart : (j k : ℕ) → j < k → k < n → page bega j s' ≢ page bega k s'
  pub below :
      (t : ℕ) → t / 0x1000 < bega / 0x1000 → translate_page t s'.paging ≡ translate_page t s.paging
  pub kept : (g a : ℕ) → owners 5 a s.phymm ≡ 0 → owners g a s'.phymm ≡ owners g a s.phymm

-- There are `n` free pages, among the `m` at `b`, and entries of the table for them; page 0 is not free. The pages
-- from `bega` on lie below 4 GB, and their page tables are there, no two of them the same.
pub record Able (b m n bega : ℕ) (s : Vm) : Type 0 where
  pub table : IsTable s.phymm
  pub room : 2 * n < empties s.phymm.extents
  pub enough : n ≤ free_in b m s.phymm
  pub null : owners 5 0 s.phymm ≡ 0
  pub ready : (k : ℕ) → k < n → Ready (bega + k * 0x1000) s.paging
  pub separate : Separate s.paging
  pub start : bega % 0x1000 ≡ 0
  pub stop : bega + n * 0x1000 ≤ 0x1_0000_0000

next_page : (bega k : ℕ) → bega + suc k * 0x1000 ≡ bega + 0x1000 + k * 0x1000
next_page bega k = omega arith

module _ (request : Request Vm) (f : ℕ) (small : has f 0x80 ≡ false) (b m : ℕ)
    (aligned : b % 0x1000 ≡ 0) where
  -- The state after the page `mm` is mapped at `bega`.
  abbrev put_page : ℕ → ℕ → PageAllocator → Vm → Vm
  put_page mm bega after s = record { paging = set_page mm bega f s.paging; phymm = after }

  map_fresh-step :
      (n bega mm : ℕ) (after : PageAllocator) (s : Vm)
      → allocate physical request 1 8 s ≡ (mm, record s { phymm = after })
      → mm ≢ 0
      → Ready bega s.paging
      → map_fresh request 0x1000 (suc n) bega f s
        ≡ map_fresh request 0x1000 n (bega + 0x1000) f (put_page mm bega after s)
  unfolding map_fresh
  map_fresh-step n bega mm after s e some_page ready =
      let not_null : (mm == 0) ≡ false = ground (arith, some_page) in
      let next : ℕ × Vm → Bool × Vm = λ r.
        if r.0 == 0
        then (false, r.1)
        else map_fresh request 0x1000 n (bega + 0x1000) f
            (record r.1 { paging = map_page r.0 bega f r.1.paging }) in
      ap next e ∙ rw (not_null, map_page-Ready mm bega f s.paging small ready) refl

  module _ (n bega : ℕ) (s : Vm) (able : Able b m (suc n) bega s) (mm : ℕ) (after : PageAllocator)
      (taken : Granted 1 8 s.phymm mm after) where
    abbrev s2 : Vm
    s2 = put_page mm bega after s

    first-Ready : Ready bega s.paging
    first-Ready =
        let here : bega + 0 * 0x1000 ≡ bega = omega arith in
        subst (λ a. Ready a s.paging) here (able.ready 0 (omega arith))

    mm_nonzero : mm ≢ 0
    mm_nonzero e = absurd (omega (arith, able.null, taken.free 0 (omega (arith, e)) (omega arith)))

    rest-Able : Able b m n (bega + 0x1000) s2
    rest-Able = record {
      table = taken.table;
      room = omega (arith, able.room, taken.left);
      enough = omega (arith, able.enough, free_in-taken mm s.phymm after taken b m aligned);
      null = ground (arith, taken.owned 5 0, able.null);
      ready = λ k h. set_page-Ready mm bega f (bega + 0x1000 + k * 0x1000) s.paging (
          subst (λ a. Ready a s.paging) (next_page bega k) (able.ready (suc k) (omega (arith, h))));
      separate = set_page-Separate mm bega f s.paging able.separate;
      start = omega (arith, able.start);
      stop = omega (arith, able.stop);
    }

    module _ (s' : Vm) (rest : Mapped n (bega + 0x1000) s2 s') where
      first_bytes : (o : ℕ) → o < 0x1000 → translate_page (bega + 0 * 0x1000 + o) s'.paging ≡ mm + o
      first_bytes o h =
          let t = bega + 0 * 0x1000 + o in
          let here : t / 0x1000 ≡ bega / 0x1000 = omega (arith, h, able.start) in
          let part : t % 0x1000 ≡ o = omega (arith, h, able.start) in
          rest.below t (omega (arith, h, able.start))
          ∙ set_page-translate mm bega t f s.paging taken.place.0 (omega (arith, taken.place.1))
              here first-Ready.2 first-Ready.0 first-Ready.1
          ∙ ap (λ x. mm + x) part

      first_page : page bega 0 s' ≡ mm
      first_page =
          let here : bega + 0 * 0x1000 ≡ bega + 0 * 0x1000 + 0 = omega arith in
          ap (λ t. translate_page t s'.paging) here ∙ first_bytes 0 (omega arith) ∙ omega arith

      free_before : (a : ℕ) → owners 5 a after ≡ 1 → owners 5 a s.phymm ≡ 1
      free_before a h = ground (arith, taken.owned 5 a, h, taken.free a)

      mm_gone : owners 5 mm after ≡ 0
      mm_gone = ground (arith, taken.owned 5 mm)

      later_page : (k : ℕ) → page bega (suc k) s' ≡ page (bega + 0x1000) k s'
      later_page k = ap (λ t. translate_page t s'.paging) (next_page bega k)

      bytes_lem :
          (k o : ℕ)
          → k < suc n
          → o < 0x1000
          → translate_page (bega + k * 0x1000 + o) s'.paging ≡ page bega k s' + o
      bytes_lem zero o h small_o = first_bytes o small_o ∙ ap (λ x. x + o) (sym first_page)
      bytes_lem (suc k) o h small_o =
          rw (next_page bega k) (rest.bytes k o (omega (arith, h)) small_o)

      free_lem : (k : ℕ) → k < suc n → owners 5 (page bega k s') s.phymm ≡ 1
      free_lem zero h = rw first_page (taken.free mm (omega arith) (omega arith))
      free_lem (suc k) h =
          rw (later_page k)
            (free_before (page (bega + 0x1000) k s') (rest.free k (omega (arith, h))))

      owned_lem : (k : ℕ) → k < suc n → owners 8 (page bega k s') s'.phymm ≡ 1
      owned_lem zero h = rw first_page (rest.kept 8 mm mm_gone ∙ ground (arith, taken.owned 8 mm))
      owned_lem (suc k) h = rw (later_page k) (rest.owned k (omega (arith, h)))

      apart_lem : (j k : ℕ) → j < k → k < suc n → page bega j s' ≢ page bega k s'
      apart_lem j zero h l e = absurd (omega (arith, h))
      apart_lem zero (suc k) h l e =
          let same : mm ≡ page (bega + 0x1000) k s' = sym first_page ∙ e ∙ later_page k in
          let still : owners 5 mm after ≡ 1 =
            subst (λ a. owners 5 a after ≡ 1) (sym same) (rest.free k (omega (arith, l))) in
          absurd (omega (arith, still, mm_gone))
      apart_lem (suc j) (suc k) h l e =
          rest.apart j k (omega (arith, h)) (omega (arith, l))
            (sym (later_page j) ∙ e ∙ later_page k)

      below_lem :
          (t : ℕ)
          → t / 0x1000 < bega / 0x1000
          → translate_page t s'.paging ≡ translate_page t s.paging
      below_lem t h =
          rest.below t (omega (arith, h))
          ∙ set_page-keeps mm bega f t s.paging (omega (arith, able.stop))
              (omega (arith, able.stop, h)) (λ e. absurd (omega (arith, e, h))) first-Ready
              able.separate

      kept_lem : (g a : ℕ) → owners 5 a s.phymm ≡ 0 → owners g a s'.phymm ≡ owners g a s.phymm
      kept_lem g a h =
          let gone : owners 5 a after ≡ 0 = ground (arith, taken.owned 5 a, h, taken.free a) in
          rest.kept g a gone ∙ ground (arith, taken.owned g a, h, taken.free a)

      more-Mapped : Mapped (suc n) bega s s'
      more-Mapped = record {
        bytes = bytes_lem;
        free = free_lem;
        owned = owned_lem;
        apart = apart_lem;
        below = below_lem;
        kept = kept_lem;
      }

  -- The loop ends with every page mapped: each byte of the `n` pages from `bega` on is found in its page of physical
  -- memory, which was free, is in use now, and is that of no other page; pages below `bega` are found where they
  -- were, and the memory that was not free has the owners that it had. There are `n` free pages and two entries of the
  -- table for each, page 0 is not free, the pages lie below 4 GB, and their page tables are there.
  pub map_fresh-Mapped :
      (n bega : ℕ) (s : Vm)
      → Able b m n bega s
      → let r = map_fresh request 0x1000 n bega f s in
        (r.0 ≡ true) × (r.1.paging.vmm ≡ s.paging.vmm) × Mapped n bega s r.1
  unfolding map_fresh set_page
  map_fresh-Mapped zero bega s able = (
    refl,
    refl,
    record {
      bytes = λ k o h. absurd (omega (arith, h));
      free = λ k h. absurd (omega (arith, h));
      owned = λ k h. absurd (omega (arith, h));
      apart = λ j k l h. absurd (omega (arith, h));
      below = λ t h. refl;
      kept = λ g a h. refl;
    },
  )
  map_fresh-Mapped (suc n) bega s able =
      let (i, free_i, long) = free_extent b m s.phymm (omega (arith, able.enough)) in
      let served =
        allocate-Granted physical 1 8 s request i able.table (omega (arith, able.room))
          (omega arith) (omega arith) (omega arith) free_i long in
      let mm = served.mm in
      let after = served.after in
      let taken = served.granted in
      let s_next = s2 n bega s able mm after taken in
      let (done, same_vmm, mapped) =
        map_fresh-Mapped n (bega + 0x1000) s_next (rest-Able n bega s able mm after taken) in
      let step =
        map_fresh-step n bega mm after s served.result (mm_nonzero n bega s able mm after taken)
          (first-Ready n bega s able mm after taken) in
      let s' = (map_fresh request 0x1000 n (bega + 0x1000) f s_next).1 in
      let whole : Mapped (suc n) bega s s' = more-Mapped n bega s able mm after taken s' mapped in
      subst (λ r. (r.0 ≡ true) × (r.1.paging.vmm ≡ s.paging.vmm) × Mapped (suc n) bega s r.1)
        (sym step) (done, same_vmm, whole)
