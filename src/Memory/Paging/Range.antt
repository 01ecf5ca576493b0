-- ===== src/Memory/Paging/Range.antt =====
-- The loop of `vmm_request` over pages whose tables are there: each page is mapped, and stays so.
use xivix.Base.{
  ℕ, zero, suc, ◌+◌, ◌*◌, ◌/◌, ◌%◌, ◌≤◌, ◌<◌, ◌≡◌, refl, true, false, ◌==◌, ◌&&◌, has, arith, ◌≢◌,
  inl, inr, Bool-cases, ◌∙◌, subst, ap,
}
use xivix.Memory.Paging.{
  Paging, write, get_table, ofs_dp, ofs_d, ofs_t, translate_page, add_table, map_table, set_page,
  page_entry, map_page, map_pages,
}
use xivix.Memory.Paging.Translate.{set_page-translate}

-- The page table for the address is there, and no large page.
abbrev pub Ready : ℕ → Paging → Type 0
Ready t s =
    (has (s.entry (ofs_dp t) (ofs_d t)) 1 ≡ true)
    × (has (s.entry (ofs_dp t) (ofs_d t)) 0x80 ≡ false)
    × (get_table (ofs_dp t) (ofs_d t) s ≢ 0)

-- No two entries of the directories have the same page table.
abbrev pub Separate : Paging → Type 0
Separate s =
    (t t' : ℕ)
    → get_table (ofs_dp t) (ofs_d t) s ≢ 0
    → get_table (ofs_dp t') (ofs_d t') s ≡ get_table (ofs_dp t) (ofs_d t) s
    → (ofs_dp t' ≡ ofs_dp t) × (ofs_d t' ≡ ofs_d t)

-- With its table there, a page is only written to it.
pub map_page-Ready :
    (phy t f : ℕ) (s : Paging)
    → has f 0x80 ≡ false
    → Ready t s
    → map_page phy t f s ≡ set_page phy t f s
unfolding map_page map_table add_table
map_page-Ready phy t f s small ready =
    let there : (get_table (ofs_dp t) (ofs_d t) s == 0) ≡ false = ground (arith, ready.2) in
    rw (small, ready.0, ready.1, there, ready.0) refl

pub set_page-Ready : (phy t f t' : ℕ) (s : Paging) → Ready t' s → Ready t' (set_page phy t f s)
unfolding set_page get_table
set_page-Ready phy t f t' s ready = ready

pub set_page-Separate : (phy t f : ℕ) (s : Paging) → Separate s → Separate (set_page phy t f s)
unfolding set_page get_table
set_page-Separate phy t f s separate = separate

same_page :
    (t t' : ℕ)
    → t < 0x1_0000_0000
    → t' < 0x1_0000_0000
    → ofs_dp t' ≡ ofs_dp t
    → ofs_d t' ≡ ofs_d t
    → ofs_t t' ≡ ofs_t t
    → t' / 0x1000 ≡ t / 0x1000
same_page t t' h k e1 e2 e3 = omega arith

write-other :
    (i j v i' j' : ℕ) (g : ℕ → ℕ → ℕ) → ¬ ((i' ≡ i) × (j' ≡ j)) → write i j v g i' j' ≡ g i' j'
unfolding write
write-other i j v i' j' g other = elim (Bool-cases (i' == i && j' == j)) [
  | inl same ↦ absurd (ground (arith, other))
  | inr differ ↦ rw differ refl
]

-- A page that is written leaves the others as they were.
pub set_page-keeps :
    (phy t f t' : ℕ) (s : Paging)
    → t < 0x1_0000_0000
    → t' < 0x1_0000_0000
    → t' / 0x1000 ≢ t / 0x1000
    → Ready t s
    → Separate s
    → translate_page t' (set_page phy t f s) ≡ translate_page t' s
unfolding translate_page set_page get_table
set_page-keeps phy t f t' s h k other ready separate =
    let place = get_table (ofs_dp t) (ofs_d t) s in
    let place' = get_table (ofs_dp t') (ofs_d t') s in
    let differ : ¬ ((place' ≡ place) × (ofs_t t' ≡ ofs_t t)) =
      λ e. let at = separate t t' ready.2 e.0 in other (same_page t t' h k at.0 at.1 e.1) in
    rw (write-other place (ofs_t t) (page_entry phy f) place' (ofs_t t') s.pte differ) refl

-- The page at `bega` and the `n` pages behind it are ready.
abbrev pub RangeReady : ℕ → ℕ → Paging → Type 0
RangeReady n bega s = (k : ℕ) → k ≤ n → Ready (bega + k * 0x1000) s

module _ (f : ℕ) (small : has f 0x80 ≡ false) where
  first-Ready : (n bega : ℕ) (s : Paging) → RangeReady n bega s → Ready bega s
  first-Ready n bega s ready =
      let here : bega + 0 * 0x1000 ≡ bega = omega arith in
      subst (λ a. Ready a s) here (ready 0 (omega arith))

  rest-RangeReady :
      (n phys bega : ℕ) (s : Paging)
      → RangeReady (suc n) bega s
      → RangeReady n (bega + 0x1000) (set_page phys bega f s)
  rest-RangeReady n phys bega s ready k h =
      let next : bega + suc k * 0x1000 ≡ bega + 0x1000 + k * 0x1000 = omega arith in
      set_page-Ready phys bega f (bega + 0x1000 + k * 0x1000) s
        (subst (λ a. Ready a s) next (ready (suc k) (omega arith)))

  -- The loop allocates nothing.
  pub map_pages-vmm :
      (n phys bega : ℕ) (s : Paging)
      → RangeReady n bega s
      → (map_pages 0x1000 n phys bega f s).vmm ≡ s.vmm
  unfolding map_pages set_page
  map_pages-vmm zero phys bega s ready =
      ap (λ t. t.vmm) (map_page-Ready phys bega f s small (first-Ready zero bega s ready))
  map_pages-vmm (suc n) phys bega s ready =
      let first = first-Ready (suc n) bega s ready in
      ap (λ t. (map_pages 0x1000 n (phys + 0x1000) (bega + 0x1000) f t).vmm)
        (map_page-Ready phys bega f s small first)
      ∙ map_pages-vmm n (phys + 0x1000) (bega + 0x1000) (set_page phys bega f s)
          (rest-RangeReady n phys bega s ready)

  -- The loop leaves the pages below it as they were.
  map_pages-keeps :
      (n phys bega t' : ℕ) (s : Paging)
      → bega + suc n * 0x1000 ≤ 0x1_0000_0000
      → t' / 0x1000 < bega / 0x1000
      → RangeReady n bega s
      → Separate s
      → translate_page t' (map_pages 0x1000 n phys bega f s) ≡ translate_page t' s
  unfolding map_pages
  map_pages-keeps zero phys bega t' s room below ready separate =
      let first = first-Ready zero bega s ready in
      rw (map_page-Ready phys bega f s small first) (
        set_page-keeps phys bega f t' s (omega (arith, room)) (omega (arith, room, below))
          (λ e. absurd (omega (arith, below, e))) first separate)
  map_pages-keeps (suc n) phys bega t' s room below ready separate =
      let first = first-Ready (suc n) bega s ready in
      rw (map_page-Ready phys bega f s small first) (
        map_pages-keeps n (phys + 0x1000) (bega + 0x1000) t' (set_page phys bega f s)
          (omega (arith, room)) (omega (arith, below)) (rest-RangeReady n phys bega s ready)
          (set_page-Separate phys bega f s separate)
        ∙ set_page-keeps phys bega f t' s (omega (arith, room)) (omega (arith, room, below))
            (λ e. absurd (omega (arith, below, e))) first separate)

  -- After the loop has mapped the small page at `bega` and the `n` behind it, `translate_page` gives the
  -- physical address of each byte of each of them, though later pages are written after it: where both ranges are
  -- at multiples of the page size and end at 4 GB or below it, the directories have a page table and no large page
  -- for each, and no two entries of the directories have the same page table.
  pub map_pages-translate :
      (n phys bega k o : ℕ) (s : Paging)
      → k ≤ n
      → o < 0x1000
      → phys % 0x1000 ≡ 0
      → bega % 0x1000 ≡ 0
      → phys + suc n * 0x1000 ≤ 0x1_0000_0000
      → bega + suc n * 0x1000 ≤ 0x1_0000_0000
      → RangeReady n bega s
      → Separate s
      → translate_page (bega + k * 0x1000 + o) (map_pages 0x1000 n phys bega f s)
        ≡ phys + k * 0x1000 + o
  unfolding map_pages
  map_pages-translate zero phys bega zero o s h small_o aligned at room_p room_b ready separate =
      let first = first-Ready zero bega s ready in
      let page : (bega + 0 * 0x1000 + o) / 0x1000 ≡ bega / 0x1000 = omega (arith, at, small_o) in
      rw (map_page-Ready phys bega f s small first) (
        set_page-translate phys bega (bega + 0 * 0x1000 + o) f s aligned (omega (arith, room_p))
          page first.2 first.0 first.1
        ∙ omega (arith, at, small_o))
  map_pages-translate zero phys bega (suc k) o s h small_o aligned at room_p room_b ready separate =
      absurd (omega (arith, h))
  map_pages-translate (suc n) phys bega zero o s h small_o aligned at room_p room_b ready separate =
      let first = first-Ready (suc n) bega s ready in
      let page : (bega + 0 * 0x1000 + o) / 0x1000 ≡ bega / 0x1000 = omega (arith, at, small_o) in
      let part : (bega + 0 * 0x1000 + o) % 0x1000 ≡ o = omega (arith, at, small_o) in
      rw (map_page-Ready phys bega f s small first) (
        map_pages-keeps n (phys + 0x1000) (bega + 0x1000) (bega + 0 * 0x1000 + o)
          (set_page phys bega f s) (omega (arith, room_b)) (omega (arith, page))
          (rest-RangeReady n phys bega s ready) (set_page-Separate phys bega f s separate)
        ∙ set_page-translate phys bega (bega + 0 * 0x1000 + o) f s aligned (omega (arith, room_p))
            page first.2 first.0 first.1
        ∙ omega (arith, part))
  map_pages-translate (suc n) phys bega (suc k) o s h small_o aligned at room_p room_b ready
        separate =
      let first = first-Ready (suc n) bega s ready in
      let next : bega + suc k * 0x1000 + o ≡ bega + 0x1000 + k * 0x1000 + o = omega arith in
      rw (map_page-Ready phys bega f s small first, next)
        (map_pages-translate n (phys + 0x1000) (bega + 0x1000) k o (set_page phys bega f s)
            (omega (arith, h)) small_o (omega (arith, aligned)) (omega (arith, at))
            (omega (arith, room_p)) (omega (arith, room_b)) (rest-RangeReady n phys bega s ready)
            (set_page-Separate phys bega f s separate)
          ∙ omega arith)
