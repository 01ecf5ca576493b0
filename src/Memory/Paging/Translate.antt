-- ===== src/Memory/Paging/Translate.antt =====
-- `translate_page` finds what `map_page` maps.
use xivix.Base.{
  ℕ, ◌+◌, ◌/◌, ◌%◌, ◌≤◌, ◌<◌, ◌≡◌, refl, bit_and, true, false, ◌==◌, ◌&&◌, has, arith, ◌≢◌, ◌⊎◌,
  Bool-cases, inl, inr, sym, ◌∙◌,
}
use xivix.Base.Word.{u32}
use xivix.Memory.{PageAllocator, allocate_res}
use xivix.Memory.Paging.{
  Paging, write, index_entry, get_table, ofs_dp, ofs_d, ofs_t, translate_page, add_table, new_table,
  map_table, set_page, map_page,
}
use xivix.Memory.Paging.Entry.{
  page_entry-address, join_address, dir_entry_flags, index_entry-address,
}

module _ (dp d : ℕ) (s : Paging) where
  -- There is a page table, or the reserve has a page for one.
  abbrev pub HasTable : Type 0
  HasTable = (get_table dp d s ≢ 0) ⊎ (0x1000 ≤ u32 (allocate_res 1 8 s.vmm).0)

  new_table-table :
      (r : ℕ × PageAllocator)
      → get_table dp d (new_table dp d r s) ≡ bit_and (index_entry (u32 r.0)) 0xffff_f000
  unfolding new_table get_table write
  new_table-table (ptr, vmm) = ground arith

  add_table-table : HasTable → get_table dp d (add_table dp d s) ≢ 0
  unfolding add_table
  add_table-table ok = elim (Bool-cases (get_table dp d s == 0)) [
    | inr there ↦ rw there (λ e. absurd (ground arith))
    | inl missing ↦
        let r = allocate_res 1 8 s.vmm in
        let room : 0x1000 ≤ u32 r.0 = elim ok [
          | inl there ↦ absurd (ground arith)
          | inr room ↦ room
        ] in
        rw missing (λ e.
          absurd
            (omega (arith, e, new_table-table r, index_entry-address (u32 r.0) (omega arith) room)))
  ]

  add_table-entry : (i j : ℕ) → (add_table dp d s).entry i j ≡ s.entry i j
  unfolding add_table new_table
  add_table-entry i j = ground arith

  module _ (small : (has (s.entry dp d) 1 && has (s.entry dp d) 0x80) ≡ false) where
    map_table_flags :
        (has ((map_table dp d s).entry dp d) 1 ≡ true)
        × (has ((map_table dp d s).entry dp d) 0x80 ≡ false)
    unfolding map_table write
    map_table_flags = ground (arith, small, dir_entry_flags (translate_page (get_table dp d s) s))

  map_table-index : get_table dp d (map_table dp d s) ≡ get_table dp d s
  unfolding map_table get_table
  map_table-index = ground arith

pub get_table-set_page :
    (dp d phy t f : ℕ) (s : Paging) → get_table dp d (set_page phy t f s) ≡ get_table dp d s
unfolding get_table set_page
get_table-set_page dp d phy t f s = refl

pub set_page-translate :
    (phy t t' f : ℕ) (s : Paging)
    → phy % 0x1000 ≡ 0
    → phy < 0x1_0000_0000
    → t' / 0x1000 ≡ t / 0x1000
    → get_table (ofs_dp t) (ofs_d t) s ≢ 0
    → has (s.entry (ofs_dp t) (ofs_d t)) 1 ≡ true
    → has (s.entry (ofs_dp t) (ofs_d t)) 0x80 ≡ false
    → translate_page t' (set_page phy t f s) ≡ phy + t' % 0x1000
unfolding translate_page set_page write
set_page-translate phy t t' f s aligned below page table is_present not_large =
    let e1 : ofs_dp t' ≡ ofs_dp t = omega (arith, page) in
    let e2 : ofs_d t' ≡ ofs_d t = omega (arith, page) in
    let e3 : ofs_t t' ≡ ofs_t t = omega (arith, page) in
    let there : (get_table (ofs_dp t) (ofs_d t) s == 0) ≡ false = ground (arith, table) in
    let table_same : (get_table (ofs_dp t) (ofs_d t) s == get_table (ofs_dp t) (ofs_d t) s) ≡ true =
      ground arith in
    let place_same : (ofs_t t == ofs_t t) ≡ true = ground arith in
    rw
      (
        e1,
        e2,
        e3,
        is_present,
        not_large,
        get_table-set_page (ofs_dp t) (ofs_d t) phy t f s,
        there,
        table_same,
        place_same,
        page_entry-address phy f aligned below,
      )
      (join_address phy t' aligned)

-- After `map_page` of a small page, `translate_page` gives the physical address of each byte of the page:
-- where the page is at a multiple of its size below 4 GB, the directory has no large page there, and there is
-- a page table or the reserve has a page for one.
pub map_page-translate :
    (phy t t' f : ℕ) (s : Paging)
    → phy % 0x1000 ≡ 0
    → phy < 0x1_0000_0000
    → t' / 0x1000 ≡ t / 0x1000
    → has f 0x80 ≡ false
    → (has (s.entry (ofs_dp t) (ofs_d t)) 1 && has (s.entry (ofs_dp t) (ofs_d t)) 0x80) ≡ false
    → HasTable (ofs_dp t) (ofs_d t) s
    → translate_page t' (map_page phy t f s) ≡ phy + t' % 0x1000
unfolding map_page
map_page-translate phy t t' f s aligned below page small free table =
    let dp : ℕ = ofs_dp t in
    let d : ℕ = ofs_d t in
    let s1 = add_table dp d s in
    let s2 = map_table dp d s1 in
    let free1 : (has (s1.entry dp d) 1 && has (s1.entry dp d) 0x80) ≡ false =
      rw (add_table-entry dp d s dp d) free in
    let flags = map_table_flags dp d s1 free1 in
    rw (small, free)
      (set_page-translate phy t t' f s2 aligned below page
        (λ e. add_table-table dp d s table (sym (map_table-index dp d s1) ∙ e)) flags.0 flags.1)
