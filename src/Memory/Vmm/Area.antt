-- ===== src/Memory/Vmm/Area.antt =====
-- Requests that need no page table: their virtual pages lie where there is one.
use xivix.Base.{
  ℕ, ◌+◌, ◌-◌, ◌*◌, ◌/◌, ◌%◌, ◌^◌, ◌≤◌, ◌<◌, ◌≡◌, refl, subst, arith, ◌≢◌, true, false, Bool-cases,
  inl, inr, has, bit_and, ltb, ◌==◌, some,
}
use xivix.Base.Word.{u32}
use xivix.Memory.{PageAllocator, extent_at}
use xivix.Memory.Table.{empties}
use xivix.Memory.Set.{IsTable, owners}
use xivix.Memory.Allocate.{Request, allocate}
use xivix.Memory.Allocate.Grant.{Granted, Served, allocate-Granted}
use xivix.Memory.Paging.{Paging, get_table, count_page_structs, ofs_dp, ofs_d}
use xivix.Memory.Paging.Range.{Ready, Separate}
use xivix.Memory.Vmm.{Vm, virtual, page_count, place_any, add_structs, kind_of}

-- The free virtual memory lies in the 2 MB of the entry `c` of the directories, with a page behind each, and this has
-- a page table.
pub record InArea (c : ℕ) (s : Paging) : Type 0 where
  pub some_area : 0 < c
  pub below : c < 2048
  pub inside : (t : ℕ) → owners 5 t s.vmm ≡ 1 → (t / 2 ^ 21 ≡ c) × ((t + 0x1000) / 2 ^ 21 ≡ c)
  pub table : Ready (c * 2 ^ 21) s
  pub separate : Separate s

pub page_count_pos : (l : ℕ) → 0 < l → 0 < page_count l
unfolding page_count
page_count_pos l h = ground (arith, h)

module _ (c : ℕ) (s : Paging) (area : InArea c s) where
  abbrev ReadyAt : ℕ → ℕ → Type 0
  ReadyAt dp d =
      (has (s.entry dp d) 1 ≡ true) × (has (s.entry dp d) 0x80 ≡ false) × (get_table dp d s ≢ 0)

  area-Ready : (t : ℕ) → t / 2 ^ 21 ≡ c → Ready t s
  area-Ready t at =
      let dp : ofs_dp (c * 2 ^ 21) ≡ ofs_dp t = omega (arith, at) in
      let d : ofs_d (c * 2 ^ 21) ≡ ofs_d t = omega (arith, at) in
      subst (ReadyAt (ofs_dp t)) d (subst (λ x. ReadyAt x (ofs_d (c * 2 ^ 21))) dp area.table)

  -- No page table has to be made for pages of the area.
  count-zero :
      (t n : ℕ) → t / 2 ^ 21 ≡ c → (t + n * 0x1000) / 2 ^ 21 ≡ c → count_page_structs t n s ≡ 0
  unfolding count_page_structs
  count-zero t n at at_end =
      let there : (get_table (ofs_dp t) (ofs_d t) s == 0) ≡ false =
        ground (arith, (area-Ready t at).2) in
      let in_32 : (t + 0x1000 * n) % 2 ^ 32 ≡ t + 0x1000 * n = omega (arith, at_end, area.below) in
      let d : (t + 0x1000 * n) / 2 ^ 21 % 512 ≡ t / 2 ^ 21 % 512 = omega (arith, at, at_end) in
      let dp : (t + 0x1000 * n) / 2 ^ 30 % 4 ≡ t / 2 ^ 30 % 4 = omega (arith, at, at_end) in
      elim (Bool-cases (bit_and (s.entry (ofs_dp t) (ofs_d t)) 0x81 == 0x81)) [
        | inl large ↦ rw large refl
        | inr other ↦ rw (other, there, in_32, d, dp) (omega arith)
      ]

-- There is virtual memory for `n` pages: a free extent that is long enough, in such an area.
pub record VirtualRoom (c n : ℕ) (s : Paging) : Type 0 where
  pub area : InArea c s
  pub table : IsTable s.vmm
  pub entries : 1 < empties s.vmm.extents
  pub extent : ℕ
  pub free : (extent_at s.vmm extent).flags ≡ 5
  pub long : n ≤ (extent_at s.vmm extent).length

pub room-Served :
    (request : Request Vm) (c n f : ℕ) (s : Vm)
    → 0 < n
    → f ≢ 0
    → f < 10
    → VirtualRoom c n s.paging
    → Served virtual n f s (allocate virtual request n f s)
room-Served request c n f s pos kind known room =
    allocate-Granted virtual n f s request room.extent room.table room.entries pos kind known
      room.free room.long

-- The virtual pages of a request, from what `allocate` gives.
pub place_any-Served :
    (request : Request Vm) (l flag mm : ℕ) (after : PageAllocator) (s : Vm)
    → allocate virtual request (page_count l) (kind_of flag) s ≡ (mm, virtual.put after s)
    → mm + page_count l * 0x1000 < 0x1_0000_0000
    → place_any request l flag s ≡ (some (mm, mm + page_count l * 0x1000), virtual.put after s)
unfolding place_any
place_any-Served request l flag mm after s e room =
    let n = page_count l in
    let start : u32 mm ≡ mm = omega (arith, room) in
    let stop : u32 (mm + n * 0x1000) ≡ mm + n * 0x1000 = omega (arith, room) in
    let in_order : ltb (mm + n * 0x1000) mm ≡ false = ground arith in
    rw (e, start, stop, in_order) refl

module _ (request : Request Vm) (f c n : ℕ) (s : Vm) (area : InArea c s.paging) (pos : 0 < n)
    (mm : ℕ) (after : PageAllocator) (taken : Granted n f s.paging.vmm mm after) where
  pub page_free : (k : ℕ) → k < n → owners 5 (mm + k * 0x1000) s.paging.vmm ≡ 1
  page_free k h = taken.free (mm + k * 0x1000) (omega arith) (omega (arith, h))

  pub page-Ready : (k : ℕ) → k < n → Ready (mm + k * 0x1000) s.paging
  page-Ready k h =
      area-Ready c s.paging area (mm + k * 0x1000) (area.inside (mm + k * 0x1000) (page_free k h)).0

  pub no_structs :
      add_structs request mm (mm + n * 0x1000) (virtual.put after s) ≡ (true, virtual.put after s)
  unfolding add_structs count_page_structs get_table
  no_structs =
      let pages : (mm + n * 0x1000 - mm) / 0x1000 ≡ n = omega arith in
      let last : mm + (n - 1) * 0x1000 + 0x1000 ≡ mm + n * 0x1000 = omega (arith, pos) in
      let at : mm / 2 ^ 21 ≡ c =
        (area.inside mm (taken.free mm (omega arith) (omega (arith, pos)))).0 in
      let at_end : (mm + n * 0x1000) / 2 ^ 21 ≡ c =
        subst (λ t. t / 2 ^ 21 ≡ c) last
          (area.inside (mm + (n - 1) * 0x1000) (page_free (n - 1) (omega (arith, pos)))).1 in
      let zero_structs : (count_page_structs mm n s.paging == 0) ≡ true =
        ground (arith, count-zero c s.paging area mm n at at_end) in
      rw (pages, zero_structs) refl

  pub mm_not_null : mm ≢ 0
  mm_not_null e =
      let at = (area.inside mm (taken.free mm (omega arith) (omega (arith, pos)))).0 in
      absurd (omega (arith, e, at, area.some_area))
