-- ===== src/Memory/Vmm/Device.antt =====
-- A request of the driver of a device: virtual pages for the physical memory that it names.
use xivix.Base.{
  ℕ, zero, suc, ◌+◌, ◌-◌, ◌*◌, ◌/◌, ◌%◌, ◌≤◌, ◌<◌, ◌≡◌, refl, sym, subst, arith, ◌≢◌, true, false,
  Bool, has, some, if◌then◌else◌,
}
use xivix.Memory.{PageAllocator}
use xivix.Memory.Allocate.{Request}
use xivix.Memory.Allocate.Grant.{Granted}
use xivix.Memory.Paging.{translate_page, get_table, map_pages}
use xivix.Memory.Paging.Range.{RangeReady, map_pages-vmm, map_pages-translate}
use xivix.Memory.Vmm.{
  Vm, virtual, page_count, map_range, map_flags, fill, kind_of, vmm_call, vmm_request,
}
use xivix.Memory.Vmm.Area.{
  VirtualRoom, page_count_pos, room-Served, place_any-Served, page-Ready, no_structs, mm_not_null,
}

-- `n` pages of virtual memory that were free are those of the device at `phys`.
pub record Device (n phys : ℕ) (s : Vm) (bega : ℕ) (s' : Vm) : Type 0 where
  pub not_null : bega ≢ 0
  pub virtual_pages : Granted n 3 s.paging.vmm bega s'.paging.vmm
  pub bytes :
      (k o : ℕ)
      → k < n
      → o < 0x1000
      → translate_page (bega + k * 0x1000 + o) s'.paging ≡ phys + k * 0x1000 + o
  pub same_memory : s'.phymm ≡ s.phymm

flags_small :
    (a b c : Bool)
    → has ((if a then 2 else 0) + (if b then 0x10 else 0) + (if c then 8 else 0) + 0) 0x80 ≡ false
flags_small true true true = refl
flags_small true true false = refl
flags_small true false true = refl
flags_small true false false = refl
flags_small false true true = refl
flags_small false true false = refl
flags_small false false true = refl
flags_small false false false = refl

map_flags_small : (flag : ℕ) → has flag 0x80 ≡ false → has (map_flags flag) 0x80 ≡ false
unfolding map_flags
map_flags_small flag small = rw small (flags_small (has flag 0x2) (has flag 0x800) (has flag 0x400))

module _ (request : Request Vm) (flag phys c n : ℕ) (s : Vm) (pos : 0 < n)
    (small : has flag 0x80 ≡ false) (given : has flag 0x4 ≡ false) (aligned : phys % 0x1000 ≡ 0)
    (reach : phys + n * 0x1000 ≤ 0x1_0000_0000) (vroom : VirtualRoom c n s.paging) (mm : ℕ)
    (after : PageAllocator) (taken : Granted n 3 s.paging.vmm mm after) where
  abbrev s1 : Vm
  s1 = virtual.put after s

  range_ready : RangeReady (n - 1) mm s1.paging
  unfolding get_table
  range_ready k h =
      page-Ready request 3 c n s vroom.area pos mm after taken k (omega (arith, h, pos))

  range_lem :
      map_range request mm (mm + n * 0x1000) phys flag s1
      ≡ (mm, record s1 { paging = map_pages 0x1000 (n - 1) phys mm (map_flags flag) s1.paging })
  unfolding map_range
  range_lem =
      let rounds : (mm + n * 0x1000 - mm - 1) / 0x1000 ≡ n - 1 = omega (arith, pos) in
      rw (small, given, rounds) refl

  fill-Device :
      let r = fill request phys flag (some (mm, mm + n * 0x1000), s1) in Device n phys s r.0 r.1
  unfolding fill get_table
  fill-Device =
      let f = map_flags flag in
      let small_f = map_flags_small flag small in
      let same = map_pages-vmm f small_f (n - 1) phys mm s1.paging range_ready in
      rw (small, no_structs request 3 c n s vroom.area pos mm after taken, range_lem)
        (record {
          not_null = mm_not_null request 3 c n s vroom.area pos mm after taken;
          virtual_pages = subst (Granted n 3 s.paging.vmm mm) (sym same) taken;
          bytes = λ k o h small_o.
              map_pages-translate f small_f (n - 1) phys mm k o s1.paging (omega (arith, h)) small_o
                aligned taken.place.0 (omega (arith, reach, pos))
                (omega (arith, taken.place.1, pos)) range_ready vroom.area.separate;
          same_memory = refl;
        })

vmm_call-Device :
    (request : Request Vm) (l c hint phys flag : ℕ) (s : Vm)
    → 0 < l
    → has flag 0x1 ≡ false
    → has flag 0x4 ≡ false
    → has flag 0x80 ≡ false
    → phys % 0x1000 ≡ 0
    → phys + page_count l * 0x1000 ≤ 0x1_0000_0000
    → VirtualRoom c (page_count l) s.paging
    → let r = vmm_call request l hint phys flag s in Device (page_count l) phys s r.0 r.1
unfolding vmm_call kind_of
vmm_call-Device request l c hint phys flag s pos no_hint given small aligned reach vroom =
    let n = page_count l in
    let some_pages = page_count_pos l pos in
    let served = room-Served request c n 3 s some_pages (omega arith) (omega arith) vroom in
    let placed =
      place_any-Served request l flag served.mm served.after s (rw given served.result)
        served.granted.place.1 in
    rw (no_hint, placed)
      (fill-Device request flag phys c n s some_pages small given aligned reach vroom served.mm
        served.after served.granted)

-- A request for the memory of a device, without a hint, of small pages: it gives virtual pages that were free, not the
-- page 0, that translate to the physical pages from `phys` on, each byte to its own, takes no physical memory, and
-- changes the owner of no other virtual page. The physical pages are whole and below 4 GB; the table of virtual
-- memory is one of extents below 4 GB without overlaps, with two empty entries and a free extent that is long enough;
-- the free virtual memory lies, with a page behind each, in 2 MB that have a page table. No number of calls inside the
-- call is needed.
pub vmm_request-Device :
    (depth l c hint phys flag : ℕ) (s : Vm)
    → 0 < l
    → has flag 0x1 ≡ false
    → has flag 0x4 ≡ false
    → has flag 0x80 ≡ false
    → phys % 0x1000 ≡ 0
    → phys + page_count l * 0x1000 ≤ 0x1_0000_0000
    → VirtualRoom c (page_count l) s.paging
    → let r = vmm_request depth l hint phys flag s in Device (page_count l) phys s r.0 r.1
unfolding vmm_request
vmm_request-Device zero l c hint phys flag s pos no_hint given small aligned reach vroom =
    vmm_call-Device (λ n t. (0, t)) l c hint phys flag s pos no_hint given small aligned reach vroom
vmm_request-Device (suc depth) l c hint phys flag s pos no_hint given small aligned reach vroom =
    vmm_call-Device (λ n t. vmm_request depth n 0 0 6 t) l c hint phys flag s pos no_hint given
      small aligned reach vroom
