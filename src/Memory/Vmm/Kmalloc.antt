-- ===== src/Memory/Vmm/Kmalloc.antt =====
-- `kmalloc` where no page table has to be made: virtual pages that were free, each with memory of its own.
use xivix.Base.{
  ℕ, zero, suc, ◌+◌, ◌-◌, ◌*◌, ◌/◌, ◌%◌, ◌≤◌, ◌<◌, ◌≡◌, refl, sym, subst, arith, ◌≢◌, some,
}
use xivix.Memory.{PageAllocator}
use xivix.Memory.Table.{empties}
use xivix.Memory.Set.{IsTable, owners}
use xivix.Memory.Allocate.{Request}
use xivix.Memory.Allocate.Grant.{Granted}
use xivix.Memory.Paging.{translate_page, get_table}
use xivix.Memory.Vmm.{
  Vm, virtual, page_count, map_range, map_flags, fill, kind_of, map_fresh, vmm_call, vmm_request,
  kmalloc,
}
use xivix.Memory.Vmm.Fresh.{free_in}
use xivix.Memory.Vmm.Mapped.{Mapped, Able, map_fresh-Mapped}
use xivix.Memory.Vmm.Area.{
  VirtualRoom, page_count_pos, room-Served, place_any-Served, page-Ready, no_structs, mm_not_null,
}

-- There is physical memory for `n` pages: free pages among the `m` at `b`, not the page 0, and entries of the table.
pub record PhysicalRoom (b m n : ℕ) (s : PageAllocator) : Type 0 where
  pub aligned : b % 0x1000 ≡ 0
  pub table : IsTable s
  pub entries : 2 * n < empties s.extents
  pub enough : n ≤ free_in b m s
  pub null : owners 5 0 s ≡ 0

-- What `kmalloc` gives: `n` pages of virtual memory that were free, each with a page of physical memory of its own.
pub record Allocated (n : ℕ) (s : Vm) (bega : ℕ) (s' : Vm) : Type 0 where
  pub not_null : bega ≢ 0
  pub virtual_pages : Granted n 8 s.paging.vmm bega s'.paging.vmm
  pub physical_pages : Mapped n bega s s'

module _ (request : Request Vm) (c b m n : ℕ) (s : Vm) (pos : 0 < n)
    (vroom : VirtualRoom c n s.paging) (room : PhysicalRoom b m n s.phymm) (mm : ℕ)
    (after : PageAllocator) (taken : Granted n 8 s.paging.vmm mm after) where
  abbrev s1 : Vm
  s1 = virtual.put after s

  able : Able b m n mm s1
  unfolding get_table
  able = record {
    table = room.table;
    room = room.entries;
    enough = room.enough;
    null = room.null;
    ready = page-Ready request 8 c n s vroom.area pos mm after taken;
    separate = vroom.area.separate;
    start = taken.place.0;
    stop = omega (arith, taken.place.1);
  }

  range_lem :
      map_range request mm (mm + n * 0x1000) 0 6 s1 ≡ (mm, (map_fresh request 0x1000 n mm 2 s1).1)
  unfolding map_range map_flags
  range_lem =
      let rounds : suc ((mm + n * 0x1000 - mm - 1) / 0x1000) ≡ n = omega (arith, pos) in
      let done = (map_fresh-Mapped request 2 refl b m room.aligned n mm s1 able).0 in
      rw (rounds, done) refl

  fill-Allocated :
      let r = fill request 0 6 (some (mm, mm + n * 0x1000), s1) in Allocated n s r.0 r.1
  unfolding fill translate_page get_table
  fill-Allocated =
      let (done, same_vmm, mapped) =
        map_fresh-Mapped request 2 refl b m room.aligned n mm s1 able in
      rw (no_structs request 8 c n s vroom.area pos mm after taken, range_lem)
        (record {
          not_null = mm_not_null request 8 c n s vroom.area pos mm after taken;
          virtual_pages = subst (Granted n 8 s.paging.vmm mm) (sym same_vmm) taken;
          physical_pages = record {
            bytes = mapped.bytes;
            free = mapped.free;
            owned = mapped.owned;
            apart = mapped.apart;
            below = mapped.below;
            kept = mapped.kept;
          };
        })

vmm_call-Allocated :
    (request : Request Vm) (l c b m : ℕ) (s : Vm)
    → 0 < l
    → VirtualRoom c (page_count l) s.paging
    → PhysicalRoom b m (page_count l) s.phymm
    → let r = vmm_call request l 0 0 6 s in Allocated (page_count l) s r.0 r.1
unfolding vmm_call kind_of
vmm_call-Allocated request l c b m s pos vroom room =
    let n = page_count l in
    let some_pages = page_count_pos l pos in
    let served = room-Served request c n 8 s some_pages (omega arith) (omega arith) vroom in
    let placed =
      place_any-Served request l 6 served.mm served.after s served.result served.granted.place.1 in
    rw placed
      (fill-Allocated request c b m n s some_pages vroom room served.mm served.after served.granted)

-- `kmalloc` of `l` bytes gives memory: virtual pages that were free and are in use now, not the page 0, each with its own
-- page of physical memory that was free and is in use now; every byte is found there, and pages below are found where
-- they were. No other virtual page changes its owner, nor does physical memory that was not free. Both allocators
-- have tables of extents below 4 GB without overlaps and empty entries for what they use, there is a free
-- extent of virtual memory that is long enough, and as many free pages of physical memory among the `m` at `b`, not the
-- page 0; the free virtual memory lies, with a page behind each, in 2 MB that have a page table. No number of
-- calls inside the call is needed.
pub kmalloc-Allocated :
    (depth l c b m : ℕ) (s : Vm)
    → 0 < l
    → VirtualRoom c (page_count l) s.paging
    → PhysicalRoom b m (page_count l) s.phymm
    → let r = kmalloc depth l s in Allocated (page_count l) s r.0 r.1
unfolding kmalloc vmm_request
kmalloc-Allocated zero l c b m s pos vroom room =
    vmm_call-Allocated (λ n t. (0, t)) l c b m s pos vroom room
kmalloc-Allocated (suc depth) l c b m s pos vroom room =
    vmm_call-Allocated (λ n t. vmm_request depth n 0 0 6 t) l c b m s pos vroom room
