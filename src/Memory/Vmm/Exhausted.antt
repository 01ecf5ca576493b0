-- ===== src/Memory/Vmm/Exhausted.antt =====
-- `kmalloc` where no physical memory is free.
use xivix.Base.{
  ℕ, zero, suc, ◌+◌, ◌-◌, ◌*◌, ◌/◌, ◌<◌, ◌≡◌, refl, arith, ◌≢◌, false, Option-cases, inl, inr, ◌==◌,
}
use xivix.Memory.{PageAllocator, extent_at, find_type_extent, find_free_extent}
use xivix.Memory.Cover.{find_extent-some}
use xivix.Memory.Allocate.{Request, allocate}
use xivix.Memory.Allocate.Grant.{Granted}
use xivix.Memory.Vmm.{
  Vm, physical, virtual, page_count, map_flags, map_fresh, map_range, fill, kind_of, vmm_call,
  vmm_request, kmalloc,
}
use xivix.Memory.Vmm.Area.{VirtualRoom, page_count_pos, room-Served, place_any-Served, no_structs}

-- No extent is free.
abbrev pub Exhausted : PageAllocator → Type 0
Exhausted s = (i : ℕ) → (extent_at s i).flags ≢ 5

find_free_extent-Exhausted : (l : ℕ) (s : PageAllocator) → Exhausted s → find_free_extent l s ≡ s
unfolding find_free_extent find_type_extent
find_free_extent-Exhausted l s none_free = elim (Option-cases (find_type_extent l 5 s.extents)) [
  | inl missed ↦ rw missed refl
  | inr (i, found) ↦
      let hit = find_extent-some _ s.extents i found in absurd (none_free i (ground (arith, hit.1)))
]

allocate-Exhausted :
    (request : Request Vm) (l f : ℕ) (s : Vm)
    → Exhausted s.phymm
    → allocate physical request l f s ≡ (0, s)
unfolding allocate
allocate-Exhausted request l f s none_free =
    let not_free : ((extent_at s.phymm s.phymm.ifree).flags == 5) ≡ false =
      ground (arith, none_free s.phymm.ifree) in
    rw (not_free, find_free_extent-Exhausted l s.phymm none_free, not_free) refl

map_fresh-Exhausted :
    (request : Request Vm) (n bega f : ℕ) (s : Vm)
    → Exhausted s.phymm
    → map_fresh request 0x1000 (suc n) bega f s ≡ (false, s)
unfolding map_fresh
map_fresh-Exhausted request n bega f s none_free =
    rw (allocate-Exhausted request 1 8 s none_free) refl

-- What a request leaves that fails: `n` pages of virtual memory that were free are in use.
pub record Lost (n : ℕ) (s : Vm) (r : ℕ × Vm) : Type 0 where
  pub mm : ℕ
  pub after : PageAllocator
  pub result : r ≡ (0, virtual.put after s)
  pub lost : Granted n 8 s.paging.vmm mm after

vmm_call-Lost :
    (request : Request Vm) (l c : ℕ) (s : Vm)
    → 0 < l
    → VirtualRoom c (page_count l) s.paging
    → Exhausted s.phymm
    → Lost (page_count l) s (vmm_call request l 0 0 6 s)
unfolding vmm_call kind_of fill map_range
vmm_call-Lost request l c s pos vroom none_free =
    let n = page_count l in
    let some_pages = page_count_pos l pos in
    let served = room-Served request c n 8 s some_pages (omega arith) (omega arith) vroom in
    let mm = served.mm in
    let after = served.after in
    let placed = place_any-Served request l 6 mm after s served.result served.granted.place.1 in
    let structs = no_structs request 8 c n s vroom.area some_pages mm after served.granted in
    record {
      mm = mm;
      after = after;
      result =
          rw
            (
              placed,
              structs,
              map_fresh-Exhausted request ((mm + n * 0x1000 - mm - 1) / 0x1000) mm (map_flags 6)
                  (virtual.put after s) none_free,
            )
            refl;
      lost = served.granted;
    }

-- `kmalloc` where no physical memory is free gives 0, but the virtual pages that it took stay in use: they were free, no
-- one has their address, and nothing else changes. There is virtual memory for the request, as for `kmalloc` that
-- succeeds.
pub kmalloc-Lost :
    (depth l c : ℕ) (s : Vm)
    → 0 < l
    → VirtualRoom c (page_count l) s.paging
    → Exhausted s.phymm
    → Lost (page_count l) s (kmalloc depth l s)
unfolding kmalloc vmm_request
kmalloc-Lost zero l c s pos vroom none_free =
    vmm_call-Lost (λ n t. (0, t)) l c s pos vroom none_free
kmalloc-Lost (suc depth) l c s pos vroom none_free =
    vmm_call-Lost (λ n t. vmm_request depth n 0 0 6 t) l c s pos vroom none_free
