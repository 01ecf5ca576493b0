-- ===== src/Memory/Vmm/Tests.antt =====
-- A `kmalloc` of two pages, with 256 free pages of each memory, and an address after `initialize`.
use xivix.Base.{
  zero, suc, get_or, replicate, ◌≢◌, [], ℕ, ◌≤◌, ◌<◌, ◌≡◌, refl, arith, ap, ltb, leb, ◌&&◌,
  if◌then◌else◌,
}
use xivix.Memory.{unset_extent, PageAllocator, init_allocator, extent_at, set_extent}
use xivix.Memory.Tests.{
  program, one_table, one_table-get, one_table-Separate, one_free, empties-one_free,
  one_free-IsTable, init_allocator-IsTable, init_allocator-Clear, empties-init_allocator,
  cover_sum-replicate,
}
use xivix.Memory.Cover.{of_kind}
use xivix.Memory.Table.{empties}
use xivix.Memory.Set.{IsTable, owners, set_extent-owners, set_extent-IsTable}
use xivix.Memory.Paging.{translate_page, Paging, get_table}
use xivix.Memory.Start.{initialize, initialize-translate}
use xivix.Memory.Vmm.{Vm, page_count, kmalloc, vmm_request}
use xivix.Memory.Vmm.Fresh.{free_in}
use xivix.Memory.Vmm.Kmalloc.{PhysicalRoom, Allocated, kmalloc-Allocated}
use xivix.Memory.Vmm.Area.{InArea, VirtualRoom}
use xivix.Memory.Vmm.Exhausted.{Exhausted, Lost, kmalloc-Lost}
use xivix.Memory.Vmm.Device.{Device, vmm_request-Device}

-- 256 free pages of virtual memory, in the area of the page table.
abbrev kernel_free : PageAllocator
kernel_free = set_extent 0xc040_0000 256 5 init_allocator

kernel_free-IsTable : IsTable kernel_free
kernel_free-IsTable =
    set_extent-IsTable 0xc040_0000 256 5 init_allocator init_allocator-IsTable
      (omega (arith, empties-init_allocator)) (omega arith) (omega arith)
      (init_allocator-Clear 0xc040_0000 256)

empties-kernel_free : empties kernel_free.extents ≡ 126
unfolding program
empties-kernel_free = refl

extent-kernel_free :
    extent_at kernel_free 0 ≡ record { flags = 5; base = 0xc040_0000; length = 256 }
unfolding program
extent-kernel_free = refl

no_owners : (g a : ℕ) → owners g a init_allocator ≡ 0
unfolding owners init_allocator
no_owners g a = cover_sum-replicate (of_kind g) a 127 refl

kernel_free_inside : (t : ℕ) → owners 5 t kernel_free ≡ 1 → (0xc040_0000 ≤ t) × (t < 0xc050_0000)
kernel_free_inside t h =
    let e =
      set_extent-owners 0xc040_0000 256 5 5 t init_allocator init_allocator-IsTable
        (omega (arith, empties-init_allocator)) (omega arith) (omega arith)
        (init_allocator-Clear 0xc040_0000 256) in
    ground (arith, e, h, no_owners 5 t)

one_free-owners :
    (a : ℕ) → owners 5 a one_free ≡ (if leb 0x10_0000 a && ltb a 0x20_0000 then 1 else 0)
one_free-owners a =
    let e =
      set_extent-owners 0x10_0000 256 5 5 a init_allocator init_allocator-IsTable
        (omega (arith, empties-init_allocator)) (omega arith) (omega arith)
        (init_allocator-Clear 0x10_0000 256) in
    ground (arith, e, no_owners 5 a)

abbrev paging : Paging
paging = record one_table { vmm = kernel_free }

paging-InArea : InArea 1538 paging
unfolding get_table
paging-InArea = record {
  some_area = omega arith;
  below = omega arith;
  inside = λ t h. let at = kernel_free_inside t h in (omega (arith, at), omega (arith, at));
  table = (refl, refl, λ e. absurd (omega (arith, e, one_table-get 3 2)));
  separate = one_table-Separate;
}

abbrev vm : Vm
vm = record { paging = paging; phymm = one_free }

three_free : free_in 0x10_0000 3 one_free ≡ 3
unfolding free_in
three_free =
    omega (arith, one_free-owners 0x10_0000, one_free-owners 0x10_1000, one_free-owners 0x10_2000)

two_pages : page_count 0x1001 ≡ 2
unfolding page_count
two_pages = refl

device_pages : page_count 0x2_0000 ≡ 32
unfolding page_count
device_pages = refl

vm-VirtualRoom : (n : ℕ) → n ≤ 256 → VirtualRoom 1538 n paging
vm-VirtualRoom n h = record {
  area = paging-InArea;
  table = kernel_free-IsTable;
  entries = omega (arith, empties-kernel_free);
  extent = 0;
  free = ap (λ e. e.flags) extent-kernel_free;
  long = omega (arith, h, ap (λ e. e.length) extent-kernel_free);
}

vm-PhysicalRoom : PhysicalRoom 0x10_0000 3 (page_count 0x1001) one_free
vm-PhysicalRoom = record {
  aligned = refl;
  table = one_free-IsTable;
  entries = omega (arith, two_pages, empties-one_free);
  enough = omega (arith, two_pages, three_free);
  null = one_free-owners 0;
}

kmalloc-Allocated_example : let r = kmalloc 0 0x1001 vm in Allocated (page_count 0x1001) vm r.0 r.1
kmalloc-Allocated_example =
    kmalloc-Allocated 0 0x1001 1538 0x10_0000 3 vm (omega arith)
      (vm-VirtualRoom (page_count 0x1001) (omega (arith, two_pages))) vm-PhysicalRoom

-- The registers of a device, 128 KB, without caches.
vmm_request-Device_example :
    let r = vmm_request 0 0x2_0000 0 0xfebc_0000 0xc02 vm in
    Device (page_count 0x2_0000) 0xfebc_0000 vm r.0 r.1
vmm_request-Device_example =
    vmm_request-Device 0 0x2_0000 1538 0 0xfebc_0000 0xc02 vm (omega arith) refl refl refl refl
      (omega (arith, device_pages))
      (vm-VirtualRoom (page_count 0x2_0000) (omega (arith, device_pages)))

-- Without any physical memory.
abbrev poor : Vm
poor = record vm { phymm = init_allocator }

init_allocator-Exhausted : Exhausted init_allocator
unfolding init_allocator
init_allocator-Exhausted i = unset_flags 127 i
  where
    unset_flags : (n i : ℕ) → (get_or (replicate n unset_extent) i unset_extent).flags ≢ 5
    unset_flags zero i e = absurd (omega (arith, e))
    unset_flags (suc n) zero e = absurd (omega (arith, e))
    unset_flags (suc n) (suc i) e = unset_flags n i e

kmalloc-Lost_example : Lost (page_count 0x1001) poor (kmalloc 0 0x1001 poor)
kmalloc-Lost_example =
    kmalloc-Lost 0 0x1001 1538 poor (omega arith)
      (vm-VirtualRoom (page_count 0x1001) (omega (arith, two_pages))) init_allocator-Exhausted

initialize-translate_example :
    translate_page 0xc001_2345
      (initialize (λ n s. (0, s)) (λ n s. (0, s)) 0xc010_0000 0x10_0000 0xc018_0000 [] vm).paging
    ≡ 0x1_2345
initialize-translate_example =
    initialize-translate (λ n s. (0, s)) (λ n s. (0, s)) 0xc010_0000 0x10_0000 0xc018_0000 [] vm
      0xc001_2345 (omega arith)
