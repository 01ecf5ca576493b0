-- ===== src/Memory/Start.antt =====
-- kernel/memory.cpp: `initialize`. The addresses of the kernel are those that the linker gives; the page directories and
-- their indices are zeros or whatever was in their memory.
use xivix.Base.{
  ℕ, zero, suc, ◌+◌, ◌*◌, ◌/◌, ◌%◌, ◌^◌, ◌<◌, ◌≡◌, refl, arith, ◌∙◌, bit_and, bit_or, Bool-cases,
  inl, inr, List, if◌then◌else◌, ◌==◌, ◌&&◌, ltb, true, false,
}
use xivix.Base.Bits.{bit_and_mask, zero-bit_or}
use xivix.Base.Word.{u32, sub32}
use xivix.Memory.{
  PageAllocator, init_allocator, page_size, mx_free, mx_fixed, mx_alloc, mx_pre, set_extent,
}
use xivix.Memory.Load.{MemMap, load_memmap}
use xivix.Memory.Allocate.{Request, allocate}
use xivix.Memory.Paging.{
  Paging, write, dir_entry, index_entry, pg_present, pg_writable, pg_large, translate_page, ofs_dp,
  ofs_d,
}
use xivix.Memory.Vmm.{Vm, physical, virtual}

-- The pages of the kernel, and those up to the end of its last large page.
unfoldable pub kernel_pages : ℕ → ℕ → ℕ
kernel_pages kv_start kv_end = sub32 kv_end kv_start / 2 ^ 12

unfoldable pub reserved_after : ℕ → ℕ
reserved_after k_pages =
    let k_lg_pages = k_pages / 2 ^ 9 + (if k_pages % 512 == 0 then 0 else 1) in
    sub32 (u32 (k_lg_pages * 2 ^ 9)) k_pages

-- The kernel in a table: its pages, and those behind it in reserve.
unfoldable pub add_kernel : ℕ → ℕ → PageAllocator → PageAllocator
add_kernel start k_pages s =
    set_extent (u32 (start + k_pages * page_size)) (reserved_after k_pages) mx_pre
      (set_extent start k_pages mx_fixed s)

-- The physical memory. `early` is what `vmm_request` does before `vmm` has a table.
unfoldable pub init_physical : Request Vm → ℕ → ℕ → List MemMap → Vm → Vm
init_physical early kp_start k_pages map s =
    let a = add_kernel kp_start k_pages (load_memmap map init_allocator) in
    let dirs = allocate physical early 8 mx_alloc (physical.put a s) in
    (allocate physical early 2 mx_alloc dirs.1).1

-- The virtual memory: the last gigabyte but 16 pages, with the first megabyte and the kernel in use.
unfoldable pub init_virtual : Request Vm → ℕ → ℕ → Vm → Vm
init_virtual request kv_start k_pages s =
    let top = set_extent 0xc000_0000 0x3_fff0 mx_free init_allocator in
    let a = add_kernel kv_start k_pages (set_extent 0xc000_0000 0x100 mx_fixed top) in
    let dirs = allocate virtual request 8 mx_alloc (virtual.put a s) in
    (allocate virtual request 2 mx_alloc dirs.1).1

-- The first `n` entries of the row `i`.
unfoldable pub fill_row : ℕ → ℕ → ℕ → (ℕ → ℕ → ℕ) → ℕ → ℕ → ℕ
fill_row zero i v f = f
fill_row (suc n) i v f = write i n v (fill_row n i v f)

-- A directory and its index, with no entry.
unfoldable pub clear_dir : ℕ → Paging → Paging
clear_dir i s = record s {
  entry = fill_row 512 i (dir_entry 0 0) s.entry;
  index = fill_row 512 i (index_entry 0) s.index;
}

-- The directories: the first large page of the last gigabyte, and no other page.
unfoldable pub init_directories : Paging → Paging
init_directories s =
    let cleared = clear_dir 2 (clear_dir 1 (clear_dir 0 (clear_dir 3 s))) in
    record cleared {
      entry =
          write 3 0 (dir_entry 0 (bit_or pg_large (bit_or pg_writable pg_present))) cleared.entry;
    }

-- `initialize`
unfoldable pub initialize : Request Vm → Request Vm → ℕ → ℕ → ℕ → List MemMap → Vm → Vm
initialize early request kv_start kp_start kv_end map s =
    let k_pages = kernel_pages kv_start kv_end in
    let ready =
      init_virtual request kv_start k_pages (init_physical early kp_start k_pages map s) in
    record ready { paging = init_directories ready.paging }

fill_row_lem :
    (n i v : ℕ) (f : ℕ → ℕ → ℕ) (i' j : ℕ)
    → fill_row n i v f i' j ≡ (if i' == i && ltb j n then v else f i' j)
unfolding fill_row write
fill_row_lem zero i v f i' j = ground arith
fill_row_lem (suc n) i v f i' j = ground (arith, fill_row_lem n i v f i' j)

-- An entry of the directories after `init_directories`.
entry-init_directories :
    (s : Paging) (i j : ℕ)
    → i < 4
    → j < 512
    → (init_directories s).entry i j ≡ (if i == 3 && j == 0 then 0x83 else 0)
unfolding init_directories clear_dir write dir_entry
entry-init_directories s i j row column = ground (
  arith,
  fill_row_lem 512 2 0 (fill_row 512 1 0 (fill_row 512 0 0 (fill_row 512 3 0 s.entry))) i j,
  fill_row_lem 512 1 0 (fill_row 512 0 0 (fill_row 512 3 0 s.entry)) i j,
  fill_row_lem 512 0 0 (fill_row 512 3 0 s.entry) i j,
  fill_row_lem 512 3 0 s.entry i j,
)

-- After `initialize` the 2 MB at 0xc0000000 are the first 2 MB of physical memory, and no other address below 4 GB
-- is mapped, whatever the memory map is, and whatever the directories held.
pub initialize-translate :
    (early request : Request Vm) (kv_start kp_start kv_end : ℕ) (map : List MemMap) (s : Vm) (t : ℕ)
    → t < 0x1_0000_0000
    → translate_page t (initialize early request kv_start kp_start kv_end map s).paging
      ≡ (if t / 2 ^ 21 == 0x600 then t % 2 ^ 21 else 0)
unfolding initialize translate_page
initialize-translate early request kv_start kp_start kv_end map s t below =
    let k_pages = kernel_pages kv_start kv_end in
    let ready =
      init_virtual request kv_start k_pages (init_physical early kp_start k_pages map s) in
    let e = entry-init_directories ready.paging (ofs_dp t) (ofs_d t) (omega arith) (omega arith) in
    elim (Bool-cases (t / 2 ^ 21 == 0x600)) [
      | inl first ↦
          let at : (ofs_dp t == 3 && ofs_d t == 0) ≡ true = ground (arith, first) in
          rw (first, e, at) (zero-bit_or (bit_and t 0x1f_ffff) ∙ bit_and_mask 21 t)
      | inr other ↦
          let at : (ofs_dp t == 3 && ofs_d t == 0) ≡ false = ground (arith, other, below) in
          rw (other, e, at) refl
    ]
