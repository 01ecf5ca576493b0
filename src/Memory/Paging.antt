-- ===== src/Memory/Paging.antt =====
-- kernel/memory.cpp: the page tables. After `initialize` the four page directories and their indices are
-- there, so their pointers are not null; a page table is known by its address.
pub mod Entry
pub mod Translate
pub mod Range
use xivix.Base.{
  ℕ, zero, suc, ◌+◌, ◌-◌, ◌*◌, ◌/◌, ◌%◌, ◌^◌, bit_and, bit_or, Bool, if◌then◌else◌, ◌==◌, ◌&&◌, not,
  has, ltb,
}
use xivix.Base.Word.{u32}
use xivix.Memory.{PageAllocator, mx_alloc, allocate_res}

-- `PageFlags`
abbrev pub pg_present : ℕ
pg_present = 1

abbrev pub pg_writable : ℕ
pg_writable = 2

abbrev pub pg_usermode : ℕ
pg_usermode = 4

abbrev pub pg_large : ℕ
pg_large = 0x80

-- The directories `pgdir[i]->entry`, their indices `pgdir_idx[i]->entry`, the page tables, and the allocator
-- of virtual memory.
pub record Paging : Type 0 where
  pub entry : ℕ → ℕ → ℕ
  pub index : ℕ → ℕ → ℕ
  pub pte : ℕ → ℕ → ℕ
  pub vmm : PageAllocator

-- A function with a new value at one place.
unfoldable pub write : ℕ → ℕ → ℕ → (ℕ → ℕ → ℕ) → ℕ → ℕ → ℕ
write i j v f i' j' = if i' == i && j' == j then v else f i' j'

-- `PageDir::set`, with the flags joined.
unfoldable pub dir_entry : ℕ → ℕ → ℕ
dir_entry addr flags =
    if has flags pg_large
    then bit_or (bit_and addr 0x0007_ffff_ffe0_0000) flags
    else bit_or (bit_and addr 0x0007_ffff_ffff_f000) flags

-- `PageDirIndex::set`
unfoldable pub index_entry : ℕ → ℕ
index_entry ptr = if ptr == 0 then 0 else bit_or (bit_and ptr 0xffff_f000) 1

-- `PageDirIndex::get`: the address of a page table, or 0.
unfoldable pub get_table : ℕ → ℕ → Paging → ℕ
get_table dp d s = bit_and (s.index dp d) 0xffff_f000

-- The parts of an address.
abbrev pub ofs_dp : ℕ → ℕ
ofs_dp t = t / 2 ^ 30 % 4

abbrev pub ofs_d : ℕ → ℕ
ofs_d t = t / 2 ^ 21 % 512

abbrev pub ofs_t : ℕ → ℕ
ofs_t t = t / 2 ^ 12 % 512

-- `translate_page`. The masks have the 32 bits of `unsigned long`.
unfoldable pub translate_page : ℕ → Paging → ℕ
translate_page t s =
    let tablebase = s.entry (ofs_dp t) (ofs_d t) in
    let ptptr = get_table (ofs_dp t) (ofs_d t) s in
    if not (has tablebase pg_present)
    then 0
    else if has tablebase pg_large
    then bit_or (bit_and tablebase 0xffe0_0000) (bit_and t 0x1f_ffff)
    else if ptptr == 0
    then 0
    else bit_or (bit_and (s.pte ptptr (ofs_t t)) 0xffff_f000) (bit_and t 0xfff)

-- The page table that `map_page` adds where there is none, with its 512 entries zero.
unfoldable pub new_table : ℕ → ℕ → ℕ × PageAllocator → Paging → Paging
new_table dp d (ptr, vmm) s =
    let table = bit_and (index_entry (u32 ptr)) 0xffff_f000 in
    record s {
      index = write dp d (index_entry (u32 ptr)) s.index;
      pte = λ a i. if a == table && ltb i 512 then 0 else s.pte a i;
      vmm = vmm;
    }

unfoldable pub add_table : ℕ → ℕ → Paging → Paging
add_table dp d s =
    if get_table dp d s == 0 then new_table dp d (allocate_res 1 mx_alloc s.vmm) s else s

-- The directory entry for a page table that was not present.
unfoldable pub map_table : ℕ → ℕ → Paging → Paging
map_table dp d s = if has (s.entry dp d) pg_present then s else record s {
  entry =
      write dp d (dir_entry (translate_page (get_table dp d s) s) (bit_or pg_present pg_writable))
        s.entry;
}

-- The entry of a page in its table.
unfoldable pub page_entry : ℕ → ℕ → ℕ
page_entry phy f = bit_or (bit_or phy pg_present) (bit_and f 0x1f)

unfoldable pub set_page : ℕ → ℕ → ℕ → Paging → Paging
set_page phy t f s = record s {
  pte = write (get_table (ofs_dp t) (ofs_d t) s) (ofs_t t) (page_entry phy f) s.pte;
}

-- `map_page` for a large page.
unfoldable pub map_large : ℕ → ℕ → ℕ → Paging → Paging
map_large phy t f s =
    let flags = bit_or (bit_or pg_present pg_large) (bit_and f (bit_or pg_writable pg_usermode)) in
    record s { entry = write (ofs_dp t) (ofs_d t) (dir_entry phy flags) s.entry }

-- `map_page`. A large page that is there already is kept.
unfoldable pub map_page : ℕ → ℕ → ℕ → Paging → Paging
map_page phy t f s =
    let tablebase = s.entry (ofs_dp t) (ofs_d t) in
    if has f pg_large
    then map_large phy t f s
    else if has tablebase pg_present && has tablebase pg_large
    then s
    else set_page phy t f (map_table (ofs_dp t) (ofs_d t) (add_table (ofs_dp t) (ofs_d t) s))

-- `count_page_structs`, which shifts by 9 for the page but does not use it. The differences have 32 bits.
unfoldable pub count_page_structs : ℕ → ℕ → Paging → ℕ
count_page_structs t npg s =
    let eos = u32 (t + 0x1000 * npg) in
    let res = u32 (ofs_d eos + 0x1_0000_0000 - ofs_d t + (ofs_dp eos + 0x1_0000_0000 - ofs_dp t)) in
    let lg_flags = bit_or pg_present pg_large in
    if bit_and (s.entry (ofs_dp t) (ofs_d t)) lg_flags == lg_flags
    then 0
    else if get_table (ofs_dp t) (ofs_d t) s == 0
    then u32 (res + 1)
    else res

-- The last loop of `vmm_request` for memory that is given, which does a round before it looks at `enda`: a round for the
-- page at `bega` and for the `n` pages behind it.
unfoldable pub map_pages : ℕ → ℕ → ℕ → ℕ → ℕ → Paging → Paging
map_pages pg_size zero phys bega mapflag s = map_page phys bega mapflag s
map_pages pg_size (suc n) phys bega mapflag s =
    map_pages pg_size n (phys + pg_size) (bega + pg_size) mapflag (map_page phys bega mapflag s)
