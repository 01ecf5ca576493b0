-- ===== src/Memory.antt =====
-- kernel/memory.cpp: the extents of `PageAllocator`. An allocator has one table of them, since nothing
-- calls `aquire_control`, so every loop of an `ExtentInterator` visits the entries below `max_ext`.
pub mod Trie
pub mod Cover
pub mod Table
pub mod Add
pub mod Replace
pub mod Join
pub mod Inside
pub mod Set
pub mod Allocate
pub mod Paging
pub mod Load
pub mod Vmm
pub mod Start
mod Tests
use xivix.Base.{
  ℕ, zero, suc, ◌+◌, ◌-◌, ◌*◌, ◌/◌, Bool, true, false, if◌then◌else◌, ◌==◌, not, ◌&&◌, ◌||◌, List,
  [], ◌∷◌, Option, none, some, ltb, leb, get_or, set, replicate,
}
use xivix.Base.Word.{u32, u64}
use xivix.Memory.Trie.{TrieControl, init_trie, set_trie_extent}
use mathlib.Core.Option

abbrev pub page_size : ℕ
page_size = 0x1000

-- `MEMEXTENT`
abbrev pub mx_unset : ℕ
mx_unset = 0

abbrev pub mx_io : ℕ
mx_io = 3

abbrev pub mx_free : ℕ
mx_free = 5

abbrev pub mx_fixed : ℕ
mx_fixed = 7

abbrev pub mx_alloc : ℕ
mx_alloc = 8

abbrev pub mx_pre : ℕ
mx_pre = 9

abbrev pub mx_last : ℕ
mx_last = 10

-- `Extent`: `length` pages from the address `base`.
pub record Extent : Type 0 where
  pub flags : ℕ
  pub base : ℕ
  pub length : ℕ

-- `Extent::end`. The product has the 32 bits of `size_t`.
unfoldable pub end : Extent → ℕ
end e = u64 (e.base + u32 (e.length * page_size))

-- `max_ext`, with 16 bytes for an extent and 8 for the header of the table.
abbrev pub max_ext : ℕ
max_ext = (0x800 - 8) / 16

abbrev pub unset_extent : Extent
unset_extent = record { flags = mx_unset; base = 0xffff_ffff_ffff_ffff; length = 0xffff_ffff }

-- `PageAllocator`: the extents and the trie of its table, with the index `ifree` of the header.
pub record PageAllocator : Type 0 where
  pub extents : List Extent
  pub trie : List TrieControl
  pub ifree : ℕ

abbrev pub extent_at : PageAllocator → ℕ → Extent
extent_at s i = get_or s.extents i unset_extent

abbrev pub set_extent_at : ℕ → Extent → PageAllocator → PageAllocator
set_extent_at i e s = record s { extents = set s.extents i e }

-- `PageAllocator::init_allocator` and `ExtentTable::init_allocator`. The loops there write an entry past the end of the extents,
-- which is the first of the trie and is set later, and one past the trie.
unfoldable pub init_allocator : PageAllocator
init_allocator = record { extents = replicate max_ext unset_extent; trie = init_trie; ifree = 0 }

-- The loop of an `ExtentInterator`: the first extent that passes a test.
unfoldable pub find_extent : (Extent → Bool) → List Extent → Option ℕ
find_extent test [] = none
find_extent test (e ∷ es) =
    let rest = find_extent test es in if test e then some 0 else Option.map suc rest

-- What `next_empty_extent` makes of the first entry that is empty or invalid.
unfoldable pub check_empty : List Extent → Option ℕ → Option ℕ
check_empty es none = none
check_empty es (some i) = if leb mx_last (get_or es i unset_extent).flags then none else some i

abbrev pub empty_or_invalid : Extent → Bool
empty_or_invalid e = leb mx_last e.flags || e.flags == mx_unset

unfoldable pub next_empty_extent : List Extent → Option ℕ
next_empty_extent es = check_empty es (find_extent empty_or_invalid es)

-- The entry that `add_extent` fills.
unfoldable pub fill_empty : ℕ → ℕ → ℕ → Option ℕ → PageAllocator → PageAllocator
fill_empty b l f none s = s
fill_empty b l f (some i) s = set_extent_at i (record { flags = f; base = b; length = l }) s

-- `add_extent`
unfoldable pub add_extent : ℕ → ℕ → ℕ → PageAllocator → PageAllocator
add_extent b l f s =
    let pfree = extent_at s s.ifree in
    if l == 0 || f == mx_unset || leb mx_last f
    then s
    else if f == mx_free && pfree.flags == mx_free && end pfree == b
    then set_extent_at s.ifree (record pfree { length = u32 (pfree.length + l) }) s
    else fill_empty b l f (next_empty_extent s.extents) s

-- `find_type_extent`
unfoldable pub find_type_extent : ℕ → ℕ → List Extent → Option ℕ
find_type_extent l f es = find_extent (λ e. e.flags == f && leb l e.length) es

-- `find_free_extent`, which keeps `ifree` when there is none.
unfoldable pub find_free_extent : ℕ → PageAllocator → PageAllocator
find_free_extent l s = record s {
  ifree = Option.get_or (find_type_extent l mx_free s.extents) s.ifree;
}

-- `intersect_extent`
unfoldable pub intersect_extent : ℕ → ℕ → List Extent → Option ℕ
intersect_extent b l es =
    let e = u64 (b + u32 (l * page_size)) in
    find_extent (λ p. not (p.flags == mx_unset) && leb p.base b && leb e (end p)) es

-- `prev` in `set_extent`
unfoldable pub previous : ℕ → List Extent → Option ℕ
previous b es = if leb page_size b then intersect_extent (b - page_size) 1 es else none

-- `prev && prev->end() == b && prev->flags == f`
unfoldable pub joins : ℕ → ℕ → ℕ → PageAllocator → Bool
joins b f j s = end (extent_at s j) == b && (extent_at s j).flags == f

-- The extent `p` without its first `l` pages.
unfoldable pub shrink : ℕ → Extent → Extent
shrink l p = record p { length = p.length - l; base = u64 (p.base + u32 (l * page_size)) }

-- `set_extent` where the extent `i` starts at the new one's address, and `prev` takes the pages.
unfoldable pub join_start : ℕ → ℕ → ℕ → PageAllocator → PageAllocator
join_start l i j s =
    let prev = extent_at s j in
    let s' = set_extent_at j (record prev { length = u32 (prev.length + l) }) s in
    let p = extent_at s' i in
    if ltb l p.length
    then set_extent_at i (shrink l p) s'
    else set_extent_at i (record p { flags = mx_unset }) s'

-- The same where a new extent has them.
unfoldable pub split_start : ℕ → ℕ → ℕ → ℕ → PageAllocator → PageAllocator
split_start b l f i s =
    let p = extent_at s i in
    if ltb l p.length
    then add_extent b l f (set_extent_at i (shrink l p) s)
    else set_extent_at i (record p { length = l; flags = f }) s

-- `p->length = n` for the extent `i`.
unfoldable pub cut : ℕ → ℕ → PageAllocator → PageAllocator
cut n i s = set_extent_at i (record (extent_at s i) { length = n }) s

-- `set_extent` where the extent `i` starts before the new one.
unfoldable pub split_inside : ℕ → ℕ → ℕ → ℕ → PageAllocator → PageAllocator
split_inside b l f i s =
    let adru = u32 (l * page_size) in
    let adrm = (b - (extent_at s i).base) / page_size in
    let s' = add_extent b l f s in
    let p = extent_at s' i in
    cut (u32 adrm) i (
      add_extent (u64 (b + adru)) (u32 (p.length + 0x1_0000_0000_0000_0000 - (l + adrm))) p.flags
        s')

-- `set_extent` with `prev` for an extent that starts at the same address.
unfoldable pub set_start : ℕ → ℕ → ℕ → ℕ → Option ℕ → PageAllocator → PageAllocator
set_start b l f i none s = split_start b l f i s
set_start b l f i (some j) s = if joins b f j s then join_start l i j s else split_start b l f i s

-- `set_extent` with the extent that `intersect_extent` finds.
unfoldable pub place_extent : ℕ → ℕ → ℕ → Option ℕ → PageAllocator → PageAllocator
place_extent b l f none s = add_extent b l f s
place_extent b l f (some i) s =
    if b == (extent_at s i).base
    then set_start b l f i (previous b s.extents) s
    else split_inside b l f i s

-- The last line of `set_extent`.
unfoldable pub refresh_free : PageAllocator → PageAllocator
refresh_free s = if not ((extent_at s s.ifree).flags == mx_free) then find_free_extent 0 s else s

-- `set_extent`
unfoldable pub set_extent : ℕ → ℕ → ℕ → PageAllocator → PageAllocator
set_extent b l f s =
    let s' : PageAllocator = record s { trie = set_trie_extent b f l s.trie } in
    refresh_free (place_extent b l f (intersect_extent b l s'.extents) s')

-- `allocate_res`
unfoldable pub reserve_at : ℕ → ℕ → Option ℕ → PageAllocator → ℕ × PageAllocator
reserve_at l f none s = (0, s)
reserve_at l f (some i) s = let mm = (extent_at s i).base in (mm, set_extent mm l f s)

unfoldable pub allocate_res : ℕ → ℕ → PageAllocator → ℕ × PageAllocator
allocate_res l f s = reserve_at l f (find_type_extent l mx_pre s.extents) s
