-- ===== src/Memory/Tests.antt =====
-- Runs of the memory manager, and its theorems at an input.
use xivix.Base.{
  ℕ, zero, suc, ◌+◌, ◌<◌, ◌≡◌, refl, true, List, [], ◌∷◌, arith, inl, inr, replicate, length,
  get_or, ap, if◌then◌else◌, ◌==◌, ◌&&◌, ◌≢◌, sym, ◌∙◌, Bool-cases,
}
use xivix.Memory.{
  PageAllocator, init_allocator, unset_extent, extent_at, set_extent, add_extent, place_extent,
  set_start, split_start, split_inside, join_start, previous, joins, cut, shrink, find_extent,
  next_empty_extent, check_empty, fill_empty, intersect_extent, refresh_free, find_free_extent,
  find_type_extent, end,
}
use xivix.Memory.Allocate.{Request, whole, allocate, aquire, req_allocrange, add_range}
use xivix.Memory.Allocate.Grant.{Served, allocate-Granted}
use xivix.Memory.Paging.{Paging, get_table, ofs_dp, ofs_d}
use xivix.Memory.Paging.Range.{Separate}
use xivix.Memory.Load.{MemMap, load_memmap, load_memmap-owners, map_sum}
use xivix.Memory.Cover.{cover_sum, in_use, of_kind, cover-unset}
use xivix.Memory.Table.{empties}
use xivix.Memory.Set.{IsTable, owners, Placeable, set_extent-owners, set_extent-IsTable}

replicate-Extents :
    (n i : ℕ)
    → i < length (replicate n unset_extent)
    → get_or (replicate n unset_extent) i unset_extent ≡ unset_extent
replicate-Extents zero i h = refl
replicate-Extents (suc n) zero h = refl
replicate-Extents (suc n) (suc i) h = replicate-Extents n i (omega arith)

pub cover_sum-replicate :
    (w : ℕ → ℕ) (a n : ℕ) → w 0 ≡ 0 → cover_sum w a (replicate n unset_extent) ≡ 0
unfolding cover_sum
cover_sum-replicate w a zero z = refl
cover_sum-replicate w a (suc n) z =
    omega (arith, cover-unset w a unset_extent z refl, cover_sum-replicate w a n z)

pub init_allocator-IsTable : IsTable init_allocator
unfolding init_allocator
init_allocator-IsTable = record {
  size = refl;
  valid = λ i h. rw (replicate-Extents 127 i h) (omega arith, λ u. absurd (u refl));
  disjoint = λ a. omega (arith, cover_sum-replicate in_use a 127 refl);
}

pub init_allocator-Clear : (b l : ℕ) → Placeable b l init_allocator
unfolding init_allocator
init_allocator-Clear b l = inr (λ a h k. cover_sum-replicate in_use a 127 refl)

unfoldable pub program : Unit {0}
unfolding init_allocator set_extent add_extent place_extent set_start split_start split_inside
    join_start previous joins cut shrink find_extent next_empty_extent check_empty fill_empty
    intersect_extent refresh_free find_free_extent find_type_extent end empties
program = tt

pub empties-init_allocator : empties init_allocator.extents ≡ 127
unfolding program
empties-init_allocator = refl

-- 256 free pages at the first megabyte.
abbrev pub one_free : PageAllocator
one_free = set_extent 0x10_0000 256 5 init_allocator

pub empties-one_free : empties one_free.extents ≡ 126
unfolding program
empties-one_free = refl

pub one_free-IsTable : IsTable one_free
one_free-IsTable =
    set_extent-IsTable 0x10_0000 256 5 init_allocator init_allocator-IsTable
      (omega (arith, empties-init_allocator)) (omega arith) (omega arith)
      (init_allocator-Clear 0x10_0000 256)

pub extent-one_free : extent_at one_free 0 ≡ record { flags = 5; base = 0x10_0000; length = 256 }
unfolding program
extent-one_free = refl

one_free-holds : Placeable 0x11_0000 4 one_free
one_free-holds = inl (0, rw extent-one_free (omega arith))

-- The third page of the four has one owner, of the new kind.
set_extent-owners_example : owners 8 0x11_2345 (set_extent 0x11_0000 4 8 one_free) ≡ 1
set_extent-owners_example =
    set_extent-owners 0x11_0000 4 8 8 0x11_2345 one_free one_free-IsTable
      (omega (arith, empties-one_free)) (omega arith) (omega arith) one_free-holds

-- The extent is cut in three.
split_three :
    (extent_at (set_extent 0x11_0000 4 8 one_free) 0
      ≡ record { flags = 5; base = 0x10_0000; length = 16 })
    × (extent_at (set_extent 0x11_0000 4 8 one_free) 1
        ≡ record { flags = 8; base = 0x11_0000; length = 4 })
    × (extent_at (set_extent 0x11_0000 4 8 one_free) 2
        ≡ record { flags = 5; base = 0x11_4000; length = 236 })
unfolding program
split_three = (refl, refl, refl)

-- Without more memory to ask for.
abbrev no_more : Request PageAllocator
no_more n s = (0, s)

allocate-Granted_example : Served whole 3 8 one_free (allocate whole no_more 3 8 one_free)
allocate-Granted_example =
    allocate-Granted whole 3 8 one_free no_more 0 one_free-IsTable (omega (arith, empties-one_free))
      (omega arith) (omega arith) (omega arith) (ap (λ e. e.flags) extent-one_free)
      (omega (arith, ap (λ e. e.length) extent-one_free))

-- `aquire` asks for one page for 8 pages, and adds 4096 pages for it.
aquire_lem :
    aquire whole (λ n s. (0x5000_0000, s)) 8 init_allocator
    ≡ (true, add_extent 0x5000_0000 4096 5 init_allocator)
unfolding program aquire req_allocrange add_range
aquire_lem = refl

abbrev map : List MemMap
map =
    record { start = 0; size = 0x9_f000; type = 1 }
    ∷ record { start = 0x10_0000; size = 0x10_0000; type = 1 }
    ∷ record { start = 0x20_0000; size = 0x3000; type = 3 }
    ∷ []

load_memmap-owners_example :
    owners 5 0x10_1234 (load_memmap map init_allocator)
    ≡ owners 5 0x10_1234 init_allocator + map_sum (of_kind 5) 0x10_1234 map
unfolding init_allocator map_sum
load_memmap-owners_example =
    load_memmap-owners map init_allocator init_allocator-IsTable
      (omega (arith, empties-init_allocator)) (omega arith)
      (λ a. ground (arith, cover_sum-replicate in_use a 127 refl)) 5 0x10_1234

-- A page table at 0x50000000 for the 2 MB at 0xc0400000, and no others.
abbrev pub one_table : Paging
one_table = record {
  entry = λ i j. if i == 3 && j == 2 then 3 else 0;
  index = λ i j. if i == 3 && j == 2 then 0x5000_0001 else 0;
  pte = λ i j. 0;
  vmm = init_allocator;
}

pub one_table-get :
    (i j : ℕ) → get_table i j one_table ≡ (if i == 3 && j == 2 then 0x5000_0000 else 0)
unfolding get_table
one_table-get i j = elim (Bool-cases (i == 3 && j == 2)) [
  | inl at ↦ rw at refl
  | inr other ↦ rw other refl
]

one_table-at : (i j : ℕ) → get_table i j one_table ≢ 0 → (i ≡ 3) × (j ≡ 2)
one_table-at i j there = elim (Bool-cases (i == 3 && j == 2)) [
  | inl at ↦ ground (arith, at)
  | inr other ↦ absurd (there (one_table-get i j ∙ rw other refl))
]

pub one_table-Separate : Separate one_table
one_table-Separate t t' there same =
    let at = one_table-at (ofs_dp t) (ofs_d t) there in
    let at' = one_table-at (ofs_dp t') (ofs_d t') (λ e. there (sym same ∙ e)) in
    (at'.0 ∙ sym at.0, at'.1 ∙ sym at.1)
