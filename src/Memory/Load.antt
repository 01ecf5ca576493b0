-- ===== src/Memory/Load.antt =====
-- kernel/memory.cpp: `load_memmap` puts the entries of the boot loader's memory map in the table.
use xivix.Base.{
  ℕ, ◌+◌, ◌*◌, ◌/◌, ◌%◌, ◌^◌, ◌≤◌, ◌<◌, ◌≡◌, refl, Bool, true, false, if◌then◌else◌, ◌==◌, ◌&&◌,
  not, List, [], ◌∷◌, ltb, leb, length, arith, ◌≢◌, Bool-cases, inl, inr, ◌∙◌, has,
}
use xivix.Base.Word.{u32}
use xivix.Base.Bits.{bit_and_mask}
use xivix.Memory.{PageAllocator, mx_free, mx_fixed, set_extent}
use xivix.Memory.Cover.{cover_sum, cover_sum-zero, in_use, of_kind}
use xivix.Memory.Table.{IsExtent, empties}
use xivix.Memory.Add.{fresh}
use xivix.Memory.Replace.{over}
use xivix.Memory.Set.{IsTable, owners, Clear, set_extent-Placed, set_extent-IsTable}

-- `MemMap`
pub record MemMap : Type 0 where
  pub start : ℕ
  pub size : ℕ
  pub type : ℕ

-- A round of the loop of `load_memmap`.
unfoldable pub load_entry : MemMap → PageAllocator → PageAllocator
load_entry mm s =
    if ltb mm.start 0x10_0000
    then s
    else if has mm.size 0xfff
    then s
    else if not (mm.type == 2)
    then set_extent mm.start (u32 (mm.size / 2 ^ 12)) (if mm.type == 1 then mx_free else mx_fixed) s
    else s

-- `load_memmap`
unfoldable pub load_memmap : List MemMap → PageAllocator → PageAllocator
load_memmap [] s = s
load_memmap (mm ∷ rest) s = load_memmap rest (load_entry mm s)

-- What an entry of the map says of the address `a`: with the weight of its kind, where it is above the first
-- megabyte, of whole pages, and not reserved.
abbrev pub is_used : MemMap → Bool
is_used mm = leb 0x10_0000 mm.start && mm.size % 0x1000 == 0 && not (mm.type == 2)

abbrev pub weight : (ℕ → ℕ) → ℕ → MemMap → ℕ
weight w a mm =
    if is_used mm && leb mm.start a && ltb a (mm.start + mm.size)
    then w (if mm.type == 1 then 5 else 7)
    else 0

unfoldable pub map_sum : (ℕ → ℕ) → ℕ → List MemMap → ℕ
map_sum w a [] = 0
map_sum w a (mm ∷ rest) = weight w a mm + map_sum w a rest

-- An entry that is used lies below 4 GB and starts at a page.
abbrev pub InReach : MemMap → Type 0
InReach mm =
    is_used mm ≡ true
    → (mm.start % 0x1000 ≡ 0) × (0 < mm.size) × (mm.start + mm.size < 0x1_0000_0000)

abbrev pub AllInReach : List MemMap → Type 0
AllInReach [] = Unit
AllInReach (mm ∷ rest) = InReach mm × AllInReach rest

-- The entries overlap neither each other nor what the table has.
abbrev pub Apart : List MemMap → PageAllocator → Type 0
Apart map s = (a : ℕ) → cover_sum in_use a s.extents + map_sum in_use a map ≤ 1

module _ (mm : MemMap) (s : PageAllocator) (table : IsTable s) (room : 1 < empties s.extents)
    (reach : InReach mm)
    (apart : (a : ℕ) → cover_sum in_use a s.extents + weight in_use a mm ≤ 1) where
  record Loaded (s' : PageAllocator) : Type 0 where
    pub sum :
        (w : ℕ → ℕ) (a : ℕ)
        → w 0 ≡ 0
        → cover_sum w a s'.extents ≡ cover_sum w a s.extents + weight w a mm
    pub keeps : IsTable s'
    pub left : empties s.extents ≤ empties s'.extents + 2

  skip_lem : is_used mm ≡ false → load_entry mm s ≡ s
  unfolding load_entry
  skip_lem skipped = ground (arith, bit_and_mask 12 mm.size, skipped)

  abbrev pages : ℕ
  pages = mm.size / 0x1000

  abbrev kind : ℕ
  kind = if mm.type == 1 then 5 else 7

  module _ (used : is_used mm ≡ true) where
    used_lem : load_entry mm s ≡ set_extent mm.start pages kind s
    unfolding load_entry
    used_lem =
        let in_reach = reach used in
        let exact : u32 (mm.size / 0x1000) ≡ mm.size / 0x1000 = omega (arith, in_reach.2) in
        let high : ltb mm.start 0x10_0000 ≡ false = ground (arith, used) in
        let whole : has mm.size 0xfff ≡ false = ground (arith, bit_and_mask 12 mm.size, used) in
        let shown : not (mm.type == 2) ≡ true = ground (arith, used) in
        rw (high, whole, shown, exact) refl

    size_lem : pages * 0x1000 ≡ mm.size
    size_lem = ground (arith, used)

    new : IsExtent (fresh mm.start pages kind)
    new = ground (arith, size_lem, reach used)

    kind_lem : kind ≢ 0
    kind_lem = ground arith

    clear : Clear mm.start pages s
    clear a h k = ground (arith, size_lem, used, apart a)

    weight-over :
        (w : ℕ → ℕ) (a : ℕ)
        → w 0 ≡ 0
        → over mm.start pages a (w kind) (cover_sum w a s.extents)
          ≡ cover_sum w a s.extents + weight w a mm
    weight-over w a z = ground (
      arith,
      size_lem,
      used,
      λ (h : mm.start ≤ a) (k : a < mm.start + pages * 0x1000).
          cover_sum-zero w a s.extents z (clear a h k),
    )

    set_entry-Loaded : Loaded (set_extent mm.start pages kind s)
    set_entry-Loaded =
        let p =
          set_extent-Placed mm.start pages kind s table.valid table.disjoint new kind_lem room
            (inr clear) in
        record {
          sum = λ w a z. p.sum w a z ∙ weight-over w a z;
          keeps = set_extent-IsTable mm.start pages kind s table room new kind_lem (inr clear);
          left = p.left;
        }

  load_entry-Loaded : Loaded (load_entry mm s)
  load_entry-Loaded = elim (Bool-cases (is_used mm)) [
    | inl used ↦ rw (used_lem used) (set_entry-Loaded used)
    | inr skipped ↦
        rw (skip_lem skipped)
          (record { sum = λ w a z. ground (arith, skipped); keeps = table; left = omega arith })
  ]

-- After `load_memmap` an address has as many owners of a kind as it had before and as the map names: where
-- the table is one of extents below 4 GB without overlaps, it has two empty entries for each entry of the
-- map, the entries in use are of whole pages below 4 GB, and they overlap neither each other nor the table.
pub load_memmap-owners :
    (map : List MemMap) (s : PageAllocator)
    → IsTable s
    → 2 * length map < empties s.extents
    → AllInReach map
    → Apart map s
    → (g a : ℕ) → owners g a (load_memmap map s) ≡ owners g a s + map_sum (of_kind g) a map
unfolding load_memmap owners map_sum
load_memmap-owners [] s table room reach apart g a = omega arith
load_memmap-owners (mm ∷ rest) s table room reach apart g a =
    let l = load_entry-Loaded mm s table (omega arith) reach.0 (λ x. omega (arith, apart x)) in
    let after = load_entry mm s in
    omega (
      arith,
      load_memmap-owners rest after l.keeps (omega (arith, l.left)) reach.1
          (λ x. omega (arith, apart x, l.sum in_use x refl)) g a,
      l.sum (of_kind g) a refl,
    )
