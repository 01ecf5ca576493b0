-- ===== src/Memory/Paging/Entry.antt =====
-- kernel/memory.cpp: the bits of the entries of the page tables, an address and its flags.
use xivix.Base.{
  ℕ, ◌+◌, ◌*◌, ◌/◌, ◌%◌, ◌^◌, ◌≤◌, ◌<◌, ◌≡◌, refl, bit_and, bit_or, true, false, ◌==◌, has, arith,
  ap, ap₂, ◌∙◌,
}
use xivix.Base.Bits.{
  bit_and_split, bit_or_split, bit_or_sum, bit_and_mask, bit_and_place, bit_or-zero, bit_and-zero,
  digit-bit_and, digit-bit_or,
}
use xivix.Base.Table.{holds_below, holds_below_lem}
use xivix.Memory.Paging.{dir_entry, index_entry, page_entry}

or_one-lt : (m : ℕ) → m < 32 → bit_or 1 m < 0x1000
unfolding holds_below
or_one-lt m h =
    let high : bit_or 1 m / 0x1000 ≡ 0 =
      holds_below_lem 32 (λ x. bit_or 1 x / 0x1000) (λ x. 0) refl m h in
    omega (arith, high)

-- The upper bits of a page address, and the flags below them.
address_part :
    (phy low : ℕ)
    → phy % 0x1000 ≡ 0
    → phy < 0x1_0000_0000
    → low < 0x1000
    → bit_and (phy + low) 0xffff_f000 ≡ phy
address_part phy low aligned below small =
    let q : ℕ = phy / 0x1000 in
    let parts : phy + low ≡ q * 2 ^ 12 + low = omega (arith, aligned) in
    omega (
      arith,
      ap (λ x. bit_and x 0xffff_f000) parts,
      bit_and_split 12 q low 0xf_ffff 0 small (omega arith),
      bit_and_mask 20 q,
      bit_and-zero low,
    )

page_entry_sum : (phy f : ℕ) → phy % 0x1000 ≡ 0 → page_entry phy f ≡ phy + bit_or 1 (f % 32)
unfolding page_entry
page_entry_sum phy f aligned =
    let q : ℕ = phy / 0x1000 in
    let m : ℕ = f % 32 in
    let parts : phy ≡ q * 2 ^ 12 = omega (arith, aligned) in
    let one : bit_or phy 1 ≡ q * 2 ^ 12 + 1 =
      ap (λ x. bit_or x 1) parts ∙ bit_or_sum 12 q 1 (omega arith) in
    let low : m ≡ 0 * 2 ^ 12 + m = omega arith in
    let flags : bit_or (q * 2 ^ 12 + 1) m ≡ q * 2 ^ 12 + bit_or 1 m =
      ap (λ x. bit_or (q * 2 ^ 12 + 1) x) low
      ∙ bit_or_split 12 q 1 0 m (omega arith) (omega arith)
      ∙ omega (arith, bit_or-zero q) in
    ap₂ bit_or one (bit_and_mask 5 f) ∙ flags ∙ omega (arith, parts)

pub page_entry-address :
    (phy f : ℕ)
    → phy % 0x1000 ≡ 0
    → phy < 0x1_0000_0000
    → bit_and (page_entry phy f) 0xffff_f000 ≡ phy
page_entry-address phy f aligned below =
    rw (page_entry_sum phy f aligned)
      (address_part phy (bit_or 1 (f % 32)) aligned below (or_one-lt (f % 32) (omega arith)))

-- An address put together from a page and the place in it.
pub join_address : (phy t : ℕ) → phy % 0x1000 ≡ 0 → bit_or phy (bit_and t 0xfff) ≡ phy + t % 0x1000
join_address phy t aligned =
    let q : ℕ = phy / 0x1000 in
    let parts : phy ≡ q * 2 ^ 12 = omega (arith, aligned) in
    omega (
      arith,
      bit_and_mask 12 t,
      ap₂ bit_or parts (bit_and_mask 12 t),
      bit_or_sum 12 q (t % 0x1000) (omega arith),
    )

-- The flags in the directory's entry of a page table: it is present, and not a large page.
pub dir_entry_flags :
    (addr : ℕ) → (has (dir_entry addr 3) 1 ≡ true) × (has (dir_entry addr 3) 0x80 ≡ false)
unfolding dir_entry
dir_entry_flags addr =
    let x : ℕ = bit_and addr 0x0007_ffff_ffff_f000 in
    ground (
      arith,
      bit_and_place 0 (bit_or x 3),
      bit_and_place 7 (bit_or x 3),
      digit-bit_or 0 x 3,
      digit-bit_or 7 x 3,
      digit-bit_and 7 addr 0x0007_ffff_ffff_f000,
    )

table_address : (ptr : ℕ) → ptr < 0x1_0000_0000 → bit_and ptr 0xffff_f000 ≡ ptr / 0x1000 * 0x1000
table_address ptr below =
    let parts : ptr ≡ ptr / 0x1000 * 0x1000 + ptr % 0x1000 = omega arith in
    ap (λ x. bit_and x 0xffff_f000) parts
    ∙ address_part (ptr / 0x1000 * 0x1000) (ptr % 0x1000) (omega arith) (omega arith) (omega arith)

-- The index keeps the address of a table.
pub index_entry-address :
    (ptr : ℕ)
    → ptr < 0x1_0000_0000
    → 0x1000 ≤ ptr
    → bit_and (index_entry ptr) 0xffff_f000 ≡ ptr / 0x1000 * 0x1000
unfolding index_entry
index_entry-address ptr below real =
    let there : (ptr == 0) ≡ false = ground arith in
    let q : ℕ = ptr / 0x1000 in
    let entry : bit_or (bit_and ptr 0xffff_f000) 1 ≡ q * 0x1000 + 1 =
      ap (λ x. bit_or x 1) (table_address ptr below) ∙ bit_or_sum 12 q 1 (omega arith) in
    rw (there, entry) (address_part (q * 0x1000) 1 (omega arith) (omega arith) (omega arith))
