-- ===== src/Pci/Bars.antt =====
-- The size of a base address register: a device keeps the low bits of such a register and, of an address of all ones,
-- the bits above its size.
use xivix.Base.{
  ℕ, ◌+◌, ◌-◌, ◌*◌, ◌/◌, ◌%◌, ◌^◌, ◌≤◌, ◌<◌, ◌≡◌, inl, inr, refl, arith, ap, ◌∙◌, sym, fun_ext,
  bit_and, Bool-cases, true, false, ltb, has, if◌then◌else◌, ◌==◌,
}
use xivix.Base.Bits.{bit_and_split, bit_and_mask, bit_and-zero, bit_and_place}
use xivix.Pci.{Config, config_address, readl, writel, write_config, bar_size, scanbar}

-- The flags below the address: four bits of a register for memory, two of one for ports.
abbrev pub flag_size : ℕ → ℕ
flag_size v = if v % 2 == 0 then 16 else 4

-- The register `a` with the value `v` has an area of `z` bytes.
pub record IsBar (store : ℕ → ℕ → ℕ → ℕ) (a v z : ℕ) : Type 0 where
  pub area : z ≤ 0x1_0000_0000
  pub aligned : z % flag_size v ≡ 0
  pub sized : store a v 0xffff_ffff ≡ 0x1_0000_0000 - z + v % flag_size v
  pub kept : store a (store a v 0xffff_ffff) v ≡ v

mask_memory :
    (x fl : ℕ) → x % 16 ≡ 0 → fl < 16 → x < 0x1_0000_0000 → bit_and (x + fl) 0xffff_fff0 ≡ x
mask_memory x fl e g k =
    let parts : x + fl ≡ x / 16 * 2 ^ 4 + fl = omega (arith, e) in
    omega (
      arith,
      e,
      ap (λ t. bit_and t 0xffff_fff0) parts,
      bit_and_split 4 (x / 16) fl 0xfff_ffff 0 g (omega arith),
      bit_and_mask 28 (x / 16),
      bit_and-zero fl,
    )

mask_ports : (x fl : ℕ) → x % 4 ≡ 0 → fl < 4 → x < 0x1_0000_0000 → bit_and (x + fl) 0xffff_fffc ≡ x
mask_ports x fl e g k =
    let parts : x + fl ≡ x / 4 * 2 ^ 2 + fl = omega (arith, e) in
    omega (
      arith,
      e,
      ap (λ t. bit_and t 0xffff_fffc) parts,
      bit_and_split 2 (x / 4) fl 0x3fff_ffff 0 g (omega arith),
      bit_and_mask 30 (x / 4),
      bit_and-zero fl,
    )

bar_size_lem :
    (v z lsz : ℕ)
    → 0 < z
    → z ≤ 0x1_0000_0000
    → z % flag_size v ≡ 0
    → lsz ≡ 0x1_0000_0000 - z + v % flag_size v
    → bar_size v lsz ≡ z % 0x1_0000_0000
unfolding bar_size
bar_size_lem v z lsz pos area aligned e =
    let x : ℕ = 0x1_0000_0000 - z in
    elim (Bool-cases (v % 2 == 0)) [
      | inl even ↦
          let memory : has v 1 ≡ false = ground (arith, even, bit_and_place 0 v) in
          let size : flag_size v ≡ 16 = rw even refl in
          let aligned' : z % 16 ≡ 0 = ap (λ t. z % t) (sym size) ∙ aligned in
          let e' : lsz ≡ x + v % 16 = e ∙ ap (λ t. x + v % t) size in
          let masked =
            mask_memory x (v % 16) (omega (arith, aligned', area)) (omega arith)
              (omega (arith, pos)) in
          rw (memory, e', masked) (omega (arith, pos, area))
      | inr odd ↦
          let ports : has v 1 ≡ true = ground (arith, odd, bit_and_place 0 v) in
          let size : flag_size v ≡ 4 = rw odd refl in
          let aligned' : z % 4 ≡ 0 = ap (λ t. z % t) (sym size) ∙ aligned in
          let e' : lsz ≡ x + v % 4 = e ∙ ap (λ t. x + v % t) size in
          let masked =
            mask_ports x (v % 4) (omega (arith, aligned', area)) (omega arith)
              (omega (arith, pos)) in
          rw (ports, e', masked) (omega (arith, pos, area))
    ]

module _ (store : ℕ → ℕ → ℕ → ℕ) where
  write_back :
      (a v : ℕ) (c : Config)
      → store a (store a (c a) v) (c a) ≡ c a
      → write_config store a (c a) (write_config store a v c) ≡ c
  unfolding write_config
  write_back a v c kept = fun_ext (λ x. elim (Bool-cases (x == a)) [
    | inl here ↦
        let e : x ≡ a = ground (arith, here) in
        let self : (a == a) ≡ true = ground arith in rw (here, self) (kept ∙ ap c (sym e))
    | inr other ↦ rw other refl
  ])

  written : (a v : ℕ) (c : Config) → write_config store a v c a ≡ store a (c a) v
  unfolding write_config
  written a v c = let self : (a == a) ≡ true = ground arith in rw self refl

  -- `scanbar` reads the register and the size of its area, 2 ^ 32 as 0, and leaves every register as it was.
  pub scanbar-IsBar :
      (b d f bar z : ℕ) (old : ℕ × ℕ) (c : Config)
      → bar < 6
      → let a = config_address b d f (0x10 + bar * 4) in
        IsBar store a (c a) z
        → 0 < z
        → scanbar store b d f bar old c ≡ ((c a, z % 0x1_0000_0000), c)
  unfolding scanbar readl writel
  scanbar-IsBar b d f bar z old c h ok pos =
      let a = config_address b d f (0x10 + bar * 4) in
      let few : ltb 5 bar ≡ false = ground (arith, h) in
      let ones = written a 0xffff_ffff c ∙ ok.sized in
      let size =
        bar_size_lem (c a) z (write_config store a 0xffff_ffff c a) pos ok.area ok.aligned ones in
      rw (few, size, write_back a 0xffff_ffff c ok.kept) refl
