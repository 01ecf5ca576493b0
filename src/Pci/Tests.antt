-- ===== src/Pci/Tests.antt =====
-- A bus with one network card, and the theorems about the bus at an input.
use xivix.Base.{
  ℕ, ◌+◌, ◌-◌, ◌*◌, ◌/◌, ◌%◌, ◌≤◌, ◌<◌, ◌≡◌, ◌⊎◌, inl, inr, refl, arith, ap, sym, subst, ◌∙◌, List,
  [], ◌∷◌, Bool, Bool-cases, true, false, if◌then◌else◌, ◌==◌,
}
use xivix.Pci.{
  Config, config_address, function_address, readl, readl_at, PciBlock, instance_pci, dev_dump,
  scanbar, bus_dump, check_devices, check_device, check_functions, dev_fn_check, scan_bars,
  bar_size, write_config, writel, read_info, start_driver, writecommand,
}
use xivix.Pci.Bars.{IsBar, flag_size, scanbar-IsBar}

-- The card is device 3: its first base address register is at 0x80001810, with an area of 128 KB. Its command register
-- takes what is written.
abbrev card : Config
card a =
    if a == 0x8000_1800
    then 0x100e_8086
    else if a == 0x8000_1804
    then 7
    else if a == 0x8000_180c
    then 0
    else if a == 0x8000_1810
    then 0xfebc_0000
    else 0xffff_ffff

abbrev card_store : ℕ → ℕ → ℕ → ℕ
card_store a old v =
    if a == 0x8000_1810 then v / 0x2_0000 * 0x2_0000 else if a == 0x8000_1804 then v else old

abbrev card_area : ℕ → ℕ
card_area a =
    if a == 0x8000_1810 then 0x2_0000 else 0x1_0000_0000 - card a + card a % flag_size (card a)

card-lt : (a : ℕ) → card a < 0x1_0000_0000
card-lt a = ground arith

flag_size_cases : (v : ℕ) → (flag_size v ≡ 16) ⊎ (flag_size v ≡ 4)
flag_size_cases v = ground arith

read_only :
    (v : ℕ)
    → v < 0x1_0000_0000
    → let z = 0x1_0000_0000 - v + v % flag_size v in
      (z ≤ 0x1_0000_0000)
      × (z % flag_size v ≡ 0)
      × (v ≡ 0x1_0000_0000 - z + v % flag_size v)
      × (0 < z)
read_only v h = elim (flag_size_cases v) [
  | inl e ↦ rw e (omega (arith, h))
  | inr e ↦ rw e (omega (arith, h))
]

-- A register that keeps its value.
fixed-IsBar :
    (store : ℕ → ℕ → ℕ → ℕ) (a v : ℕ)
    → v < 0x1_0000_0000
    → ((x : ℕ) → store a v x ≡ v)
    → let z = 0x1_0000_0000 - v + v % flag_size v in IsBar store a v z × (0 < z)
fixed-IsBar store a v h same =
    let r = read_only v h in
    (
      record {
        area = r.0;
        aligned = r.1;
        sized = same 0xffff_ffff ∙ r.2;
        kept = ap (λ t. store a t v) (same 0xffff_ffff) ∙ same v;
      },
      r.3,
    )

card-IsBar :
    (a : ℕ)
    → (a == 0x8000_1804) ≡ false
    → IsBar card_store a (card a) (card_area a) × (0 < card_area a)
card-IsBar a bar = elim (Bool-cases (a == 0x8000_1810)) [
  | inl here ↦
      let e : a ≡ 0x8000_1810 = ground (arith, here) in
      rw e (record { area = omega arith; aligned = refl; sized = refl; kept = refl }, omega arith)
  | inr other ↦
      let area : card_area a ≡ 0x1_0000_0000 - card a + card a % flag_size (card a) =
        rw other refl in
      subst (λ z. IsBar card_store a (card a) z × (0 < z)) (sym area)
        (fixed-IsBar card_store a (card a) (card-lt a) (λ x. rw (other, bar) refl))
]

scanbar-IsBar_example : scanbar card_store 0 3 0 0 (0, 0) card ≡ ((0xfebc_0000, 0x2_0000), card)
unfolding config_address
scanbar-IsBar_example =
    scanbar-IsBar card_store 0 3 0 0 0x2_0000 (0, 0) card (omega arith)
      (card-IsBar 0x8000_1810 refl).0 (omega arith)

drivers : List PciBlock → List Bool
drivers [] = []
drivers (b ∷ bs) = instance_pci b ∷ drivers bs

-- The driver of the card is started, and enables bus mastering.
drivers-bus_dump :
    (drivers (bus_dump card_store 2 card).0 ≡ true ∷ [])
    × ((bus_dump card_store 2 card).1 0x8000_1804 ≡ 0x117)
unfolding drivers instance_pci bus_dump dev_dump check_devices check_device check_functions
    dev_fn_check scan_bars scanbar bar_size write_config writel readl readl_at read_info
    config_address function_address start_driver writecommand
drivers-bus_dump = (refl, refl)
