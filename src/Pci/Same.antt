-- ===== src/Pci/Same.antt =====
-- kernel/dev/pci.cpp: the registers in the scan of the bus, and what it finds.
use xivix.Base.{
  ℕ, zero, suc, ◌+◌, ◌*◌, ◌%◌, ◌≤◌, ◌<◌, ◌≡◌, ◌⊎◌, inl, inr, refl, arith, ap, ◌∙◌, sym, List, [],
  ◌∷◌, ◌++◌, append_assoc, Bool-cases, ◌==◌, bit_or, bit_and,
}
use xivix.Pci.{
  Config, config_address, function_address, readl, PciBlock, read_info, start_driver, writecommand,
  write_config, instance_pci, PciInfo,
}
use xivix.Pci.Address.{config_address_mod, command_mod}
use xivix.Pci.Bars.{IsBar}

-- An element is in a list.
abbrev pub Within {ℓ} : {A : Type ℓ} → A → List A → Type ℓ
Within {A} x xs = (before : List A) × (after : List A) × (xs ≡ before ++ (x ∷ after))

pub Within-left {ℓ} : {A : Type ℓ} (x : A) (xs ys : List A) → Within x xs → Within x (xs ++ ys)
Within-left x xs ys (b, a, e) = (b, a ++ ys, ap (λ t. t ++ ys) e ∙ append_assoc b (x ∷ a) ys)

pub Within-right {ℓ} : {A : Type ℓ} (x : A) (xs ys : List A) → Within x ys → Within x (xs ++ ys)
Within-right x xs ys (b, a, e) = (xs ++ b, a, ap (λ t. xs ++ t) e ∙ sym (append_assoc xs b (x ∷ a)))

pub first-Within {ℓ} : {A : Type ℓ} (x : A) (xs : List A) → Within x (x ∷ xs)
first-Within x xs = ([], xs, refl)

module _ (store : ℕ → ℕ → ℕ → ℕ) (area : ℕ → ℕ) (c : Config) where
  -- A base address register `a` of a device has an area of `area a` bytes.
  abbrev pub IsBus : Type 0
  IsBus =
      (b d f bar : ℕ)
      → b < 0x100
      → d < 32
      → f < 8
      → bar < 6
      → let a = config_address b d f (0x10 + bar * 4) in IsBar store a (c a) (area a) × (0 < area a)

  -- Each register is as in `c`, or is a command register to which 0x117 was written.
  abbrev pub IsSame : Config → Type 0
  IsSame c' = (a : ℕ) → (c' a ≡ c a) ⊎ ((a % 0x100 ≡ 4) × (old : ℕ) × (c' a ≡ store a old 0x117))

  -- The base address registers from `x` on with the sizes of their areas.
  abbrev pub bars_of : ℕ → ℕ → ℕ → ℕ → ℕ → List (ℕ × ℕ)
  bars_of zero b d f x = []
  bars_of (suc n) b d f x =
      let a = config_address b d f (0x10 + x * 4) in
      (c a, area a % 0x1_0000_0000) ∷ bars_of n b d f (x + 1)

  -- The block of a function, whose command and status are read from `c'`.
  abbrev pub block_of : Config → ℕ → ℕ → ℕ → PciBlock
  block_of c' b d f = record {
    pciaddr = function_address b d f;
    bars = bars_of 6 b d f 0;
    info = read_info (function_address b d f) c';
  }

  -- The block is in a list, its command and status read at some time of the scan.
  abbrev pub IsFound : ℕ → ℕ → ℕ → List PciBlock → Type 0
  IsFound b d f xs = (c' : Config) × IsSame c' × Within (block_of c' b d f) xs

  pub self-IsSame : IsSame c
  self-IsSame a = inl refl

  pub IsFound-left :
      (b d f : ℕ) (xs ys : List PciBlock) → IsFound b d f xs → IsFound b d f (xs ++ ys)
  IsFound-left b d f xs ys (c', same, w) = (c', same, Within-left (block_of c' b d f) xs ys w)

  pub IsFound-right :
      (b d f : ℕ) (xs ys : List PciBlock) → IsFound b d f ys → IsFound b d f (xs ++ ys)
  IsFound-right b d f xs ys (c', same, w) = (c', same, Within-right (block_of c' b d f) xs ys w)

  -- A register that is not a command register.
  pub readl_same :
      (b d f o : ℕ)
      → b < 0x100
      → d < 32
      → f < 8
      → o < 0x100
      → 8 ≤ o ⊎ o < 4
      → (c' : Config) → IsSame c'
      → readl b d f o c' ≡ readl b d f o c
  unfolding readl
  readl_same b d f o hb hd hf ho other c' same = elim (same (config_address b d f o)) [
    | inl e ↦ e
    | inr (e, old, w) ↦ absurd (ground (arith, e, config_address_mod b d f hb hd hf o ho, other))
  ]

  pub bar_same :
      (b d f x : ℕ) (c' : Config)
      → b < 0x100
      → d < 32
      → f < 8
      → x < 6
      → IsSame c'
      → let a = config_address b d f (0x10 + x * 4) in c' a ≡ c a
  unfolding readl
  bar_same b d f x c' hb hd hf hx same =
      readl_same b d f (0x10 + x * 4) hb hd hf (omega (arith, hx)) (inl (omega arith)) c' same

  -- The write to the command register.
  pub start_driver-IsSame :
      (b d f : ℕ) (bars : List (ℕ × ℕ)) (info : PciInfo) (c' : Config)
      → b < 0x100
      → d < 32
      → f < 8
      → IsSame c'
      → IsSame (
          start_driver store
            (record { pciaddr = function_address b d f; bars = bars; info = info })
            c')
  unfolding start_driver writecommand write_config
  start_driver-IsSame b d f bars info c' hb hd hf same a =
      let cdb : PciBlock = record { pciaddr = function_address b d f; bars = bars; info = info } in
      let command : ℕ = bit_or (bit_and (function_address b d f) 0xffff_ff00) 4 in
      elim (Bool-cases (instance_pci cdb)) [
        | inr no_driver ↦ rw no_driver (same a)
        | inl driver ↦ elim (Bool-cases (a == command)) [
          | inr other ↦ rw (driver, other) (same a)
          | inl here ↦
              let e : a ≡ command = ground (arith, here) in
              let last : a % 0x100 ≡ 4 = ap (λ x. x % 0x100) e ∙ command_mod b d f hb hd hf in
              rw (driver, here)
                (inr (last, c' command, ap (λ x. store x (c' command) 0x117) (sym e)))
        ]
      ]
