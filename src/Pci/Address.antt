-- ===== src/Pci/Address.antt =====
-- The addresses of the registers.
use xivix.Base.{
  ℕ, ◌+◌, ◌*◌, ◌/◌, ◌%◌, ◌^◌, ◌<◌, ◌≡◌, refl, arith, ap, ap₂, ◌∙◌, sym, bit_and, bit_or,
}
use xivix.Base.Bits.{bit_or_sum, bit_and_split, bit_and_mask, bit_and-zero}
use xivix.Pci.{Config, config_address, function_address, readl, readl_at}

-- Fields that do not overlap are added.
join_fields : (k q x r : ℕ) → x ≡ q * 2 ^ k → r < 2 ^ k → bit_or x r ≡ x + r
join_fields k q x r e h = rw e (bit_or_sum k q r h)

register_part : (o : ℕ) → o < 0x100 → bit_and o 0xfc ≡ o / 4 * 4
register_part o h =
    let parts : o ≡ o / 4 * 2 ^ 2 + o % 4 = omega arith in
    omega (
      arith,
      ap (λ x. bit_and x 0xfc) parts,
      bit_and_split 2 (o / 4) (o % 4) 0x3f 0 (omega arith) (omega arith),
      bit_and_mask 6 (o / 4),
      bit_and-zero (o % 4),
    )

module _ (b d f : ℕ) (hb : b < 0x100) (hd : d < 32) (hf : f < 8) where
  pub function_address_sum : function_address b d f ≡ 2 ^ 31 + b * 2 ^ 16 + d * 2 ^ 11 + f * 2 ^ 8
  unfolding function_address
  function_address_sum =
      let e1 = join_fields 31 1 (2 ^ 31) (b * 2 ^ 16) refl (omega (arith, hb)) in
      let x1 : ℕ = 2 ^ 31 + b * 2 ^ 16 in
      let e2 = join_fields 16 (2 ^ 15 + b) x1 (d * 2 ^ 11) (omega arith) (omega (arith, hd)) in
      let x2 : ℕ = x1 + d * 2 ^ 11 in
      let q2 : ℕ = 2 ^ 20 + b * 2 ^ 5 + d in
      let e3 = join_fields 11 q2 x2 (f * 2 ^ 8) (omega arith) (omega (arith, hf)) in
      ap (λ x. bit_or (bit_or x (d * 2 ^ 11)) (f * 2 ^ 8)) e1
      ∙ ap (λ x. bit_or x (f * 2 ^ 8)) e2
      ∙ e3

  module _ (o : ℕ) (ho : o < 0x100) where
    pub config_address_sum :
        config_address b d f o ≡ 2 ^ 31 + b * 2 ^ 16 + d * 2 ^ 11 + f * 2 ^ 8 + o / 4 * 4
    unfolding config_address function_address
    config_address_sum =
        let q : ℕ = 2 ^ 23 + b * 2 ^ 8 + d * 2 ^ 3 + f in
        let x : ℕ = 2 ^ 31 + b * 2 ^ 16 + d * 2 ^ 11 + f * 2 ^ 8 in
        ap₂ bit_or function_address_sum (register_part o ho)
        ∙ join_fields 8 q x (o / 4 * 4) (omega arith) (omega (arith, ho))

    function_part : bit_and (function_address b d f) 0xffff_ff00 ≡ function_address b d f
    function_part =
        let q : ℕ = 2 ^ 23 + b * 2 ^ 8 + d * 2 ^ 3 + f in
        let parts : function_address b d f ≡ q * 2 ^ 8 + 0 = omega (arith, function_address_sum) in
        omega (
          arith,
          parts,
          ap (λ x. bit_and x 0xffff_ff00) parts,
          bit_and_split 8 q 0 0xff_ffff 0 (omega arith) (omega arith),
          bit_and_mask 24 q,
          bit_and-zero 0,
          hb,
          hd,
          hf,
        )

    -- The two forms of `readl` read the same register.
    pub readl_at-readl : (c : Config) → readl_at (function_address b d f) o c ≡ readl b d f o c
    unfolding readl_at readl config_address function_address
    readl_at-readl c = ap (λ x. c (bit_or x (bit_and o 0xfc))) function_part

    -- The last byte of an address is the register.
    pub config_address_mod : config_address b d f o % 0x100 ≡ o / 4 * 4
    config_address_mod = omega (arith, config_address_sum, ho)

pub command_mod :
    (b d f : ℕ)
    → b < 0x100
    → d < 32
    → f < 8
    → bit_or (bit_and (function_address b d f) 0xffff_ff00) 4 % 0x100 ≡ 4
unfolding config_address function_address
command_mod b d f hb hd hf =
    ap (λ x. bit_or x 4 % 0x100) (function_part b d f hb hd hf 4 (omega arith))
    ∙ config_address_mod b d f hb hd hf 4 (omega arith)

-- An address names its bus, device, function and register alone: with 256 buses, 32 devices, 8 functions and 256
-- bytes in words of four, two accesses have the same address only where these are the same.
pub config_address_injective :
    (b d f o b' d' f' o' : ℕ)
    → b < 0x100
    → d < 32
    → f < 8
    → o < 0x100
    → b' < 0x100
    → d' < 32
    → f' < 8
    → o' < 0x100
    → config_address b d f o ≡ config_address b' d' f' o'
    → (b ≡ b') × (d ≡ d') × (f ≡ f') × (o / 4 ≡ o' / 4)
config_address_injective b d f o b' d' f' o' h1 h2 h3 h4 h5 h6 h7 h8 e =
    let sums : 2 ^ 31 + b * 2 ^ 16 + d * 2 ^ 11 + f * 2 ^ 8 + o / 4 * 4
        ≡ 2 ^ 31 + b' * 2 ^ 16 + d' * 2 ^ 11 + f' * 2 ^ 8 + o' / 4 * 4 =
      sym (config_address_sum b d f h1 h2 h3 o h4)
      ∙ e
      ∙ config_address_sum b' d' f' h5 h6 h7 o' h8 in
    omega (arith, sums, h1, h2, h3, h4, h5, h6, h7, h8)
