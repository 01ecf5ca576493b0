-- ===== src/Pci/Functions.antt =====
-- kernel/dev/pci.cpp: the scan of the functions of a device.
use xivix.Base.{
  ℕ, zero, suc, ◌+◌, ◌*◌, ◌%◌, ◌≤◌, ◌<◌, ◌≡◌, inl, inr, refl, arith, sym, List, [], Bool-cases,
  false, ◌==◌, ◌&&◌, subst,
}
use xivix.Pci.{
  Config, config_address, function_address, readl, readl_at, half, byte, PciBlock, read_info,
  scan_bars, dev_fn_check, check_functions,
}
use xivix.Pci.Same.{
  IsBus, IsSame, IsFound, bars_of, block_of, first-Within, IsFound-left, IsFound-right, readl_same,
  bar_same, start_driver-IsSame,
}
use xivix.Pci.Bars.{IsBar, scanbar-IsBar}

module _ (store : ℕ → ℕ → ℕ → ℕ) (area : ℕ → ℕ) (c : Config) (ok : IsBus store area c) where
  scan_bars_lem :
      (n b d f x : ℕ) (c' : Config)
      → b < 0x100
      → d < 32
      → f < 8
      → IsSame store area c c'
      → x + n ≤ 6
      → scan_bars store n b d f x c' ≡ (bars_of store area c n b d f x, c')
  unfolding scan_bars
  scan_bars_lem zero b d f x c' hb hd hf same h = refl
  scan_bars_lem (suc n) b d f x c' hb hd hf same h =
      let a = config_address b d f (0x10 + x * 4) in
      let (bar, pos) = ok b d f x hb hd hf (omega (arith, h)) in
      let e = bar_same store area c b d f x c' hb hd hf (omega (arith, h)) same in
      let bar' : IsBar store a (c' a) (area a) =
        subst (λ v. IsBar store a v (area a)) (sym e) bar in
      rw
        (
          scanbar-IsBar store b d f x (area a) (0, 0) c' (omega (arith, h)) bar' pos,
          scan_bars_lem n b d f (x + 1) c' hb hd hf same (omega (arith, h)),
          e,
        )
        refl

  -- `dump` leaves the registers so.
  abbrev pub Leaves : (ℕ → Config → List PciBlock × Config) → Type 0
  Leaves dump =
      (bus : ℕ) (c' : Config)
      → bus < 0x100
      → IsSame store area c c'
      → IsSame store area c (dump bus c').1

  module _ (dump : ℕ → Config → List PciBlock × Config) (leaves : Leaves dump) where
    pub check_leaves :
        (b d f : ℕ) (c' : Config)
        → b < 0x100
        → d < 32
        → f < 8
        → IsSame store area c c'
        → IsSame store area c (dev_fn_check store dump b d f c').1
    unfolding dev_fn_check
    check_leaves b d f c' hb hd hf same =
        let pciaddr = function_address b d f in
        let header = byte (readl b d 0 0xc c') 2 % 0x80 in
        let bridge = header == 1 && half (readl_at pciaddr 8 c') 1 == 0x604 in
        elim (Bool-cases bridge) [
          | inl behind ↦
              rw behind (leaves (byte (readl_at pciaddr 0x18 c') 1) c' (omega arith) same)
          | inr here ↦ elim (Bool-cases (header == 0)) [
            | inl found ↦
                rw (here, found, scan_bars_lem 6 b d f 0 c' hb hd hf same (omega arith))
                  (start_driver-IsSame store area c b d f (bars_of store area c 6 b d f 0)
                    (read_info pciaddr c') c' hb hd hf same)
            | inr other ↦ rw (here, other) same
          ]
        ]

    -- The function is found.
    pub check_block :
        (b d f : ℕ) (c' : Config)
        → b < 0x100
        → d < 32
        → f < 8
        → IsSame store area c c'
        → byte (readl b d 0 0xc c) 2 % 0x80 ≡ 0
        → IsFound store area c b d f (dev_fn_check store dump b d f c').0
    unfolding dev_fn_check
    check_block b d f c' hb hd hf same header =
        let e =
          readl_same store area c b d 0 0xc hb hd (omega arith) (omega arith) (inl (omega arith)) c'
            same in
        (
          c',
          same,
          rw (e, header, scan_bars_lem 6 b d f 0 c' hb hd hf same (omega arith))
              (first-Within (block_of store area c c' b d f) []),
        )

    pub functions_leave :
        (n b d f : ℕ) (c' : Config)
        → b < 0x100
        → d < 32
        → f + n ≤ 8
        → IsSame store area c c'
        → IsSame store area c (check_functions store dump n b d f c').1
    unfolding check_functions
    functions_leave zero b d f c' hb hd hf same = same
    functions_leave (suc n) b d f c' hb hd hf same =
        elim (Bool-cases (half (readl b d f 0 c') 1 == 0xffff)) [
          | inl absent ↦ rw absent (functions_leave n b d (f + 1) c' hb hd (omega (arith, hf)) same)
          | inr present ↦ rw present (
              functions_leave n b d (f + 1) (dev_fn_check store dump b d f c').1 hb hd
                (omega (arith, hf)) (check_leaves b d f c' hb hd (omega (arith, hf)) same))
        ]

    -- The functions from `f` on.
    pub functions_find :
        (n b d f g : ℕ) (c' : Config)
        → b < 0x100
        → d < 32
        → f + n ≤ 8
        → IsSame store area c c'
        → f ≤ g
        → g < f + n
        → (half (readl b d g 0 c) 1 == 0xffff) ≡ false
        → byte (readl b d 0 0xc c) 2 % 0x80 ≡ 0
        → IsFound store area c b d g (check_functions store dump n b d f c').0
    unfolding check_functions
    functions_find zero b d f g c' hb hd hf same h k present header = absurd (omega (arith, h, k))
    functions_find (suc n) b d f g c' hb hd hf same h k present header =
        elim (Bool-cases (f == g)) [
          | inl here ↦
              let e : f ≡ g = ground (arith, here) in
              let hg : g < 8 = omega (arith, hf, k) in
              let r =
                readl_same store area c b d g 0 hb hd hg (omega arith) (inr (omega arith)) c'
                  same in
              rw (e, r, present)
                (IsFound-left store area c b d g (dev_fn_check store dump b d g c').0
                  (check_functions store dump n b d (g + 1) (dev_fn_check store dump b d g c').1).0
                  (check_block b d g c' hb hd hg same header))
          | inr later ↦ elim (Bool-cases (half (readl b d f 0 c') 1 == 0xffff)) [
            | inl absent ↦ rw absent (
                functions_find n b d (f + 1) g c' hb hd (omega (arith, hf)) same
                  (ground (arith, h, later)) (omega (arith, k)) present header)
            | inr other ↦
                let c1 : Config = (dev_fn_check store dump b d f c').1 in
                rw other (
                  IsFound-right store area c b d g (dev_fn_check store dump b d f c').0
                    (check_functions store dump n b d (f + 1) c1).0
                    (functions_find n b d (f + 1) g c1 hb hd (omega (arith, hf))
                      (check_leaves b d f c' hb hd (omega (arith, hf)) same)
                      (ground (arith, h, later)) (omega (arith, k)) present header))
          ]
        ]
