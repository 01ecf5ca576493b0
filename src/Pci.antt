-- ===== src/Pci.antt =====
-- kernel/dev/pci.cpp and kernel/dev/drivers.cpp: the PCI bus. An access writes the address of a register to port
-- 0xcf8 and then goes through port 0xcfc, so the state is the value of each register by its address.
pub mod Address
pub mod Bars
pub mod Same
pub mod Functions
pub mod Scan
mod Tests
use xivix.Base.{
  ℕ, zero, suc, ◌+◌, ◌*◌, ◌/◌, ◌%◌, ◌^◌, List, [], ◌∷◌, ◌++◌, Bool, true, false, if◌then◌else◌,
  ◌==◌, ◌&&◌, ◌||◌, not, has, ltb, bit_and, bit_or,
}
use xivix.Base.Word.{u8, u16, u32, not32}

abbrev pub Config : Type 0
Config = ℕ → ℕ

-- The address for bus `b`, device `d`, function `f` and byte `o`.
unfoldable pub config_address : ℕ → ℕ → ℕ → ℕ → ℕ
config_address b d f o =
    bit_or (bit_or (bit_or (bit_or (2 ^ 31) (b * 2 ^ 16)) (d * 2 ^ 11)) (f * 2 ^ 8))
      (bit_and o 0xfc)

unfoldable pub function_address : ℕ → ℕ → ℕ → ℕ
function_address b d f = bit_or (bit_or (bit_or (2 ^ 31) (b * 2 ^ 16)) (d * 2 ^ 11)) (f * 2 ^ 8)

-- `readl`
unfoldable pub readl : ℕ → ℕ → ℕ → ℕ → Config → ℕ
readl b d f o c = c (config_address b d f o)

-- `readw`
unfoldable pub readw : ℕ → ℕ → ℕ → ℕ → Config → ℕ
readw b d f o c = if has o 2 then u16 (readl b d f o c / 2 ^ 16) else u16 (readl b d f o c)

-- `readl` of a register of a function by its address.
unfoldable pub readl_at : ℕ → ℕ → Config → ℕ
readl_at pcia o c = c (bit_or (bit_and pcia 0xffff_ff00) (bit_and o 0xfc))

-- `PCIInfo`, without the two fields that nothing sets.
pub record PciInfo : Type 0 where
  pub vendor : ℕ
  pub device : ℕ
  pub command : ℕ
  pub status : ℕ
  pub revision : ℕ
  pub progif : ℕ
  pub subclass : ℕ
  pub devclass : ℕ
  pub int_line : ℕ
  pub int_pin : ℕ
  pub min_grant : ℕ
  pub max_latency : ℕ

-- `PCIBlock`, with its pairs of `bar` and `barsz`.
pub record PciBlock : Type 0 where
  pub pciaddr : ℕ
  pub bars : List (ℕ × ℕ)
  pub info : PciInfo

-- `Multiword::h` and `Multiword::b`
abbrev pub half : ℕ → ℕ → ℕ
half w i = u16 (w / 2 ^ (16 * i))

abbrev pub byte : ℕ → ℕ → ℕ
byte w i = u8 (w / 2 ^ (8 * i))

-- The fields that `dev_fn_check` reads.
unfoldable pub read_info : ℕ → Config → PciInfo
read_info pciaddr c =
    let info = readl_at pciaddr 0 c in
    let cmst = readl_at pciaddr 4 c in
    let dcl = readl_at pciaddr 8 c in
    let iir = readl_at pciaddr 0x3c c in
    record {
      vendor = half info 0;
      device = half info 1;
      command = half cmst 0;
      status = half cmst 1;
      revision = byte dcl 0;
      progif = byte dcl 1;
      subclass = byte dcl 2;
      devclass = byte dcl 3;
      int_line = byte iir 0;
      int_pin = byte iir 1;
      min_grant = byte iir 2;
      max_latency = byte iir 3;
    }

-- `instance_pci`: whether a driver is started for the device.
unfoldable pub instance_pci : PciBlock → Bool
instance_pci dv =
    dv.info.vendor == 0x8086
    && (dv.info.device == 0x100f
        || dv.info.device == 0x100e
        || dv.info.device == 0x10d3
        || dv.info.device == 0x104b
        || dv.info.device == 0x10cd
        || dv.info.device == 0x105e
        || dv.info.device == 0x10a4)

-- The size in `scanbar`, of the value `lr` and of what is read after all ones were written.
unfoldable pub bar_size : ℕ → ℕ → ℕ
bar_size lr lsz = u32 (not32 (bit_and lsz (if has lr 1 then 0xffff_fffc else 0xffff_fff0)) + 1)

-- `store a old v` is what the register `a` holds after `v` is written over `old`.
module _ (store : ℕ → ℕ → ℕ → ℕ) where
  -- A write to a register.
  unfoldable pub write_config : ℕ → ℕ → Config → Config
  write_config a v c a' = if a' == a then store a (c a) v else c a'

  -- `writel`
  unfoldable pub writel : ℕ → ℕ → ℕ → ℕ → ℕ → Config → Config
  writel v b d f o c = write_config (config_address b d f o) v c

  -- `PCIBlock::writecommand`
  unfoldable pub writecommand : ℕ → PciBlock → Config → Config
  writecommand v block c = write_config (bit_or (bit_and block.pciaddr 0xffff_ff00) 4) v c

  -- `scanbar`, for the values `r` and `sz` that it may change.
  unfoldable pub scanbar : ℕ → ℕ → ℕ → ℕ → ℕ × ℕ → Config → (ℕ × ℕ) × Config
  scanbar b d f bar old c =
      let o = 0x10 + bar * 4 in
      let lr = readl b d f o c in
      let c1 = writel 0xffff_ffff b d f o c in
      let lsz = readl b d f o c1 in
      let c2 = writel lr b d f o c1 in if ltb 5 bar then (old, c) else ((lr, bar_size lr lsz), c2)

  -- The loop over the six registers; `n` are left.
  unfoldable pub scan_bars : ℕ → ℕ → ℕ → ℕ → ℕ → Config → List (ℕ × ℕ) × Config
  scan_bars zero b d f x c = ([], c)
  scan_bars (suc n) b d f x c =
      let (bar, c1) = scanbar b d f x (0, 0) c in
      let (bars, c2) = scan_bars n b d f (x + 1) c1 in (bar ∷ bars, c2)

  -- What `instance_pci` does to the registers: the constructor `e1000::e1000` of the driver enables bus mastering.
  unfoldable pub start_driver : PciBlock → Config → Config
  start_driver dv c = if instance_pci dv then writecommand 0x117 dv c else c

  -- `dev_fn_check`; `dump` is `dev_dump`, which it calls for the bus behind a bridge. The result are the devices that
  -- `instance_pci` gets, and the registers.
  module _ (dump : ℕ → Config → List PciBlock × Config) where
    unfoldable pub dev_fn_check : ℕ → ℕ → ℕ → Config → List PciBlock × Config
    dev_fn_check bus dev fn c =
        let pciaddr = function_address bus dev fn in
        let info = read_info pciaddr c in
        let header = byte (readl bus dev 0 0xc c) 2 % 0x80 in
        let behind = dump (byte (readl_at pciaddr 0x18 c) 1) c in
        let (bars, c') = scan_bars 6 bus dev fn 0 c in
        let cdb : PciBlock = record { pciaddr = pciaddr; bars = bars; info = info } in
        if header == 1 && half (readl_at pciaddr 8 c) 1 == 0x604
        then behind
        else if header == 0
        then (cdb ∷ [], start_driver cdb c')
        else ([], c)

    -- The functions of a device with several; `n` are left.
    unfoldable pub check_functions : ℕ → ℕ → ℕ → ℕ → Config → List PciBlock × Config
    check_functions zero bus dev fn c = ([], c)
    check_functions (suc n) bus dev fn c =
        let here = dev_fn_check bus dev fn c in
        let (found, c1) = if half (readl bus dev fn 0 c) 1 == 0xffff then ([], c) else here in
        let (rest, c2) = check_functions n bus dev (fn + 1) c1 in (found ++ rest, c2)

    unfoldable pub check_device : ℕ → ℕ → Config → List PciBlock × Config
    check_device bus dev c =
        if half (readl bus dev 0 0 c) 0 == 0xffff
        then ([], c)
        else if has (byte (readl bus dev 0 0xc c) 2) 0x80
        then check_functions 8 bus dev 0 c
        else dev_fn_check bus dev 0 c

    -- The devices of a bus; `n` are left.
    unfoldable pub check_devices : ℕ → ℕ → ℕ → Config → List PciBlock × Config
    check_devices zero bus dev c = ([], c)
    check_devices (suc n) bus dev c =
        let (found, c1) = check_device bus dev c in
        let (rest, c2) = check_devices n bus (dev + 1) c1 in (found ++ rest, c2)

  -- `dev_dump`, through at most `depth` bridges.
  unfoldable pub dev_dump : ℕ → ℕ → Config → List PciBlock × Config
  dev_dump zero bus c = ([], c)
  dev_dump (suc depth) bus c = check_devices (dev_dump depth) 31 bus 0 c

  -- `bus_dump`
  unfoldable pub bus_dump : ℕ → Config → List PciBlock × Config
  bus_dump depth c = dev_dump depth 0 c
