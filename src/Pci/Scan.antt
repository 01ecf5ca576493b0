-- ===== src/Pci/Scan.antt =====
-- kernel/dev/pci.cpp: the scan of the devices of a bus.
use xivix.Base.{ℕ, ◌<◌, ◌≡◌, ◌⊎◌, true, false, has, ◌==◌}
use xivix.Pci.{Config, readl, half, byte}

-- The device answers, and function `f` of it is there.
abbrev pub IsThere : ℕ → ℕ → ℕ → Config → Type 0
IsThere b d f c =
    ((half (readl b d 0 0 c) 0 == 0xffff) ≡ false)
    × (((has (byte (readl b d 0 0xc c) 2) 0x80 ≡ false) × (f ≡ 0))
        ⊎ ((has (byte (readl b d 0 0xc c) 2) 0x80 ≡ true)
            × (f < 8)
            × ((half (readl b d f 0 c) 1 == 0xffff) ≡ false)))
