-- ===== src/Base/Word.antt =====
-- The fixed widths of the source: a cast or a wrap is a remainder.
use Prim.Native.Nat.{ℕ, ◌+◌, ◌-◌, ◌%◌}

abbrev pub u8 : ℕ → ℕ
u8 n = n % 0x100

abbrev pub u16 : ℕ → ℕ
u16 n = n % 0x1_0000

abbrev pub u32 : ℕ → ℕ
u32 n = n % 0x1_0000_0000

abbrev pub u64 : ℕ → ℕ
u64 n = n % 0x1_0000_0000_0000_0000

-- `a - b` in 32 bits.
abbrev pub sub32 : ℕ → ℕ → ℕ
sub32 a b = (a + 0x1_0000_0000 - b) % 0x1_0000_0000

-- `~a` in 32 bits, for a below 2 ^ 32.
abbrev pub not32 : ℕ → ℕ
not32 a = 0xffff_ffff - a
