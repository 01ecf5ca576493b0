-- ===== src/Net/Packet.antt =====
-- kernel/net/packet.hpp and the byte swaps of kernel/i686/ixkm.s: the bytes of a packet and their
-- accessors. The machine is little endian.
use xivix.Base.{ℕ, zero, suc, ◌+◌, ◌*◌, ◌/◌, ◌%◌, if◌then◌else◌, ◌==◌}

-- A buffer, by its index. Each value is a byte.
abbrev pub Bytes : Type 0
Bytes = ℕ → ℕ

-- `buf[i] = v`
unfoldable pub put : ℕ → ℕ → Bytes → Bytes
put i v buf j = if j == i then v else buf j

-- `_ix_bswapw`, of a 16-bit number.
unfoldable pub bswapw : ℕ → ℕ
bswapw v = v % 0x100 * 0x100 + v / 0x100 % 0x100

-- `_ix_bswapi`, of a 32-bit number.
unfoldable pub bswapi : ℕ → ℕ
bswapi v =
    v % 0x100 * 0x100_0000
    + v / 0x100 % 0x100 * 0x1_0000
    + v / 0x1_0000 % 0x100 * 0x100
    + v / 0x100_0000 % 0x100

-- `Packet::w`, read and written.
unfoldable pub w : Bytes → ℕ → ℕ
w buf i = buf i + buf (i + 1) * 0x100

unfoldable pub set_w : ℕ → ℕ → Bytes → Bytes
unfolding put
set_w i v buf = put (i + 1) (v / 0x100 % 0x100) (put i (v % 0x100) buf)

-- `Packet::nw`, by `_ix_ldnw`.
unfoldable pub nw : Bytes → ℕ → ℕ
nw buf i = buf i * 0x100 + buf (i + 1)

-- `Packet::i`, read and written.
unfoldable pub i32 : Bytes → ℕ → ℕ
i32 buf i = buf i + buf (i + 1) * 0x100 + buf (i + 2) * 0x1_0000 + buf (i + 3) * 0x100_0000

unfoldable pub set_i32 : ℕ → ℕ → Bytes → Bytes
unfolding put
set_i32 i v buf =
    put (i + 3) (v / 0x100_0000 % 0x100)
      (put (i + 2) (v / 0x1_0000 % 0x100) (put (i + 1) (v / 0x100 % 0x100) (put i (v % 0x100) buf)))

-- The six bytes of a station address.
unfoldable pub set_mac : ℕ → Bytes → Bytes → Bytes
unfolding put
set_mac i mac buf = put (i + 5) (mac 5) (
    put (i + 4) (mac 4)
      (put (i + 3) (mac 3) (put (i + 2) (mac 2) (put (i + 1) (mac 1) (put i (mac 0) buf)))))

-- `Packet`, without its reference count.
pub record Packet : Type 0 where
  pub buf : Bytes
  pub size : ℕ

-- `for(q = 0; q < n; q++) buf[to + q] = from[q]`
unfoldable pub copy : ℕ → ℕ → Bytes → Bytes → Bytes
unfolding put
copy zero to from buf = buf
copy (suc n) to from buf = put (to + n) (from n) (copy n to from buf)
