-- ===== src/Net/Checksum.antt =====
-- kernel/net/queue.cpp, `ipchksum`, and kernel/net/packet.hpp, `psudo_check`.
pub mod Fold
pub mod Sum
use xivix.Base.{
  ℕ, zero, suc, ◌+◌, ◌-◌, ◌*◌, ◌/◌, ◌%◌, ◌^◌, bit_and, Bool, true, false, if◌then◌else◌, ◌==◌, has,
  nonzero,
}
use xivix.Base.Word.{u32}
use xivix.Net.Packet.{Bytes}

-- One pass of `while(in_check & 0xffff0000u)`.
unfoldable pub fold_once : ℕ → ℕ
fold_once v = u32 (bit_and v 0xffff + v / 2 ^ 16)

-- The loop, with fuel; three passes are enough (`Fold.fold_ends`).
unfoldable pub fold : ℕ → ℕ → ℕ
unfolding fold_once
fold zero v = v
fold (suc f) v = elim (has v 0xffff0000) [ true ↦ fold f (fold_once v) | false ↦ v ]

-- The rounds of `for(unsigned q = 0;;) { …; q += 2; if(q >= len) break; }`: the body runs at least once.
unfoldable pub rounds : ℕ → ℕ
rounds len = if len == 0 then 1 else (len + 1) / 2

-- The first is `checkhi`, the second `in_check`.
unfoldable pub sum_bytes : ℕ → Bytes → ℕ → ℕ × ℕ → ℕ × ℕ
sum_bytes zero buf q s = s
sum_bytes (suc n) buf q s = sum_bytes n buf (q + 2) (u32 (s.0 + buf q), u32 (s.1 + buf (q + 1)))

-- The sum of `len` bytes from `buf`, without the final inversion.
unfoldable pub ipchksum : Bytes → ℕ → ℕ → ℕ
ipchksum buf len in_check =
    let s = sum_bytes (rounds len) buf 0 (0, in_check) in
    let checkhi = if has len 1 then u32 (s.0 + buf (len - 1)) else s.0 in
    fold 3 (u32 (s.1 + u32 (checkhi * 2 ^ 8)))

-- `Packet::psudo_check`
unfoldable pub psudo_check : Bytes → ℕ
psudo_check buf =
    let low = buf 23 + buf 27 + buf 29 + buf 31 + buf 33 in
    let high = buf 26 + buf 28 + buf 30 + buf 32 in low + high * 2 ^ 8
