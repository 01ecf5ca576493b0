-- ===== src/Net/Checksum/Sum.antt =====
-- kernel/net/queue.cpp, `ipchksum`, against the Internet checksum of RFC 1071.
use xivix.Base.{ℕ, zero, suc, ◌+◌, ◌-◌, ◌*◌, ◌^◌, ◌≤◌, ◌<◌, ◌≡◌, arith, true, false, has}
use xivix.Base.Word.{u32}
use xivix.Base.Bits.{bit_and_mask}
use xivix.Net.Packet.{Bytes, nw}
use xivix.Net.Checksum.{rounds, sum_bytes, ipchksum}
use xivix.Net.Checksum.Fold.{ones_sum, fold_lem}

abbrev pub IsBytes : Bytes → Type 0
IsBytes buf = (j : ℕ) → buf j < 0x100

-- The sum of the first `n` 16-bit words from index `q`, each in network order.
unfoldable pub words : ℕ → Bytes → ℕ → ℕ
unfolding nw
words zero buf q = 0
words (suc n) buf q = nw buf q + words n buf (q + 2)

abbrev total : ℕ × ℕ → ℕ
total s = s.0 * 0x100 + s.1

-- The two counters stay apart and do not wrap.
sum_bytes_lem :
    (n : ℕ) (buf : Bytes) (q : ℕ) (s : ℕ × ℕ)
    → IsBytes buf
    → s.0 + n * 0x100 < 0x100_0000
    → s.1 + n * 0x100 < 0x8000_0000
    → (total (sum_bytes n buf q s) ≡ total s + words n buf q)
      × ((sum_bytes n buf q s).0 ≤ s.0 + n * 0x100)
      × ((sum_bytes n buf q s).1 ≤ s.1 + n * 0x100)
unfolding sum_bytes words
sum_bytes_lem zero buf q s b h k = (omega arith, omega arith, omega arith)
sum_bytes_lem (suc n) buf q s b h k =
    let s' : ℕ × ℕ = (u32 (s.0 + buf q), u32 (s.1 + buf (q + 1))) in
    let high = b q in
    let low = b (q + 1) in
    let rest = sum_bytes_lem n buf (q + 2) s' b (omega arith) (omega arith) in
    (omega (arith, rest.0), omega (arith, rest.1), omega (arith, rest.2))

even_len : (n : ℕ) → has (2 * n) 1 ≡ false
even_len n = ground (arith, bit_and_mask 1 (2 * n))

rounds_even : (n : ℕ) → 0 < n → rounds (2 * n) ≡ n
unfolding rounds
rounds_even n h = ground arith

-- Of an even number of bytes from 2 to 65534, `ipchksum` is the sum, with the carry added at the low
-- end, of the 16-bit words in network order and of the value that it starts from.
pub ipchksum-words :
    (buf : Bytes) (n start : ℕ)
    → IsBytes buf
    → 0 < n
    → n < 0x8000
    → start < 0x1000_0000
    → ipchksum buf (2 * n) start ≡ ones_sum (start + words n buf 0)
unfolding ipchksum
ipchksum-words buf n start b pos small h =
    let s : ℕ × ℕ = sum_bytes n buf 0 (0, start) in
    let all = sum_bytes_lem n buf 0 (0, start) b (omega arith) (omega arith) in
    let value : u32 (s.1 + u32 (s.0 * 2 ^ 8)) ≡ start + words n buf 0 =
      omega (arith, all.0, all.1, all.2) in
    rw (
      rounds_even n pos,
      even_len n,
      value,
      fold_lem (start + words n buf 0) (omega (arith, value)),
    )

-- A checksum field that held 0 and is set to the inverted sum makes the sum of all the words 0xffff.
pub ones_sum_inverted : (v : ℕ) → ones_sum (v + (0xffff - ones_sum v)) ≡ 0xffff
unfolding ones_sum
ones_sum_inverted v = ground arith

odd_len : (n : ℕ) → has (2 * n + 1) 1 ≡ true
odd_len n = ground (arith, bit_and_mask 1 (2 * n + 1))

rounds_odd : (n : ℕ) → rounds (2 * n + 1) ≡ suc n
unfolding rounds
rounds_odd n = ground arith

-- Of an odd number of bytes from 1 to 65533, `ipchksum` sums the words up to and with the byte past
-- the end, and counts the last byte a second time in the high half.
pub ipchksum-odd :
    (buf : Bytes) (n start : ℕ)
    → IsBytes buf
    → n < 0x7fff
    → start < 0x1000_0000
    → ipchksum buf (2 * n + 1) start ≡ ones_sum (start + words (suc n) buf 0 + buf (2 * n) * 0x100)
unfolding ipchksum
ipchksum-odd buf n start b small h =
    let s : ℕ × ℕ = sum_bytes (suc n) buf 0 (0, start) in
    let all = sum_bytes_lem (suc n) buf 0 (0, start) b (omega arith) (omega arith) in
    let last = b (2 * n) in
    let index : 2 * n + 1 - 1 ≡ 2 * n = omega arith in
    let value : u32 (s.1 + u32 (u32 (s.0 + buf (2 * n)) * 2 ^ 8))
        ≡ start + words (suc n) buf 0 + buf (2 * n) * 0x100 =
      omega (arith, all.0, all.1, all.2) in
    rw (
      rounds_odd n,
      odd_len n,
      index,
      value,
      fold_lem (start + words (suc n) buf 0 + buf (2 * n) * 0x100) (omega (arith, value)),
    )
