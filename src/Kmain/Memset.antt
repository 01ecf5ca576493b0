-- ===== src/Kmain/Memset.antt =====
-- kernel/kmain.cpp: `memset`, which writes words where it can.
use xivix.Base.{ℕ, zero, suc, ◌+◌, ◌-◌, ◌*◌, ◌/◌, ◌%◌, ◌^◌, if◌then◌else◌, ◌==◌, ltb}
use xivix.Base.Word.{u32}
use xivix.Net.Packet.{Bytes}

-- `n` bytes from `p` on.
unfoldable pub fill_bytes : ℕ → ℕ → ℕ → Bytes → Bytes
fill_bytes zero p v m = m
fill_bytes (suc n) p v m = fill_bytes n (p + 1) v (λ a. if a == p then v else m a)

-- A word, the low byte first.
unfoldable pub store_word : ℕ → ℕ → Bytes → Bytes
store_word p v m a =
    if a == p
    then v % 2 ^ 8
    else if a == p + 1
    then v / 2 ^ 8 % 2 ^ 8
    else if a == p + 2
    then v / 2 ^ 16 % 2 ^ 8
    else if a == p + 3
    then v / 2 ^ 24 % 2 ^ 8
    else m a

-- `n` words from `p` on.
unfoldable pub fill_words : ℕ → ℕ → ℕ → Bytes → Bytes
fill_words zero p v m = m
fill_words (suc n) p v m = fill_words n (p + 4) v (store_word p v m)

-- `memset`, with the number of rounds of each of its loops, which run while the address is below the end. The
-- addresses have 32 bits, so the end of a range up to 4 GB is 0.
unfoldable pub memset : ℕ → ℕ → ℕ → Bytes → Bytes
memset dst ivalue len m =
    let value = u32 (ivalue % 0x100 * 0x101_0101) in
    let end = u32 (dst + len) in
    let align = dst % 16 in
    let first = if align % 4 == 0 then 0 else 4 - align % 4 in
    let dest32 = u32 (dst + first) in
    let words = (end / 4 * 4 - dest32) / 4 in
    let rest = dest32 + 4 * words in
    let m1 = fill_bytes first dst (value % 0x100) m in
    let m2 = fill_words words dest32 value m1 in
    if ltb len 16
    then fill_bytes (end - dst) dst (value % 0x100) m
    else fill_bytes (end - rest) rest (value % 0x100) m2
