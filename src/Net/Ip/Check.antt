-- ===== src/Net/Ip/Check.antt =====
-- kernel/net/queue.cpp, `packet_fill_udp`: the checksum of the datagram.
use xivix.Base.{
  ℕ, zero, suc, ◌+◌, ◌-◌, ◌*◌, ◌≤◌, ◌<◌, ◌≡◌, refl, arith, if◌then◌else◌, ◌==◌, ◌∙◌, ap,
}
use xivix.Base.Word.{u32}
use xivix.Net.Packet.{Bytes, put, set_w, bswapw, nw}
use xivix.Net.Checksum.{ipchksum, psudo_check}
use xivix.Net.Checksum.Fold.{ones_sum, ones_sum-lt}
use xivix.Net.Checksum.Sum.{IsBytes, words, ipchksum-words}
use xivix.Net.Ip.{fill_udp_checksum, from, not16}
use xivix.Net.Ip.Header.{set_w-ne}

pub words-same : (n q : ℕ) (f g : Bytes) → ((j : ℕ) → q ≤ j → f j ≡ g j) → words n f q ≡ words n g q
unfolding words nw
words-same zero q f g h = refl
words-same (suc n) q f g h = omega (
  arith,
  h q (omega arith),
  h (q + 1) (omega arith),
  words-same n (q + 2) f g (λ j l. h j (omega arith)),
)

words-set_w :
    (k v : ℕ) (buf : Bytes)
    → nw buf 40 ≡ 0
    → v < 0x10000
    → words (suc (suc (suc (suc k)))) (from 34 (set_w 40 (bswapw v) buf)) 0
      ≡ words (suc (suc (suc (suc k)))) (from 34 buf) 0 + v
unfolding words nw set_w put bswapw
words-set_w k v buf h l = omega (
  arith,
  words-same k 8 (from 34 (set_w 40 (bswapw v) buf)) (from 34 buf) (λ j m.
      set_w-ne 40 (bswapw v) (34 + j) buf (λ q. absurd (omega arith)) (λ q. absurd (omega arith))),
)

psudo_check-lt : {buf : Bytes} → IsBytes buf → psudo_check buf < 0x10_0000
unfolding psudo_check
psudo_check-lt {buf} b =
    let b23 = b 23 in
    let b26 = b 26 in
    let b27 = b 27 in
    let b28 = b 28 in
    let b29 = b 29 in
    let b30 = b 30 in let b31 = b 31 in let b32 = b 32 in let b33 = b 33 in omega arith

psudo_check-set_w : (v : ℕ) (buf : Bytes) → psudo_check (set_w 40 v buf) ≡ psudo_check buf
unfolding psudo_check set_w put
psudo_check-set_w v buf = refl

inverted :
    (v : ℕ)
    → ones_sum (v + (if ones_sum v == 0xffff then ones_sum v else 0xffff - ones_sum v)) ≡ 0xffff
unfolding ones_sum
inverted v = ground arith

-- The sum that a receiver of the datagram checks: of the pseudo header and of the words of the datagram.
abbrev pub udp_sum : ℕ → Bytes → ℕ
udp_sum n buf = ones_sum (psudo_check buf + 2 * n + words n (from 34 buf) 0)

-- A datagram of an even length from 8 to 1480 with the checksum field 0 that `fill_udp_checksum`
-- completes has the sum 0xffff, with the words of the pseudo header.
pub fill_udp_checksum-valid :
    {buf : Bytes} (k : ℕ)
    → IsBytes buf
    → nw buf 40 ≡ 0
    → k ≤ 736
    → udp_sum (k + 4) (fill_udp_checksum (2 * (k + 4)) buf) ≡ 0xffff
unfolding fill_udp_checksum
fill_udp_checksum-valid {buf} k b h l =
    let n : ℕ = suc (suc (suc (suc k))) in
    let e : k + 4 ≡ n = omega arith in
    let start : ℕ = psudo_check buf + 2 * n in
    let total : ipchksum (from 34 buf) (2 * n) start ≡ ones_sum (start + words n (from 34 buf) 0) =
      ipchksum-words (from 34 buf) n start (λ j. b (34 + j)) (omega arith) (omega arith)
        (omega (arith, psudo_check-lt b)) in
    let sum : ℕ = ones_sum (start + words n (from 34 buf) 0) in
    let check : ℕ = if sum == 0xffff then sum else not16 sum in
    let small : check < 0x10000 = ground (arith, ones_sum-lt (start + words n (from 34 buf) 0)) in
    let wide : u32 start ≡ start = omega (arith, psudo_check-lt b) in
    let regroup : start + (words n (from 34 buf) 0 + check)
        ≡ start + words n (from 34 buf) 0 + check =
      omega arith in
    rw (e, wide, total, psudo_check-set_w (bswapw check) buf, words-set_w k check buf h small)
      (ap ones_sum regroup ∙ inverted (start + words n (from 34 buf) 0))
