-- ===== src/Net/Ip/Header.antt =====
-- kernel/net/queue.cpp, `packet_fill_ip`: the checksum of the header.
use xivix.Base.{ℕ, ◌+◌, ◌-◌, ◌%◌, ◌^◌, ◌<◌, ◌≡◌, ◌≢◌, refl, arith, ◌∙◌, ap}
use xivix.Net.Packet.{Bytes, put, set_w, set_i32, set_mac, bswapw, nw, i32}
use xivix.Net.Checksum.{ipchksum}
use xivix.Net.Checksum.Fold.{ones_sum, ones_sum-lt}
use xivix.Net.Checksum.Sum.{IsBytes, words, ipchksum-words, ones_sum_inverted}
use xivix.Net.Ip.{fill_header, fill_checksum, from, not16}

pub set_w-ne : (i v j : ℕ) (buf : Bytes) → i ≢ j → i + 1 ≢ j → set_w i v buf j ≡ buf j
unfolding set_w put
set_w-ne i v j buf h k = ground arith

pub set_w-IsBytes : (i v : ℕ) {buf : Bytes} → IsBytes buf → IsBytes (set_w i v buf)
unfolding set_w put
set_w-IsBytes i v {buf} b j = let h = b j in ground arith

words-set_w :
    (buf : Bytes) (v : ℕ)
    → nw buf 24 ≡ 0
    → v < 0x10000
    → words 10 (from 14 (set_w 24 (bswapw v) buf)) 0 ≡ words 10 (from 14 buf) 0 + v
unfolding words nw set_w put bswapw
words-set_w buf v h k = omega arith

header_sum :
    {buf : Bytes} → IsBytes buf → ipchksum (from 14 buf) 20 0 ≡ ones_sum (words 10 (from 14 buf) 0)
header_sum {buf} b =
    ipchksum-words (from 14 buf) 10 0 (λ j. b (14 + j)) (omega arith) (omega arith) (omega arith)
    ∙ ap ones_sum (omega arith)

-- A header with the checksum field 0 that `fill_checksum` completes has 16-bit words of the sum 0xffff.
pub fill_checksum-valid :
    {buf : Bytes}
    → IsBytes buf
    → nw buf 24 ≡ 0
    → ipchksum (from 14 (fill_checksum buf)) 20 0 ≡ 0xffff
unfolding fill_checksum
fill_checksum-valid {buf} b h =
    let v = ipchksum (from 14 buf) 20 0 in
    let total = header_sum b in
    let small : v < 0x10000 = rw total (ones_sum-lt (words 10 (from 14 buf) 0)) in
    header_sum (set_w-IsBytes 24 (bswapw (not16 v)) b)
    ∙ ap ones_sum (words-set_w buf (not16 v) h (omega arith))
    ∙ ap (λ x. ones_sum (words 10 (from 14 buf) 0 + (0xffff - x))) total
    ∙ ones_sum_inverted (words 10 (from 14 buf) 0)

-- The fields of the header that `packet_fill_ip` writes, and the rest of the buffer.
pub record Header (buf : Bytes) (system_ip dst length proto : ℕ) : Type 0 where
  pub version : buf 14 ≡ 0x45
  pub total : nw buf 16 ≡ length
  pub protocol : buf 23 ≡ proto
  pub source : i32 buf 26 ≡ system_ip
  pub target : i32 buf 30 ≡ dst
  pub first : buf 30 ≡ dst % 0x100

pub fill_header-Header :
    (mac : Bytes) (system_ip dst length proto : ℕ) (buf : Bytes)
    → system_ip < 2 ^ 32
    → dst < 2 ^ 32
    → length < 2 ^ 16
    → Header (fill_header mac system_ip dst length proto buf) system_ip dst length proto
      × (nw (fill_header mac system_ip dst length proto buf) 24 ≡ 0)
unfolding fill_header nw i32 put set_w set_i32 set_mac bswapw
fill_header-Header mac system_ip dst length proto buf h k l = (
  record {
    version = refl;
    total = omega arith;
    protocol = refl;
    source = omega arith;
    target = omega arith;
    first = refl;
  },
  refl,
)

pub fill_header-above :
    (mac : Bytes) (system_ip dst length proto : ℕ) (buf : Bytes) (j : ℕ)
    → fill_header mac system_ip dst length proto buf (34 + j) ≡ buf (34 + j)
unfolding fill_header put set_w set_i32 set_mac
fill_header-above mac system_ip dst length proto buf j = ground arith
