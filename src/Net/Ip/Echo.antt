-- ===== src/Net/Ip/Echo.antt =====
-- kernel/net/queue.cpp, `handle_icmp`: the answer to an echo request.
use xivix.Base.{ℕ, zero, suc, ◌+◌, ◌-◌, ◌*◌, ◌/◌, ◌%◌, ◌≤◌, ◌<◌, ◌≡◌, refl, arith, ◌∙◌, ap, min}
use xivix.Net.Packet.{Bytes, put, set_w, bswapw, nw, copy}
use xivix.Net.Checksum.{ipchksum}
use xivix.Net.Checksum.Fold.{ones_sum}
use xivix.Net.Checksum.Sum.{IsBytes, words, ipchksum-words, ones_sum_inverted}
use xivix.Net.Ip.{fill_echo, echo_message, from, not16}
use xivix.Net.Ip.Header.{set_w-ne, set_w-IsBytes}
use xivix.Net.Ip.Udp.{copy_lem}
use xivix.Net.Ip.Check.{words-same}

words-set_w :
    (k v : ℕ) (buf : Bytes)
    → nw buf 36 ≡ 0
    → v < 0x10000
    → words (suc (suc k)) (from 34 (set_w 36 (bswapw v) buf)) 0
      ≡ words (suc (suc k)) (from 34 buf) 0 + v
unfolding words nw set_w put bswapw
words-set_w k v buf h l = omega (
  arith,
  words-same k 4 (from 34 (set_w 36 (bswapw v) buf)) (from 34 buf) (λ j m.
      set_w-ne 36 (bswapw v) (34 + j) buf (λ q. absurd (omega arith)) (λ q. absurd (omega arith))),
)

copy-IsBytes :
    (n to : ℕ) {src buf : Bytes} → IsBytes src → IsBytes buf → IsBytes (copy n to src buf)
unfolding copy put
copy-IsBytes zero to b c j = c j
copy-IsBytes (suc n) to {src} b c j = let h = b n in let k = copy-IsBytes n to b c j in ground arith

put-IsBytes : (i v : ℕ) {buf : Bytes} → v < 0x100 → IsBytes buf → IsBytes (put i v buf)
unfolding put
put-IsBytes i v h b j = let k = b j in ground arith

echo_message-IsBytes :
    (ofs len : ℕ) {pkt buf : Bytes}
    → IsBytes pkt
    → IsBytes buf
    → IsBytes (echo_message pkt ofs len buf)
unfolding echo_message
echo_message-IsBytes ofs len b c =
    set_w-IsBytes 36 0
      (put-IsBytes 34 0 (omega arith) (copy-IsBytes (min 1472 len) 34 (λ j. b (ofs + j)) c))

echo_message-checksum : (ofs len : ℕ) (pkt buf : Bytes) → nw (echo_message pkt ofs len buf) 36 ≡ 0
unfolding echo_message nw set_w put
echo_message-checksum ofs len pkt buf = refl

echo_message-data :
    (ofs len : ℕ) (pkt buf : Bytes) (i : ℕ)
    → i + 4 < min 1472 len
    → echo_message pkt ofs len buf (38 + i) ≡ pkt (ofs + 4 + i)
unfolding echo_message set_w put
echo_message-data ofs len pkt buf i h =
    let to : 38 + i ≡ 34 + (4 + i) = omega arith in
    let at : ofs + (4 + i) ≡ ofs + 4 + i = omega arith in
    ground (
      arith,
      ap (copy (min 1472 len) 34 (from ofs pkt) buf) to,
      copy_lem (min 1472 len) 34 (4 + i) (from ofs pkt) buf (omega arith),
      ap pkt at,
    )

echo-checksum :
    {buf : Bytes} (k : ℕ)
    → IsBytes buf
    → nw buf 36 ≡ 0
    → k ≤ 0x7000
    → ipchksum
        (from 34 (set_w 36 (bswapw (not16 (ipchksum (from 34 buf) (2 * suc (suc k)) 0))) buf))
        (2 * suc (suc k))
        0
      ≡ 0xffff
echo-checksum {buf} k b h l =
    let n : ℕ = suc (suc k) in
    let v : ℕ = ipchksum (from 34 buf) (2 * n) 0 in
    let total : v ≡ ones_sum (0 + words n (from 34 buf) 0) =
      ipchksum-words (from 34 buf) n 0 (λ j. b (34 + j)) (omega arith) (omega arith)
        (omega arith) in
    let small : not16 v < 0x10000 = omega arith in
    ipchksum-words (from 34 (set_w 36 (bswapw (not16 v)) buf)) n 0
      (λ j. set_w-IsBytes 36 (bswapw (not16 v)) b (34 + j)) (omega arith) (omega arith)
      (omega arith)
    ∙ ap (λ t. ones_sum (0 + t)) (words-set_w k (not16 v) buf h small)
    ∙ ap ones_sum (omega arith)
    ∙ ap (λ t. ones_sum (0 + words n (from 34 buf) 0 + (0xffff - t))) total
    ∙ ones_sum_inverted (0 + words n (from 34 buf) 0)

echo-checksum-even :
    {buf : Bytes} (len k : ℕ)
    → len ≡ 2 * suc (suc k)
    → IsBytes buf
    → nw buf 36 ≡ 0
    → k ≤ 0x7000
    → ipchksum (from 34 (set_w 36 (bswapw (not16 (ipchksum (from 34 buf) len 0))) buf)) len 0
      ≡ 0xffff
echo-checksum-even len k e b h l = rw e (echo-checksum k b h l)

echo_message-type : (ofs len : ℕ) (pkt buf : Bytes) → echo_message pkt ofs len buf 34 ≡ 0
unfolding echo_message set_w put
echo_message-type ofs len pkt buf = refl

-- The answer to an echo request of `len` bytes at `ofs`, 4 to 1472: the type is 0, the bytes behind the
-- checksum are those of the request, and for an even length the words have the sum 0xffff.
pub fill_echo_lem :
    {pkt buf : Bytes} (ofs len : ℕ)
    → IsBytes pkt
    → IsBytes buf
    → 4 ≤ len
    → len ≤ 1472
    → let answer = fill_echo pkt ofs len buf in
      (answer 34 ≡ 0)
      × ((i : ℕ) → i + 4 < len → answer (38 + i) ≡ pkt (ofs + 4 + i))
      × (len % 2 ≡ 0 → ipchksum (from 34 answer) len 0 ≡ 0xffff)
unfolding fill_echo
fill_echo_lem {pkt} {buf} ofs len b c low high = (
  set_w-ne 36 (bswapw (not16 (ipchksum (from 34 (echo_message pkt ofs len buf)) len 0))) 34
        (echo_message pkt ofs len buf) (λ q. absurd (omega arith)) (λ q. absurd (omega arith))
      ∙ echo_message-type ofs len pkt buf,
  λ i h.
      set_w-ne 36 (bswapw (not16 (ipchksum (from 34 (echo_message pkt ofs len buf)) len 0)))
        (38 + i) (echo_message pkt ofs len buf) (λ q. absurd (omega arith))
        (λ q. absurd (omega arith))
      ∙ echo_message-data ofs len pkt buf i (omega arith),
  λ even.
      let k : ℕ = len / 2 - 2 in
      let e : len ≡ 2 * suc (suc k) = omega arith in
      echo-checksum-even len k e (echo_message-IsBytes ofs len b c)
        (echo_message-checksum ofs len pkt buf) (omega arith),
)
