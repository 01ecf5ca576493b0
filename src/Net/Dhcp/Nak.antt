-- ===== src/Net/Dhcp/Nak.antt =====
-- kernel/net/queue.cpp, `DHCP_Client::recv`: the answer of a server that refuses a request.
use xivix.Base.{ℕ, suc, ◌+◌, ◌-◌, ◌≤◌, ◌≡◌, refl, arith, Option, some, ◌∙◌, bit_or, lt→ltb, le→ltb}
use xivix.Net.Packet.{Bytes, i32}
use xivix.Net.Dhcp.{Client}
use xivix.Net.Dhcp.Recv.{
  Scan, done, more, after, round, rounds_from, scan, options, check_option, receive_options, recv,
}

rounds_from-more :
    (f : Bytes → ℕ → ℕ → ℕ → Scan → Option Scan) (buf : Bytes) (eof n i : ℕ) (s : Scan) {j : ℕ}
    {t : Scan}
    → round f buf eof i s ≡ more j t
    → rounds_from f buf eof (suc n) i s ≡ rounds_from f buf eof n j t
unfolding rounds_from
rounds_from-more f buf eof n i s h = rw (rounds_from, h) refl

rounds_from-done :
    (f : Bytes → ℕ → ℕ → ℕ → Scan → Option Scan) (buf : Bytes) (eof n i : ℕ) (s : Scan) {t : Scan}
    → round f buf eof i s ≡ done t
    → rounds_from f buf eof (suc n) i s ≡ some t
unfolding rounds_from
rounds_from-done f buf eof n i s h = rw (rounds_from, h) refl

-- The options of a refusal: its type, the server, the end.
pub record IsNak (buf : Bytes) (i : ℕ) : Type 0 where
  pub type_code : buf i ≡ 53
  pub type_length : buf (i + 1) ≡ 1
  pub type_value : buf (i + 2) ≡ 6
  pub server_code : buf (i + 3) ≡ 54
  pub server_length : buf (i + 4) ≡ 4
  pub end_code : buf (i + 9) ≡ 255

module _ {buf : Bytes} {i eof : ℕ} (h : IsNak buf i) (room : i + 10 ≤ eof) where
  round-type : (s : Scan) → round check_option buf eof i s ≡ more (i + 3) (record s { mtype = 6 })
  unfolding round after check_option
  round-type s =
      let e : i + 2 + 1 ≡ i + 3 = omega arith in
      rw
        (
          h.type_code,
          h.type_length,
          h.type_value,
          lt→ltb i eof (omega arith),
          e,
          le→ltb eof (i + 3) (omega arith),
        )
        refl

  round-server :
      (s : Scan)
      → round check_option buf eof (i + 3) s
        ≡ more (i + 9) (record s { has_options = bit_or s.has_options 256; sid = i32 buf (i + 5) })
  unfolding round after check_option
  round-server s =
      let e1 : i + 3 + 1 ≡ i + 4 = omega arith in
      let e2 : i + 3 + 2 + 4 ≡ i + 9 = omega arith in
      let e3 : i + 3 + 2 ≡ i + 5 = omega arith in
      rw
        (
          e1,
          h.server_code,
          h.server_length,
          lt→ltb (i + 3) eof (omega arith),
          e2,
          e3,
          le→ltb eof (i + 9) (omega arith),
        )
        refl

  round-end : (s : Scan) → round check_option buf eof (i + 9) s ≡ done s
  unfolding round
  round-end s = rw (h.end_code, lt→ltb (i + 9) eof (omega arith)) refl

scan-nak :
    (buf : Bytes) (ofs n : ℕ)
    → IsNak buf (ofs + 240)
    → scan buf ofs (250 + n)
      ≡ some (record { has_options = 256; mtype = 6; sid = i32 buf (ofs + 240 + 5) })
unfolding scan options
scan-nak buf ofs n h =
    let eof : ℕ = 250 + n + ofs in
    let i : ℕ = ofs + 240 in
    let fuel : eof - i + 1 ≡ suc (suc (suc (n + 8))) = omega arith in
    let room : i + 10 ≤ eof = omega arith in
    rw fuel (
      rounds_from-more check_option buf eof (suc (suc (n + 8))) i
        (record { has_options = 0; mtype = 0; sid = 0 }) (round-type h room _)
      ∙ rounds_from-more check_option buf eof (suc (n + 8)) (i + 3)
          (record { has_options = 0; mtype = 6; sid = 0 }) (round-server h room _)
      ∙ rounds_from-done check_option buf eof (n + 8) (i + 9)
          (record { has_options = 256; mtype = 6; sid = i32 buf (i + 5) }) (round-end h room _))

-- A refusal (DHCPNAK) that has its type, its server and no other option changes nothing in any state: the
-- options that an offer must have are asked of it too.
pub recv-nak :
    (mac buf : Bytes) (ofs n : ℕ) (c : Client)
    → IsNak buf (ofs + 240)
    → recv mac buf ofs (250 + n) c ≡ c
unfolding recv receive_options
recv-nak mac buf ofs n c h = rw (scan-nak buf ofs n h) (ground arith)
