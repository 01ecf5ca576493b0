-- ===== src/Net/Dhcp/Recv.antt =====
-- kernel/net/queue.cpp, `DHCP_Client::recv`, and kernel/kmain.cpp, `memeq`.
use xivix.Base.{
  ℕ, zero, suc, ◌+◌, ◌-◌, ◌/◌, bit_and, bit_or, bit_xor, if◌then◌else◌, ◌==◌, has, not, ◌&&◌, ◌||◌,
  Option, none, some, [], ◌∷◌, ◌++◌, length, ltb,
}
use mathlib.Core.Option
use xivix.Net.Packet.{Bytes, nw, i32, set_w, set_i32, bswapi}
use xivix.Net.Arp.{assign_ip4}
use xivix.Net.Dhcp.{Client, state}

-- `memeq` of kernel/kmain.cpp: 0 for equal bytes.
unfoldable pub memeq : ℕ → Bytes → Bytes → ℕ
memeq zero a b = 0
memeq (suc l) a b = bit_or (bit_xor (a l) (b l)) (memeq l a b)

-- The locals `has_options`, `mtype` and `sid`.
pub record Scan : Type 0 where
  pub has_options : ℕ
  pub mtype : ℕ
  pub sid : ℕ

-- One option of the first loop, of code `oc` and length `ocl` at `i`; none where the source returns.
unfoldable pub check_option : Bytes → ℕ → ℕ → ℕ → Scan → Option Scan
check_option buf oc ocl i s =
    let flag : ℕ → Option Scan = λ f. some (record s { has_options = bit_or s.has_options f }) in
    let words = ltb ocl 4 || not (bit_and ocl 3 == 0) in
    let mtype = buf i in
    if oc == 1
    then (if ocl == 4 then flag 2 else none)
    else (if oc == 2
        then (if ocl == 4 then flag 16 else none)
        else (if oc == 3
            then (if words then none else flag 4)
            else (if oc == 4
                then (if words then none else flag 32)
                else (if oc == 6
                    then (if words then none else flag 8)
                    else (if oc == 15
                        then (if ltb ocl 1 then none else flag 64)
                        else (if oc == 31
                            then (if ocl == 1 then flag 128 else none)
                            else (if oc == 51
                                then (if ocl == 4 then flag 1 else none)
                                else (if oc == 53
                                    then (if not (ocl == 1) || ltb mtype 2 || ltb 8 mtype
                                        then none
                                        else some (record s { mtype = mtype }))
                                    else (if oc == 54
                                        then (if ocl == 4
                                            then some (record s {
                                              has_options = bit_or s.has_options 256;
                                              sid = i32 buf i;
                                            })
                                            else none)
                                        else some s)))))))))

-- One round of the loops over the options: the end, a return, or the next index.
pub data Round (S : Type 0) : Type 0 where
  done : S → Round S
  returned : Round S
  more : ℕ → S → Round S

unfoldable pub after : {S : Type 0} → ℕ → Option S → Round S
after i none = returned
after i (some s) = more i s

unfoldable pub round :
    {S : Type 0} → (Bytes → ℕ → ℕ → ℕ → S → Option S) → Bytes → ℕ → ℕ → S → Round S
round f buf eof i s =
    let oc = buf i in
    let ocl = buf (i + 1) in
    if not (ltb i eof)
    then done s
    else (if oc == 0
        then more (i + 1) s
        else (if oc == 255
            then done s
            else (if ltb eof (i + 2 + ocl)
                then done s
                else after (i + 2 + ocl) (f buf oc ocl (i + 2) s))))

-- The loop with the body `f`. Each round reads a byte, so `eof - i` rounds and one for the end are
-- enough.
unfoldable pub rounds_from :
    {S : Type 0} → (Bytes → ℕ → ℕ → ℕ → S → Option S) → Bytes → ℕ → ℕ → ℕ → S → Option S
rounds_from f buf eof zero i s = some s
rounds_from f buf eof (suc n) i s = elim (round f buf eof i s) [
  | done t ↦ some t
  | returned ↦ none
  | more j t ↦ rounds_from f buf eof n j t
]

unfoldable pub options :
    {S : Type 0} → (Bytes → ℕ → ℕ → ℕ → S → Option S) → Bytes → ℕ → ℕ → S → Option S
options f buf eof i s = rounds_from f buf eof (eof - i + 1) i s

-- One option of the second loop; only the lease time is kept.
unfoldable pub take_option : Bytes → ℕ → ℕ → ℕ → ℕ → Option ℕ
unfolding bswapi
take_option buf oc ocl i lease_time = some (if oc == 51 then bswapi (i32 buf i) else lease_time)

abbrev pub min_options : ℕ
min_options = 0x10f

-- The first bytes of a kept offer are overwritten.
unfoldable pub keep_offer : Bytes → ℕ → ℕ → Scan → Bytes
unfolding set_w set_i32
keep_offer buf ofs len s = set_i32 8 s.sid (set_i32 4 s.has_options (set_w 2 len (set_w 0 ofs buf)))

-- An acknowledged address is taken.
unfoldable pub accept : Bytes → Bytes → ℕ → ℕ → Scan → Client → Client
accept mac buf ofs eof s c =
    let yip = i32 buf (ofs + 16) in
    let lease = Option.get_or (options take_option buf eof (ofs + 240) c.lease_time) c.lease_time in
    state mac 6 (record c {
      offers = [];
      lease_addr = yip;
      next_addr = i32 buf (ofs + 20);
      serv_addr = s.sid;
      lease_time = lease;
      lease_t1 = lease / 2;
      lease_t2 = lease / 8;
      arp = assign_ip4 yip mac c.arp;
    })

-- `recv` after the options are scanned.
unfoldable pub receive_options : Bytes → Bytes → ℕ → ℕ → Option Scan → Client → Client
receive_options mac buf ofs len none c = c
receive_options mac buf ofs len (some s) c =
    let bound = c.runstate == 5 || c.runstate == 8 in
    if not (bit_and s.has_options min_options == min_options)
    then c
    else (if c.runstate == 3 && not (s.mtype == 2)
        then c
        else (if bound && s.mtype == 6
            then state mac 1 c
            else (if bound && not (s.mtype == 5)
                then c
                else (if c.runstate == 3
                    then (if ltb (length c.offers) 4
                        then record c { offers = c.offers ++ keep_offer buf ofs len s ∷ [] }
                        else c)
                    else (if bound then accept mac buf ofs (len + ofs) s c else c)))))

-- The first loop.
unfoldable pub scan : Bytes → ℕ → ℕ → Option Scan
scan buf ofs len =
    options check_option buf (len + ofs) (ofs + 240)
      (record { has_options = 0; mtype = 0; sid = 0 })

-- `DHCP_Client::recv` of a message of `len` bytes at `ofs`, with the station address of the device.
unfoldable pub recv : Bytes → Bytes → ℕ → ℕ → Client → Client
unfolding bswapi
recv mac buf ofs len c =
    if ltb len 240
    then c
    else (if not (i32 buf (ofs + 4) == c.transaction)
        then c
        else (if not (bit_and (i32 buf ofs) 0xff_ffff == 0x60102)
            then c
            else (if has (nw buf (ofs + 10)) 0x7fff
                then c
                else (if not (memeq 6 mac (λ j. buf (ofs + 28 + j)) == 0)
                    then c
                    else (if not (i32 buf (ofs + 236) == bswapi 0x6382_5363)
                        then c
                        else receive_options mac buf ofs len (scan buf ofs len) c)))))
