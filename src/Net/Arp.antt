-- ===== src/Net/Arp.antt =====
-- kernel/net/queue.cpp, `ARP_layer`, `assign_ip4`, `runarp`, `resolve_with_arp` and `handle_arp`.
pub mod Table
pub mod Unique
pub mod Invariant
pub mod Behind
pub mod Run
pub mod Keep
pub mod Exchange
pub mod Expiry
use xivix.Base.{
  ℕ, zero, suc, ◌+◌, ◌-◌, ◌*◌, ◌/◌, ◌%◌, bit_and, bit_or, Bool, true, false, if◌then◌else◌, ◌==◌,
  has, not, ◌&&◌, ◌||◌, List, [], ◌∷◌, Option, none, some, length, get_or, set, ltb, leb,
}
use xivix.Base.Word.{u16}
use mathlib.Core.Option
use xivix.Net.Packet.{Bytes, nw, i32}
use xivix.Net.Frame.{packet_send_resp_arp}

-- `arp_entry`; the address is the 32-bit number in memory, the station address the bytes.
pub record ArpEntry : Type 0 where
  pub ipa : ℕ
  pub lla : Bytes
  pub info : ℕ

-- `ARP_layer`, with the `limit` of slots in `table`, `system_ip`, and the memory behind the table, as much as an entry.
pub record ArpLayer : Type 0 where
  pub size : ℕ
  pub table : List ArpEntry
  pub limit : ℕ
  pub system_ip : ℕ
  pub behind : ArpEntry

abbrev pub empty_entry : ArpEntry
empty_entry = record { ipa = 0; lla = λ i. 0; info = 0 }

abbrev pub entry_at : ArpLayer → ℕ → ArpEntry
entry_at arp i = get_or arp.table i empty_entry

-- `info & ARPT_PRESENT`
abbrev pub present : ArpEntry → Bool
present e = has e.info 0x1000

-- `info & ARPT_STATUS`
abbrev pub status : ArpEntry → ℕ
status e = bit_and e.info 0xe000

-- `info & ARPT_COUNT`
abbrev pub count : ArpEntry → ℕ
count e = bit_and e.info 0xfff

abbrev pub set_entry : ℕ → ArpEntry → ArpLayer → ArpLayer
set_entry i e arp = record arp { table = set arp.table i e }

-- The first index from `i` on of the next `n` that has no present entry; `i + n` if there is none.
unfoldable pub find_free : ℕ → List ArpEntry → ℕ → ℕ
find_free zero table i = i
find_free (suc n) table i =
    let rest = find_free n table (suc i) in if present (get_or table i empty_entry) then rest else i

-- The first index with a present entry of the address.
unfoldable pub find_from : ℕ → List ArpEntry → ℕ → ℕ → ℕ
find_from zero table p i = i
find_from (suc n) table p i =
    let rest = find_from n table p (suc i) in
    let e = get_or table i empty_entry in
    if not (present e) then rest else (if e.ipa == p then i else rest)

-- `ARP_layer::add`
unfoldable pub add : ArpLayer → ℕ × ArpLayer
add arp =
    let i = find_free arp.size arp.table 0 in
    if ltb i arp.size
    then (i, set_entry i (record (entry_at arp i) { info = 0 }) arp)
    else (if leb arp.limit arp.size then (arp.limit, arp) else (
      i,
      set_entry i (record (entry_at arp i) { info = 0 }) (record arp { size = arp.size + 1 }),
    ))

-- `ARP_layer::find_ip`
unfoldable pub find_ip : ArpLayer → ℕ → ℕ
find_ip arp p = find_from arp.size arp.table p 0

-- The entry of an address that is assigned to this machine.
unfoldable pub assign_entry : ℕ → Bytes → ArpEntry → ArpEntry
assign_entry ip mac e =
    if status e == 0xa000
    then record e { ipa = ip }
    else record { ipa = ip; info = 0x1000 + 0x8000 + 2; lla = mac }

-- `assign_ip4`, with the station address of the device. Without a free entry it prints that there is no space, and
-- changes the memory behind the table.
unfoldable pub assign_ip4 : ℕ → Bytes → ArpLayer → ArpLayer
assign_ip4 ip mac arp =
    let found = find_ip arp ip in
    let (i, arp1) = add arp in
    if ip == arp.system_ip
    then arp
    else (if ltb found arp.size
        then record (set_entry found (assign_entry ip mac (entry_at arp found)) arp) {
          system_ip = ip;
        }
        else (if ltb i arp.limit
            then record (set_entry i (assign_entry ip mac (entry_at arp1 i)) arp1) {
              system_ip = ip;
            }
            else record arp1 { system_ip = ip; behind = assign_entry ip mac arp.behind }))

-- What `resolve_with_arp` does to the entry of the address.
unfoldable pub ask : ArpEntry → ArpEntry
ask e =
    let st = status e in
    let more : ArpEntry → ArpEntry =
      λ e1. if leb (count e1) 1 then record e1 { info = u16 (e1.info + 3) } else e1 in
    if st == 0xe000 || st == 0xa000
    then e
    else (if st == 0x2000
        then record e { info = 0x1000 + 1 }
        else (if st == 0x6000
            then more (record e { info = bit_or 0x1000 (bit_and e.info 0x1fff) })
            else (if st == 0xc000 then more (record e { info = 0x9000 + 5 }) else more e)))

-- `resolve_with_arp`; a new entry has unknown status.
unfoldable pub resolve_with_arp : ℕ → ArpLayer → ArpLayer
resolve_with_arp nani arp =
    let q = find_ip arp nani in
    let (i, arp1) = add arp in
    if ltb q arp.size
    then set_entry q (ask (entry_at arp q)) arp
    else (if ltb i arp1.size
        then set_entry i (record (entry_at arp1 i) { info = 0x1000 + 3; ipa = nani }) arp1
        else arp1)

-- One entry of `runarp`, with whether `request_packet` gives a packet. The second part says whether
-- a request is broadcast.
unfoldable pub run_entry : Bool → ArpEntry → ArpEntry × Bool
run_entry free e =
    let older : ArpEntry = record e { info = u16 (e.info + 0xffff) } in
    let st = status e in
    if not (present e)
    then (e, false)
    else (if st == 0 || st == 0x4000
        then (if ltb 0 (count e)
            then (if free then (older, true) else (e, false))
            else (older, false))
        else (if st == 0x8000
            then (if ltb 0 (count e)
                then (if free then (older, true) else (e, false))
                else (record e { info = bit_or e.info 0x2000 }, false))
            else (e, false)))

-- The loop of `runarp` over the next `n` entries, with the entries that get a packet. The second part
-- is the addresses that are asked for, in order.
unfoldable pub run_entries : ℕ → ℕ → (ℕ → Bool) → List ArpEntry → List ArpEntry × List ℕ
run_entries zero i free table = (table, [])
run_entries (suc n) i free table =
    let e = get_or table i empty_entry in
    let (e1, sent) = run_entry (free i) e in
    let (table1, asked) = run_entries n (suc i) free (set table i e1) in
    (table1, if sent then e.ipa ∷ asked else asked)

unfoldable pub runarp : (ℕ → Bool) → ArpLayer → ArpLayer × List ℕ
runarp free arp =
    let (t, asked) = run_entries arp.size 0 free arp.table in (record arp { table = t }, asked)

-- The query part of `handle_arp`, after the source is looked up.
unfoldable pub answer : Bytes → Option Bytes → Bytes → ArpLayer → Option Bytes
answer mac free pkt arp =
    let q = find_ip arp (i32 pkt 38) in
    let frame : Bytes → Bytes =
      packet_send_resp_arp (i32 pkt 28) (λ i. pkt (22 + i)) mac arp.system_ip pkt in
    if ltb q arp.size
    then (if status (entry_at arp q) == 0xa000 then Option.map frame free else none)
    else none

-- The source of a query: an unknown station is added.
unfoldable pub learn : ℕ → Bytes → ArpLayer → ArpLayer
learn ip src arp =
    let (i, arp1) = add arp in
    if ltb (find_ip arp ip) arp.size
    then arp
    else (if ltb i arp1.size
        then set_entry i (record { info = 0x7000; lla = src; ipa = ip }) arp1
        else arp1)

-- The entry of a station that answers: `arp.set(w_ip)` only in a new entry, and no change of an
-- address that this machine is about to take.
unfoldable pub confirm_entry : ℕ → Bytes → ArpEntry → ArpEntry
confirm_entry ip src e =
    if present e && status e == 0x8000
    then e
    else record { ipa = if present e then e.ipa else ip; info = 0x3000 + 180; lla = src }

-- The response part of `handle_arp`.
unfoldable pub confirm : ℕ → Bytes → ArpLayer → ArpLayer
confirm ip src arp =
    let found = find_ip arp ip in
    let (i, arp1) = add arp in
    if ltb found arp.size
    then set_entry found (confirm_entry ip src (entry_at arp found)) arp
    else (if ltb i arp1.size
        then set_entry i (confirm_entry ip src (entry_at arp1 i)) arp1
        else arp1)

-- `handle_arp`, with the station address of the device and the packet that `request_packet` gives, if
-- any. The second part is the frame that is transmitted.
unfoldable pub handle_arp : Bytes → Option Bytes → Bytes → ArpLayer → ArpLayer × Option Bytes
handle_arp mac free pkt arp =
    let src : Bytes = λ i. pkt (22 + i) in
    let opc = nw pkt 20 in
    let asked = learn (i32 pkt 28) src arp in
    if not (nw pkt 14 == 1 && nw pkt 16 == 0x800)
    then (arp, none)
    else (if not (pkt 18 == 6 && pkt 19 == 4)
        then (arp, none)
        else (if opc == 1
            then (asked, answer mac free pkt asked)
            else (if opc == 2 then (confirm (i32 pkt 28) src arp, none) else (arp, none))))
