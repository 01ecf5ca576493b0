-- ===== src/Net/Arp/Invariant.antt =====
-- kernel/net/queue.cpp: the bounds of the ARP table and its addresses in the operations on it.
use xivix.Base.{
  ℕ, zero, suc, ◌+◌, ◌≤◌, ◌<◌, ◌≡◌, refl, arith, Bool, true, false, if◌then◌else◌, ◌==◌, Bool-cases,
  ltb, inl, inr, ltb→lt, ltb→le, le→ltb, ◌||◌, lt→ltb, sym, ◌∙◌, Option,
}
use xivix.Net.Packet.{Bytes, i32}
use xivix.Net.Arp.{
  ArpEntry, ArpLayer, present, entry_at, find_ip, add, set_entry, resolve_with_arp, ask, learn,
  confirm, confirm_entry, assign_ip4, assign_entry, runarp, run_entries, run_entry, handle_arp,
}
use xivix.Net.Arp.Unique.{
  IsTable, add-Added, find_ip-Missing, place-IsTable, known-IsTable, found-ipa, set_entry-IsTable,
  Others,
}

-- An operation that changes the entry of an address or the place that `add` makes for it.
upsert-IsTable :
    (p : ℕ) (old new : ArpEntry → ArpEntry) {arp : ArpLayer}
    → IsTable arp
    → ((e : ArpEntry) → present e ≡ true → e.ipa ≡ p → (old e).ipa ≡ p)
    → ((e : ArpEntry) → present e ≡ false → (new e).ipa ≡ p)
    → IsTable (
        if ltb (find_ip arp p) arp.size
        then set_entry (find_ip arp p) (old (entry_at arp (find_ip arp p))) arp
        else (if ltb (add arp).0 (add arp).1.size
            then set_entry (add arp).0 (new (entry_at (add arp).1 (add arp).0)) (add arp).1
            else (add arp).1))
upsert-IsTable p old new {arp} v ho hn = elim (Bool-cases (ltb (find_ip arp p) arp.size)) [
  | inl found ↦
      let f = found-ipa arp p (ltb→lt _ _ found) in
      rw found (known-IsTable v p (old (entry_at arp (find_ip arp p))) (ho _ f.0 f.1))
  | inr missing ↦ elim (add-Added v p (find_ip-Missing arp p (ltb→le _ _ missing))) [
    | inl (full, q) ↦ rw (missing, full, le→ltb arp.limit arp.size (omega arith)) v
    | inr placed ↦
        rw (missing, lt→ltb _ _ placed.slot)
          (place-IsTable placed (new (entry_at (add arp).1 (add arp).0)) (hn _ placed.absent))
  ]
]

confirm_entry-ipa :
    (ip : ℕ) (src : Bytes) (e : ArpEntry)
    → (present e ≡ true → e.ipa ≡ ip)
    → (confirm_entry ip src e).ipa ≡ ip
unfolding confirm_entry
confirm_entry-ipa ip src e h = ground (arith, h)

ask-ipa : (e : ArpEntry) → (ask e).ipa ≡ e.ipa
unfolding ask
ask-ipa e = ground arith

assign_entry-ipa : (ip : ℕ) (mac : Bytes) (e : ArpEntry) → (assign_entry ip mac e).ipa ≡ ip
unfolding assign_entry
assign_entry-ipa ip mac e = ground arith

pub learn-IsTable :
    (ip : ℕ) (src : Bytes) {arp : ArpLayer} → IsTable arp → IsTable (learn ip src arp)
unfolding learn
learn-IsTable ip src {arp} v = elim (Bool-cases (ltb (find_ip arp ip) arp.size)) [
  | inl found ↦ rw found v
  | inr missing ↦ elim (add-Added v ip (find_ip-Missing arp ip (ltb→le _ _ missing))) [
    | inl (full, q) ↦ rw (missing, full, le→ltb arp.limit arp.size (omega arith)) v
    | inr placed ↦
        rw (missing, lt→ltb _ _ placed.slot)
          (place-IsTable placed (record { info = 0x7000; lla = src; ipa = ip }) refl)
  ]
]

pub confirm-IsTable :
    (ip : ℕ) (src : Bytes) {arp : ArpLayer} → IsTable arp → IsTable (confirm ip src arp)
unfolding confirm
confirm-IsTable ip src {arp} v =
    upsert-IsTable ip (confirm_entry ip src) (confirm_entry ip src) v
      (λ e b q. confirm_entry-ipa ip src e (λ k. q))
      (λ e b. confirm_entry-ipa ip src e (λ k. absurd (ground arith)))

pub resolve_with_arp-IsTable :
    (ip : ℕ) {arp : ArpLayer} → IsTable arp → IsTable (resolve_with_arp ip arp)
unfolding resolve_with_arp
resolve_with_arp-IsTable ip {arp} v =
    upsert-IsTable ip ask (λ e. record e { info = 0x1000 + 3; ipa = ip }) v (λ e b q. ask-ipa e ∙ q)
      (λ e b. refl)

-- The table does not depend on the address of the machine.
renamed-IsTable : {arp : ArpLayer} (ip : ℕ) → IsTable arp → IsTable (record arp { system_ip = ip })
renamed-IsTable ip v = record { within = v.within; slots = v.slots; unique = v.unique }

-- There is a place for the address: it is that of the machine, or has an entry, or `add` finds one.
unfoldable pub has_place : ℕ → ArpLayer → Bool
has_place ip arp = ip == arp.system_ip || ltb (find_ip arp ip) arp.size || ltb (add arp).0 arp.limit

pub assign_ip4-IsTable :
    (ip : ℕ) (mac : Bytes) {arp : ArpLayer}
    → has_place ip arp ≡ true
    → IsTable arp
    → IsTable (assign_ip4 ip mac arp)
unfolding assign_ip4 has_place
assign_ip4-IsTable ip mac {arp} room v = elim (Bool-cases (ip == arp.system_ip)) [
  | inl same ↦ rw same v
  | inr other ↦ elim (Bool-cases (ltb (find_ip arp ip) arp.size)) [
    | inl found ↦
        let e : ArpEntry = assign_entry ip mac (entry_at arp (find_ip arp ip)) in
        rw (other, found)
          (renamed-IsTable ip
            (known-IsTable v ip e (assign_entry-ipa ip mac (entry_at arp (find_ip arp ip)))))
    | inr missing ↦ elim (add-Added v ip (find_ip-Missing arp ip (ltb→le _ _ missing))) [
      | inl (full, q) ↦ absurd (ground (arith, room, other, missing, full))
      | inr placed ↦
          let inside : ltb (add arp).0 arp.limit ≡ true = ground (arith, room, other, missing) in
          rw (other, missing, inside)
            (renamed-IsTable ip (
              place-IsTable placed (assign_entry ip mac (entry_at (add arp).1 (add arp).0))
                (assign_entry-ipa ip mac _)))
    ]
  ]
]

run_entry-kept :
    (free : Bool) (e : ArpEntry)
    → ((run_entry free e).0.ipa ≡ e.ipa) × (present (run_entry free e).0 ≡ true → present e ≡ true)
unfolding run_entry
run_entry-kept free e = ground arith

entry-Others :
    {arp : ArpLayer}
    → IsTable arp
    → (i : ℕ) → i < arp.size
    → present (entry_at arp i) ≡ true
    → Others i (entry_at arp i).ipa arp
entry-Others v i h b j k ne pj same = ne (v.unique i j h k b pj (sym same))

run_entries-IsTable :
    (n i : ℕ) (free : ℕ → Bool) {arp : ArpLayer}
    → IsTable arp
    → i + n ≤ arp.size
    → IsTable (record arp { table = (run_entries n i free arp.table).0 })
unfolding run_entries
run_entries-IsTable zero i free v h = v
run_entries-IsTable (suc n) i free {arp} v h =
    let e : ArpEntry = entry_at arp i in
    let k = run_entry-kept (free i) e in
    let v1 : IsTable (set_entry i (run_entry (free i) e).0 arp) =
      set_entry-IsTable v i (run_entry (free i) e).0
        (λ b. rw k.0 (entry-Others v i (omega arith) (k.1 b))) in
    run_entries-IsTable n (suc i) free v1 (omega arith)

pub runarp-IsTable : (free : ℕ → Bool) {arp : ArpLayer} → IsTable arp → IsTable (runarp free arp).0
unfolding runarp
runarp-IsTable free {arp} v = run_entries-IsTable arp.size 0 free v (omega arith)

pub handle_arp-IsTable :
    (mac : Bytes) (free : Option Bytes) (pkt : Bytes) {arp : ArpLayer}
    → IsTable arp
    → IsTable (handle_arp mac free pkt arp).0
unfolding handle_arp
handle_arp-IsTable mac free pkt {arp} v =
    let l = learn-IsTable (i32 pkt 28) (λ i. pkt (22 + i)) v in
    let c = confirm-IsTable (i32 pkt 28) (λ i. pkt (22 + i)) v in ground arith
