-- ===== src/Net/Arp/Keep.antt =====
-- kernel/net/queue.cpp, `ARP_layer`: a present entry stays where it is.
use xivix.Base.{
  ℕ, ◌<◌, ◌≡◌, ◌≢◌, arith, true, false, get_or, Bool-cases, ltb, leb, inl, inr, get_or-set_ne,
  ltb→lt, ltb→le, sym, ◌∙◌, ap,
}
use mathlib.Core.Bool.{true≢false}
use xivix.Net.Packet.{Bytes}
use xivix.Net.Arp.{
  ArpEntry, ArpLayer, present, empty_entry, entry_at, find_free, find_ip, add, set_entry, learn,
}
use xivix.Net.Arp.Table.{find_free_lem}
use xivix.Net.Arp.Unique.{IsTable, found-ipa, find_ip-Missing}

-- The table has the entry at the index, and it is present.
pub record Holds (arp : ArpLayer) (i : ℕ) (e : ArpEntry) : Type 0 where
  pub slot : i < arp.size
  pub here : entry_at arp i ≡ e
  pub there : present e ≡ true

set-Holds :
    {arp : ArpLayer} {i : ℕ} {e : ArpEntry}
    → Holds arp i e
    → (j : ℕ) (f : ArpEntry) → j ≢ i
    → Holds (set_entry j f arp) i e
set-Holds {arp} {i} {e} h j f ne = record {
  slot = h.slot;
  here = get_or-set_ne arp.table j i f empty_entry ne ∙ h.here;
  there = h.there;
}

pub add-Holds :
    {arp : ArpLayer} {i : ℕ} {e : ArpEntry}
    → IsTable arp
    → Holds arp i e
    → ((add arp).0 ≢ i) × Holds (add arp).1 i e
unfolding add
add-Holds {arp} {i} {e} v h =
    let free = find_free_lem arp.size arp.table 0 in
    elim (Bool-cases (ltb (find_free arp.size arp.table 0) arp.size)) [
      | inl within ↦
          let ne : find_free arp.size arp.table 0 ≢ i = λ q.
            let no : present (get_or arp.table (find_free arp.size arp.table 0) empty_entry)
                ≡ false =
              free.2 (ground arith) in
            absurd (
              true≢false (
                sym h.there
                ∙ ap present (sym h.here)
                ∙ ap (λ j. present (entry_at arp j)) (sym q)
                ∙ no)) in
          rw within (ne, set-Holds h _ _ ne)
      | inr past ↦ elim (Bool-cases (leb arp.limit arp.size)) [
        | inl full ↦ rw (past, full) ((λ q. absurd (omega (arith, h.slot, v.within, q))), h)
        | inr room ↦
            let ne : find_free arp.size arp.table 0 ≢ i = λ q. absurd (ground (arith, h.slot)) in
            let h1 =
              set-Holds h _ (record (entry_at arp (find_free arp.size arp.table 0)) { info = 0 })
                ne in
            rw (past, room)
              (ne, record { slot = omega (arith, h.slot); here = h1.here; there = h.there })
      ]
    ]

-- Of an address that is in the table, `find_ip` finds the entry.
pub find_ip-Holds :
    {arp : ArpLayer} {i : ℕ} {e : ArpEntry} → IsTable arp → Holds arp i e → find_ip arp e.ipa ≡ i
find_ip-Holds {arp} {i} {e} v h = elim (Bool-cases (ltb (find_ip arp e.ipa) arp.size)) [
  | inl found ↦
      let f = found-ipa arp e.ipa (ltb→lt _ _ found) in
      v.unique (find_ip arp e.ipa) i (ltb→lt _ _ found) h.slot f.0 (ap present h.here ∙ h.there)
        (f.1 ∙ ap (λ x. x.ipa) (sym h.here))
  | inr missing ↦ absurd (
      find_ip-Missing arp e.ipa (ltb→le _ _ missing) i h.slot (ap present h.here ∙ h.there)
        (ap (λ x. x.ipa) h.here))
]

pub learn-Holds :
    (ip : ℕ) (src : Bytes) {arp : ArpLayer} {i : ℕ} {e : ArpEntry}
    → IsTable arp
    → Holds arp i e
    → Holds (learn ip src arp) i e
unfolding learn
learn-Holds ip src {arp} v h =
    let a = add-Holds v h in
    elim (Bool-cases (ltb (find_ip arp ip) arp.size)) [
      | inl found ↦ rw found h
      | inr missing ↦ elim (Bool-cases (ltb (add arp).0 (add arp).1.size)) [
        | inl room ↦ rw (missing, room) (set-Holds a.1 _ _ a.0)
        | inr full ↦ rw (missing, full) a.1
      ]
    ]
