-- ===== src/Net/Arp/Unique.antt =====
-- kernel/net/queue.cpp, `ARP_layer`: the table stays in its bounds and has no address twice.
use xivix.Base.{
  ℕ, ◌+◌, ◌≤◌, ◌<◌, ◌≡◌, ◌≢◌, arith, true, false, ◌==◌, List, length, get_or, set, Bool-cases, ltb,
  leb, inl, inr, ◌⊎◌, get_or-set_self, get_or-set_ne, length-set, ltb→lt, sym, ◌∙◌, ap,
}
use xivix.Net.Arp.{
  ArpEntry, ArpLayer, present, empty_entry, entry_at, find_free, find_ip, add, set_entry,
}
use xivix.Net.Arp.Table.{find_free_lem, find_from_lem}

-- No two of the first `n` entries are present with one address.
abbrev pub Unique : ℕ → List ArpEntry → Type 0
Unique n table =
    (i j : ℕ)
    → i < n
    → j < n
    → present (get_or table i empty_entry) ≡ true
    → present (get_or table j empty_entry) ≡ true
    → (get_or table i empty_entry).ipa ≡ (get_or table j empty_entry).ipa
    → i ≡ j

pub record IsTable (arp : ArpLayer) : Type 0 where
  pub within : arp.size ≤ arp.limit
  pub slots : length arp.table ≡ arp.limit
  pub unique : Unique arp.size arp.table

-- The other present entries do not have the address `p`.
abbrev pub Others : ℕ → ℕ → ArpLayer → Type 0
Others i p arp =
    (j : ℕ) → j < arp.size → i ≢ j → present (entry_at arp j) ≡ true → (entry_at arp j).ipa ≢ p

pub find_ip-Others : {arp : ArpLayer} → IsTable arp → (p : ℕ) → Others (find_ip arp p) p arp
unfolding find_ip
find_ip-Others {arp} v p j h ne b e =
    let f = find_from_lem arp.size arp.table p 0 in
    elim (Bool-cases (ltb j (find_ip arp p))) [
      | inl before ↦ f.3 j (omega arith) (ltb→lt j (find_ip arp p) before) b e
      | inr later ↦
          let found = f.2 (ground arith) in
          ne (v.unique (find_ip arp p) j (ground arith) h found.0 b (found.1 ∙ sym e))
    ]

set-at :
    (table : List ArpEntry) (i j : ℕ) (e : ArpEntry)
    → j < length table
    → ((i ≡ j) × (get_or (set table i e) j empty_entry ≡ e))
      ⊎ ((i ≢ j) × (get_or (set table i e) j empty_entry ≡ get_or table j empty_entry))
set-at table i j e h = elim (Bool-cases (i == j)) [
  | inl same ↦
      let q : i ≡ j = ground arith in
      inl (q, rw (← q) (get_or-set_self table i e empty_entry (omega arith)))
  | inr other ↦
      let ne : i ≢ j = λ q. absurd (ground arith) in
      inr (ne, get_or-set_ne table i j e empty_entry ne)
]

pub set_entry-IsTable :
    {arp : ArpLayer}
    → IsTable arp
    → (i : ℕ) (e : ArpEntry) → (present e ≡ true → Others i e.ipa arp)
    → IsTable (set_entry i e arp)
set_entry-IsTable {arp} v i e others = record {
  within = v.within;
  slots = length-set arp.table i e ∙ v.slots;
  unique = λ a b ha hb pa pb same.
      elim (set-at arp.table i a e (omega (arith, v.within, v.slots))) [
        | inl (qa, ea) ↦ elim (set-at arp.table i b e (omega (arith, v.within, v.slots))) [
          | inl (qb, eb) ↦ sym qa ∙ qb
          | inr (qb, eb) ↦
              absurd (others (rw ea at pa) b hb qb (rw eb at pb) (sym (rw (ea, eb) at same)))
        ]
        | inr (qa, ea) ↦ elim (set-at arp.table i b e (omega (arith, v.within, v.slots))) [
          | inl (qb, eb) ↦ absurd (others (rw eb at pb) a ha qa (rw ea at pa) (rw (ea, eb) at same))
          | inr (qb, eb) ↦ v.unique a b ha hb (rw ea at pa) (rw eb at pb) (rw (ea, eb) at same)
        ]
      ];
}

grow-IsTable :
    {arp : ArpLayer}
    → IsTable arp
    → arp.size < arp.limit
    → present (entry_at arp arp.size) ≡ false
    → IsTable (record arp { size = arp.size + 1 })
grow-IsTable {arp} v room absent = record {
  within = omega arith;
  slots = v.slots;
  unique = λ a b ha hb pa pb same. v.unique a b (old a ha pa) (old b hb pb) pa pb same;
}
  where
    old : (a : ℕ) → a < arp.size + 1 → present (entry_at arp a) ≡ true → a < arp.size
    old a ha pa = elim (Bool-cases (a == arp.size)) [
      | inl last ↦ let q : a ≡ arp.size = ground arith in absurd cc
      | inr other ↦ ground arith
    ]

-- The table after `add` made room at `i`, for an address that no entry has.
pub record Added (arp : ArpLayer) (p i : ℕ) : Type 0 where
  pub table : IsTable arp
  pub slot : i < arp.size
  pub absent : present (entry_at arp i) ≡ false
  pub others : Others i p arp

set_entry-Others :
    {arp : ArpLayer}
    → IsTable arp
    → (i p : ℕ) (e : ArpEntry) → Others i p arp
    → Others i p (set_entry i e arp)
set_entry-Others v i p e others j h ne b q =
    others j h ne (rw (get_or-set_ne _ i j e empty_entry ne) at b)
      (rw (get_or-set_ne _ i j e empty_entry ne) at q)

-- The address is nowhere in the table.
abbrev pub Missing : ℕ → ArpLayer → Type 0
Missing p arp = (j : ℕ) → j < arp.size → present (entry_at arp j) ≡ true → (entry_at arp j).ipa ≢ p

pub find_ip-Missing : (arp : ArpLayer) (p : ℕ) → arp.size ≤ find_ip arp p → Missing p arp
unfolding find_ip
find_ip-Missing arp p h j k = (find_from_lem arp.size arp.table p 0).3 j (omega arith) (omega arith)

cleared-Added :
    {arp : ArpLayer}
    → IsTable arp
    → (i p : ℕ) → i < arp.size
    → Missing p arp
    → Added (set_entry i (record (entry_at arp i) { info = 0 }) arp) p i
cleared-Added {arp} v i p h missing =
    let e : ArpEntry = record (entry_at arp i) { info = 0 } in
    record {
      table = set_entry-IsTable v i e (λ b. absurd (ground arith));
      slot = h;
      absent =
          ap present (get_or-set_self arp.table i e empty_entry (omega (arith, v.within, v.slots)));
      others = set_entry-Others v i p e (λ j k ne. missing j k);
    }

grown-Added :
    {arp : ArpLayer}
    → IsTable arp
    → (i p : ℕ) → arp.size < arp.limit
    → i ≡ arp.size
    → Missing p arp
    → Added
        (set_entry i (record (entry_at arp i) { info = 0 }) (record arp { size = arp.size + 1 }))
        p
        i
grown-Added {arp} v i p room last missing =
    let e : ArpEntry = record (entry_at arp i) { info = 0 } in
    let cleared : IsTable (set_entry i e arp) =
      set_entry-IsTable v i e (λ b. absurd (ground arith)) in
    let absent : present (get_or (set arp.table i e) arp.size empty_entry) ≡ false =
      rw (← last, get_or-set_self arp.table i e empty_entry (omega (arith, v.slots))) in
    record {
      table = grow-IsTable cleared room absent;
      slot = omega arith;
      absent = ap present (get_or-set_self arp.table i e empty_entry (omega (arith, v.slots)));
      others = λ j k ne. set_entry-Others v i p e (λ q l ne1. missing q l) j (omega arith) ne;
    }

pub add-Added :
    {arp : ArpLayer}
    → IsTable arp
    → (p : ℕ) → Missing p arp
    → ((add arp ≡ (arp.limit, arp)) × (arp.size ≡ arp.limit)) ⊎ Added (add arp).1 p (add arp).0
unfolding add
add-Added {arp} v p missing =
    let i = find_free arp.size arp.table 0 in
    let free = find_free_lem arp.size arp.table 0 in
    elim (Bool-cases (ltb i arp.size)) [
      | inl within ↦ inr (rw within (cleared-Added v i p (ltb→lt i arp.size within) missing))
      | inr past ↦ elim (Bool-cases (leb arp.limit arp.size)) [
        | inl full ↦ inl (rw (past, full), ground (arith, v.within))
        | inr room ↦ inr (rw (past, room) (grown-Added v i p (ground arith) (ground arith) missing))
      ]
    ]

-- An entry of the address `p` put in the place that `add` made.
pub place-IsTable :
    {arp : ArpLayer} {p i : ℕ}
    → Added arp p i
    → (e : ArpEntry) → e.ipa ≡ p
    → IsTable (set_entry i e arp)
place-IsTable a e q = set_entry-IsTable a.table _ e (λ b. rw q a.others)

-- An entry changed in place, with the address it had or the one it was found by.
pub known-IsTable :
    {arp : ArpLayer}
    → IsTable arp
    → (p : ℕ) (e : ArpEntry) → e.ipa ≡ p
    → IsTable (set_entry (find_ip arp p) e arp)
known-IsTable v p e q = set_entry-IsTable v _ e (λ b. rw q (find_ip-Others v p))

pub found-ipa :
    (arp : ArpLayer) (p : ℕ)
    → find_ip arp p < arp.size
    → (present (entry_at arp (find_ip arp p)) ≡ true) × ((entry_at arp (find_ip arp p)).ipa ≡ p)
unfolding find_ip
found-ipa arp p h = (find_from_lem arp.size arp.table p 0).2 (omega arith)
