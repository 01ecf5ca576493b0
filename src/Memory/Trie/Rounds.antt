-- ===== src/Memory/Trie/Rounds.antt =====
-- The loop of `set_trie_extent` ends, and stays in the table.
use xivix.Base.{
  ℕ, zero, suc, ◌+◌, ◌/◌, ◌%◌, ◌^◌, ◌≤◌, ◌<◌, ◌≡◌, refl, if◌then◌else◌, ◌==◌, List, Option, none,
  some, ltb, get_or, set, nonzero, length, length-set, arith, Bool-cases, inl, inr,
}
use xivix.Memory.Trie.{
  TrieControl, init_node, max_trie, node_at, free_slot, Search, sub8, hang, descend, add_child,
  child_type, mask_round, find_digit, free_ref, add_digit, put_digit, list_round_at, list_round,
  trie_round, trie_rounds, search_of,
}

-- The index is that of an entry, and the table has its size.
abbrev pub Inside : Search → Type 0
Inside s = (s.index < 128) × (length s.table ≡ 128)

module _ (s s' : Search) where
  -- What a round does to a search: it stays inside and takes a bit at least.
  abbrev Advances : Type 0
  Advances = Inside s' × (s'.scan_start < s.scan_start)

length-hang :
    (k index slot : ℕ) (node : TrieControl) (table : List TrieControl)
    → length (hang k index slot node table) ≡ length table
unfolding hang
length-hang k index slot node table =
    omega (arith, length-set (set table k node) index _, length-set table k node)

add_child-Inside :
    (type slot k : ℕ) (s : Search)
    → Inside s
    → Inside (add_child type slot k s) × ((add_child type slot k s).scan_start ≤ s.scan_start)
unfolding add_child
add_child-Inside type slot k s h =
    ground (arith, length-hang k s.index slot (init_node (child_type type s.scan_start)) s.table)

mask_round-Advances :
    (base type bits : ℕ) (s : Search)
    → Inside s
    → 12 < s.scan_start
    → s.scan_start ≤ 32
    → 0 < bits
    → bits < 4
    → Advances s (mask_round base type bits s)
unfolding mask_round descend
mask_round-Advances base type bits s h more small pos few =
    let s' : Search = record s { scan_start = sub8 s.scan_start bits } in
    let slot : ℕ = base / 2 ^ s'.scan_start % 2 ^ bits in
    let r : ℕ = get_or (node_at s.table s.index).ref slot 0 in
    let child = add_child-Inside type slot (free_slot s.table) s' h in
    elim (Bool-cases (nonzero r)) [
      | inl seen ↦ rw seen (omega (arith, h.1))
      | inr missing ↦ rw missing (omega (arith, child))
    ]

add_digit-Inside :
    (flag len v slot k : ℕ) (s : Search)
    → Inside s
    → Inside (add_digit flag len v slot k s)
      × ((add_digit flag len v slot k s).scan_start ≤ s.scan_start)
unfolding add_digit
add_digit-Inside flag len v slot k s h =
    let item = node_at s.table s.index in
    let table = set s.table s.index (record item { radix = put_digit slot v item.radix }) in
    ground (
      arith,
      length-hang k s.index slot (init_node (if s.scan_start == 24 then 6 else 7)) table,
      length-hang k s.index slot (record (init_node 2) { flag = flag; length = len }) table,
      length-set s.table s.index (record item { radix = put_digit slot v item.radix }),
    )

list_round_at-Inside :
    (flag len v : ℕ) (o : Option ℕ) (s : Search)
    → Inside s
    → Inside (list_round_at flag len v o s)
      × ((list_round_at flag len v o s).scan_start ≤ s.scan_start)
unfolding list_round_at descend
list_round_at-Inside flag len v (some i) s h = omega (arith, h.1)
list_round_at-Inside flag len v none s h =
    let slot : ℕ = free_ref (node_at s.table s.index).ref in
    ground (arith, add_digit-Inside flag len v slot (free_slot s.table) s h)

list_round-Advances :
    (base flag len : ℕ) (s : Search)
    → Inside s
    → 12 < s.scan_start
    → s.scan_start ≤ 32
    → Advances s (list_round base flag len s)
unfolding list_round
list_round-Advances base flag len s h more small = omega (
  arith,
  list_round_at-Inside flag len (base / 2 ^ sub8 s.scan_start 4 % 16)
      (find_digit 8 0 (node_at s.table s.index).radix (base / 2 ^ sub8 s.scan_start 4 % 16)
        (node_at s.table s.index).ref)
      (record s { scan_start = sub8 s.scan_start 4 }) h,
)

trie_round-Advances :
    (base flag len : ℕ) (s : Search)
    → Inside s
    → 12 < s.scan_start
    → s.scan_start ≤ 32
    → Advances s (trie_round base flag len s)
unfolding trie_round
trie_round-Advances base flag len s h more small = ground (
  arith,
  mask_round-Advances base 4 1 s h more small (omega arith) (omega arith),
  mask_round-Advances base 5 2 s h more small (omega arith) (omega arith),
  mask_round-Advances base 6 3 s h more small (omega arith) (omega arith),
  list_round-Advances base flag len s h more small,
)

trie_rounds-end :
    (n base flag len : ℕ) (s : Search)
    → Inside s
    → s.scan_start ≤ 32
    → s.scan_start ≤ n + 12
    → (s' : Search) × (trie_rounds n base flag len s ≡ some s') × Inside s' × (s'.scan_start ≤ 12)
unfolding trie_rounds
trie_rounds-end zero base flag len s h small enough = (s, ground arith, h, omega arith)
trie_rounds-end (suc n) base flag len s h small enough = elim (Bool-cases (ltb 12 s.scan_start)) [
  | inl more ↦
      let a = trie_round-Advances base flag len s h (ground arith) small in
      rw more (
        trie_rounds-end n base flag len (trie_round base flag len s) a.0 (omega (arith, a.1))
          (omega (arith, a.1)))
  | inr over ↦ (s, rw over refl, h, ground arith)
]

-- In a table of 128 entries, whatever they hold, the loop of `set_trie_extent` ends after 20 rounds at
-- most. It has then read every bit of the address above the last 12 or given up, at an entry of the table,
-- and the table has its 128 entries.
pub trie_rounds-some :
    (base flag len : ℕ) (table : List TrieControl)
    → length table ≡ max_trie
    → (s : Search) × (trie_rounds 20 base flag len (search_of table) ≡ some s)
      × Inside s
      × (s.scan_start ≤ 12)
trie_rounds-some base flag len table size =
    trie_rounds-end 20 base flag len (search_of table) (omega arith, size) (omega arith)
      (omega arith)
