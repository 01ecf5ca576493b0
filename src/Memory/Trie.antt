-- ===== src/Memory/Trie.antt =====
-- kernel/memory.cpp: the trie of a table of extents, which `set_trie_extent` writes. The members of the
-- union in `TrieControl` stand side by side, since each is used under its own types.
pub mod Rounds
use xivix.Base.{
  ℕ, zero, suc, ◌+◌, ◌-◌, ◌*◌, ◌/◌, ◌%◌, ◌^◌, bit_and, bit_or, Bool, true, false, if◌then◌else◌,
  ◌==◌, ◌&&◌, ◌||◌, List, [], ◌∷◌, Option, none, some, ltb, get_or, set, replicate, nonzero,
}
use xivix.Base.Word.{u8, u32, not32}
use mathlib.Core.Option

-- `TRIE_TYPE`
abbrev pub tt_unset : ℕ
tt_unset = 0

abbrev pub tt_leaf : ℕ
tt_leaf = 2

abbrev pub tt_mask_1 : ℕ
tt_mask_1 = 4

abbrev pub tt_mask_2 : ℕ
tt_mask_2 = 5

abbrev pub tt_mask_3 : ℕ
tt_mask_3 = 6

abbrev pub tt_list_3 : ℕ
tt_list_3 = 7

-- `TrieControl`
pub record TrieControl : Type 0 where
  pub type : ℕ
  pub radix : ℕ
  pub ref : List ℕ
  pub flag : ℕ
  pub length : ℕ

-- `TrieControl::init`
abbrev pub init_node : ℕ → TrieControl
init_node t = record { type = t; radix = 0; ref = replicate 8 0; flag = 0; length = 0 }

-- `max_trie`, with 16 bytes for an entry.
abbrev pub max_trie : ℕ
max_trie = 0x800 / 16

-- `ExtentTable::init`, the part for the trie. It sets the types only; nothing reads the rest of an unset
-- entry, which is 0 here.
unfoldable pub init_trie : List TrieControl
init_trie = set (replicate max_trie (init_node tt_unset)) 0 (init_node tt_mask_2)

abbrev pub node_at : List TrieControl → ℕ → TrieControl
node_at table i = get_or table i (init_node tt_unset)

-- The loop that looks for an unset entry: its index, or the number of entries.
unfoldable pub free_slot : List TrieControl → ℕ
free_slot [] = 0
free_slot (t ∷ table) = let rest = free_slot table in if t.type == tt_unset then 0 else suc rest

-- The variables of the loop of `set_trie_extent`.
pub record Search : Type 0 where
  pub scan_start : ℕ
  pub index : ℕ
  pub table : List TrieControl

-- `scan_start -= n` in a byte.
abbrev pub sub8 : ℕ → ℕ → ℕ
sub8 a n = u8 (a + 0x100 - n)

-- `(k - index) % max_trie` in the 32 bits of `size_t`.
unfoldable pub relative : ℕ → ℕ → ℕ
relative k index = u32 (k + 0x1_0000_0000 - index) % max_trie

-- The entry `k` becomes `node`, and the entry `index` refers to it in `slot`.
unfoldable pub hang : ℕ → ℕ → ℕ → TrieControl → List TrieControl → List TrieControl
hang k index slot node table =
    let table' = set table k node in
    let item = node_at table' index in
    set table' index (record item { ref = set item.ref slot (relative k index) })

-- The way down by a reference.
unfoldable pub descend : ℕ → Search → Search
descend r s = record s { index = u8 ((r + s.index) % max_trie) }

abbrev pub give_up : Search → Search
give_up s = record s { scan_start = 0 }

-- The types of the entries that a round adds: on the way, or at the end.
unfoldable pub child_type : ℕ → ℕ → ℕ
child_type type scan =
    if ltb 12 scan
    then if type == tt_mask_1
      then tt_list_3
      else if type == tt_mask_2
      then tt_mask_3
      else if ltb 20 scan
      then tt_mask_3
      else tt_mask_1
    else tt_leaf

-- The `else` of the three `TT_MASK` cases, with the free entry `k`. The index moves to it, but at a
-- leaf the loop ends before it is used.
unfoldable pub add_child : ℕ → ℕ → ℕ → Search → Search
add_child type slot k s =
    if ltb k max_trie
    then record s {
      index = if ltb 12 s.scan_start || type == tt_mask_3 then k else s.index;
      table = hang k s.index slot (init_node (child_type type s.scan_start)) s.table;
    }
    else give_up s

-- The cases `TT_MASK_1`, `TT_MASK_2` and `TT_MASK_3`, which read that many bits of the address.
unfoldable pub mask_round : ℕ → ℕ → ℕ → Search → Search
mask_round base type bits s =
    let s' : Search = record s { scan_start = sub8 s.scan_start bits } in
    let slot = base / 2 ^ s'.scan_start % 2 ^ bits in
    let r = get_or (node_at s.table s.index).ref slot 0 in
    if nonzero r then descend r s' else add_child type slot (free_slot s.table) s'

-- The loop of `TT_LIST_3` over the next `n` slots: the first one in use that has the four bits.
unfoldable pub find_digit : ℕ → ℕ → ℕ → ℕ → List ℕ → Option ℕ
find_digit zero i radix v ref = none
find_digit (suc n) i radix v ref =
    let rest = find_digit n (suc i) (radix / 16) v ref in
    if nonzero (get_or ref i 0) && bit_and radix 0xf == v then some i else rest

-- `test_free` after that loop: the first slot that is not in use, or 8.
unfoldable pub free_ref : List ℕ → ℕ
free_ref [] = 0
free_ref (r ∷ ref) = let rest = free_ref ref in if r == 0 then 0 else suc rest

-- The four bits `v` in the place of the slot.
unfoldable pub put_digit : ℕ → ℕ → ℕ → ℕ
put_digit slot v radix =
    bit_or (bit_and radix (not32 (u32 (0xf * 2 ^ (slot * 4))))) (u32 (v * 2 ^ (slot * 4)))

-- The end of the `TT_LIST_3` case, with the slot that is free there and the free entry `k`.
unfoldable pub add_digit : ℕ → ℕ → ℕ → ℕ → ℕ → Search → Search
add_digit flag length v slot k s =
    let item = node_at s.table s.index in
    let table = set s.table s.index (record item { radix = put_digit slot v item.radix }) in
    let leaf : TrieControl = record (init_node tt_leaf) { flag = flag; length = length } in
    let inner = init_node (if s.scan_start == 24 then tt_mask_3 else tt_list_3) in
    if ltb k max_trie
    then if ltb 12 s.scan_start
      then record s { index = k; table = hang k s.index slot inner table }
      else record s { table = hang k s.index slot leaf table }
    else record s { scan_start = 0; table = table }

-- `TT_LIST_3` with the slot that the loop ends at.
unfoldable pub list_round_at : ℕ → ℕ → ℕ → Option ℕ → Search → Search
list_round_at flag length v (some i) s = descend (get_or (node_at s.table s.index).ref i 0) s
list_round_at flag length v none s =
    let slot = free_ref (node_at s.table s.index).ref in
    if slot == 8 then give_up s else add_digit flag length v slot (free_slot s.table) s

-- `TT_LIST_3`
unfoldable pub list_round : ℕ → ℕ → ℕ → Search → Search
list_round base flag length s =
    let s' : Search = record s { scan_start = sub8 s.scan_start 4 } in
    let v = base / 2 ^ s'.scan_start % 16 in
    let item = node_at s.table s.index in
    list_round_at flag length v (find_digit 8 0 item.radix v item.ref) s'

-- A round of the loop of `set_trie_extent`.
unfoldable pub trie_round : ℕ → ℕ → ℕ → Search → Search
trie_round base flag length s =
    let type = (node_at s.table s.index).type in
    if type == tt_mask_1
    then mask_round base type 1 s
    else if type == tt_mask_2
    then mask_round base type 2 s
    else if type == tt_mask_3
    then mask_round base type 3 s
    else if type == tt_list_3
    then list_round base flag length s
    else give_up s

-- The loop, with a bound on its rounds.
unfoldable pub trie_rounds : ℕ → ℕ → ℕ → ℕ → Search → Option Search
trie_rounds zero base flag length s = if ltb 12 s.scan_start then none else some s
trie_rounds (suc n) base flag length s =
    let rest = trie_rounds n base flag length (trie_round base flag length s) in
    if ltb 12 s.scan_start then rest else some s

abbrev pub search_of : List TrieControl → Search
search_of table = record { scan_start = 32; index = 0; table = table }

-- `set_trie_extent`. Every round takes a bit of the address at least, and 20 are above the last 12.
unfoldable pub set_trie_extent : ℕ → ℕ → ℕ → List TrieControl → List TrieControl
set_trie_extent base flag length table =
    (Option.get_or (trie_rounds 20 base flag length (search_of table)) (search_of table)).table
