-- ===== src/Net/Arp/Table.antt =====
-- kernel/net/queue.cpp, `ARP_layer`: what `find_ip` and `add` return.
use xivix.Base.{
  ℕ, zero, suc, ◌+◌, ◌≤◌, ◌<◌, ◌≡◌, ◌≢◌, refl, arith, true, false, ◌==◌, List, get_or, Bool-cases,
  inl, inr, ◌⊎◌,
}
use xivix.Net.Arp.{ArpEntry, present, empty_entry, find_free, find_from}

find_free_step :
    (n : ℕ) (table : List ArpEntry) (i : ℕ)
    → ((find_free (suc n) table i ≡ i) × (present (get_or table i empty_entry) ≡ false))
      ⊎ (find_free (suc n) table i ≡ find_free n table (suc i))
unfolding find_free
find_free_step n table i = elim (Bool-cases (present (get_or table i empty_entry))) [
  | inl busy ↦ inr (rw busy)
  | inr free ↦ inl (rw free, free)
]

find_free_none : (table : List ArpEntry) (i : ℕ) → find_free zero table i ≡ i
unfolding find_free
find_free_none table i = refl

pub find_free_lem :
    (n : ℕ) (table : List ArpEntry) (i : ℕ)
    → let r = find_free n table i in
      (i ≤ r) × (r ≤ i + n) × (r < i + n → present (get_or table r empty_entry) ≡ false)
find_free_lem zero table i =
    rw (find_free_none table i) (omega arith, omega arith, λ h. absurd (omega arith))
find_free_lem (suc n) table i = elim (find_free_step n table i) [
  | inl (here, free) ↦ rw here (omega arith, omega arith, λ h. free)
  | inr next ↦
      let rest = find_free_lem n table (suc i) in
      rw next (omega (arith, rest.0), omega (arith, rest.1), λ h. rest.2 (omega arith))
]

find_from_step :
    (n : ℕ) (table : List ArpEntry) (p i : ℕ)
    → ((find_from (suc n) table p i ≡ i)
        × (present (get_or table i empty_entry) ≡ true)
        × ((get_or table i empty_entry).ipa ≡ p))
      ⊎ ((find_from (suc n) table p i ≡ find_from n table p (suc i))
          × (present (get_or table i empty_entry) ≡ true → (get_or table i empty_entry).ipa ≢ p))
unfolding find_from
find_from_step n table p i = elim (Bool-cases (present (get_or table i empty_entry))) [
  | inl busy ↦ elim (Bool-cases ((get_or table i empty_entry).ipa == p)) [
    | inl same ↦ inl (rw (busy, same), busy, ground arith)
    | inr other ↦ inr (rw (busy, other), λ h e. absurd (ground arith))
  ]
  | inr free ↦ inr (rw free, λ h. absurd (ground arith))
]

find_from_none : (table : List ArpEntry) (p i : ℕ) → find_from zero table p i ≡ i
unfolding find_from
find_from_none table p i = refl

pub find_from_lem :
    (n : ℕ) (table : List ArpEntry) (p i : ℕ)
    → let r = find_from n table p i in
      (i ≤ r)
      × (r ≤ i + n)
      × (r < i + n
          → (present (get_or table r empty_entry) ≡ true) × ((get_or table r empty_entry).ipa ≡ p))
      × ((j : ℕ)
          → i ≤ j
          → j < r
          → present (get_or table j empty_entry) ≡ true
          → (get_or table j empty_entry).ipa ≢ p)
find_from_lem zero table p i =
    rw (find_from_none table p i)
      (omega arith, omega arith, λ h. absurd (omega arith), λ j h k. absurd (omega arith))
find_from_lem (suc n) table p i = elim (find_from_step n table p i) [
  | inl (here, busy, same) ↦
      rw here (omega arith, omega arith, λ h. (busy, same), λ j h k. absurd (omega arith))
  | inr (next, differ) ↦
      let rest = find_from_lem n table p (suc i) in
      rw next (
        omega (arith, rest.0),
        omega (arith, rest.1),
        λ h. rest.2 (omega arith),
        λ j h k b. elim (Bool-cases (i == j)) [
          | inl same ↦ let e : i ≡ j = ground arith in (rw e at differ) b
          | inr later ↦ rest.3 j (ground arith) k b
        ],
      )
]
