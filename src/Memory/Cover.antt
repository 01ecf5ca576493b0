-- ===== src/Memory/Cover.antt =====
-- The pages that the extents of a table take, counted with a weight for each kind of extent.
use xivix.Base.{
  ℕ, zero, suc, ◌+◌, ◌*◌, ◌≤◌, ◌<◌, ◌≡◌, refl, ap, Bool, true, false, if◌then◌else◌, ◌==◌, ◌&&◌,
  List, [], ◌∷◌, none, some, ltb, leb, length, get_or, set, arith, ◌≢◌, Bool-cases, inl, inr,
  Option-cases,
}
use xivix.Memory.{Extent, unset_extent, find_extent}
use mathlib.Core.Option

-- The address after the last page, where `end` does not wrap.
abbrev pub stop : Extent → ℕ
stop e = e.base + e.length * 0x1000

-- The weight of the extent where it holds the address `a`.
unfoldable pub cover : (ℕ → ℕ) → ℕ → Extent → ℕ
cover w a e = if leb e.base a && ltb a (stop e) then w e.flags else 0

unfoldable pub cover_sum : (ℕ → ℕ) → ℕ → List Extent → ℕ
cover_sum w a [] = 0
cover_sum w a (e ∷ es) = cover w a e + cover_sum w a es

-- The weight that counts every extent that is in use, whatever it is for.
abbrev pub in_use : ℕ → ℕ
in_use f = if f == 0 then 0 else 1

-- The weight that counts the extents of one kind.
abbrev pub of_kind : ℕ → ℕ → ℕ
of_kind g f = if f == 0 then 0 else if f == g then 1 else 0

pub cover_sum-set :
    (w : ℕ → ℕ) (a : ℕ) (es : List Extent) (i : ℕ) (e : Extent)
    → i < length es
    → cover_sum w a (set es i e) + cover w a (get_or es i unset_extent)
      ≡ cover_sum w a es + cover w a e
unfolding cover_sum
cover_sum-set w a [] i e h = absurd (omega arith)
cover_sum-set w a (x ∷ es) zero e h = omega arith
cover_sum-set w a (x ∷ es) (suc i) e h = omega (arith, cover_sum-set w a es i e (omega arith))

-- One extent is a part of the sum, and two are.
pub cover-le :
    (w : ℕ → ℕ) (a : ℕ) (es : List Extent) (i : ℕ)
    → i < length es
    → cover w a (get_or es i unset_extent) ≤ cover_sum w a es
unfolding cover_sum
cover-le w a [] i h = absurd (omega arith)
cover-le w a (x ∷ es) zero h = omega arith
cover-le w a (x ∷ es) (suc i) h = omega (arith, cover-le w a es i (omega arith))

-- What `scan` finds is in the table and passes the test; what it passes over does not.
pub find_extent-some :
    (test : Extent → Bool) (es : List Extent) (i : ℕ)
    → find_extent test es ≡ some i
    → (i < length es) × (test (get_or es i unset_extent) ≡ true)
unfolding find_extent
find_extent-some test [] i h = absurd (Option.none-ne-some _ h)
find_extent-some test (e ∷ es) i h = elim (Option-cases (find_extent test es)) [
  | inl none_found ↦ ground (arith, none_found)
  | inr (j, found) ↦ ground (arith, found, find_extent-some test es j found)
]

pub find_extent-none :
    (test : Extent → Bool) (es : List Extent) (i : ℕ)
    → find_extent test es ≡ none
    → i < length es
    → test (get_or es i unset_extent) ≡ false
unfolding find_extent
find_extent-none test [] i h k = absurd (omega arith)
find_extent-none test (e ∷ es) zero h k = ground (arith, Option-cases (find_extent test es))
find_extent-none test (e ∷ es) (suc i) h k = elim (Option-cases (find_extent test es)) [
  | inl none_found ↦ find_extent-none test es i none_found (omega arith)
  | inr (j, found) ↦ ground (arith, found)
]

-- A table without overlaps at `a`: the extent that is there is all that counts.
pub cover-zero : (w : ℕ → ℕ) (a : ℕ) (e : Extent) → w 0 ≡ 0 → cover in_use a e ≡ 0 → cover w a e ≡ 0
unfolding cover
cover-zero w a e z h = elim (Bool-cases (e.flags == 0)) [
  | inl unset ↦ let none : e.flags ≡ 0 = ground arith in ground (arith, ap w none)
  | inr used ↦ ground arith
]

pub cover-unset : (w : ℕ → ℕ) (a : ℕ) (e : Extent) → w 0 ≡ 0 → e.flags ≡ 0 → cover w a e ≡ 0
unfolding cover
cover-unset w a e z unset = ground (arith, ap w unset)

-- Only the entries of the table are in use.
pub used_inside : (es : List Extent) (i : ℕ) → (get_or es i unset_extent).flags ≢ 0 → i < length es
used_inside [] i h = absurd (h refl)
used_inside (x ∷ es) zero h = omega arith
used_inside (x ∷ es) (suc i) h = omega (arith, used_inside es i h)

pub cover_sum-zero :
    (w : ℕ → ℕ) (a : ℕ) (es : List Extent)
    → w 0 ≡ 0
    → cover_sum in_use a es ≡ 0
    → cover_sum w a es ≡ 0
unfolding cover_sum
cover_sum-zero w a [] z h = refl
cover_sum-zero w a (e ∷ es) z h =
    omega (arith, cover-zero w a e z (omega arith), cover_sum-zero w a es z (omega arith))

pub cover_sum-only :
    (w : ℕ → ℕ) (a : ℕ) (es : List Extent) (i : ℕ)
    → w 0 ≡ 0
    → cover_sum in_use a es ≤ 1
    → i < length es
    → cover in_use a (get_or es i unset_extent) ≡ 1
    → cover_sum w a es ≡ cover w a (get_or es i unset_extent)
unfolding cover_sum
cover_sum-only w a [] i z h k used = absurd (omega arith)
cover_sum-only w a (e ∷ es) zero z h k used = omega (arith, cover_sum-zero w a es z (omega arith))
cover_sum-only w a (e ∷ es) (suc i) z h k used =
    let elsewhere : cover in_use a e ≡ 0 = omega (arith, cover-le in_use a es i (omega arith)) in
    omega (
      arith,
      cover-zero w a e z elsewhere,
      cover_sum-only w a es i z (omega arith) (omega arith) used,
    )
