-- ===== src/Ps2/Queue.antt =====
-- The codes that wait in `keycode` are a first-in first-out queue of at most 12.
use xivix.Base.{
  ℕ, zero, suc, ◌≤◌, ◌<◌, ◌≡◌, refl, ap, ap₂, Bool-cases, inl, inr, ◌∙◌, List, [], ◌∷◌, ◌++◌,
  length, length-set, get_or, set, get_or-set_self, get_or-set_ne, arith, ◌==◌,
}
use xivix.Ps2.{shift_keycodes, push_keycode}

-- The `n` codes that wait, the oldest first.
abbrev pub waiting_codes : ℕ → List ℕ → List ℕ
waiting_codes zero codes = []
waiting_codes (suc n) codes = get_or codes n 0 ∷ waiting_codes n codes

get_or-shift_above :
    (m j : ℕ) (codes : List ℕ) → m < j → get_or (shift_keycodes m codes) j 0 ≡ get_or codes j 0
unfolding shift_keycodes
get_or-shift_above zero j codes h = refl
get_or-shift_above (suc m) j codes h =
    get_or-shift_above m j (set codes (suc m) (get_or codes m 0)) (omega arith)
    ∙ get_or-set_ne codes (suc m) j (get_or codes m 0) 0 (λ e. absurd (omega arith))

get_or-shift :
    (m j : ℕ) (codes : List ℕ)
    → m < length codes
    → j < m
    → get_or (shift_keycodes m codes) (suc j) 0 ≡ get_or codes j 0
unfolding shift_keycodes
get_or-shift zero j codes h k = absurd (omega arith)
get_or-shift (suc m) j codes h k =
    let codes' = set codes (suc m) (get_or codes m 0) in
    elim (Bool-cases (j == m)) [
      | inl last ↦
          let e : j ≡ m = ground arith in
          rw e (
            get_or-shift_above m (suc m) codes' (omega arith)
            ∙ get_or-set_self codes (suc m) (get_or codes m 0) 0 h)
      | inr before ↦
          get_or-shift m j codes' (omega (arith, length-set codes (suc m) (get_or codes m 0)))
            (ground arith)
          ∙ get_or-set_ne codes (suc m) j (get_or codes m 0) 0 (λ e. absurd (omega arith))
    ]

length-shift_keycodes : (m : ℕ) (codes : List ℕ) → length (shift_keycodes m codes) ≡ length codes
unfolding shift_keycodes
length-shift_keycodes zero codes = refl
length-shift_keycodes (suc m) codes =
    length-shift_keycodes m (set codes (suc m) (get_or codes m 0))
    ∙ length-set codes (suc m) (get_or codes m 0)

pub length-push_keycode : (v : ℕ) (codes : List ℕ) → length (push_keycode v codes) ≡ length codes
unfolding push_keycode
length-push_keycode v codes =
    length-set (shift_keycodes 11 codes) 0 v ∙ length-shift_keycodes 11 codes

module _ (v : ℕ) (codes : List ℕ) (size : length codes ≡ 12) where
  get_or-push_keycode :
      (j : ℕ) → j < 11 → get_or (push_keycode v codes) (suc j) 0 ≡ get_or codes j 0
  unfolding push_keycode
  get_or-push_keycode j h =
      get_or-set_ne (shift_keycodes 11 codes) 0 (suc j) v 0 (λ e. absurd (omega arith))
      ∙ get_or-shift 11 j codes (omega arith) h

  get_or-push_first : get_or (push_keycode v codes) 0 0 ≡ v
  unfolding push_keycode
  get_or-push_first =
      get_or-set_self (shift_keycodes 11 codes) 0 v 0
        (omega (arith, length-shift_keycodes 11 codes))

  -- A code that comes is the last one that waits.
  pub waiting_codes-push :
      (n : ℕ)
      → n ≤ 11
      → waiting_codes (suc n) (push_keycode v codes) ≡ waiting_codes n codes ++ (v ∷ [])
  waiting_codes-push zero h = ap (λ t. t ∷ []) get_or-push_first
  waiting_codes-push (suc n) h =
      ap₂ (λ x t. x ∷ t) (get_or-push_keycode n (omega arith)) (waiting_codes-push n (omega arith))
