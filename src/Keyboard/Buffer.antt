-- ===== src/Keyboard/Buffer.antt =====
-- kernel/dev/keyboard.cpp, `push_key`: the loop that moves the buffer up by one place.
use xivix.Base.{
  ℕ, zero, suc, ◌≤◌, ◌<◌, ◌≡◌, refl, ap, ◌∙◌, List, [], ◌∷◌, ◌++◌, arith, length, get_or, set, take,
  drop, length-set,
}
use xivix.Keyboard.{shift_down}

take-set : (j i v : ℕ) (buf : List ℕ) → j ≤ i → take j (set buf i v) ≡ take j buf
take-set zero i v buf h = refl
take-set (suc j) i v [] h = refl
take-set (suc j) zero v (x ∷ xs) h = absurd (omega arith)
take-set (suc j) (suc i) v (x ∷ xs) h = ap (λ t. x ∷ t) (take-set j i v xs (omega arith))

drop-set : (i v : ℕ) (buf : List ℕ) → i < length buf → drop i (set buf i v) ≡ v ∷ drop (suc i) buf
drop-set i v [] h = absurd (omega arith)
drop-set zero v (x ∷ xs) h = refl
drop-set (suc i) v (x ∷ xs) h = drop-set i v xs (omega arith)

take-append_next :
    (i : ℕ) (buf rest : List ℕ)
    → i < length buf
    → take i buf ++ get_or buf i 0 ∷ rest ≡ take (suc i) buf ++ rest
take-append_next i [] rest h = absurd (omega arith)
take-append_next zero (x ∷ xs) rest h = refl
take-append_next (suc i) (x ∷ xs) rest h =
    ap (λ t. x ∷ t) (take-append_next i xs rest (omega arith))

get_or-set_head : (i v : ℕ) (buf : List ℕ) → get_or (set buf (suc i) v) 0 0 ≡ get_or buf 0 0
get_or-set_head i v [] = refl
get_or-set_head i v (x ∷ xs) = refl

-- The loop from `i` leaves the first element and moves the next `i` up by one place.
pub shift_down_lem :
    (i : ℕ) (buf : List ℕ)
    → i < length buf
    → shift_down i buf ≡ get_or buf 0 0 ∷ take i buf ++ drop (suc i) buf
unfolding shift_down
shift_down_lem zero [] h = absurd (omega arith)
shift_down_lem zero (x ∷ xs) h = refl
shift_down_lem (suc i) buf h =
    let v = get_or buf i 0 in
    rw (
      shift_down_lem i (set buf (suc i) v) (rw length-set (omega arith)),
      get_or-set_head,
      take-set i (suc i) v buf (omega arith),
      drop-set (suc i) v buf h,
      take-append_next i buf (drop (suc (suc i)) buf) (omega arith),
    )

-- The first `n + 1` entries after a push are the new key and the first `n` entries before it.
pub push_key-take :
    (n k : ℕ) (buf : List ℕ)
    → n ≤ 15
    → length buf ≡ 16
    → take (suc n) (set (shift_down 15 buf) 0 k) ≡ k ∷ take n buf
push_key-take n k buf h len =
    rw (shift_down_lem 15 buf (omega arith))
      (ap (λ t. k ∷ t) (take_short n 15 buf (drop 16 buf) h (omega arith)))
  where
    take_short :
        (n m : ℕ) (xs ys : List ℕ) → n ≤ m → m ≤ length xs → take n (take m xs ++ ys) ≡ take n xs
    take_short zero m xs ys h k = refl
    take_short (suc n) zero xs ys h k = absurd (omega arith)
    take_short (suc n) (suc m) [] ys h k = absurd (omega arith)
    take_short (suc n) (suc m) (x ∷ xs) ys h k =
        ap (λ t. x ∷ t) (take_short n m xs ys (omega arith) (omega arith))

pub length-shift_down : (i : ℕ) (buf : List ℕ) → length (shift_down i buf) ≡ length buf
unfolding shift_down
length-shift_down zero buf = refl
length-shift_down (suc i) buf =
    length-shift_down i (set buf (suc i) (get_or buf i 0)) ∙ length-set buf (suc i) (get_or buf i 0)
