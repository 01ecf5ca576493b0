-- ===== src/Keyboard/Queue.antt =====
-- kernel/dev/keyboard.cpp, `push_key`, `pop_key` and `has_key`, against a first-in first-out queue
-- of at most 16 keys.
use xivix.Base.{
  ℕ, zero, suc, ◌-◌, ◌≤◌, ◌<◌, ◌≡◌, refl, ap, List, [], ◌∷◌, ◌++◌, arith, ltb, if◌then◌else◌,
  length, get_or, take, length-set, length-take, length-append, drop, Bool-cases, lt→ltb, inl, inr,
}
use native.Mathlib.Numerals.{add-one}
use xivix.Keyboard.{Keyboard, shift_down, push_key, pop_key, has_key}
use xivix.Keyboard.Buffer.{push_key-take, length-shift_down}

-- What the buffer promises, the oldest key first. A push on a full queue loses the oldest key.
abbrev pub capacity : ℕ
capacity = 16

unfoldable pub enqueue : ℕ → List ℕ → List ℕ
enqueue k q = if ltb (length q) capacity then q ++ k ∷ [] else drop 1 q ++ k ∷ []

unfoldable pub dequeue : List ℕ → ℕ × List ℕ
dequeue [] = (0, [])
dequeue (x ∷ q) = (x, q)

abbrev backwards : List ℕ → List ℕ
backwards [] = []
backwards (x ∷ xs) = backwards xs ++ x ∷ []

-- The keys in the buffer, the oldest first.
abbrev pub keys : Keyboard → List ℕ
keys kb = backwards (take kb.keyev kb.keybuf)

pub record IsValid (kb : Keyboard) : Type 0 where
  pub room : length kb.keybuf ≡ 16
  pub within : kb.keyev ≤ 16

length-backwards : (xs : List ℕ) → length (backwards xs) ≡ length xs
length-backwards [] = refl
length-backwards (x ∷ xs) =
    omega (arith, length-append (backwards xs) (x ∷ []), length-backwards xs)

backwards-take-suc :
    (n : ℕ) (xs : List ℕ)
    → n < length xs
    → backwards (take (suc n) xs) ≡ get_or xs n 0 ∷ backwards (take n xs)
backwards-take-suc n [] h = absurd (omega arith)
backwards-take-suc zero (x ∷ xs) h = refl
backwards-take-suc (suc n) (x ∷ xs) h =
    ap (λ t. t ++ x ∷ []) (backwards-take-suc n xs (omega arith))

pub length-keys : {kb : Keyboard} → IsValid kb → length (keys kb) ≡ kb.keyev
length-keys {kb} v =
    omega (arith, length-backwards (take kb.keyev kb.keybuf), length-take kb.keyev kb.keybuf)

pub push_key-IsValid : (k : ℕ) {kb : Keyboard} → IsValid kb → IsValid (push_key k kb)
unfolding push_key
push_key-IsValid k {kb} v =
    ground (arith, length-set (shift_down 15 kb.keybuf) 0 k, length-shift_down 15 kb.keybuf)

pub pop_key-IsValid : {kb : Keyboard} → IsValid kb → IsValid (pop_key kb).1
unfolding pop_key
pop_key-IsValid v = ground arith

pub pop_key-mods : (kb : Keyboard) → (pop_key kb).1.mods ≡ kb.mods
unfolding pop_key
pop_key-mods kb = ground arith

-- A push adds the key behind the others, and on a full buffer drops the oldest one.
pub push_key_refines :
    (k : ℕ) {kb : Keyboard} → IsValid kb → keys (push_key k kb) ≡ enqueue k (keys kb)
unfolding push_key enqueue
push_key_refines k {kb} v = elim (Bool-cases (ltb kb.keyev 16)) [
  | inl room ↦
      rw (length-keys v, room, add-one, push_key-take kb.keyev k kb.keybuf (ground arith) v.room)
  | inr full ↦
      let e : kb.keyev ≡ 16 = ground arith in
      rw (
        length-keys v,
        full,
        e,
        push_key-take 15 k kb.keybuf (omega arith) v.room,
        backwards-take-suc 15 kb.keybuf (omega arith),
      )
]

pop-at :
    (n : ℕ) {kb : Keyboard}
    → IsValid kb
    → kb.keyev ≡ n
    → let (k, kb') = pop_key kb in (k, keys kb') ≡ dequeue (keys kb)
unfolding pop_key dequeue
pop-at zero {kb} v e = rw e
pop-at (suc n) {kb} v e =
    let pred : suc n - 1 ≡ n = omega arith in
    rw (e, backwards-take-suc n kb.keybuf (omega arith), lt→ltb 0 (suc n) (omega arith), pred)

-- `pop_key` returns the oldest key and leaves the others; on an empty buffer it returns 0.
pub pop_key_refines :
    {kb : Keyboard} → IsValid kb → let (k, kb') = pop_key kb in (k, keys kb') ≡ dequeue (keys kb)
pop_key_refines {kb} v = pop-at kb.keyev v refl

-- What the clients of the buffer call: the decoder pushes, the console pops.
pub data Call : Type 0 where
  push : ℕ → Call
  pop : Call

-- The keys that the pops return, in order.
unfoldable pub run : Keyboard → List Call → List ℕ
run kb [] = []
run kb (push k ∷ calls) = run (push_key k kb) calls
run kb (pop ∷ calls) = let (k, kb') = pop_key kb in k ∷ run kb' calls

unfoldable pub run_queue : List ℕ → List Call → List ℕ
run_queue q [] = []
run_queue q (push k ∷ calls) = run_queue (enqueue k q) calls
run_queue q (pop ∷ calls) = let (k, q') = dequeue q in k ∷ run_queue q' calls

-- From any valid buffer, every sequence of pushes and pops returns what the bounded queue of its
-- keys returns.
pub run_refines :
    (calls : List Call) {kb : Keyboard} → IsValid kb → run kb calls ≡ run_queue (keys kb) calls
unfolding run run_queue
run_refines [] v = refl
run_refines (push k ∷ calls) v = rw (run_refines calls (push_key-IsValid k v), push_key_refines k v)
run_refines (pop ∷ calls) v = rw (run_refines calls (pop_key-IsValid v), ← pop_key_refines v)

-- `has_key` says whether a key is queued.
pub has_key_refines : {kb : Keyboard} → IsValid kb → has_key kb ≡ ltb 0 (length (keys kb))
unfolding has_key
has_key_refines v = rw (length-keys v)
