-- ===== src/Random/Rounds.antt =====
-- The rounds of ChaCha lose nothing of the state.
use xivix.Base.{
  ℕ, zero, suc, ◌+◌, ◌-◌, ◌*◌, ◌/◌, ◌%◌, ◌^◌, ◌<◌, ◌≡◌, ◌≢◌, refl, arith, ap, ◌∙◌, sym, List, [],
  ◌∷◌, length, set, get_or-set_self, get_or-set_ne, length-set, bit_xor, Bool-cases, inl, inr, ◌==◌,
}
use Prim.Native.Nat.{differ}
use native.Mathlib.Nat.{pow-suc}
use xivix.Base.Word.{u32, sub32}
use xivix.Base.Bits.{bit_or_sum, bit_xor_halves, differ-lt}
use xivix.Random.{word, rotleft, add_to, xor_to, rotate, quart, double_round, rounds}

-- Sixteen words.
pub record IsState (s : List ℕ) : Type 0 where
  pub size : length s ≡ 16
  pub words : (i : ℕ) → word s i < 2 ^ 32

set_back : (s : List ℕ) (a v : ℕ) → set (set s a v) a (word s a) ≡ s
set_back [] a v = refl
set_back (x ∷ s) zero v = refl
set_back (x ∷ s) (suc a) v = ap (λ t. x ∷ t) (set_back s a v)

set-IsState : (s : List ℕ) (a v : ℕ) → a < 16 → v < 2 ^ 32 → IsState s → IsState (set s a v)
set-IsState s a v here small ok = record {
  size = length-set s a v ∙ ok.size;
  words = λ i. elim (Bool-cases (i == a)) [
    | inl same ↦
        let e : i ≡ a = ground (arith, same) in
        rw (e, get_or-set_self s a v 0 (omega (arith, here, ok.size))) small
    | inr other ↦
        let e : a ≢ i = λ f. absurd (ground (arith, other, f)) in
        rw (get_or-set_ne s a i v 0 e) (ok.words i)
  ];
}

bit_xor_lt : (k a b : ℕ) → a < 2 ^ k → b < 2 ^ k → bit_xor a b < 2 ^ k
bit_xor_lt zero zero zero h h' = omega arith
bit_xor_lt zero (suc a) b h h' = absurd (omega (arith, h))
bit_xor_lt zero zero (suc b) h h' = absurd (omega (arith, h'))
bit_xor_lt (suc k) a b h h' = omega (
  arith,
  pow-suc 2 k,
  bit_xor_halves a b,
  differ-lt (a % 2) (b % 2) (omega arith) (omega arith),
  bit_xor_lt k (a / 2) (b / 2) (omega (arith, h, pow-suc 2 k)) (omega (arith, h', pow-suc 2 k)),
)

differ_twice : (x y : ℕ) → x < 2 → y < 2 → differ (differ x y) y ≡ x
differ_twice zero zero h k = refl
differ_twice zero (suc zero) h k = refl
differ_twice (suc zero) zero h k = refl
differ_twice (suc zero) (suc zero) h k = refl
differ_twice (suc (suc x)) y h k = absurd (omega (arith, h))
differ_twice x (suc (suc y)) h k = absurd (omega (arith, k))

bit_xor_twice : (k a b : ℕ) → a < 2 ^ k → b < 2 ^ k → bit_xor (bit_xor a b) b ≡ a
bit_xor_twice zero zero zero h h' = refl
bit_xor_twice zero (suc a) b h h' = absurd (omega (arith, h))
bit_xor_twice zero zero (suc b) h h' = absurd (omega (arith, h'))
bit_xor_twice (suc k) a b h h' =
    let bit = differ-lt (a % 2) (b % 2) (omega arith) (omega arith) in
    let half : bit_xor a b / 2 ≡ bit_xor (a / 2) (b / 2) = omega (arith, bit_xor_halves a b, bit) in
    let low : bit_xor a b % 2 ≡ differ (a % 2) (b % 2) = omega (arith, bit_xor_halves a b, bit) in
    rw
      (
        bit_xor_halves (bit_xor a b) b,
        half,
        low,
        bit_xor_twice k (a / 2) (b / 2) (omega (arith, h, pow-suc 2 k))
            (omega (arith, h', pow-suc 2 k)),
        differ_twice (a % 2) (b % 2) (omega arith) (omega arith),
      )
      (omega arith)

-- The number of places of a rotation, for which there is one back.
abbrev IsRotation : ℕ → Type 0
IsRotation n =
    (v : ℕ)
    → v < 2 ^ 32
    → (rotleft v n < 2 ^ 32) × (rotleft v n % 2 ^ n * 2 ^ (32 - n) + rotleft v n / 2 ^ n ≡ v)

rotleft_16 : IsRotation 16
unfolding rotleft
rotleft_16 v h =
    let shifted : v * 2 ^ 16 % 2 ^ 32 ≡ v % 2 ^ 16 * 2 ^ 16 = omega arith in
    let sum = bit_or_sum 16 (v % 2 ^ 16) (v / 2 ^ 16) (omega arith) in
    rw (shifted, sum) (omega arith, omega arith)

rotleft_12 : IsRotation 12
unfolding rotleft
rotleft_12 v h =
    let shifted : v * 2 ^ 12 % 2 ^ 32 ≡ v % 2 ^ 20 * 2 ^ 12 = omega arith in
    let sum = bit_or_sum 12 (v % 2 ^ 20) (v / 2 ^ 20) (omega arith) in
    rw (shifted, sum) (omega arith, omega arith)

rotleft_8 : IsRotation 8
unfolding rotleft
rotleft_8 v h =
    let shifted : v * 2 ^ 8 % 2 ^ 32 ≡ v % 2 ^ 24 * 2 ^ 8 = omega arith in
    let sum = bit_or_sum 8 (v % 2 ^ 24) (v / 2 ^ 24) (omega arith) in
    rw (shifted, sum) (omega arith, omega arith)

rotleft_7 : IsRotation 7
unfolding rotleft
rotleft_7 v h =
    let shifted : v * 2 ^ 7 % 2 ^ 32 ≡ v % 2 ^ 25 * 2 ^ 7 = omega arith in
    let sum = bit_or_sum 7 (v % 2 ^ 25) (v / 2 ^ 25) (omega arith) in
    rw (shifted, sum) (omega arith, omega arith)

-- A function of states from whose result the state can be computed.
record Lossless (f : List ℕ → List ℕ) : Type 0 where
  undo : List ℕ → List ℕ
  back : (s : List ℕ) → IsState s → IsState (f s) × (undo (f s) ≡ s)

after-Lossless : {f g : List ℕ → List ℕ} → Lossless f → Lossless g → Lossless (λ s. g (f s))
after-Lossless {f} first second = record {
  undo = λ s. first.undo (second.undo s);
  back = λ s ok.
      let (ok1, e1) = first.back s ok in
      let (ok2, e2) = second.back (f s) ok1 in (ok2, ap first.undo e2 ∙ e1);
}

set-Lossless :
    (a : ℕ) (f g : List ℕ → ℕ)
    → a < 16
    → ((s : List ℕ) → IsState s → (f s < 2 ^ 32) × (g (set s a (f s)) ≡ word s a))
    → Lossless (λ s. set s a (f s))
set-Lossless a f g here back = record {
  undo = λ s. set s a (g s);
  back = λ s ok.
      let (small, e) = back s ok in
      (
        set-IsState s a (f s) here small ok,
        ap (λ v. set (set s a (f s)) a v) e ∙ set_back s a (f s),
      );
}

add_to-Lossless : (a b : ℕ) → a < 16 → a ≢ b → Lossless (add_to a b)
unfolding add_to
add_to-Lossless a b here other =
    set-Lossless a (λ s. u32 (word s a + word s b)) (λ s. sub32 (word s a) (word s b)) here
      (λ s ok.
        let v = u32 (word s a + word s b) in
        let same = get_or-set_self s a v 0 (omega (arith, here, ok.size)) in
        let rest = get_or-set_ne s a b v 0 other in
        (omega arith, rw (same, rest) (omega (arith, ok.words a, ok.words b))))

xor_to-Lossless : (d a : ℕ) → d < 16 → d ≢ a → Lossless (xor_to d a)
unfolding xor_to
xor_to-Lossless d a here other =
    set-Lossless d (λ s. bit_xor (word s d) (word s a)) (λ s. bit_xor (word s d) (word s a)) here
      (λ s ok.
        let v = bit_xor (word s d) (word s a) in
        let same = get_or-set_self s d v 0 (omega (arith, here, ok.size)) in
        let rest = get_or-set_ne s d a v 0 other in
        (
          bit_xor_lt 32 (word s d) (word s a) (ok.words d) (ok.words a),
          rw (same, rest) (bit_xor_twice 32 (word s d) (word s a) (ok.words d) (ok.words a)),
        ))

rotate-Lossless : (d n : ℕ) → d < 16 → IsRotation n → Lossless (rotate d n)
unfolding rotate
rotate-Lossless d n here back =
    set-Lossless d (λ s. rotleft (word s d) n)
      (λ s. word s d % 2 ^ n * 2 ^ (32 - n) + word s d / 2 ^ n) here
      (λ s ok.
        let same = get_or-set_self s d (rotleft (word s d) n) 0 (omega (arith, here, ok.size)) in
        let (small, e) = back (word s d) (ok.words d) in (small, rw same e))

-- The three statements of a line of `_ChaCha_Quart`.
turn-Lossless :
    (a b d n : ℕ)
    → a < 16
    → d < 16
    → a ≢ b
    → d ≢ a
    → IsRotation n
    → Lossless (λ s. rotate d n (xor_to d a (add_to a b s)))
turn-Lossless a b d n ha hd ab da back =
    after-Lossless (after-Lossless (add_to-Lossless a b ha ab) (xor_to-Lossless d a hd da))
      (rotate-Lossless d n hd back)

-- Four words of a state.
record AreApart (a b c d : ℕ) : Type 0 where
  in_state : (a < 16) × (b < 16) × (c < 16) × (d < 16)
  apart : (a ≢ b) × (d ≢ a) × (c ≢ d) × (b ≢ c)

quart-Lossless : (a b c d : ℕ) → AreApart a b c d → Lossless (quart a b c d)
unfolding quart
quart-Lossless a b c d four =
    let (ha, hb, hc, hd) = four.in_state in
    let (ab, da, cd, bc) = four.apart in
    let first = turn-Lossless a b d 16 ha hd ab da rotleft_16 in
    let second = turn-Lossless c d b 12 hc hb cd bc rotleft_12 in
    let third = turn-Lossless a b d 8 ha hd ab da rotleft_8 in
    let fourth = turn-Lossless c d b 7 hc hb cd bc rotleft_7 in
    after-Lossless (after-Lossless (after-Lossless first second) third) fourth

column : (a b c d : ℕ) → (a < b) × (b < c) × (c < d) × (d < 16) → Lossless (quart a b c d)
column a b c d (ab, bc, cd, last) = quart-Lossless a b c d (record {
  in_state = (omega arith, omega arith, omega arith, last);
  apart = (
    λ e. absurd (omega (arith, e)),
    λ e. absurd (omega (arith, e)),
    λ e. absurd (omega (arith, e)),
    λ e. absurd (omega (arith, e)),
  );
})

double_round-Lossless : Lossless double_round
unfolding double_round
double_round-Lossless =
    let c0 = column 0 4 8 12 (omega arith, omega arith, omega arith, omega arith) in
    let c1 = column 1 5 9 13 (omega arith, omega arith, omega arith, omega arith) in
    let c2 = column 2 6 10 14 (omega arith, omega arith, omega arith, omega arith) in
    let c3 = column 3 7 11 15 (omega arith, omega arith, omega arith, omega arith) in
    let d0 = column 0 5 10 15 (omega arith, omega arith, omega arith, omega arith) in
    let d1 = column 1 6 11 12 (omega arith, omega arith, omega arith, omega arith) in
    let d2 = column 2 7 8 13 (omega arith, omega arith, omega arith, omega arith) in
    let d3 = column 3 4 9 14 (omega arith, omega arith, omega arith, omega arith) in
    let columns = after-Lossless (after-Lossless (after-Lossless c0 c1) c2) c3 in
    let diagonals = after-Lossless (after-Lossless (after-Lossless d0 d1) d2) d3 in
    after-Lossless columns diagonals

rounds-Lossless : (n : ℕ) → Lossless (rounds n)
unfolding rounds
rounds-Lossless zero = record { undo = λ s. s; back = λ s ok. (ok, refl) }
rounds-Lossless (suc n) = after-Lossless double_round-Lossless (rounds-Lossless n)

-- The rounds of ChaCha, however many, take no two states of sixteen words to the same state.
pub rounds-injective :
    (n : ℕ) (s t : List ℕ) → IsState s → IsState t → rounds n s ≡ rounds n t → s ≡ t
rounds-injective n s t ok ok' e =
    let lossless = rounds-Lossless n in
    sym (lossless.back s ok).1 ∙ ap lossless.undo e ∙ (lossless.back t ok').1
