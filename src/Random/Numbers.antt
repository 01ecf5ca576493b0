-- ===== src/Random/Numbers.antt =====
-- The numbers that `ixa4random` gives, and what `mix` reads.
use xivix.Base.{
  ℕ, zero, suc, ◌+◌, ◌-◌, ◌*◌, ◌/◌, ◌≤◌, ◌<◌, ◌≡◌, refl, arith, ap, List, [], ◌∷◌, min, bit_xor,
  set, Bool-cases, inl, inr, ◌==◌, true,
}
use xivix.Random.{word, stir, Random, ixa4random, mix, mix_words, xor_words}

-- The numbers of `n` calls.
abbrev pub numbers : ℕ → Random → List ℕ
numbers zero r = []
numbers (suc n) r = let (x, next) = ixa4random r in x ∷ numbers n next

-- The second, third and fourth word of a state, and the first four of each of the next `k` states.
abbrev pub blocks : ℕ → List ℕ → List ℕ
blocks zero s = word s 1 ∷ word s 2 ∷ word s 3 ∷ []
blocks (suc k) s = word s 1 ∷ word s 2 ∷ word s 3 ∷ word (stir s) 0 ∷ blocks k (stir s)

-- The numbers of a generator whose index is 0, as it is when the kernel starts: the second, third and fourth word of
-- its state, then the first four words of the state after each `stir`, for any number of them.
pub numbers-blocks :
    (k : ℕ) (s : List ℕ) → numbers (3 + 4 * k) (record { prng1 = s; prng_index = 0 }) ≡ blocks k s
unfolding ixa4random
numbers-blocks zero s = let e : 3 + 4 * 0 ≡ 3 = refl in rw e refl
numbers-blocks (suc k) s =
    let e : 3 + 4 * suc k ≡ suc (suc (suc (suc (3 + 4 * k)))) = omega arith in
    rw e
      (ap (λ xs. word s 1 ∷ word s 2 ∷ word s 3 ∷ word (stir s) 0 ∷ xs) (numbers-blocks k (stir s)))

xor_words_same :
    (n i : ℕ) (a b : ℕ → ℕ) (s : List ℕ)
    → ((j : ℕ) → j < i + n → a j ≡ b j)
    → xor_words n i a s ≡ xor_words n i b s
unfolding xor_words
xor_words_same zero i a b s same = refl
xor_words_same (suc n) i a b s same = rw (same i (omega arith)) (
    xor_words_same n (i + 1) a b (set s (4 + i) (bit_xor (word s (4 + i)) (b i)))
      (λ j h. same j (omega (arith, h))))

mix_words_same :
    (fuel left : ℕ) (a b : ℕ → ℕ) (s : List ℕ)
    → ((j : ℕ) → j < 8 → a j ≡ b j)
    → mix_words fuel left a s ≡ mix_words fuel left b s
unfolding mix_words
mix_words_same zero left a b s same = refl
mix_words_same (suc fuel) left a b s same =
    let e = xor_words_same (min left 8) 0 a b s (λ j h. same j (omega (arith, h))) in
    let t = stir (xor_words (min left 8) 0 b s) in
    rw (e, mix_words_same fuel (left - 8) a b t same) refl

-- `mix` uses the first eight words of its input only: two inputs that agree there give the same state, whatever the
-- words behind them and the length are.
pub mix-first_eight :
    (a b : ℕ → ℕ) (len : ℕ) (s : List ℕ) → ((j : ℕ) → j < 8 → a j ≡ b j) → mix a len s ≡ mix b len s
unfolding mix
mix-first_eight a b len s same = mix_words_same (len / 4) (len / 4) a b s same

-- Two numbers of rounds for `mix`, each one for every word at least, give the same state.
pub mix_words_enough :
    (f g left : ℕ) (input : ℕ → ℕ) (s : List ℕ)
    → left ≤ f
    → left ≤ g
    → mix_words f left input s ≡ mix_words g left input s
unfolding mix_words
mix_words_enough zero zero left input s h k = refl
mix_words_enough zero (suc g) left input s h k =
    let none : (left == 0) ≡ true = ground (arith, h) in rw none refl
mix_words_enough (suc f) zero left input s h k =
    let none : (left == 0) ≡ true = ground (arith, k) in rw none refl
mix_words_enough (suc f) (suc g) left input s h k = elim (Bool-cases (left == 0)) [
  | inl none ↦ rw none refl
  | inr some_left ↦
      let t = stir (xor_words (min left 8) 0 input s) in
      let fewer : left - 8 ≤ f = ground (arith, h, some_left) in
      let fewer' : left - 8 ≤ g = ground (arith, k, some_left) in
      rw some_left (mix_words_enough f g (left - 8) input t fewer fewer')
]
