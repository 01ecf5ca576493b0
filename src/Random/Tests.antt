-- ===== src/Random/Tests.antt =====
-- States of ChaCha: the test vectors of RFC 7539, and inputs of the theorems.
use xivix.Base.{
  ℕ, zero, suc, ◌<◌, ◌^◌, Bool, true, ◌&&◌, ltb, ◌≡◌, refl, arith, List, [], ◌∷◌, set, take,
}
use xivix.Random.{word, rotleft, add_to, xor_to, rotate, quart, double_round, rounds, add_words}
use xivix.Random.Rounds.{IsState, rounds-injective}

quart_runs :
    quart 0 1 2 3 (0x1111_1111 ∷ 0x0102_0304 ∷ 0x9b8d_6f43 ∷ 0x0123_4567 ∷ [])
    ≡ 0xea2a_92f4 ∷ 0xcb1c_f8ce ∷ 0x4581_472e ∷ 0x5881_c4bb ∷ []
unfolding quart rotate xor_to add_to rotleft
quart_runs = refl

abbrev block : List ℕ
block =
    0x6170_7865 ∷ 0x3320_646e ∷ 0x7962_2d32 ∷ 0x6b20_6574 ∷ 0x0302_0100 ∷ 0x0706_0504 ∷ 0x0b0a_0908
    ∷ 0x0f0e_0d0c ∷ 0x1312_1110 ∷ 0x1716_1514 ∷ 0x1b1a_1918 ∷ 0x1f1e_1d1c ∷ 1 ∷ 0x0900_0000
    ∷ 0x4a00_0000 ∷ 0 ∷ []

-- Ten passes are the twenty rounds of the RFC.
rounds_run :
    take 4 (add_words block (rounds 10 block))
    ≡ 0xe4e7_f110 ∷ 0x1559_3bd1 ∷ 0x1fdd_0f50 ∷ 0xc471_20a3 ∷ []
unfolding rounds double_round add_words quart rotate xor_to add_to rotleft
rounds_run = refl

abbrev are_words : List ℕ → Bool
are_words [] = true
are_words (x ∷ xs) = ltb x 0x1_0000_0000 && are_words xs

word-lt : (s : List ℕ) (i : ℕ) → are_words s ≡ true → word s i < 2 ^ 32
word-lt [] i h = omega arith
word-lt (x ∷ s) zero h = ground (arith, h)
word-lt (x ∷ s) (suc i) h = word-lt s i (ground (arith, h))

block-IsState : IsState block
block-IsState = record { size = refl; words = λ i. word-lt block i refl }

rounds-injective_example : block ≡ set block 3 (word block 3)
rounds-injective_example =
    rounds-injective 20 block (set block 3 (word block 3)) block-IsState block-IsState refl
