-- ===== src/Random.antt =====
-- kernel/random.cpp: ChaCha and the random numbers that are made of it.
pub mod Rounds
pub mod Numbers
mod Tests
use xivix.Base.{
  ℕ, zero, suc, ◌+◌, ◌-◌, ◌*◌, ◌/◌, ◌^◌, min, bit_or, bit_xor, List, [], ◌∷◌, if◌then◌else◌, ◌==◌,
  leb, get_or, set,
}
use xivix.Base.Word.{u32}

-- `rotleft` of 32 bits.
unfoldable pub rotleft : ℕ → ℕ → ℕ
rotleft v n = bit_or (u32 (v * 2 ^ n)) (v / 2 ^ (32 - n))

abbrev pub word : List ℕ → ℕ → ℕ
word s i = get_or s i 0

-- `lstate[a] += lstate[b]`
unfoldable pub add_to : ℕ → ℕ → List ℕ → List ℕ
add_to a b s = set s a (u32 (word s a + word s b))

-- `lstate[d] ^= lstate[a]`
unfoldable pub xor_to : ℕ → ℕ → List ℕ → List ℕ
xor_to d a s = set s d (bit_xor (word s d) (word s a))

-- `lstate[d] = rotleft(lstate[d], n)`
unfoldable pub rotate : ℕ → ℕ → List ℕ → List ℕ
rotate d n s = set s d (rotleft (word s d) n)

-- `_ChaCha_Quart`
unfoldable pub quart : ℕ → ℕ → ℕ → ℕ → List ℕ → List ℕ
quart a b c d s =
    let s1 = rotate d 16 (xor_to d a (add_to a b s)) in
    let s2 = rotate b 12 (xor_to b c (add_to c d s1)) in
    let s3 = rotate d 8 (xor_to d a (add_to a b s2)) in rotate b 7 (xor_to b c (add_to c d s3))

-- One pass of the second loop of `stir`.
unfoldable pub double_round : List ℕ → List ℕ
double_round s =
    let s1 = quart 3 7 11 15 (quart 2 6 10 14 (quart 1 5 9 13 (quart 0 4 8 12 s))) in
    quart 3 4 9 14 (quart 2 7 8 13 (quart 1 6 11 12 (quart 0 5 10 15 s1)))

unfoldable pub rounds : ℕ → List ℕ → List ℕ
rounds zero s = s
rounds (suc n) s = rounds n (double_round s)

-- `state[i] += lstate[i]` for every `i`.
unfoldable pub add_words : List ℕ → List ℕ → List ℕ
add_words [] ls = []
add_words (x ∷ xs) [] = x ∷ xs
add_words (x ∷ xs) (l ∷ ls) = u32 (x + l) ∷ add_words xs ls

-- `stir`
unfoldable pub stir : List ℕ → List ℕ
stir s = add_words s (rounds 20 s)

-- `ChaCha::init`
unfoldable pub init : (ℕ → ℕ) → ℕ → (ℕ → ℕ) → List ℕ
init key block nonce = stir (
    0x6170_7865
    ∷ 0x3320_646e
    ∷ 0x7962_2d32
    ∷ 0x6b20_6574
    ∷ key 0
    ∷ key 1
    ∷ key 2
    ∷ key 3
    ∷ key 4
    ∷ key 5
    ∷ key 6
    ∷ key 7
    ∷ block
    ∷ nonce 0
    ∷ nonce 1
    ∷ nonce 2
    ∷ [])

-- `n` words of the input from word `i` on, into the words of the state behind the first four.
unfoldable pub xor_words : ℕ → ℕ → (ℕ → ℕ) → List ℕ → List ℕ
xor_words zero i input s = s
xor_words (suc n) i input s =
    xor_words n (i + 1) input (set s (4 + i) (bit_xor (word s (4 + i)) (input i)))

-- The loop of `mix` with `left` words left: every round starts at the first word of the input again.
unfoldable pub mix_words : ℕ → ℕ → (ℕ → ℕ) → List ℕ → List ℕ
mix_words zero left input s = s
mix_words (suc fuel) left input s =
    if left == 0
    then s
    else mix_words fuel (left - 8) input (stir (xor_words (min left 8) 0 input s))

-- `mix`: a round takes a word at least.
unfoldable pub mix : (ℕ → ℕ) → ℕ → List ℕ → List ℕ
mix input len s = mix_words (len / 4) (len / 4) input s

-- `prng1` and `prng_index`
pub record Random : Type 0 where
  pub prng1 : List ℕ
  pub prng_index : ℕ

-- `ixa4random`
unfoldable pub ixa4random : Random → ℕ × Random
ixa4random r =
    let index = u32 (r.prng_index + 1) in
    let next =
      if leb 4 index
      then record { prng1 = stir r.prng1; prng_index = 0 }
      else record r { prng_index = index } in
    (word next.prng1 next.prng_index, next)

-- The key of `Init`, with its last byte, 0.
abbrev xivix_key : List ℕ
xivix_key =
    b'X' ∷ b'i' ∷ b'v' ∷ b'i' ∷ b'x' ∷ b' ' ∷ b'O' ∷ b'p' ∷ b'e' ∷ b'r' ∷ b'a' ∷ b't' ∷ b'i' ∷ b'n'
    ∷ b'g' ∷ b' ' ∷ b'S' ∷ b'y' ∷ b's' ∷ b't' ∷ b'e' ∷ b'm' ∷ b' ' ∷ b'S' ∷ b'o' ∷ b'f' ∷ b't'
    ∷ b'w' ∷ b'a' ∷ b'r' ∷ b'e' ∷ 0 ∷ []

-- A word of bytes, the low byte first.
abbrev key_word : List ℕ → ℕ → ℕ
key_word bytes i =
    word bytes (4 * i)
    + word bytes (4 * i + 1) * 2 ^ 8
    + word bytes (4 * i + 2) * 2 ^ 16
    + word bytes (4 * i + 3) * 2 ^ 24

abbrev release_year : ℕ
release_year = 2021

-- `Init`
unfoldable pub seed : Random
seed =
    let nonce : List ℕ = 0xe590_8de5 ∷ 0x9d82_e383 ∷ 0xa6e3_82ad ∷ [] in
    record { prng1 = init (key_word xivix_key) release_year (word nonce); prng_index = 0 }

-- `Mix`
unfoldable pub mix_entropy : (ℕ → ℕ) → ℕ → Random → Random
mix_entropy ent count r = record r { prng1 = mix ent (u32 (count * 4)) r.prng1 }
