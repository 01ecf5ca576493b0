-- ===== src/Kmain/Typing.antt =====
-- What the console holds while a line is typed.
use xivix.Base.{
  ℕ, zero, suc, ◌≤◌, ◌<◌, ◌≡◌, ◌≢◌, refl, arith, ap, ◌∙◌, sym, List, [], ◌∷◌, ◌++◌, length,
  length-append, get_or, set, get_or-set_self, get_or-set_ne, length-set, Bool-cases, true, false,
  inl, inr, ◌==◌, ltb,
}
use xivix.Kmain.Keymap.{mapchar}
use xivix.Kmain.Console.{Console, bytes, commands, put_char}
use xivix.Kmain.Commands.{IsWhole, commands_same}

-- The characters of keys.
abbrev pub typed : ℕ → List ℕ → List ℕ
typed mods [] = []
typed mods (k ∷ ks) = mapchar k mods ∷ typed mods ks

-- Characters that do not end a line.
abbrev pub IsText : List ℕ → Type 0
IsText [] = 0 ≤ 0
IsText (x ∷ xs) = (x ≢ 0) × (x ≢ 10) × IsText xs

-- The console holds the characters of `text`.
pub record Holds (text : List ℕ) (c : Console) : Type 0 where
  pub size : length c.cmd ≡ 4096
  pub index : c.cmdx ≡ length text
  pub chars : (i : ℕ) → i < length text → get_or c.cmd i 0 ≡ get_or text i 0

get_or-behind : (xs : List ℕ) (x : ℕ) → get_or (xs ++ (x ∷ [])) (length xs) 0 ≡ x
get_or-behind [] x = refl
get_or-behind (y ∷ xs) x = get_or-behind xs x

get_or-before : (xs ys : List ℕ) (i : ℕ) → i < length xs → get_or (xs ++ ys) i 0 ≡ get_or xs i 0
get_or-before [] ys i h = absurd (omega (arith, h))
get_or-before (x ∷ xs) ys zero h = refl
get_or-before (x ∷ xs) ys (suc i) h = get_or-before xs ys i (omega (arith, h))

stored :
    (text cmd : List ℕ) (x ch i : ℕ)
    → length text < length cmd
    → x ≡ length text
    → ((j : ℕ) → j < length text → get_or cmd j 0 ≡ get_or text j 0)
    → i < suc (length text)
    → get_or (set cmd x ch) i 0 ≡ get_or (text ++ (ch ∷ [])) i 0
stored text cmd x ch i room index chars h = elim (Bool-cases (i == length text)) [
  | inl last ↦
      let e : i ≡ length text = ground (arith, last) in
      let e' : x ≡ i = index ∙ sym e in
      rw (e', get_or-set_self cmd i ch 0 (omega (arith, e, room)), e) (sym (get_or-behind text ch))
  | inr earlier ↦
      let before : i < length text = ground (arith, earlier, h) in
      get_or-set_ne cmd x i ch 0 (λ f. absurd (omega (arith, f, before, index)))
      ∙ chars i before
      ∙ sym (get_or-before text (ch ∷ []) i before)
]

pub put_char-Holds :
    (text : List ℕ) (ch : ℕ) (c : Console)
    → ch ≢ 0
    → ch ≢ 10
    → length text < 4096
    → Holds text c
    → Holds (text ++ (ch ∷ [])) (put_char ch c).0
      × ((put_char ch c).0.out ≡ c.out ++ (ch ∷ []))
      × ((put_char ch c).1 ≡ [])
unfolding put_char
put_char-Holds text ch c some_char in_line room holds =
    let not_null : (ch == 0) ≡ false = ground (arith, some_char) in
    let not_end : (ch == 10) ≡ false = ground (arith, in_line) in
    let fits : ltb c.cmdx 4096 ≡ true = ground (arith, room, holds.index) in
    rw (not_null, not_end, fits)
      (
        record {
          size = length-set c.cmd c.cmdx ch ∙ holds.size;
          index = omega (arith, holds.index, length-append text (ch ∷ []));
          chars = λ i h.
              stored text c.cmd c.cmdx ch i (omega (arith, room, holds.size)) holds.index
                holds.chars (omega (arith, h, length-append text (ch ∷ [])));
        },
        refl,
        refl,
      )

-- Enter behind the characters of `text`.
pub enter-Holds :
    (text : List ℕ) (c : Console)
    → IsWhole text
    → Holds text c
    → ((put_char 10 c).1 ≡ commands (length text) (bytes text))
      × ((put_char 10 c).0.cmdx ≡ 0)
      × ((put_char 10 c).0.out ≡ c.out ++ (10 ∷ []))
unfolding put_char commands
enter-Holds text c whole holds = elim (Bool-cases (c.cmdx == 0)) [
  | inl nothing ↦
      let none_typed : length text ≡ 0 = ground (arith, nothing, holds.index) in
      rw (nothing, none_typed) (refl, refl, refl)
  | inr some_typed ↦ rw some_typed (
    ap (λ n. commands n (bytes c.cmd)) holds.index
        ∙ commands_same text (bytes c.cmd) whole holds.chars,
    refl,
    refl,
  )
]
