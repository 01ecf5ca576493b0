-- ===== src/Kmain/Line.antt =====
-- A line that is typed runs its commands.
use xivix.Base.{
  ℕ, zero, suc, ◌+◌, ◌≤◌, ◌≡◌, refl, arith, ap, ap₂, ◌∙◌, sym, List, [], ◌∷◌, ◌++◌, append_assoc,
  append-nil, subst, length, length-append,
}
use xivix.Keyboard.{Keyboard, pop_key}
use xivix.Keyboard.Queue.{
  IsValid, keys, length-keys, pop_key_refines, pop_key-IsValid, pop_key-mods, dequeue,
}
use xivix.Kmain.Keymap.{mapchar}
use xivix.Kmain.Console.{Command, Console, bytes, commands, put_char, handle_key, handle_keys}
use xivix.Kmain.Commands.{IsWhole}
use xivix.Kmain.Typing.{typed, IsText, Holds, put_char-Holds, enter-Holds}

-- One key: what the console does with it.
handle_key_at :
    (kb : Keyboard) (c : Console) (k ch : ℕ) (q : List ℕ)
    → IsValid kb
    → keys kb ≡ k ∷ q
    → mapchar k kb.mods ≡ ch
    → (kb' : Keyboard) × (handle_key kb c ≡ (kb', (put_char ch c).0, (put_char ch c).1))
      × (keys kb' ≡ q)
      × IsValid kb'
      × (kb'.mods ≡ kb.mods)
unfolding handle_key dequeue
handle_key_at kb c k ch q ok queue char =
    let kb' = (pop_key kb).1 in
    let popped = pop_key_refines ok ∙ ap dequeue queue in
    let mods : kb'.mods ≡ kb.mods = pop_key-mods kb in
    let char' : mapchar (pop_key kb).0 kb'.mods ≡ ch =
      ap₂ mapchar (ap (λ r. r.0) popped) mods ∙ char in
    (
      kb',
      ap (λ x. (kb', (put_char x c).0, (put_char x c).1)) char',
      ap (λ r. r.1) popped,
      pop_key-IsValid ok,
      mods,
    )

handle_keys-step :
    (n : ℕ) (kb kb1 : Keyboard) (c c1 : Console) (run : List Command)
    → handle_key kb c ≡ (kb1, c1, run)
    → let (kb2, c2, more) = handle_keys n kb1 c1 in
      handle_keys (suc n) kb c ≡ (kb2, c2, run ++ more)
unfolding handle_keys
handle_keys-step n kb kb1 c c1 run e =
    let g : Keyboard × Console × List Command → Keyboard × Console × List Command =
      λ r. let (kb2, c2, more) = handle_keys n r.0 r.1 in (kb2, c2, r.2 ++ more) in
    ap g e

-- After `r` the commands of `line` have run, `out` is on the screen, and the keys of `rest` wait.
abbrev Ran : List ℕ → List ℕ → List ℕ → Keyboard × Console × List Command → Type 0
Ran line out rest r =
    (r.2 ≡ commands (length line) (bytes line))
    × (keys r.0 ≡ rest)
    × (r.1.cmdx ≡ 0)
    × (r.1.out ≡ out)

handle_keys-zero : (kb : Keyboard) (c : Console) → handle_keys zero kb c ≡ (kb, c, [])
unfolding handle_keys
handle_keys-zero kb c = refl

module _ (mods enter : ℕ) (rest : List ℕ) (end : mapchar enter mods ≡ 10) where
  enter_key :
      (text : List ℕ) (kb : Keyboard) (c : Console)
      → IsValid kb
      → kb.mods ≡ mods
      → keys kb ≡ enter ∷ rest
      → IsWhole text
      → Holds text c
      → Ran text (c.out ++ (10 ∷ [])) rest (handle_keys 1 kb c)
  enter_key text kb c ok same queue whole holds =
      let (kb1, e, q, ok1, m) =
        handle_key_at kb c enter 10 rest ok queue (ap (mapchar enter) same ∙ end) in
      let (run, start, out) = enter-Holds text c whole holds in
      let c1 = (put_char 10 c).0 in
      let cs = (put_char 10 c).1 in
      let one : handle_keys 1 kb c ≡ (kb1, c1, cs) =
        handle_keys-step 0 kb kb1 c c1 cs e
        ∙ ap (λ r. (r.0, r.1, cs ++ r.2)) (handle_keys-zero kb1 c1)
        ∙ ap (λ t. (kb1, c1, t)) (append-nil cs) in
      subst (Ran text (c.out ++ (10 ∷ [])) rest) (sym one) (run, q, start, out)

  -- The keys of the line from where `text` is typed on.
  rest_of_line :
      (ks text : List ℕ) (kb : Keyboard) (c : Console)
      → IsValid kb
      → kb.mods ≡ mods
      → keys kb ≡ ks ++ (enter ∷ rest)
      → IsText (typed mods ks)
      → length text + length ks ≤ 4096
      → IsWhole (text ++ typed mods ks)
      → Holds text c
      → Ran
          (text ++ typed mods ks)
          (c.out ++ (typed mods ks ++ (10 ∷ [])))
          rest
          (handle_keys (suc (length ks)) kb c)
  rest_of_line [] text kb c ok same queue line room whole holds =
      rw (append-nil text)
        (enter_key text kb c ok same queue (subst IsWhole (append-nil text) whole) holds)
  rest_of_line (k ∷ ks) text kb c ok same queue line room whole holds =
      let ch = mapchar k mods in
      let (kb1, e, q, ok1, m) =
        handle_key_at kb c k ch (ks ++ (enter ∷ rest)) ok queue (ap (mapchar k) same) in
      let (holds', out, quiet) =
        put_char-Holds text ch c line.0 line.1 (omega (arith, room)) holds in
      let c1 = (put_char ch c).0 in
      let first =
        handle_keys-step (suc (length ks)) kb kb1 c c1 [] (e ∙ ap (λ t. (kb1, c1, t)) quiet) in
      let moved = append_assoc text (ch ∷ []) (typed mods ks) in
      let size : length (text ++ (ch ∷ [])) + length ks ≤ 4096 =
        omega (arith, room, length-append text (ch ∷ [])) in
      let after =
        rest_of_line ks (text ++ (ch ∷ [])) kb1 c1 ok1 (m ∙ same) q line.2 size
          (subst IsWhole (sym moved) whole) holds' in
      let shown : c1.out ++ (typed mods ks ++ (10 ∷ []))
          ≡ c.out ++ (ch ∷ (typed mods ks ++ (10 ∷ []))) =
        ap (λ t. t ++ (typed mods ks ++ (10 ∷ []))) out
        ∙ append_assoc c.out (ch ∷ []) (typed mods ks ++ (10 ∷ [])) in
      subst
        (λ r.
          Ran (text ++ (ch ∷ typed mods ks)) (c.out ++ (ch ∷ (typed mods ks ++ (10 ∷ [])))) rest r)
        (sym first)
        (subst
          (λ t.
            Ran t (c.out ++ (ch ∷ (typed mods ks ++ (10 ∷ [])))) rest
              (handle_keys (suc (length ks)) kb1 c1))
          moved
          (subst
            (λ t.
              Ran ((text ++ (ch ∷ [])) ++ typed mods ks) t rest
                (handle_keys (suc (length ks)) kb1 c1))
            shown after))

-- A line runs its commands. The keys of characters that do not end a line wait in the buffer of the keyboard, with an
-- enter behind them, and the console is at the start of a line that is not to be "acp". After a call for each key the
-- commands of these characters have run, whatever older lines left in the buffer of the console, the line is on
-- the screen, the keys behind it wait, and the console is at the start of a line.
pub line_runs :
    (ks : List ℕ) (enter : ℕ) (rest : List ℕ) (kb : Keyboard) (c : Console)
    → IsValid kb
    → keys kb ≡ ks ++ (enter ∷ rest)
    → IsText (typed kb.mods ks)
    → mapchar enter kb.mods ≡ 10
    → IsWhole (typed kb.mods ks)
    → length c.cmd ≡ 4096
    → c.cmdx ≡ 0
    → let (kb', c', run) = handle_keys (suc (length ks)) kb c in
      let line = typed kb.mods ks in
      (run ≡ commands (length line) (bytes line))
      × (keys kb' ≡ rest)
      × (c'.cmdx ≡ 0)
      × (c'.out ≡ c.out ++ (line ++ (10 ∷ [])))
line_runs ks enter rest kb c ok queue line end whole size start =
    let few : 0 + length ks ≤ 4096 =
      omega (arith, ok.within, length-keys ok, ap length queue, length-append ks (enter ∷ rest)) in
    rest_of_line kb.mods enter rest end ks [] kb c ok refl queue line few whole
      (record { size = size; index = start; chars = λ i h. absurd (omega (arith, h)) })
