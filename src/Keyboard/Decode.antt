-- ===== src/Keyboard/Decode.antt =====
-- kernel/dev/keyboard.cpp, `port_data`: the bytes of each key event, decoded.
use xivix.Base.{
  ℕ, ◌+◌, ◌*◌, ◌^◌, ◌<◌, ◌≡◌, List, [], ◌∷◌, Bool, true, false, arith, if◌then◌else◌, bit_or,
}
use xivix.Base.Bits.{bit_or_sum, zero-bit_or, bit_or_split, bit_or-zero}
use xivix.Base.Word.{u32}
use xivix.Base.{refl, ap, ◌∙◌, le→ltb, ne→==}
use xivix.Keyboard.{port_data, Keyboard, key_down, key_up, feed}

-- What a key of the three groups sends when it goes down and when it goes up.
pub data Event : Type 0 where
  down up : ℕ → Event
  ext_down ext_up : ℕ → Event
  pair_down pair_up : ℕ → ℕ → Event

abbrev pub bytes : Event → List ℕ
bytes (down c) = c ∷ []
bytes (up c) = 0xf0 ∷ c ∷ []
bytes (ext_down c) = 0xe0 ∷ c ∷ []
bytes (ext_up c) = 0xe0 ∷ 0xf0 ∷ c ∷ []
bytes (pair_down lo hi) = 0xe1 ∷ lo ∷ hi ∷ []
bytes (pair_up lo hi) = 0xe1 ∷ 0xf0 ∷ lo ∷ 0xf0 ∷ hi ∷ []

-- The key codes: a flag for the group, a flag for the release, and the scan codes.
abbrev pub code : Event → ℕ
code (down c) = c
code (up c) = 0x10000 + c
code (ext_down c) = 0x20000 + c
code (ext_up c) = 0x30000 + c
code (pair_down lo hi) = 0x40000 + hi * 0x100 + lo
code (pair_up lo hi) = 0x50000 + hi * 0x100 + lo

-- The scan codes that are no prefix of another sequence.
abbrev pub IsEvent : Event → Type 0
IsEvent (down c) = c < 0xe0
IsEvent (up c) = c < 0xf0
IsEvent (ext_down c) = c < 0xf0
IsEvent (ext_up c) = c < 0xf0
IsEvent (pair_down lo hi) = (lo < 0xf0) × (hi < 0xf0)
IsEvent (pair_up lo hi) = (lo < 0xf0) × (hi < 0xf0)

abbrev pub releases : Event → Bool
releases (up c) = true
releases (ext_up c) = true
releases (pair_up lo hi) = true
releases _ = false

-- The handler of the whole event, at the code that the bytes spell.
abbrev pub handle : Event → Keyboard → Keyboard
handle e kb = if releases e then key_up kb else key_down kb

abbrev pub last_byte : Event → ℕ
last_byte (down c) = c
last_byte (up c) = c
last_byte (ext_down c) = c
last_byte (ext_up c) = c
last_byte (pair_down lo hi) = hi
last_byte (pair_up lo hi) = hi

-- The decoder at a state, with the code so far and the last byte.
abbrev at : ℕ → ℕ → ℕ → Keyboard → Keyboard
at s k c kb = record kb { state = s; keycode = k; lastscan = c }

-- The keyboard just before the handler runs.
abbrev pub ready : Event → Keyboard → Keyboard
ready e kb = record kb { state = 0; keycode = code e; lastscan = last_byte e }

pair_code :
    (flags lo hi : ℕ)
    → lo < 0x100
    → hi < 0x100
    → bit_or (bit_or (flags * 0x10000) lo) (u32 (hi * 0x100)) ≡ flags * 0x10000 + hi * 0x100 + lo
pair_code flags lo hi hl hh =
    let small : u32 (hi * 0x100) ≡ hi * 2 ^ 8 + 0 = omega arith in
    let low : bit_or (flags * 0x10000) lo ≡ flags * 2 ^ 8 * 2 ^ 8 + lo =
      omega (arith, bit_or_sum 16 flags lo (omega arith)) in
    rw
      (
        low,
        small,
        bit_or_split 8 (flags * 2 ^ 8) lo hi 0 hl (omega arith),
        bit_or_sum 8 flags hi hh,
        bit_or-zero,
      )
      (omega arith)

-- The edges of the decoder: from rest, and from each of the other states.
start_plain :
    (c : ℕ) (kb : Keyboard) → c < 0xe0 → kb.state ≡ 0 → port_data c kb ≡ key_down (at 0 c c kb)
unfolding port_data
start_plain c kb h s = ground (arith, zero-bit_or c)

start_prefix :
    (kb : Keyboard)
    → kb.state ≡ 0
    → (port_data 0xf0 kb ≡ at 1 0x10000 0xf0 kb)
      × (port_data 0xe0 kb ≡ at 2 0x20000 0xe0 kb)
      × (port_data 0xe1 kb ≡ at 4 0x40000 0xe1 kb)
unfolding port_data
start_prefix kb s = (ground arith, ground arith, ground arith)

module _ (k p : ℕ) (kb : Keyboard) where
  release_prefix :
      (port_data 0xf0 (at 2 k p kb) ≡ at 3 (bit_or k 0x10000) 0xf0 kb)
      × (port_data 0xf0 (at 4 k p kb) ≡ at 6 (bit_or k 0x10000) 0xf0 kb)
      × (port_data 0xf0 (at 7 k p kb) ≡ at 8 k 0xf0 kb)
  unfolding port_data
  release_prefix = (refl, refl, refl)

  ends_up :
      (c : ℕ)
      → c < 0xf0
      → (port_data c (at 1 k p kb) ≡ key_up (at 0 (bit_or k c) c kb))
        × (port_data c (at 3 k p kb) ≡ key_up (at 0 (bit_or k c) c kb))
        × (port_data c (at 8 k p kb) ≡ key_up (at 0 (bit_or k (u32 (c * 2 ^ 8))) c kb))
  unfolding port_data
  ends_up c h = let low = le→ltb 0xf0 c (omega arith) in (rw low, rw low, rw low)

  goes_on :
      (c : ℕ)
      → c < 0xf0
      → (port_data c (at 4 k p kb) ≡ at 5 (bit_or k c) c kb)
        × (port_data c (at 6 k p kb) ≡ at 7 (bit_or k c) c kb)
  unfolding port_data
  goes_on c h =
      let low = le→ltb 0xf0 c (omega arith) in
      let other = ne→== c 0xf0 (omega arith) in (rw (low, other), rw low)

  ends_down :
      (c : ℕ)
      → c < 0xf0
      → (port_data c (at 2 k p kb) ≡ key_down (at 0 (bit_or k c) c kb))
        × (port_data c (at 5 k p kb) ≡ key_down (at 0 (bit_or k (u32 (c * 2 ^ 8))) c kb))
  unfolding port_data
  ends_down c h =
      let low = le→ltb 0xf0 c (omega arith) in
      let other = ne→== c 0xf0 (omega arith) in (rw (low, other), rw low)

module _ (c : ℕ) (cs : List ℕ) where
  feed_step :
      (kb : Keyboard) {kb' : Keyboard}
      → kb.halted ≡ false
      → port_data c kb ≡ kb'
      → feed (c ∷ cs) kb ≡ feed cs kb'
  unfolding feed
  feed_step kb run e = ground arith

feed_end :
    (c : ℕ) (kb : Keyboard) {kb' : Keyboard}
    → kb.halted ≡ false
    → port_data c kb ≡ kb'
    → feed (c ∷ []) kb ≡ kb'
unfolding feed
feed_end c kb run e = ground arith

-- The bytes of one event, fed to a running decoder at rest, call the event's handler once, with the
-- code of the event, and leave the decoder at rest.
pub feed_event :
    (e : Event) (kb : Keyboard)
    → IsEvent e
    → kb.state ≡ 0
    → kb.halted ≡ false
    → feed (bytes e) kb ≡ handle e (ready e kb)
feed_event (down c) kb v s run = feed_end c kb run (start_plain c kb v s)
feed_event (up c) kb v s run =
    feed_step 0xf0 (c ∷ []) kb run (start_prefix kb s).0
    ∙ feed_end c (at 1 0x10000 0xf0 kb) run (ends_up 0x10000 0xf0 kb c v).0
    ∙ ap (λ (k : ℕ). key_up (at 0 k c kb)) (bit_or_sum 16 1 c (omega arith))
feed_event (ext_down c) kb v s run =
    feed_step 0xe0 (c ∷ []) kb run (start_prefix kb s).1
    ∙ feed_end c (at 2 0x20000 0xe0 kb) run (ends_down 0x20000 0xe0 kb c v).0
    ∙ ap (λ (k : ℕ). key_down (at 0 k c kb)) (bit_or_sum 16 2 c (omega arith))
feed_event (ext_up c) kb v s run =
    feed_step 0xe0 (0xf0 ∷ c ∷ []) kb run (start_prefix kb s).1
    ∙ feed_step 0xf0 (c ∷ []) (at 2 0x20000 0xe0 kb) run (release_prefix 0x20000 0xe0 kb).0
    ∙ feed_end c (at 3 0x30000 0xf0 kb) run (ends_up 0x30000 0xf0 kb c v).1
    ∙ ap (λ (k : ℕ). key_up (at 0 k c kb)) (bit_or_sum 16 3 c (omega arith))
feed_event (pair_down lo hi) kb v s run =
    feed_step 0xe1 (lo ∷ hi ∷ []) kb run (start_prefix kb s).2
    ∙ feed_step lo (hi ∷ []) (at 4 0x40000 0xe1 kb) run (goes_on 0x40000 0xe1 kb lo v.0).0
    ∙ feed_end hi (at 5 (bit_or 0x40000 lo) lo kb) run
        (ends_down (bit_or 0x40000 lo) lo kb hi v.1).1
    ∙ ap (λ (k : ℕ). key_down (at 0 k hi kb)) (pair_code 4 lo hi (omega arith) (omega arith))
feed_event (pair_up lo hi) kb v s run =
    let k = bit_or 0x50000 lo in
    feed_step 0xe1 (0xf0 ∷ lo ∷ 0xf0 ∷ hi ∷ []) kb run (start_prefix kb s).2
    ∙ feed_step 0xf0 (lo ∷ 0xf0 ∷ hi ∷ []) (at 4 0x40000 0xe1 kb) run
        (release_prefix 0x40000 0xe1 kb).1
    ∙ feed_step lo (0xf0 ∷ hi ∷ []) (at 6 0x50000 0xf0 kb) run (goes_on 0x50000 0xf0 kb lo v.0).1
    ∙ feed_step 0xf0 (hi ∷ []) (at 7 k lo kb) run (release_prefix k lo kb).2
    ∙ feed_end hi (at 8 k 0xf0 kb) run (ends_up k 0xf0 kb hi v.1).2
    ∙ ap (λ (k : ℕ). key_up (at 0 k hi kb)) (pair_code 5 lo hi (omega arith) (omega arith))
