-- ===== src/Keyboard/Tests.antt =====
-- Runs of kernel/dev/keyboard.cpp on concrete bytes, and its theorems at concrete inputs.
use xivix.Base.{ℕ, ◌≡◌, refl, arith, List, [], ◌∷◌, true, false, replicate, ◌↔◌}
use xivix.Keyboard.{
  Keyboard, shift_down, push_key, pop_key, mod_mask, key_down, key_up, port_data, feed,
}
use xivix.Keyboard.Queue.{IsValid, push, pop, run, run_queue, keys, run_refines}
use xivix.Keyboard.Decode.{Event, down, up, ext_up, pair_down, pair_up, ready, feed_event}
use xivix.Keyboard.Stream.{IsRunning, Delivered, stream, feed-stream}
use xivix.Keyboard.Reset.{HoldsControl, HoldsAlt, key_up-halts}

-- The keyboard after `init`.
abbrev fresh : Keyboard
fresh = record {
  keybuf = replicate 16 0;
  keyev = 0;
  state = 0;
  keycode = 0;
  lastkey1 = 0;
  lastkey2 = 0;
  lastscan = 0;
  mods = 0;
  halted = false;
}

fresh-IsValid : IsValid fresh
fresh-IsValid = omega arith

fresh-IsRunning : IsRunning fresh
fresh-IsRunning = record { valid = fresh-IsValid; rest = refl; on = refl }

-- Left shift and A, pressed and released, then the pause key.
abbrev typed : List Event
typed = down 0x12 ∷ down 0x1c ∷ up 0x1c ∷ up 0x12 ∷ pair_down 0x14 0x77 ∷ pair_up 0x14 0x77 ∷ []

keys-typed :
    keys (feed (stream typed) fresh) ≡ 0x12 ∷ 0x1c ∷ 0x1001c ∷ 0x10012 ∷ 0x47714 ∷ 0x57714 ∷ []
unfolding feed port_data key_down key_up push_key shift_down mod_mask
keys-typed = refl

feed-stream_example : Delivered typed fresh (feed (stream typed) fresh)
feed-stream_example = feed-stream typed (ground arith) fresh-IsRunning

feed_event_example : feed (0xe0 ∷ 0xf0 ∷ 0x71 ∷ []) fresh ≡ key_up (ready (ext_up 0x71) fresh)
feed_event_example = feed_event (ext_up 0x71) fresh (omega arith) refl refl

run_refines_example :
    run fresh (push 7 ∷ push 8 ∷ pop ∷ pop ∷ pop ∷ [])
    ≡ run_queue [] (push 7 ∷ push 8 ∷ pop ∷ pop ∷ pop ∷ [])
run_refines_example = run_refines (push 7 ∷ push 8 ∷ pop ∷ pop ∷ pop ∷ []) fresh-IsValid

run-fresh : run fresh (push 7 ∷ push 8 ∷ pop ∷ pop ∷ pop ∷ []) ≡ 7 ∷ 8 ∷ 0 ∷ []
unfolding run push_key pop_key shift_down
run-fresh = refl

-- Delete is released while left control and left alt are held.
abbrev leaving : Keyboard
leaving = record fresh { keycode = 0x30071; mods = 0x14 }

key_up-halts_example :
    ((key_up leaving).halted ≡ true)
    ↔ (◌≡◌ {A = ℕ} 0x30071 0x30071 × HoldsControl 0x14 × HoldsAlt 0x14)
key_up-halts_example = key_up-halts leaving refl
