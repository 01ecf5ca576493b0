-- ===== src/Keyboard.antt =====
-- kernel/dev/keyboard.cpp: the key queue, the modifier state and the decoder of scan codes (set 2)
-- of the PS/2 keyboard driver.
pub mod Buffer
pub mod Queue
pub mod Modifiers
pub mod Decode
pub mod Stream
pub mod Reset
mod Tests
use xivix.Base.{
  ℕ, zero, suc, ◌+◌, ◌-◌, ◌*◌, ◌^◌, ◌%◌, bit_or, bit_and, bit_xor, Bool, true, false, ◌&&◌, List,
  [], ◌∷◌, ltb, leb, ◌==◌, if◌then◌else◌, nonzero, has, get_or, set,
}
use xivix.Base.Word.{u32}

-- `halted` says that `PS2::system_reset` was called, which stops the machine and does not return.
pub record Keyboard : Type 0 where
  pub keybuf : List ℕ
  pub keyev : ℕ
  pub state : ℕ
  pub keycode : ℕ
  pub lastkey1 : ℕ
  pub lastkey2 : ℕ
  pub lastscan : ℕ
  pub mods : ℕ
  pub halted : Bool

-- The loop `for(int i = 15; i > 0; i--) keybuf[i] = keybuf[i-1];`, from `i`.
pub shift_down : ℕ → List ℕ → List ℕ
shift_down zero buf = buf
shift_down (suc i) buf = shift_down i (set buf (suc i) (get_or buf i 0))

pub push_key : ℕ → Keyboard → Keyboard
push_key k kb = record kb {
  keybuf = set (shift_down 15 kb.keybuf) 0 k;
  keyev = if ltb kb.keyev 16 then kb.keyev + 1 else kb.keyev;
}

-- The key, or 0 where there is none, and the keyboard after the call.
pub pop_key : Keyboard → ℕ × Keyboard
pop_key kb =
    if ltb 0 kb.keyev
    then (get_or kb.keybuf (kb.keyev - 1) 0, record kb { keyev = kb.keyev - 1 })
    else (0, kb)

pub has_key : Keyboard → Bool
has_key kb = ltb 0 kb.keyev

-- The bit of `mods` that the `switch` of `key_down` and of `key_up` names for a key, 0 by default.
pub mod_mask : ℕ → ℕ
mod_mask key =
    if key == 0x12
    then 0x01
    else if key == 0x59
    then 0x02
    else if key == 0x14
    then 0x04
    else if key == 0x20014
    then 0x08
    else if key == 0x11
    then 0x10
    else if key == 0x20011
    then 0x20
    else if key == 0x2001f
    then 0x40
    else if key == 0x20027
    then 0x80
    else if key == 0x2002f
    then 0x100
    else if key == 0x20012
    then 0x200
    else 0

pub key_down : Keyboard → Keyboard
key_down kb =
    let held = record kb { mods = bit_or kb.mods (mod_mask (bit_and kb.keycode 0x2ffff)) } in
    record (push_key held.keycode held) { lastkey1 = held.keycode }

-- Control, alt and delete together reset the system; the statements behind the call do not run.
pub key_up : Keyboard → Keyboard
key_up kb =
    let mask = mod_mask (bit_and kb.keycode 0x2ffff) in
    let freed = record kb { mods = bit_xor kb.mods (bit_and kb.mods mask) } in
    let queued = push_key freed.keycode freed in
    if (has queued.mods 0x30 && has queued.mods 0xc) && queued.keycode == 0x30071
    then record queued { halted = true }
    else record queued { lastkey2 = queued.lastkey1; lastkey1 = queued.keycode }

-- `keycode |= v`
abbrev or_code : ℕ → Keyboard → Keyboard
or_code v kb = record kb { keycode = bit_or kb.keycode v }

abbrev goto : ℕ → Keyboard → Keyboard
goto s kb = record kb { state = s }

-- The cases of the `switch(state)` of `port_data`, by the state.
pub on_start : ℕ → Keyboard → Keyboard
on_start c kb =
    let fresh = record kb { keycode = 0 } in
    if c == 0xe0
    then or_code 0x20000 (goto 2 fresh)
    else if c == 0xe1
    then or_code 0x40000 (goto 4 fresh)
    else if c == 0xf0
    then or_code 0x10000 (goto 1 fresh)
    else key_down (or_code c fresh)

pub dispatch : ℕ → ℕ → Keyboard → Keyboard
unfolding on_start
dispatch state c kb =
    if state == 0
    then on_start c kb
    else if state == 1
    then key_up (goto 0 (or_code c kb))
    else if state == 2
    then (if c == 0xf0 then or_code 0x10000 (goto 3 kb) else key_down (goto 0 (or_code c kb)))
    else if state == 3
    then key_up (goto 0 (or_code c kb))
    else if state == 4
    then (if c == 0xf0 then or_code 0x10000 (goto 6 kb) else goto 5 (or_code c kb))
    else if state == 5
    then key_down (goto 0 (or_code (u32 (c * 2 ^ 8)) kb))
    else if state == 6
    then or_code c (goto 7 kb)
    else if state == 7
    then (if c == 0xf0 then goto 8 kb else key_down (goto 0 (or_code (u32 (c * 2 ^ 8)) kb)))
    else if state == 8
    then key_up (goto 0 (or_code (u32 (c * 2 ^ 8)) kb))
    else kb

pub port_data : ℕ → Keyboard → Keyboard
unfolding dispatch
port_data c kb =
    let seen = record kb { lastscan = c } in if ltb 0xf0 c then seen else dispatch kb.state c seen

-- `Keyboard::remove`
pub remove : Keyboard → Keyboard
remove kb = record kb { mods = 0; state = 0; keyev = 0 }

-- The bytes that a port delivers, in their order, until the machine stops.
pub feed : List ℕ → Keyboard → Keyboard
feed [] kb = kb
feed (c ∷ cs) kb = if kb.halted then kb else feed cs (port_data c kb)
