-- ===== src/Ps2/Drivers.antt =====
-- kernel/dev/keyboard.cpp and kernel/dev/ps2.cpp: `init` of the drivers, by the commands that they send. The
-- interrupts by which a device answers a byte, after all that was sent so far, are an argument.
use xivix.Base.{
  ℕ, zero, suc, Bool, true, false, ◌&&◌, ◌||◌, not, List, [], ◌∷◌, Option, none, some, ◌==◌,
  if◌then◌else◌,
}
use xivix.Base.Word.{u8}
use xivix.Ps2.{
  Ps2, Driver, Event, Arrival, interrupts, kbd, mou, start_kbd, mouse_mode, note, port_query,
  port_send, no_code,
}

abbrev pub Device : Type 0
Device = List Event → List Arrival

-- `client_send`, with what the device does then.
unfoldable pub client_send : Device → ℕ → ℕ → Ps2 → Ps2
client_send device v u s = let sent = port_send (u8 v) u s in interrupts (device sent.log) sent

-- `kbd_cmd` and `mou_cmd` with `n` attempts left, on a port that serves the driver. They differ in the number
-- of attempts, 6 and 3.
unfoldable pub attempts : ℕ → Device → ℕ → ℕ → Ps2 → ℕ × Ps2
attempts zero device v u s = (0xfe, s)
attempts (suc n) device v u s =
    let q = port_query u (client_send device v u s) in
    let rest = attempts n device v u q.1 in
    if q.0 == no_code || u8 q.0 == 0xfe then rest else (u8 q.0, q.1)

-- With the port that serves the driver, or none.
unfoldable pub command : ℕ → Device → ℕ → Option ℕ → Ps2 → ℕ × Ps2
command n device v none s = (0xfe, s)
command n device v (some u) s = attempts n device v u s

unfoldable pub kbd_cmd : Device → ℕ → Ps2 → ℕ × Ps2
kbd_cmd device v s = command 6 device v (s.served kbd) s

unfoldable pub mou_cmd : Device → ℕ → Ps2 → ℕ × Ps2
mou_cmd device v s = command 3 device v (s.served mou) s

-- `send_data` of the keyboard.
unfoldable pub send_to : Device → ℕ → Option ℕ → Ps2 → Ps2
send_to device v none s = s
send_to device v (some u) s = client_send device v u s

unfoldable pub kbd_data : Device → ℕ → Ps2 → Ps2
kbd_data device v s = send_to device v (s.served kbd) s

-- The commands of `Keyboard::init`; what they return is only counted.
unfoldable pub setup_kbd : Device → Ps2 → Ps2
setup_kbd device s =
    let s1 = (kbd_cmd device 0xff s).1 in
    let s2 = (kbd_cmd device 0x07 (kbd_data device 0xed s1)).1 in
    let s3 = (kbd_cmd device 0x02 (kbd_data device 0xf0 s2)).1 in
    let s4 = (kbd_cmd device 0x02 (kbd_data device 0xf3 s3)).1 in
    let s5 = (kbd_cmd device 0xf4 s4).1 in (kbd_cmd device 0x03 (kbd_data device 0xed s5)).1

-- `Keyboard::init`
unfoldable pub start_keyboard : Device → Option ℕ → Ps2 → Bool × Ps2
start_keyboard device none s = (false, note start_kbd s)
start_keyboard device (some u) s = (true, setup_kbd device (note start_kbd s))

-- `if(mou_cmd(v) != 0xfa) return false` for each command.
unfoldable pub commands : Device → List ℕ → Ps2 → Bool × Ps2
commands device [] s = (true, s)
commands device (v ∷ vs) s =
    let q = mou_cmd device v s in
    let rest = commands device vs q.1 in if q.0 == 0xfa then rest else (false, q.1)

-- The loop that drops the codes of the port.
unfoldable pub drop_codes : ℕ → ℕ → Ps2 → Ps2
drop_codes zero u s = s
drop_codes (suc n) u s =
    let q = port_query u s in let rest = drop_codes n u q.1 in if q.0 == no_code then q.1 else rest

-- The last command, after which the mouse has its mode.
unfoldable pub stream_on : Device → ℕ → Bool × Ps2 → Bool × Ps2
stream_on device mode (false, s) = (false, s)
stream_on device mode (true, s) =
    let r = commands device (0xf4 ∷ []) s in if r.0 then (true, note (mouse_mode mode) r.1) else r

-- The mode by the identity that the mouse gives, if it is the one that is tried for.
abbrev pub mode_by : ℕ → ℕ → ℕ → ℕ → ℕ
mode_by k id mode other = if not (k == no_code) && u8 k == id then mode else other

-- From the second identity on.
unfoldable pub try_buttons : Device → ℕ → Bool × Ps2 → Bool × Ps2
try_buttons device u (false, s) = (false, s)
try_buttons device u (true, s) =
    let q = port_query u s in stream_on device (mode_by q.0 4 3 2) (true, q.1)

-- From the first identity on.
unfoldable pub try_wheel : Device → ℕ → Bool × Ps2 → Bool × Ps2
try_wheel device u (false, s) = (false, s)
try_wheel device u (true, s) =
    let q = port_query u s in
    if mode_by q.0 3 2 1 == 2
    then try_buttons device u
        (commands device (0xf3 ∷ 200 ∷ 0xf3 ∷ 200 ∷ 0xf3 ∷ 80 ∷ 0xf2 ∷ []) q.1)
    else stream_on device 1 (true, q.1)

-- `Mouse::init`, on the port that serves the mouse.
unfoldable pub start_mouse : Device → ℕ → Ps2 → Bool × Ps2
start_mouse device u s = try_wheel device u (
    commands device (0xf6 ∷ 0xf5 ∷ 0xf3 ∷ 200 ∷ 0xf3 ∷ 100 ∷ 0xf3 ∷ 80 ∷ 0xf2 ∷ [])
      (drop_codes (suc s.keycount) u (note (mouse_mode 0) s)))

-- `init` of a driver, on the port that `add_client` gave it.
unfoldable pub start_driver : Device → Driver → ℕ → Ps2 → Bool × Ps2
start_driver device kbd u s = start_keyboard device (s.served kbd) s
start_driver device mou u s = start_mouse device u s
