-- ===== src/Ps2/Found.antt =====
-- A keyboard that identifies itself gets its driver.
use xivix.Base.{
  ℕ, ◌+◌, ◌≤◌, ◌<◌, ◌≡◌, refl, ap, ◌∙◌, Bool, true, false, List, [], ◌∷◌, some, length, length-set,
  get_or, set, get_or-set_self, arith, ltb,
}
use xivix.Ps2.{Ps2, st_ident, st_init, st_idle, keyboard, kbd, Ps2Port, new_port, note, start_kbd}
use xivix.Ps2.Ports.{port_at, add_client, serve, is_keyboard}
use xivix.Ps2.Handle.{
  handle_codes, init_driver, started, set_status, init_port, handle_port, check_port,
}
use xivix.Ps2.Drivers.{Device, setup_kbd, start_keyboard, start_driver}
use xivix.Ps2.Queue.{waiting_codes}
use xivix.Ps2.Start.{setup_kbd-port}
use xivix.Ps2.Identify.{At, port_at-set_port, identified_At}

-- The start of the driver on a port in `INIT`.
module _ (device : Device) (now : ℕ) (ready : Bool × Bool) (p : Ps2Port) (codes : List ℕ) (s : Ps2)
    (at : At p 0 codes s) where
  after_setup : Ps2
  after_setup = setup_kbd device (note start_kbd (add_client kbd 0 s))

  add_client-port :
      (add_client kbd 0 s).port ≡ set s.port 0 (record (port_at s 0) { cl_ptr = some kbd })
  unfolding add_client serve
  add_client-port = refl

  after_setup-port : after_setup.port ≡ set s.port 0 (record (port_at s 0) { cl_ptr = some kbd })
  unfolding after_setup
  after_setup-port = setup_kbd-port device (note start_kbd (add_client kbd 0 s)) ∙ add_client-port

  after_setup-size : length after_setup.port ≡ 4
  after_setup-size = ap length after_setup-port ∙ length-set s.port 0 _ ∙ at.size

  after_setup-at : port_at after_setup 0 ≡ record p { cl_ptr = some kbd }
  after_setup-at =
      ap (λ t. get_or t 0 (new_port 0)) after_setup-port
      ∙ get_or-set_self s.port 0 _ (new_port 0) (omega (arith, at.size))
      ∙ ap (λ (q : Ps2Port). record q { cl_ptr = some kbd }) at.here

  start_keyboard_lem : start_driver device kbd 0 (add_client kbd 0 s) ≡ (true, after_setup)
  unfolding start_driver start_keyboard add_client serve after_setup
  start_keyboard_lem = refl

  init_driver_lem :
      init_driver (start_driver device) kbd s.kb_drv 0 s ≡ set_status 0 st_idle after_setup
  unfolding init_driver started
  init_driver_lem =
      ap (λ there. init_driver (start_driver device) kbd there 0 s) at.driver
      ∙ ap (started 0) start_keyboard_lem

  -- The port with its driver.
  in_use : Ps2Port
  in_use = record p { cl_ptr = some kbd; status = st_idle; type = keyboard }

  init_port_lem : port_at (init_port (start_driver device) ready.0 0 keyboard s) 0 ≡ in_use
  unfolding init_port in_use
  init_port_lem =
      let idle = set_status 0 st_idle after_setup in
      let size : length idle.port ≡ 4 = length-set after_setup.port 0 _ ∙ after_setup-size in
      rw init_driver_lem (
        port_at-set_port _ idle size
        ∙ ap (λ (q : Ps2Port). record q { type = keyboard })
            (port_at-set_port _ after_setup after_setup-size
              ∙ ap (λ (q : Ps2Port). record q { status = st_idle }) after_setup-at))

  check_lem : (t : Ps2) → port_at t 0 ≡ in_use → now ≤ p.nextcheck → check_port now ready.1 0 t ≡ t
  unfolding check_port in_use
  check_lem t e later =
      let not_due : ltb (port_at t 0).nextcheck now ≡ false =
        ground (arith, ap (λ q. q.nextcheck) e, later) in
      rw not_due refl

  handle_port_lem :
      p.status ≡ st_init
      → p.type ≡ keyboard
      → now ≤ p.nextcheck
      → port_at (handle_port (start_driver device) now ready 0 (port_at s 0).status s) 0 ≡ in_use
  unfolding handle_port
  handle_port_lem init kind later =
      let status : (port_at s 0).status ≡ st_init = ap (λ q. q.status) at.here ∙ init in
      let type : (port_at s 0).type ≡ keyboard = ap (λ q. q.type) at.here ∙ kind in
      let t = init_port (start_driver device) ready.0 0 keyboard s in
      rw (status, type) (ap (λ u. port_at u 0) (check_lem t init_port_lem later) ∙ init_port_lem)

-- On the first port, whose device is being identified and was no keyboard, the answer of a keyboard waits: 0xFA,
-- 0xAB and another byte. Whatever else the device sends while its driver starts, after the first loop of
-- `handle` and its round for the port the port is idle, it is known as a keyboard, and its client is the
-- driver of the keyboard. There is such a driver, and the clock does not wrap in the next 250 ticks.
pub keyboard_found :
    (device : Device) (now c : ℕ) (ready : Bool × Bool) (s : Ps2)
    → length s.port ≡ 4
    → s.kb_drv ≡ true
    → (port_at s 0).status ≡ st_ident
    → is_keyboard (port_at s 0).type ≡ false
    → s.keycount ≡ 3
    → waiting_codes 3 s.keycode ≡ 0xfa ∷ 0xab ∷ c ∷ []
    → c < 0x100
    → now + 250 < 0x1_0000_0000
    → let s1 = handle_codes s.keycount now s in
      let p = port_at (handle_port (start_driver device) now ready 0 (port_at s1 0).status s1) 0 in
      (p.status ≡ st_idle) × (p.type ≡ keyboard) × (p.cl_ptr ≡ some kbd)
unfolding in_use
keyboard_found device now c ready s size driver waits unknown count codes byte clock =
    let at : At (port_at s 0) 3 s.keycode s = record {
      size = size;
      here = refl;
      count = count;
      same = refl;
      driver = driver;
    } in
    let found = identified_At now c (port_at s 0) s.keycode s at waits unknown codes byte in
    let s1 = handle_codes 3 now s in
    let port_after : ℕ → Ps2Port = (λ n.
      let t = handle_codes n now s in
      port_at (handle_port (start_driver device) now ready 0 (port_at t 0).status t) 0) in
    let in_use_at =
      ap port_after count
      ∙ handle_port_lem device now ready found.0 s.keycode s1 found.1 found.2 found.3
          (omega (arith, found.4)) in
    (ap (λ q. q.status) in_use_at, ap (λ q. q.type) in_use_at, ap (λ q. q.cl_ptr) in_use_at)
