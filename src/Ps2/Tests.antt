-- ===== src/Ps2/Tests.antt =====
-- Runs of the PS/2 controller, and its theorems at an input.
use xivix.Base.{
  ℕ, zero, suc, ◌<◌, ◌≡◌, refl, true, List, [], ◌∷◌, ◌++◌, some, none, replicate, map, arith,
}
use xivix.Ps2.{
  Ps2, Ps2Port, st_idle, st_busy, st_ident, keyboard, mouse3, query, Driver, kbd, mou, to_client,
  new_port, Arrival, interrupts, query_any,
}
use xivix.Ps2.Ports.{port_at}
use xivix.Ps2.Handle.{handle_codes, handle_port}
use xivix.Ps2.Drivers.{Device, start_driver}
use xivix.Ps2.Mouse.{
  Mouse, mouse_bytes, Within, mouse_bytes-Within, mouse_data, packet, move_up, move_down,
}
use xivix.Ps2.Serve.{Serving, IsActive}
use xivix.Ps2.Deliver.{delivery, bytes_reach_drivers}
use xivix.Ps2.Found.{keyboard_found}

abbrev idle_kbd : Ps2Port
idle_kbd = record {
  status = st_idle;
  type = keyboard;
  nextcheck = 100;
  err_c = 0;
  cl_ptr = some kbd;
}

abbrev busy_mouse : Ps2Port
busy_mouse = record {
  status = st_busy;
  type = mouse3;
  nextcheck = 100;
  err_c = 0;
  cl_ptr = some mou;
}

-- A keyboard at the first port and a mouse at the second.
abbrev both : Ps2
both = record {
  cinit = true;
  err_n = 0;
  istatus = replicate 4 0;
  icode = replicate 4 0;
  interupted = 0;
  kb_drv = true;
  mou_drv = true;
  served = λ d. none;
  port = idle_kbd ∷ busy_mouse ∷ new_port 0 ∷ new_port 0 ∷ [];
  keycode = replicate 12 0;
  keycount = 0;
  log = [];
}

abbrev clients : ℕ → Driver
clients zero = kbd
clients (suc i) = mou

both-IsActive : (i : ℕ) → i < 2 → IsActive (port_at both i).status
both-IsActive zero h = tt
both-IsActive (suc zero) h = tt
both-IsActive (suc (suc i)) h = absurd (omega arith)

both-clients : (i : ℕ) → i < 2 → (port_at both i).cl_ptr ≡ some (clients i)
both-clients zero h = refl
both-clients (suc zero) h = refl
both-clients (suc (suc i)) h = absurd (omega arith)

both-Serving : Serving clients both
both-Serving = record { size = refl; codes = refl; active = both-IsActive; served = both-clients }

abbrev arrivals : List Arrival
arrivals =
    record { first = 0x1d; status = 0x1d; code = 0x1c }
    ∷ record { first = 0x3d; status = 0x3d; code = 0x08 }
    ∷ record { first = 0x1d; status = 0x1d; code = 0xf0 }
    ∷ []

bytes_reach_drivers_example :
    let s1 = interrupts arrivals both in
    let s2 = handle_codes s1.keycount 50 s1 in
    (s2.log ≡ [] ++ map (delivery clients) arrivals) × (s2.keycount ≡ 0)
bytes_reach_drivers_example =
    bytes_reach_drivers clients 50 arrivals both refl both-Serving refl (omega arith) (omega arith)

deliver-arrivals :
    map (delivery clients) arrivals
    ≡ to_client kbd 0x1c ∷ to_client mou 0x08 ∷ to_client kbd 0xf0 ∷ []
deliver-arrivals = refl

-- The first port is being identified, and the answer of a keyboard waits.
abbrev asking : Ps2
asking = record both {
  port =
      record idle_kbd { status = st_ident; type = query; cl_ptr = none }
      ∷ busy_mouse
      ∷ new_port 0
      ∷ new_port 0
      ∷ [];
  keycode = 0x83 ∷ 0xab ∷ 0xfa ∷ replicate 9 0;
  keycount = 3;
}

-- A device that acknowledges every byte.
abbrev acknowledging : Device
acknowledging log = record { first = 0x1d; status = 0x1d; code = 0xfa } ∷ []

keyboard_found_example :
    let s1 = handle_codes 3 50 asking in
    let p =
      port_at
        (handle_port (start_driver acknowledging) 50 (true, true) 0 (port_at s1 0).status s1)
        0 in
    (p.status ≡ st_idle) × (p.type ≡ keyboard) × (p.cl_ptr ≡ some kbd)
keyboard_found_example =
    keyboard_found acknowledging 50 0x83 (true, true) asking refl refl refl refl refl refl
      (omega arith) (omega arith)

abbrev mouse : Mouse
mouse = record { mdata = 0; x = 1000; y = 3; xlim = 1024; ylim = 1024; smode = 1; status = 0 }

mouse_bytes-Within_example : Within mouse (mouse_bytes (0x08 ∷ 0x40 ∷ 0x10 ∷ []) mouse)
mouse_bytes-Within_example = mouse_bytes-Within (0x08 ∷ 0x40 ∷ 0x10 ∷ []) mouse mouse (omega arith)

mouse_bytes-at_limits :
    ((mouse_bytes (0x08 ∷ 0x40 ∷ 0x10 ∷ []) mouse).x ≡ 1024)
    × ((mouse_bytes (0x08 ∷ 0x40 ∷ 0x10 ∷ []) mouse).y ≡ 0)
unfolding mouse_bytes mouse_data packet move_up move_down
mouse_bytes-at_limits = (refl, refl)

-- With 13 codes the oldest is read past the end of the array, where its count is.
query_any-overflow : (query_any (record both { keycount = 13 })).0 ≡ 12
unfolding query_any
query_any-overflow = refl
