-- ===== src/Ps2/Handle.antt =====
-- kernel/dev/ps2.cpp: the loops of `handle`. What `ps2_can_write` says is an argument, once for each port in
-- `INIT` and once at its timer, and so is `init` of the drivers (Ps2/Drivers).
use xivix.Base.{
  ℕ, zero, suc, ◌+◌, ◌/◌, ◌%◌, ◌^◌, bit_and, Bool, ◌||◌, ltb, if◌then◌else◌, nonzero, has,
}
use xivix.Base.Word.{u32, not32}
use xivix.Ps2.{
  PortStatus, st_lost, st_init, st_idle, st_busy, st_ident, st_idente, st_ident1, st_ident2,
  st_disable, PortType, query, keyboard, mouse3, mouse4, mouse5, Driver, kbd, mou, Ps2Port, Ps2,
  query_any, port_send,
}
use xivix.Ps2.Ports.{port_at, set_port, add_client, on_byte}

abbrev pub Start : Type 0
Start = Driver → ℕ → Ps2 → Bool × Ps2

-- The part of a code that says the port, and the byte.
abbrev pub code_port : ℕ → ℕ
code_port k = k / 2 ^ 8 % 0x100

abbrev pub code_byte : ℕ → ℕ
code_byte k = k % 0x100

-- The first loop of `handle`, with a bound on its rounds.
unfoldable pub handle_codes : ℕ → ℕ → Ps2 → Ps2
handle_codes zero now s = s
handle_codes (suc n) now s =
    let q = query_any s in
    let i = code_port q.0 in
    let rest = handle_codes n now (on_byte now i (code_byte q.0) (port_at q.1 i).status q.1) in
    if ltb 0 s.keycount then (if ltb 3 i then q.1 else rest) else s

abbrev pub set_status : ℕ → PortStatus → Ps2 → Ps2
set_status i st s = set_port i (record (port_at s i) { status = st }) s

-- `init_kbd` and `init_mou` with what `init` of the driver returns.
unfoldable pub started : ℕ → Bool × Ps2 → Ps2
started i (ok, s) = set_status i (if ok then st_idle else st_lost) s

-- `init_kbd` and `init_mou`
unfoldable pub init_driver : Start → Driver → Bool → ℕ → Ps2 → Ps2
init_driver start d there i s =
    if there then started i (start d i (add_client d i s)) else set_status i st_lost s

-- The identification of an unknown device.
unfoldable pub identify_port : Bool → ℕ → Ps2 → Ps2
identify_port ready i s =
    if ready
    then port_send 0xf2 i (set_port i (record (port_at s i) { type = query; status = st_ident }) s)
    else s

-- A port in `INIT`, by its type.
unfoldable pub init_port : Start → Bool → ℕ → PortType → Ps2 → Ps2
init_port start ready i query s = identify_port ready i s
init_port start ready i keyboard s =
    let s' = init_driver start kbd s.kb_drv i s in
    set_port i (record (port_at s' i) { type = keyboard }) s'
init_port start ready i mouse3 s = init_driver start mou s.mou_drv i s
init_port start ready i mouse4 s = init_driver start mou s.mou_drv i s
init_port start ready i mouse5 s = init_driver start mou s.mou_drv i s

-- The `switch` on the status of a port whose time is over.
unfoldable pub on_timer : ℕ → Bool → ℕ → PortStatus → Ps2 → Ps2
on_timer now ready i st_idle s = if ready then port_send 0xf2 i (set_status i st_idente s) else s
on_timer now ready i st_busy s =
    set_port i (record (port_at s i) { nextcheck = u32 (now + 500); status = st_idle }) s
on_timer now ready i st_lost s =
    let p' : Ps2Port = record (port_at s i) {
      nextcheck = u32 (now + 500);
      type = query;
      status = st_ident;
    } in
    if ready then port_send 0xf2 i (set_port i p' s) else s
on_timer now ready i st_ident s =
    set_port i (record (port_at s i) { nextcheck = u32 (now + 500); status = st_lost }) s
on_timer now ready i st_ident1 s =
    set_port i (record (port_at s i) { status = st_init; type = keyboard }) s
on_timer now ready i st_ident2 s =
    set_port i (record (port_at s i) { nextcheck = u32 (now + 500); status = st_lost }) s
on_timer now ready i _ s = s

-- The timer of a port.
unfoldable pub check_port : ℕ → Bool → ℕ → Ps2 → Ps2
check_port now ready i s =
    let p = port_at s i in
    let f = 2 ^ i in
    let cleared = if has s.interupted f then bit_and s.interupted (not32 f) else s.interupted in
    let due =
      set_port i (record p { nextcheck = u32 (now + 750) }) (record s { interupted = cleared }) in
    if ltb p.nextcheck now then on_timer now ready i p.status due else s

-- A round of the second loop of `handle`, by the status of the port.
unfoldable pub handle_port : Start → ℕ → Bool × Bool → ℕ → PortStatus → Ps2 → Ps2
handle_port start now ready i st_disable s =
    set_port i (record (port_at s i) { nextcheck = u32 (now + 1000) }) s
handle_port start now ready i st_init s =
    check_port now ready.1 i (init_port start ready.0 i (port_at s i).type s)
handle_port start now ready i _ s = check_port now ready.1 i s

-- `handle`, where the controller is set up.
unfoldable pub handle_ready : Start → ℕ → Bool × Bool → Bool × Bool → Ps2 → Ps2
handle_ready start now ready0 ready1 s =
    let s0 = handle_codes s.keycount now s in
    let s1 = handle_port start now ready0 0 (port_at s0 0).status s0 in
    handle_port start now ready1 1 (port_at s1 1).status s1

-- `waiting`
unfoldable pub waiting : ℕ → Ps2 → Bool
waiting now s =
    nonzero s.keycount
    || nonzero s.interupted
    || ltb (port_at s 0).nextcheck now
    || ltb (port_at s 1).nextcheck now

-- `port_enable`
unfoldable pub enable_at : ℕ → PortStatus → Ps2 → Ps2
enable_at u st_disable s = set_status u st_lost s
enable_at u _ s = s

unfoldable pub port_enable : ℕ → Bool → Ps2 → Ps2
port_enable u e s =
    if ltb 1 u
    then s
    else if e
    then enable_at u (port_at s u).status s
    else set_status u st_disable s
