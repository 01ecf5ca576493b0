-- ===== src/Ps2/Ports.antt =====
-- kernel/dev/ps2.cpp: the clients of the ports, and `handle`, the state machine of each port.
use xivix.Base.{
  ℕ, ◌+◌, ◌*◌, ◌^◌, bit_and, bit_or, Bool, true, false, ◌&&◌, ◌||◌, not, Option, none, some, ltb,
  ◌==◌, if◌then◌else◌, has, get_or, set,
}
use xivix.Base.Word.{u32}
use xivix.Ps2.{
  PortStatus, st_lost, st_init, st_echo, st_idle, st_busy, st_ident, st_idente, st_ident1,
  st_idente1, st_ident2, st_disable, PortType, query, keyboard, mouse3, mouse4, mouse5, Driver, kbd,
  mou, to_client, remove_kbd, Ps2Port, Ps2, new_port, note,
}

abbrev pub port_at : Ps2 → ℕ → Ps2Port
port_at s i = get_or s.port i (new_port 0)

abbrev pub set_port : ℕ → Ps2Port → Ps2 → Ps2
set_port i p s = record s { port = set s.port i p }

abbrev pub is_kbd : Driver → Bool
is_kbd kbd = true
is_kbd mou = false

abbrev pub same_driver : Driver → Driver → Bool
same_driver kbd d = is_kbd d
same_driver mou d = not (is_kbd d)

-- `add_kbd` and `add_mou`
unfoldable pub add_kbd : Ps2 → Ps2
add_kbd s = record s { kb_drv = true }

unfoldable pub add_mou : Ps2 → Ps2
add_mou s = record s { mou_drv = true }

-- `mp_serv` and `mp_port` of a driver.
unfoldable pub serve : Driver → Option ℕ → Ps2 → Ps2
serve d o s = record s { served = λ e. if same_driver d e then o else s.served e }

-- `add_client`
unfoldable pub add_client : Driver → ℕ → Ps2 → Ps2
add_client d u s =
    if ltb 3 u
    then s
    else serve d (some u) (set_port u (record (port_at s u) { cl_ptr = some d }) s)

-- `clear_client_callback` of the driver that a port had.
unfoldable pub clear_client : Option Driver → Ps2 → Ps2
clear_client none s = s
clear_client (some d) s = serve d none s

-- `remove_client`. Its two ways both clear the client that the port has: the driver that is given is that
-- client, or the port has another one or none.
unfoldable pub remove_client : ℕ → Ps2 → Ps2
remove_client u s =
    let p = port_at s u in
    if ltb 3 u then s else clear_client p.cl_ptr (set_port u (record p { cl_ptr = none }) s)

abbrev pub is_keyboard : PortType → Bool
is_keyboard keyboard = true
is_keyboard _ = false

-- `signal_loss`
unfoldable pub signal_loss : ℕ → Ps2 → Ps2
signal_loss u s =
    let s1 = remove_client u s in
    let s2 = if is_keyboard (port_at s1 u).type && s1.kb_drv then note remove_kbd s1 else s1 in
    set_port u (record (port_at s2 u) { status = st_lost }) s2

-- `port_data` of the client of a port.
unfoldable pub send_client : Option Driver → ℕ → Ps2 → Ps2
send_client none c s = s
send_client (some d) c s = note (to_client d c) s

-- A byte for a port that is lost.
unfoldable pub lost_byte : ℕ → ℕ → Ps2Port → Ps2Port
lost_byte now c p =
    let p' : Ps2Port = record p { nextcheck = u32 (now + 50) } in
    if c == 0xee
    then record p' { err_c = 0; status = st_ident }
    else if c == 0xaa
    then record p' { err_c = 0; status = st_ident; type = query }
    else if c == 0xfe
    then p'
    else if c == 0xfc
    then record p' { status = st_ident }
    else record p' { err_c = 0; status = st_ident }

-- The answer 0xFE to an echo, with the count of errors.
unfoldable pub echo_error : ℕ → ℕ → Ps2 → Ps2
echo_error i err_c s =
    let counted = set_port i (record (port_at s i) { err_c = err_c }) s in
    let lost = signal_loss i counted in
    if ltb 3 err_c then set_port i (record (port_at lost i) { type = query }) lost else counted

-- A byte for a port that waits for an echo.
unfoldable pub echo_byte : ℕ → ℕ → Ps2 → Ps2
echo_byte i c s =
    let p = port_at s i in
    let idle = set_port i (record p { err_c = 0; status = st_idle }) s in
    let err_c = if has (get_or s.istatus i 0) 0xc0 then u32 (p.err_c + 1) else p.err_c in
    if c == 0xfe
    then echo_error i err_c s
    else if c == 0xee
    then record idle { err_n = bit_and s.err_n 0xefff }
    else record idle { err_n = bit_or (bit_and s.err_n 0xffff) (u32 (c * 2 ^ 16)) }

-- What a byte of an identification says: the type of the device and the next status, given the statuses of
-- the identification that is going on.
unfoldable pub identify :
    ℕ → PortStatus → PortStatus → PortStatus → PortType → PortType × PortStatus
identify c nextst idst id1st type =
    if c == 0x00
    then (mouse3, nextst)
    else if c == 0x03
    then (mouse4, nextst)
    else if c == 0x04
    then (mouse5, nextst)
    else if c == 0xab
    then (type, id1st)
    else if c == 0xfe
    then (query, st_lost)
    else if c == 0xfa || c == 0xfc
    then (type, idst)
    else (type, st_ident2)

abbrev pub identified : ℕ → PortType × PortStatus → Ps2Port → Ps2Port
identified now r p = record p { nextcheck = u32 (now + 1000); type = r.0; status = r.1 }

-- The second byte of a keyboard, with the status where the port was known as one.
unfoldable pub ident1_byte : ℕ → ℕ → ℕ → PortStatus → Ps2 → Ps2
ident1_byte now i c known s =
    let p : Ps2Port = record (port_at s i) { nextcheck = u32 (now + 250) } in
    let p' : Ps2Port =
      if is_keyboard p.type
      then record p { status = known }
      else record p { status = st_init; type = keyboard } in
    record (set_port i p' s) {
      err_n = bit_or (bit_and s.err_n 0xffff) (u32 (bit_or 0xab00 c * 2 ^ 16));
    }

-- A byte for a port in use.
unfoldable pub busy_byte : ℕ → ℕ → ℕ → Ps2 → Ps2
busy_byte now i c s =
    let p = port_at s i in
    send_client p.cl_ptr c
      (set_port i (record p { status = st_busy; nextcheck = u32 (now + 500) }) s)

-- The `switch` of `handle` on the status of the port `i`, for its byte `c`.
unfoldable pub on_byte : ℕ → ℕ → ℕ → PortStatus → Ps2 → Ps2
on_byte now i c st_disable s = s
on_byte now i c st_init s = s
on_byte now i c st_lost s = set_port i (lost_byte now c (port_at s i)) s
on_byte now i c st_echo s = echo_byte i c s
on_byte now i c st_idle s = busy_byte now i c s
on_byte now i c st_busy s = busy_byte now i c s
on_byte now i c st_ident s =
    let p = port_at s i in
    set_port i (identified now (identify c st_init st_ident st_ident1 p.type) p) s
on_byte now i c st_idente s =
    let p = port_at s i in
    set_port i (identified now (identify c st_idle st_idente st_idente1 p.type) p) s
on_byte now i c st_ident1 s = ident1_byte now i c st_lost s
on_byte now i c st_idente1 s = ident1_byte now i c st_idle s
on_byte now i c st_ident2 s = s
