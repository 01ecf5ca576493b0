-- ===== src/Ps2.antt =====
-- kernel/dev/ps2.cpp: the controller of the PS/2 ports, with the codes that interrupts bring, the clients of
-- the ports, and what is sent. The time `_iv_int_n` is an argument.
pub mod Ports
pub mod Handle
pub mod Control
pub mod Drivers
pub mod Mouse
pub mod Queue
pub mod Serve
pub mod Deliver
pub mod Start
pub mod Identify
pub mod Found
mod Tests
use xivix.Base.{
  ℕ, zero, suc, ◌+◌, ◌-◌, ◌/◌, ◌%◌, ◌^◌, min, bit_and, bit_or, bit_xor, Bool, true, false, ◌&&◌,
  ◌||◌, not, List, [], ◌∷◌, ◌++◌, Option, none, some, ltb, leb, ◌==◌, if◌then◌else◌, nonzero, has,
  get_or, set, replicate,
}
use xivix.Base.Word.{u8, u16, u32}

-- `PS2ST`
pub data PortStatus : Type 0 where
  st_lost st_init st_echo st_idle st_busy st_ident st_idente st_ident1 st_idente1 st_ident2 :
      PortStatus
  st_disable : PortStatus

-- `PS2TYPE`
pub data PortType : Type 0 where
  query keyboard mouse3 mouse4 mouse5 : PortType

-- The drivers that are clients of a port.
pub data Driver : Type 0 where
  kbd mou : Driver

-- What the code does outside of its state: a command or a byte for the controller, a byte for a driver, and
-- the removal or the start of the keyboard (which clear its state), and a mode for the mouse.
pub data Event : Type 0 where
  cmd byte : ℕ → Event
  to_client : Driver → ℕ → Event
  remove_kbd start_kbd : Event
  mouse_mode : ℕ → Event

-- `PS2Port`
pub record Ps2Port : Type 0 where
  pub status : PortStatus
  pub type : PortType
  pub nextcheck : ℕ
  pub err_c : ℕ
  pub cl_ptr : Option Driver

-- `PS2`. `served` has the port that a driver is served by, `kb_drv` and `mou_drv` whether there is a driver.
pub record Ps2 : Type 0 where
  pub cinit : Bool
  pub err_n : ℕ
  pub istatus : List ℕ
  pub icode : List ℕ
  pub interupted : ℕ
  pub kb_drv : Bool
  pub mou_drv : Bool
  pub served : Driver → Option ℕ
  pub port : List Ps2Port
  pub keycode : List ℕ
  pub keycount : ℕ
  pub log : List Event

-- `PS2::PS2`
abbrev pub new_port : ℕ → Ps2Port
new_port now = record {
  status = st_init;
  type = query;
  nextcheck = u32 (now + 20);
  err_c = 0;
  cl_ptr = none;
}

-- The rest keeps what the memory of the new object held.
unfoldable pub new_ps2 : ℕ → Ps2 → Ps2
new_ps2 now s = record s {
  err_n = 0;
  kb_drv = false;
  mou_drv = false;
  port = replicate 4 (new_port now);
}

abbrev pub note : Event → Ps2 → Ps2
note e s = record s { log = s.log ++ (e ∷ []) }

-- The loop of `push_keycode`, from `i`.
unfoldable pub shift_keycodes : ℕ → List ℕ → List ℕ
shift_keycodes zero codes = codes
shift_keycodes (suc i) codes = shift_keycodes i (set codes (suc i) (get_or codes i 0))

-- `push_keycode`
unfoldable pub push_keycode : ℕ → List ℕ → List ℕ
push_keycode v codes = set (shift_keycodes 11 codes) 0 v

-- A byte of the port `u` with the status of the controller.
unfoldable pub take_code : ℕ → ℕ → ℕ → Ps2 → Ps2
take_code u status code s = record s {
  interupted = bit_or s.interupted (if u == 1 then 2 else 1);
  istatus = set s.istatus u status;
  icode = set s.icode u code;
  keycode = push_keycode (if u == 1 then bit_or code 0x100 else code) s.keycode;
  keycount = u16 (s.keycount + 1);
}

-- `irq1_handle` and `irq12_handle`, which are the same, with what the ports 0x64, 0x64 and 0x60 read.
unfoldable pub irq_handle : ℕ → ℕ → ℕ → Ps2 → Ps2
irq_handle sb status code s =
    if not s.cinit
    then s
    else if has sb 0x20
    then take_code 1 status code s
    else take_code 0 status code s

-- What an interrupt reads: the status twice, and the byte.
pub record Arrival : Type 0 where
  pub first : ℕ
  pub status : ℕ
  pub code : ℕ

unfoldable pub interrupts : List Arrival → Ps2 → Ps2
interrupts [] s = s
interrupts (a ∷ rest) s = interrupts rest (irq_handle a.first a.status a.code s)

-- `keycode[i]`, up to the number that follows the array in memory.
abbrev pub code_at : Ps2 → ℕ → ℕ
code_at s i = if ltb i 12 then get_or s.keycode i 0 else s.keycount

-- `~0u`, where there is no code.
abbrev pub no_code : ℕ
no_code = 0xffff_ffff

-- `interupted ^= interupted & (1 << u)`
abbrev pub acknowledge : ℕ → ℕ → ℕ
acknowledge u interupted = bit_xor interupted (bit_and interupted (2 ^ (u % 32)))

-- `port_query(~0)`: the code, and the state after the call.
unfoldable pub query_any : Ps2 → ℕ × Ps2
query_any s =
    let n = s.keycount - 1 in
    let s' : Ps2 = record s { keycount = n } in
    let k = if ltb 12 n then get_or s.keycode 11 0 else code_at s' n in
    if ltb 0 s.keycount
    then (k, record s' { interupted = acknowledge (k / 2 ^ 8 % 0x100) s.interupted })
    else (no_code, s)

-- The first loop of `port_query(p)`, from `i`.
unfoldable pub find_code : ℕ → ℕ → List ℕ → Option ℕ
find_code zero p codes = none
find_code (suc i) p codes =
    let rest = find_code i p codes in if get_or codes i 0 / 2 ^ 8 == p then some i else rest

-- The second loop, of `n` rounds from `i`. With more than 12 codes it would leave the array.
unfoldable pub close_gap : ℕ → ℕ → List ℕ → List ℕ
close_gap zero i codes = codes
close_gap (suc n) i codes = close_gap n (suc i) (set codes i (get_or codes (suc i) 0))

-- `port_query(p)` with the place that the first loop finds.
unfoldable pub remove_code : ℕ → Option ℕ → Ps2 → ℕ × Ps2
remove_code p none s = (no_code, s)
remove_code p (some i) s = (
  get_or s.keycode i 0,
  record s {
    keycode = close_gap (s.keycount - 1 - i) i s.keycode;
    keycount = s.keycount - 1;
    interupted = acknowledge p s.interupted;
  },
)

-- `port_query`
unfoldable pub port_query : ℕ → Ps2 → ℕ × Ps2
port_query p s =
    if p == no_code
    then query_any s
    else remove_code p (find_code (min 12 s.keycount) p s.keycode) s

-- `port_send`
unfoldable pub port_send : ℕ → ℕ → Ps2 → Ps2
port_send km ex s =
    if ex == 0 then note (byte km) s else if ex == 1 then note (byte km) (note (cmd 0xd4) s) else s
