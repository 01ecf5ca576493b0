-- ===== src/Ps2/Control.antt =====
-- kernel/dev/ps2.cpp: `init` of the controller. What it reads is an argument.
use xivix.Base.{ℕ, bit_and, bit_or, bit_xor, Bool, true, false, not, ◌==◌, if◌then◌else◌, has}
use xivix.Ps2.{Ps2, st_disable, cmd, byte, note}
use xivix.Ps2.Handle.{Start, handle_ready, set_status}

-- What the controller answers, in the order in which it is asked, and whether the second port interrupts
-- in time.
pub record Answers : Type 0 where
  pub self_test : ℕ
  pub config : ℕ
  pub port1_test : ℕ
  pub port2_test : ℕ
  pub new_config : ℕ
  pub port2_interrupts : Bool

-- The self test, unless it was done. The Boolean says that `init` goes on.
unfoldable pub test_controller : Answers → Ps2 → Bool × Ps2
test_controller a s =
    let asked = note (cmd 0xaa) (note (cmd 0xa7) (note (cmd 0xad) s)) in
    if has s.err_n 0x4
    then (true, s)
    else if a.self_test == 0x55
    then (true, record asked { err_n = bit_or s.err_n 0x4 })
    else (false, record asked { err_n = bit_or s.err_n 0x8 })

-- The commands at the end of `init`, and the wait for the second port.
unfoldable pub enable_ports : Answers → Ps2 → Ps2
enable_ports a s =
    let asked = note (byte 0xff) (note (cmd 0xd4) (note (cmd 0xa8) (note (cmd 0xae) s))) in
    let s' : Ps2 = record asked { cinit = true } in
    if a.port2_interrupts
    then record s' { err_n = bit_or s.err_n 0x200 }
    else set_status 1 st_disable s'

-- From the second write of the configuration on.
unfoldable pub configure : Answers → Ps2 → Bool × Ps2
configure a s =
    let c = bit_or (bit_and a.config 0x34) 0x03 in
    let asked = note (cmd 0x20) (note (byte c) (note (cmd 0x60) s)) in
    let first = if has a.new_config 0x1 then bit_or s.err_n 0x10 else s.err_n in
    let second = if has a.new_config 0x2 then bit_or first 0x100 else first in
    if bit_and a.new_config 0x3 == 0
    then (false, record asked { err_n = bit_xor second 0x4 })
    else (true, enable_ports a (record asked { err_n = second }))

-- The tests of the ports.
unfoldable pub test_ports : Answers → Ps2 → Bool × Ps2
test_ports a s =
    let c = bit_and a.config 0x34 in
    let one = note (cmd 0xab) (note (byte c) (note (cmd 0x60) (note (cmd 0x20) s))) in
    let two = note (cmd 0xa9) one in
    let err_n = if a.port2_test == 0 then s.err_n else bit_or s.err_n 0x800 in
    if not (a.port1_test == 0)
    then (false, record one { err_n = bit_or s.err_n 0x80 })
    else if has err_n 0x088
    then (false, record two { err_n = err_n })
    else configure a (record two { err_n = err_n })

unfoldable pub continue_init : Answers → Bool × Ps2 → Bool × Ps2
continue_init a (true, s) = test_ports a s
continue_init a (false, s) = (false, s)

-- `init`
unfoldable pub init_controller : Answers → Ps2 → Bool × Ps2
init_controller a s =
    continue_init a (test_controller a (record s { err_n = bit_and s.err_n 0xf777; cinit = false }))

-- `handle`
unfoldable pub handle : Start → Answers → ℕ → Bool × Bool → Bool × Bool → Ps2 → Ps2
handle start a now ready0 ready1 s =
    if s.cinit then handle_ready start now ready0 ready1 s else (init_controller a s).1
