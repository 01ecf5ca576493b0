-- ===== src/Kmain/Console.antt =====
-- kernel/kmain.cpp: `handle_key`, the command line of the kernel.
use xivix.Base.{
  ℕ, zero, suc, ◌+◌, ◌-◌, List, [], ◌∷◌, ◌++◌, Bool, if◌then◌else◌, ◌==◌, ◌&&◌, ltb, leb, get_or,
  set,
}
use xivix.Base.Word.{u32}
use xivix.Net.Packet.{Bytes}
use xivix.Net.Dhcp.Recv.{memeq}
use xivix.Keyboard.{Keyboard, pop_key}
use xivix.Kmain.Keymap.{mapchar}

-- What a command does. `eth_debug` and `acpi_debug` have the length of their argument.
pub data Command : Type 0 where
  scheduler_run : Command
  mem_debug : ℕ → Command
  cmos_count : Command
  timer_count : Command
  apic_count : Command
  send_test : Command
  random : Command
  debug_arp : Command
  debug_packet : Command
  die : Command
  eth_debug : ℕ → Command
  acpi_debug : ℕ → Command
  togglecomm : Command

-- The globals `cmd`, `cmdx` and `cmdl`, and the characters that were put on the screen.
pub record Console : Type 0 where
  pub cmd : List ℕ
  pub cmdx : ℕ
  pub cmdl : ℕ
  pub out : List ℕ

abbrev pub cmdlen : ℕ
cmdlen = 4096

abbrev pub bytes : List ℕ → Bytes
bytes cs i = get_or cs i 0

-- `!memeq(cmd, text, n)`
unfoldable pub matches : ℕ → List ℕ → Bytes → Bool
matches n text cmd = memeq n cmd (bytes text) == 0

-- The commands of one character.
unfoldable pub short_command : ℕ → List Command
short_command c =
    if c == b'!'
    then scheduler_run ∷ []
    else if c == b'D'
    then mem_debug 4 ∷ []
    else if c == b'd'
    then mem_debug 0 ∷ []
    else if c == b'T'
    then cmos_count ∷ []
    else if c == b't'
    then timer_count ∷ []
    else if c == b'a'
    then apic_count ∷ []
    else if c == b'w'
    then send_test ∷ []
    else if c == b'p'
    then mem_debug 1 ∷ []
    else if c == b'v'
    then mem_debug 2 ∷ []
    else if c == b'r'
    then random ∷ []
    else []

abbrev pub arp_text : List ℕ
arp_text = b'a' ∷ b'r' ∷ b'p' ∷ []

abbrev pub pkt_text : List ℕ
pkt_text = b'p' ∷ b'k' ∷ b't' ∷ []

abbrev pub die_text : List ℕ
die_text = b'd' ∷ b'i' ∷ b'e' ∷ []

abbrev pub eth_text : List ℕ
eth_text = b'e' ∷ b't' ∷ b'h' ∷ []

abbrev pub acpi_text : List ℕ
acpi_text = b'a' ∷ b'c' ∷ b'p' ∷ b'i' ∷ []

abbrev pub serial_text : List ℕ
serial_text = b's' ∷ b'e' ∷ b'r' ∷ b'i' ∷ b'a' ∷ b'l' ∷ []

abbrev pub debug_text : List ℕ
debug_text = b'/' ∷ b'd' ∷ b'e' ∷ b'b' ∷ b'u' ∷ b'g' ∷ []

-- A command that is run if its test holds.
abbrev pub when : Bool → Command → List Command
when test command = if test then command ∷ [] else []

-- The commands of three characters or more.
unfoldable pub long_commands : ℕ → Bytes → List Command
long_commands cmdx cmd =
    when (matches 3 arp_text cmd) debug_arp
    ++ (when (matches 3 pkt_text cmd) debug_packet
        ++ (when (matches 3 die_text cmd) die
            ++ (when (matches 3 eth_text cmd) (eth_debug (cmdx - 3))
                ++ (when (matches 4 acpi_text cmd) (acpi_debug (u32 (cmdx + 0x1_0000_0000 - 4)))
                    ++ (when (cmdx == 6 && matches 6 serial_text cmd) togglecomm
                        ++ when (cmdx == 6 && matches 6 debug_text cmd) (mem_debug 2))))))

unfoldable pub commands : ℕ → Bytes → List Command
commands cmdx cmd =
    if cmdx == 1 then short_command (cmd 0) else if leb 3 cmdx then long_commands cmdx cmd else []

-- The rest of `handle_key` for the character `ch`: the console and the commands that run.
unfoldable pub put_char : ℕ → Console → Console × List Command
put_char ch c =
    let shown = record c { out = c.out ++ (ch ∷ []) } in
    if ch == 0
    then (c, [])
    else if ch == 10
    then if c.cmdx == 0
      then (record shown { cmdl = c.cmdl; cmdx = 0 }, [])
      else (record shown { cmdl = c.cmdx; cmdx = 0 }, commands c.cmdx (bytes c.cmd))
    else if ltb c.cmdx cmdlen
    then (record shown { cmd = set c.cmd c.cmdx ch; cmdx = c.cmdx + 1 }, [])
    else (shown, [])

-- `handle_key`
unfoldable pub handle_key : Keyboard → Console → Keyboard × Console × List Command
handle_key kb c =
    let (k, kb') = pop_key kb in let (c', run) = put_char (mapchar k kb'.mods) c in (kb', c', run)

-- `n` calls, with the commands that they run.
unfoldable pub handle_keys : ℕ → Keyboard → Console → Keyboard × Console × List Command
handle_keys zero kb c = (kb, c, [])
handle_keys (suc n) kb c =
    let (kb1, c1, run) = handle_key kb c in
    let (kb2, c2, more) = handle_keys n kb1 c1 in (kb2, c2, run ++ more)
