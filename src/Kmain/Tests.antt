-- ===== src/Kmain/Tests.antt =====
-- A line at the console and a memory that is filled, as inputs of the theorems.
use xivix.Base.{ℕ, ◌≡◌, refl, arith, [], ◌∷◌, replicate, length-replicate, false}
use xivix.Net.Dhcp.Recv.{memeq}
use xivix.Keyboard.{Keyboard}
use xivix.Keyboard.Queue.{keys}
use xivix.Kmain.Memset.{memset}
use xivix.Kmain.Fill.{memset-filled}
use xivix.Kmain.Keymap.{mapchar}
use xivix.Kmain.Console.{debug_arp, Console, handle_keys, commands, long_commands, matches}
use xivix.Kmain.Line.{line_runs}

memset-filled_example : memset 0x1003 0x141 40 (λ a. 7) 0x1010 ≡ 0x41
memset-filled_example = memset-filled 0x1003 0x141 40 (λ a. 7) 0x1010 (omega arith)

-- The keys a, r, p and enter wait.
abbrev four_keys : Keyboard
four_keys = record {
  keybuf = 0x5a ∷ 0x4d ∷ 0x2d ∷ 0x1c ∷ replicate 12 0;
  keyev = 4;
  state = 0;
  keycode = 0;
  lastkey1 = 0;
  lastkey2 = 0;
  lastscan = 0;
  mods = 0;
  halted = false;
}

abbrev console : Console
console = record { cmd = replicate 4096 0; cmdx = 0; cmdl = 0; out = [] }

line_runs_example :
    let (kb, c, run) = handle_keys 4 four_keys console in
    (run ≡ debug_arp ∷ []) × (keys kb ≡ []) × (c.cmdx ≡ 0) × (c.out ≡ b'a' ∷ b'r' ∷ b'p' ∷ 10 ∷ [])
unfolding mapchar commands long_commands matches memeq
line_runs_example =
    line_runs (0x1c ∷ 0x2d ∷ 0x4d ∷ []) 0x5a [] four_keys console
      (record { room = refl; within = omega arith }) refl (omega arith) refl (λ e. refl)
      (length-replicate {A = ℕ} 4096 0) refl
