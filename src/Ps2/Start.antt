-- ===== src/Ps2/Start.antt =====
-- kernel/dev/keyboard.cpp: `Keyboard::init` leaves the ports of the controller as they are.
use xivix.Base.{min, ℕ, zero, suc, ◌≡◌, refl, ◌∙◌, List, [], ◌∷◌, Option, none, some, arith}
use xivix.Base.Word.{u8}
use xivix.Ps2.{
  Ps2, kbd, take_code, irq_handle, Arrival, interrupts, query_any, port_query, remove_code,
  find_code, port_send,
}
use xivix.Ps2.Drivers.{
  Device, client_send, attempts, command, kbd_cmd, kbd_data, send_to, setup_kbd,
}

-- The start of the keyboard leaves the ports alone.
irq_handle-port : (a b c : ℕ) (s : Ps2) → (irq_handle a b c s).port ≡ s.port
unfolding irq_handle take_code
irq_handle-port a b c s = ground arith

interrupts-port : (l : List Arrival) (s : Ps2) → (interrupts l s).port ≡ s.port
unfolding interrupts
interrupts-port [] s = refl
interrupts-port (a ∷ rest) s =
    interrupts-port rest (irq_handle a.first a.status a.code s)
    ∙ irq_handle-port a.first a.status a.code s

port_send-port : (v u : ℕ) (s : Ps2) → (port_send v u s).port ≡ s.port
unfolding port_send
port_send-port v u s = ground arith

query_any-port : (s : Ps2) → (query_any s).1.port ≡ s.port
unfolding query_any
query_any-port s = ground arith

remove_code-port : (p : ℕ) (o : Option ℕ) (s : Ps2) → (remove_code p o s).1.port ≡ s.port
unfolding remove_code
remove_code-port p none s = refl
remove_code-port p (some i) s = refl

port_query-port : (p : ℕ) (s : Ps2) → (port_query p s).1.port ≡ s.port
unfolding port_query
port_query-port p s =
    ground
      (arith, query_any-port s, remove_code-port p (find_code (min 12 s.keycount) p s.keycode) s)

module _ (device : Device) where
  client_send-port : (v u : ℕ) (s : Ps2) → (client_send device v u s).port ≡ s.port
  unfolding client_send
  client_send-port v u s =
      interrupts-port (device (port_send (u8 v) u s).log) (port_send (u8 v) u s)
      ∙ port_send-port (u8 v) u s

  attempts-port : (n v u : ℕ) (s : Ps2) → (attempts n device v u s).1.port ≡ s.port
  unfolding attempts
  attempts-port zero v u s = refl
  attempts-port (suc n) v u s =
      let sent = client_send device v u s in
      let q = port_query u sent in
      ground (arith, attempts-port n v u q.1, port_query-port u sent, client_send-port v u s)

  command-port : (n v : ℕ) (o : Option ℕ) (s : Ps2) → (command n device v o s).1.port ≡ s.port
  unfolding command
  command-port n v none s = refl
  command-port n v (some u) s = attempts-port n v u s

  send_to-port : (v : ℕ) (o : Option ℕ) (s : Ps2) → (send_to device v o s).port ≡ s.port
  unfolding send_to
  send_to-port v none s = refl
  send_to-port v (some u) s = client_send-port v u s

  kbd_cmd-port : (v : ℕ) (s : Ps2) → (kbd_cmd device v s).1.port ≡ s.port
  unfolding kbd_cmd
  kbd_cmd-port v s = command-port 6 v (s.served kbd) s

  data_cmd-port : (d v : ℕ) (s : Ps2) → (kbd_cmd device v (kbd_data device d s)).1.port ≡ s.port
  unfolding kbd_data
  data_cmd-port d v s =
      kbd_cmd-port v (send_to device d (s.served kbd) s) ∙ send_to-port d (s.served kbd) s

  pub setup_kbd-port : (s : Ps2) → (setup_kbd device s).port ≡ s.port
  unfolding setup_kbd
  setup_kbd-port s =
      data_cmd-port 0xed 0x03 _
      ∙ kbd_cmd-port 0xf4 _
      ∙ data_cmd-port 0xf3 0x02 _
      ∙ data_cmd-port 0xf0 0x02 _
      ∙ data_cmd-port 0xed 0x07 _
      ∙ kbd_cmd-port 0xff s
