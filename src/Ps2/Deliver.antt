-- ===== src/Ps2/Deliver.antt =====
-- The bytes that interrupts bring for ports in use reach the drivers of the ports.
use xivix.Base.{
  ℕ, suc, ◌+◌, ◌≤◌, ◌<◌, ◌≡◌, refl, ap, ap₂, ◌∙◌, sym, bit_or, true, List, [], ◌∷◌, ◌++◌, map,
  append_assoc, append-nil, length, arith, if◌then◌else◌, ◌==◌, has, subst,
}
use xivix.Base.Table.{holds_below, holds_below_lem}
use xivix.Base.Word.{u16}
use xivix.Ps2.{
  Ps2, Driver, Event, to_client, push_keycode, take_code, irq_handle, Arrival, interrupts,
}
use xivix.Ps2.Handle.{handle_codes, code_port, code_byte}
use xivix.Ps2.Queue.{waiting_codes, waiting_codes-push, length-push_keycode}
use xivix.Ps2.Serve.{Serving, deliver, KnownPorts, handle_codes_lem}

abbrev pub port_of : Arrival → ℕ
port_of a = if has a.first 0x20 then 1 else 0

-- The code that waits for a byte.
abbrev pub code_of : Arrival → ℕ
code_of a = if has a.first 0x20 then bit_or a.code 0x100 else a.code

abbrev pub Bytes : List Arrival → Type 0
Bytes [] = Unit
Bytes (a ∷ rest) = (a.code < 0x100) × Bytes rest

-- What interrupts change: the codes that wait.
module _ (client : ℕ → Driver) where
  pub record Arrived (l : List Arrival) (s s' : Ps2) : Type 0 where
    pub serving : Serving client s'
    pub count : s'.keycount ≡ s.keycount + length l
    pub codes :
        waiting_codes s'.keycount s'.keycode ≡ waiting_codes s.keycount s.keycode ++ map code_of l
    pub same_log : s'.log ≡ s.log

  irq_handle_lem :
      (a : Arrival) (s : Ps2)
      → s.cinit ≡ true
      → irq_handle a.first a.status a.code s ≡ take_code (port_of a) a.status a.code s
  unfolding irq_handle
  irq_handle_lem a s ready = ground (arith, ready)

  pushed_code : (a : Arrival) → (if port_of a == 1 then bit_or a.code 0x100 else a.code) ≡ code_of a
  pushed_code a = ground arith

  take_code-Arrived :
      (a : Arrival) (s : Ps2)
      → Serving client s
      → s.keycount < 12
      → Arrived (a ∷ []) s (take_code (port_of a) a.status a.code s)
  unfolding take_code
  take_code-Arrived a s serving room =
      let count : u16 (s.keycount + 1) ≡ suc s.keycount = omega arith in
      rw (pushed_code a) (record {
        serving = record {
          size = serving.size;
          codes = length-push_keycode (code_of a) s.keycode ∙ serving.codes;
          active = serving.active;
          served = serving.served;
        };
        count = omega (arith, count);
        codes =
            ap (λ n. waiting_codes n (push_keycode (code_of a) s.keycode)) count
            ∙ waiting_codes-push (code_of a) s.keycode serving.codes s.keycount (omega arith);
        same_log = refl;
      })

  irq_handle-Arrived :
      (a : Arrival) (s : Ps2)
      → s.cinit ≡ true
      → Serving client s
      → s.keycount < 12
      → Arrived (a ∷ []) s (irq_handle a.first a.status a.code s)
  irq_handle-Arrived a s ready serving room =
      subst (Arrived (a ∷ []) s) (sym (irq_handle_lem a s ready))
        (take_code-Arrived a s serving room)

  irq_handle-cinit :
      (a : Arrival) (s : Ps2) → (irq_handle a.first a.status a.code s).cinit ≡ s.cinit
  unfolding irq_handle take_code
  irq_handle-cinit a s = ground arith

  interrupts-Arrived :
      (l : List Arrival) (s : Ps2)
      → s.cinit ≡ true
      → Serving client s
      → s.keycount + length l ≤ 12
      → Arrived l s (interrupts l s)
  unfolding interrupts
  interrupts-Arrived [] s ready serving room = record {
    serving = serving;
    count = omega arith;
    codes = sym (append-nil (waiting_codes s.keycount s.keycode));
    same_log = refl;
  }
  interrupts-Arrived (a ∷ rest) s ready serving room =
      let one = irq_handle-Arrived a s ready serving (omega arith) in
      let ready' = irq_handle-cinit a s ∙ ready in
      let all =
        interrupts-Arrived rest (irq_handle a.first a.status a.code s) ready' one.serving
          (omega (arith, one.count)) in
      record {
        serving = all.serving;
        count = omega (arith, all.count, one.count);
        codes =
            all.codes
            ∙ ap (λ t. t ++ map code_of rest) one.codes
            ∙ append_assoc (waiting_codes s.keycount s.keycode) (code_of a ∷ []) (map code_of rest);
        same_log = all.same_log ∙ one.same_log;
      }

second_code : (c : ℕ) → c < 0x100 → bit_or c 0x100 ≡ c + 0x100
unfolding holds_below
second_code c h = holds_below_lem 0x100 (λ x. bit_or x 0x100) (λ x. x + 0x100) refl c h

code_of-parts :
    (a : Arrival)
    → a.code < 0x100
    → (code_port (code_of a) ≡ port_of a) × (code_byte (code_of a) ≡ a.code)
code_of-parts a h = ground (arith, second_code a.code h)

codes-KnownPorts : (l : List Arrival) → Bytes l → KnownPorts (map code_of l)
codes-KnownPorts [] h = tt
codes-KnownPorts (a ∷ rest) h = (ground (arith, code_of-parts a h.0), codes-KnownPorts rest h.1)

-- The byte of an interrupt, for the driver of its port.
abbrev pub delivery : (ℕ → Driver) → Arrival → Event
delivery client a = to_client (client (port_of a)) a.code

deliver-codes :
    (client : ℕ → Driver) (l : List Arrival)
    → Bytes l
    → map (deliver client) (map code_of l) ≡ map (delivery client) l
deliver-codes client [] h = refl
deliver-codes client (a ∷ rest) h =
    ap₂ (λ e es. e ∷ es)
      (ap₂ (λ i c. to_client (client i) c) (code_of-parts a h.0).0 (code_of-parts a h.0).1)
      (deliver-codes client rest h.1)

-- Both ports are in use by their drivers, the controller is set up, and no code waits. At most 12 bytes arrive
-- by interrupts, each for one of the ports. Then the first loop of `handle` takes all of them, and passes
-- each to the driver of its port, in the order in which they arrived.
pub bytes_reach_drivers :
    (client : ℕ → Driver) (now : ℕ) (l : List Arrival) (s : Ps2)
    → s.cinit ≡ true
    → Serving client s
    → s.keycount ≡ 0
    → length l ≤ 12
    → Bytes l
    → let s1 = interrupts l s in
      let s2 = handle_codes s1.keycount now s1 in
      (s2.log ≡ s.log ++ map (delivery client) l) × (s2.keycount ≡ 0)
bytes_reach_drivers client now l s ready serving empty few bytes =
    let a = interrupts-Arrived client l s ready serving (omega (arith, empty)) in
    let codes : waiting_codes (interrupts l s).keycount (interrupts l s).keycode ≡ map code_of l =
      a.codes ∙ ap (λ n. waiting_codes n s.keycode ++ map code_of l) empty in
    let taken =
      handle_codes_lem client now (interrupts l s).keycount (interrupts l s) a.serving refl
        (omega (arith, a.count, empty)) (subst KnownPorts (sym codes) (codes-KnownPorts l bytes)) in
    (
      taken.0
          ∙ ap₂ (λ x y. x ++ map (deliver client) y) a.same_log codes
          ∙ ap (λ t. s.log ++ t) (deliver-codes client l bytes),
      taken.1,
    )
