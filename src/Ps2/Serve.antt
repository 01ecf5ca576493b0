-- ===== src/Ps2/Serve.antt =====
-- kernel/dev/ps2.cpp: the first loop of `handle`, where the ports are in use by their drivers.
use xivix.Base.{
  ℕ, zero, suc, ◌+◌, ◌-◌, ◌≤◌, ◌<◌, ◌≡◌, refl, ap, ◌∙◌, sym, ◌≢◌, true, false, List, [], ◌∷◌, ◌++◌,
  map, append_assoc, append-nil, some, length, length-set, get_or, get_or-set_self, get_or-set_ne,
  arith, ltb, ◌==◌, Bool-cases, inl, inr, subst,
}
use xivix.Base.Word.{u32}
use xivix.Ps2.{
  Ps2, PortStatus, st_idle, st_busy, Driver, Event, to_client, Ps2Port, new_port, note, query_any,
  acknowledge,
}
use xivix.Ps2.Ports.{port_at, set_port, on_byte, busy_byte, send_client}
use xivix.Ps2.Handle.{handle_codes, code_port, code_byte}
use xivix.Ps2.Queue.{waiting_codes}

abbrev pub IsActive : PortStatus → Type 0
IsActive st_idle = Unit
IsActive st_busy = Unit
IsActive _ = ⊥

-- The two ports are in use, each by its driver.
pub record Serving (client : ℕ → Driver) (s : Ps2) : Type 0 where
  pub size : length s.port ≡ 4
  pub codes : length s.keycode ≡ 12
  pub active : (i : ℕ) → i < 2 → IsActive (port_at s i).status
  pub served : (i : ℕ) → i < 2 → (port_at s i).cl_ptr ≡ some (client i)

abbrev pub deliver : (ℕ → Driver) → ℕ → Event
deliver client k = to_client (client (code_port k)) (code_byte k)

on_byte-active :
    (now i c : ℕ) (st : PortStatus) (s : Ps2)
    → IsActive st
    → on_byte now i c st s ≡ busy_byte now i c s
unfolding on_byte
on_byte-active now i c st_idle s h = refl
on_byte-active now i c st_busy s h = refl
on_byte-active now i c _ s h = absurd h

unfoldable busy : ℕ → ℕ → Ps2 → Ps2Port
busy now i s = record (port_at s i) { status = st_busy; nextcheck = u32 (now + 500) }

module _ (client : ℕ → Driver) (now i c : ℕ) (s : Ps2) (serving : Serving client s)
    (two : i < 2) where
  busy_lem : busy_byte now i c s ≡ note (to_client (client i) c) (set_port i (busy now i s) s)
  unfolding busy_byte send_client busy
  busy_lem = rw (serving.served i two) refl

  port_at-busy : (j : ℕ) → j ≢ i → port_at (set_port i (busy now i s) s) j ≡ port_at s j
  unfolding busy
  port_at-busy j other = get_or-set_ne s.port i j (busy now i s) (new_port 0) (λ e. other (sym e))

  port_at_self : port_at (set_port i (busy now i s) s) i ≡ busy now i s
  unfolding busy
  port_at_self = get_or-set_self s.port i (busy now i s) (new_port 0) (omega (arith, serving.size))

  -- What `Serving` asks of a port.
  abbrev Served : ℕ → Ps2Port → Type 0
  Served j p = IsActive p.status × (p.cl_ptr ≡ some (client j))

  busy-Served : (j : ℕ) → j < 2 → Served j (port_at (set_port i (busy now i s) s) j)
  unfolding busy
  busy-Served j h = elim (Bool-cases (j == i)) [
    | inl same ↦
        let e : j ≡ i = ground arith in
        subst (λ k. Served k (port_at (set_port i (busy now i s) s) k)) (sym e)
          (subst (Served i) (sym port_at_self) (tt, serving.served i two))
    | inr other ↦
        subst (Served j) (sym (port_at-busy j (λ e. absurd (ground (arith, e, other)))))
          (serving.active j h, serving.served j h)
  ]

  busy-Serving : Serving client (note (to_client (client i) c) (set_port i (busy now i s) s))
  busy-Serving = record {
    size = length-set s.port i (busy now i s) ∙ serving.size;
    codes = serving.codes;
    active = λ j h. (busy-Served j h).0;
    served = λ j h. (busy-Served j h).1;
  }

-- The first loop of `handle` over `n` codes that wait.
abbrev pub KnownPorts : List ℕ → Type 0
KnownPorts [] = Unit
KnownPorts (k ∷ ks) = (code_port k < 2) × KnownPorts ks

-- One round of the loop.
module _ (now n : ℕ) (s : Ps2) (count : s.keycount ≡ suc n) (small : n ≤ 11) where
  abbrev pub next : ℕ
  next = get_or s.keycode n 0

  abbrev pub taken : Ps2
  taken = record s { keycount = n; interupted = acknowledge (code_port next) s.interupted }

  query_any_lem : query_any s ≡ (next, taken)
  unfolding query_any
  query_any_lem =
      let e : s.keycount - 1 ≡ n = omega (arith, count) in
      let some_wait : ltb 0 s.keycount ≡ true = ground (arith, count) in
      let few : ltb 12 n ≡ false = ground arith in
      let inside : ltb n 12 ≡ true = ground arith in rw (e, some_wait, few, inside) refl

  pub handle_codes-round :
      code_port next < 4
      → handle_codes (suc n) now s
        ≡ handle_codes n now (
            on_byte now (code_port next) (code_byte next) (port_at s (code_port next)).status taken)
  unfolding handle_codes
  handle_codes-round known =
      let some_wait : ltb 0 s.keycount ≡ true = ground (arith, count) in
      let low : ltb 3 (code_port next) ≡ false = ground (arith, known) in
      rw (query_any_lem, some_wait, low) refl

module _ (client : ℕ → Driver) (now n : ℕ) (s : Ps2) (serving : Serving client s)
    (count : s.keycount ≡ suc n) (small : n ≤ 11) where
  abbrev served_state : Ps2
  served_state = taken now n s count small

  abbrev served_code : ℕ
  served_code = next now n s count small

  taken-Serving : Serving client served_state
  taken-Serving = record {
    size = serving.size;
    codes = serving.codes;
    active = serving.active;
    served = serving.served;
  }

  handle_codes-next :
      code_port served_code < 2
      → handle_codes (suc n) now s
        ≡ handle_codes n now (
            note (deliver client served_code) (
              set_port
                (code_port served_code)
                (busy now (code_port served_code) served_state)
                served_state))
  handle_codes-next known =
      let i : ℕ = code_port served_code in
      let c : ℕ = code_byte served_code in
      handle_codes-round now n s count small (omega (arith, known))
      ∙ ap (handle_codes n now)
          (on_byte-active now i c (port_at s i).status served_state (serving.active i known))
      ∙ ap (handle_codes n now) (busy_lem client now i c served_state taken-Serving known)

pub handle_codes_lem :
    (client : ℕ → Driver) (now n : ℕ) (s : Ps2)
    → Serving client s
    → s.keycount ≡ n
    → n ≤ 12
    → KnownPorts (waiting_codes n s.keycode)
    → let s' = handle_codes n now s in
      (s'.log ≡ s.log ++ map (deliver client) (waiting_codes n s.keycode)) × (s'.keycount ≡ 0)
unfolding handle_codes
handle_codes_lem client now zero s serving count small known = (sym (append-nil s.log), count)
handle_codes_lem client now (suc n) s serving count small known =
    let k : ℕ = get_or s.keycode n 0 in
    let few : n ≤ 11 = omega arith in
    let t = taken now n s count few in
    let t_serving = taken-Serving client now n s serving count few in
    let after =
      handle_codes_lem client now n
        (note (deliver client k) (set_port (code_port k) (busy now (code_port k) t) t))
        (busy-Serving client now (code_port k) (code_byte k) t t_serving known.0) refl (omega arith)
        known.1 in
    rw (handle_codes-next client now n s serving count few known.0)
      (after.0 ∙ append_assoc s.log (deliver client k ∷ []) _, after.1)
