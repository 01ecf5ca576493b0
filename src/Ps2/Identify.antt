-- ===== src/Ps2/Identify.antt =====
-- kernel/dev/ps2.cpp: the bytes by which a keyboard identifies itself.
use xivix.Base.{
  ℕ, suc, ◌+◌, ◌≤◌, ◌<◌, ◌≡◌, refl, ap, ap₂, ◌∙◌, sym, subst, true, false, List, [], ◌∷◌, length,
  length-set, get_or, get_or-set_self, arith,
}
use xivix.Base.Word.{u32}
use xivix.Ps2.{Ps2, st_ident, st_ident1, st_init, keyboard, Ps2Port, new_port}
use xivix.Ps2.Ports.{port_at, set_port, on_byte, identify, identified, ident1_byte, is_keyboard}
use xivix.Ps2.Handle.{handle_codes, code_port, code_byte}
use xivix.Ps2.Queue.{waiting_codes}
use xivix.Ps2.Serve.{taken, handle_codes-round}

-- What the proof follows: the first port, the other codes, and that there is a keyboard driver.
pub record At (p : Ps2Port) (n : ℕ) (codes : List ℕ) (s : Ps2) : Type 0 where
  pub size : length s.port ≡ 4
  pub here : port_at s 0 ≡ p
  pub count : s.keycount ≡ n
  pub same : s.keycode ≡ codes
  pub driver : s.kb_drv ≡ true

pub port_at-set_port : (p : Ps2Port) (s : Ps2) → length s.port ≡ 4 → port_at (set_port 0 p s) 0 ≡ p
port_at-set_port p s size = get_or-set_self s.port 0 p (new_port 0) (omega (arith, size))

-- A byte of the first port, the next of `n + 1` that wait.
first_round :
    (now n k : ℕ) (p : Ps2Port) (codes : List ℕ) (s : Ps2)
    → At p (suc n) codes s
    → n ≤ 11
    → get_or codes n 0 ≡ k
    → k < 0x100
    → (s' : Ps2) × At p n codes s'
      × (handle_codes (suc n) now s ≡ handle_codes n now (on_byte now 0 k p.status s'))
first_round now n k p codes s at few code byte =
    let got : get_or s.keycode n 0 ≡ k = ap (λ t. get_or t n 0) at.same ∙ code in
    let known : code_port (get_or s.keycode n 0) < 4 = omega (arith, got) in
    let zero_port : code_port (get_or s.keycode n 0) ≡ 0 = omega (arith, got) in
    let whole : code_byte (get_or s.keycode n 0) ≡ k = omega (arith, got) in
    let t = taken now n s at.count few in
    (
      t,
      record { size = at.size; here = at.here; count = refl; same = at.same; driver = at.driver },
      handle_codes-round now n s at.count few known
          ∙ ap₂ (λ i c. handle_codes n now (on_byte now i c (port_at s i).status t)) zero_port whole
          ∙ ap (λ q. handle_codes n now (on_byte now 0 k q.status t)) at.here,
    )

ident_At :
    (now c n : ℕ) (p : Ps2Port) (codes : List ℕ) (s : Ps2)
    → At p n codes s
    → At
        (identified now (identify c st_init st_ident st_ident1 p.type) p)
        n
        codes
        (on_byte now 0 c st_ident s)
unfolding on_byte
ident_At now c n p codes s at = record {
  size = length-set s.port 0 _ ∙ at.size;
  here =
      port_at-set_port _ s at.size
      ∙ ap (λ q. identified now (identify c st_init st_ident st_ident1 q.type) q) at.here;
  count = at.count;
  same = at.same;
  driver = at.driver;
}

ident1_At :
    (now c n : ℕ) (p : Ps2Port) (codes : List ℕ) (s : Ps2)
    → At p n codes s
    → is_keyboard p.type ≡ false
    → At
        (record p { nextcheck = u32 (now + 250); status = st_init; type = keyboard })
        n
        codes
        (on_byte now 0 c st_ident1 s)
unfolding on_byte ident1_byte
ident1_At now c n p codes s at unknown =
    let unknown' : is_keyboard (port_at s 0).type ≡ false =
      ap (λ q. is_keyboard q.type) at.here ∙ unknown in
    rw unknown' (record {
      size = length-set s.port 0 _ ∙ at.size;
      here =
          port_at-set_port _ s at.size
          ∙ ap
              (λ (q : Ps2Port). record q {
                nextcheck = u32 (now + 250);
                status = st_init;
                type = keyboard;
              })
              at.here;
      count = at.count;
      same = at.same;
      driver = at.driver;
    })

-- The three bytes of a keyboard: the answer to the identification, and its two bytes.
pub identified_At :
    (now c : ℕ) (p : Ps2Port) (codes : List ℕ) (s : Ps2)
    → At p 3 codes s
    → p.status ≡ st_ident
    → is_keyboard p.type ≡ false
    → waiting_codes 3 codes ≡ 0xfa ∷ 0xab ∷ c ∷ []
    → c < 0x100
    → (q : Ps2Port) × At q 0 codes (handle_codes 3 now s)
      × (q.status ≡ st_init)
      × (q.type ≡ keyboard)
      × (q.nextcheck ≡ u32 (now + 250))
unfolding identify handle_codes
identified_At now c p codes s at waits unknown codes_are byte =
    let r1 =
      first_round now 2 0xfa p codes s at (omega arith) (ap (λ l. get_or l 0 0) codes_are)
        (omega arith) in
    let a1 = ident_At now 0xfa 2 p codes r1.0 r1.1 in
    let p1 = identified now (p.type, st_ident) p in
    let r2 =
      first_round now 1 0xab p1 codes _ a1 (omega arith) (ap (λ l. get_or l 1 0) codes_are)
        (omega arith) in
    let a2 = ident_At now 0xab 1 p1 codes r2.0 r2.1 in
    let p2 = identified now (p.type, st_ident1) p1 in
    let r3 =
      first_round now 0 c p2 codes _ a2 (omega arith) (ap (λ l. get_or l 2 0) codes_are) byte in
    let a3 = ident1_At now c 0 p2 codes r3.0 r3.1 unknown in
    let all =
      r1.2 ∙ ap (λ st. handle_codes 2 now (on_byte now 0 0xfa st r1.0)) waits ∙ r2.2 ∙ r3.2 in
    (_, subst (At _ 0 codes) (sym all) a3, refl, refl, refl)
