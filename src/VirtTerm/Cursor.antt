-- ===== src/VirtTerm/Cursor.antt =====
-- kernel/vterm.cpp: the cursor stays on the screen, and what `putc` writes there.
use xivix.Base.{
  ℕ, ◌+◌, ◌-◌, ◌*◌, ◌≤◌, ◌<◌, ◌≡◌, ◌≢◌, refl, arith, false, List, [], ◌∷◌, leb, set, length,
  length-replicate, get_or-set_self, get_or-set_ne, length-set, Bool-cases, inl, inr, sym, ◌∙◌,
}
use native.Mathlib.Nat.{mul-le-mul_left}
use xivix.Base.Word.{u16}
use xivix.VirtTerm.{
  VtCell, VirtTerm, update, no_cell, cell_at, nextline, putc, putat, setto, clamp, reset, setattr,
  new_cell,
}
use xivix.VirtTerm.Rows.{IsTerm, rows, scrolled, length-scrolled}

nextline-IsTerm : (vt : VirtTerm) → IsTerm (record vt { col = 0 }) → IsTerm (nextline vt)
unfolding nextline scrolled
nextline-IsTerm vt v =
    let len = length-scrolled v in
    elim (Bool-cases (leb vt.height (u16 (vt.row + 1)))) [
      | inl bottom ↦ rw bottom (record {
        wide = v.wide;
        high = v.high;
        narrow = v.narrow;
        low = v.low;
        cells = len ∙ v.cells;
        col_in = v.wide;
        row_in = omega (arith, v.high);
      })
      | inr above ↦ rw above (record {
        wide = v.wide;
        high = v.high;
        narrow = v.narrow;
        low = v.low;
        cells = v.cells;
        col_in = v.wide;
        row_in = ground arith;
      })
    ]

-- The cell of the cursor is in the buffer.
cursor-in :
    {vt : VirtTerm}
    → IsTerm vt
    → (x y : ℕ) → x < vt.width
    → y < vt.height
    → x + vt.width * y < length vt.buffer
cursor-in {vt} v x y h k =
    let below : y ≤ vt.height - 1 = omega arith in
    omega (arith, mul-le-mul_left vt.width below, rows vt.width vt.height v.high, v.cells)

set-IsTerm :
    {vt : VirtTerm} (i j : ℕ) (c : VtCell)
    → j < vt.width
    → IsTerm vt
    → IsTerm (record vt { buffer = set vt.buffer i c; col = j })
set-IsTerm {vt} i j c h v = record {
  wide = v.wide;
  high = v.high;
  narrow = v.narrow;
  low = v.low;
  cells = length-set vt.buffer i c ∙ v.cells;
  col_in = h;
  row_in = v.row_in;
}

putc-IsTerm : (c : ℕ) {vt : VirtTerm} → IsTerm vt → IsTerm (putc c vt)
unfolding putc
putc-IsTerm c {vt} v = elim (Bool-cases (leb vt.width (u16 (vt.col + 1)))) [
  | inl full ↦
      rw full
        (nextline-IsTerm _ (set-IsTerm (vt.col + vt.width * vt.row) 0 (new_cell vt c) v.wide v))
  | inr more ↦
      rw more (
        set-IsTerm (vt.col + vt.width * vt.row) (u16 (vt.col + 1)) (new_cell vt c) (ground arith) v)
]

-- With the cursor on the screen, a character before the end of the row is written at the cursor and
-- nowhere else, and the cursor moves right.
pub putc-writes :
    (c : ℕ) {vt : VirtTerm}
    → IsTerm vt
    → vt.col + 1 < vt.width
    → let vt1 = putc c vt in
      let place = vt.col + vt.width * vt.row in
      (vt1.col ≡ vt.col + 1)
      × (vt1.row ≡ vt.row)
      × (cell_at vt1.buffer place ≡ new_cell vt c)
      × ((i : ℕ) → i ≢ place → cell_at vt1.buffer i ≡ cell_at vt.buffer i)
unfolding putc
putc-writes c {vt} v h =
    let more : leb vt.width (u16 (vt.col + 1)) ≡ false = ground arith in
    let place : ℕ = vt.col + vt.width * vt.row in
    rw more (
      omega arith,
      refl,
      get_or-set_self vt.buffer place (new_cell vt c) no_cell
          (cursor-in v vt.col vt.row v.col_in v.row_in),
      λ i ne. get_or-set_ne vt.buffer place i (new_cell vt c) no_cell (λ e. ne (sym e)),
    )

clamp-lt : (x n : ℕ) → 0 < n → clamp x n < n
unfolding clamp
clamp-lt x n h = ground arith

-- What the users of the terminal call.
pub data Call : Type 0 where
  put : ℕ → Call
  put_at : ℕ → ℕ → ℕ → Call
  set_to : ℕ → ℕ → Call
  new_line : Call
  set_attr : ℕ → Call
  clear : Call

unfoldable pub run : List Call → VirtTerm → VirtTerm
run [] vt = vt
run (put c ∷ calls) vt = run calls (putc c vt)
run (put_at x y c ∷ calls) vt = run calls (putat x y c vt)
run (set_to x y ∷ calls) vt = run calls (setto x y vt)
run (new_line ∷ calls) vt = run calls (nextline vt)
run (set_attr a ∷ calls) vt = run calls (setattr a vt)
run (clear ∷ calls) vt = run calls (reset vt)

home-IsTerm : {vt : VirtTerm} → IsTerm vt → IsTerm (record vt { col = 0 })
home-IsTerm v = record {
  wide = v.wide;
  high = v.high;
  narrow = v.narrow;
  low = v.low;
  cells = v.cells;
  col_in = v.wide;
  row_in = v.row_in;
}

attr-IsTerm : {vt : VirtTerm} (a : ℕ) → IsTerm vt → IsTerm (record vt { cattr = a })
attr-IsTerm a v = record {
  wide = v.wide;
  high = v.high;
  narrow = v.narrow;
  low = v.low;
  cells = v.cells;
  col_in = v.col_in;
  row_in = v.row_in;
}

setto-IsTerm : (x y : ℕ) {vt : VirtTerm} → IsTerm vt → IsTerm (setto x y vt)
unfolding setto
setto-IsTerm x y {vt} v = record {
  wide = v.wide;
  high = v.high;
  narrow = v.narrow;
  low = v.low;
  cells = v.cells;
  col_in = clamp-lt x vt.width v.wide;
  row_in = clamp-lt y vt.height v.high;
}

reset-IsTerm : {vt : VirtTerm} → IsTerm vt → IsTerm (reset vt)
unfolding reset
reset-IsTerm {vt} v = record {
  wide = v.wide;
  high = v.high;
  narrow = v.narrow;
  low = v.low;
  cells = length-replicate (vt.width * vt.height) (record { code = 32; attr = update });
  col_in = v.wide;
  row_in = v.high;
}

-- On a screen of at most 65535 columns and rows with the cursor on it, every sequence of calls
-- leaves the cursor on the screen and the buffer at its size, so that the cell at the cursor is in
-- the buffer.
pub run-IsTerm :
    (calls : List Call) {vt : VirtTerm}
    → IsTerm vt
    → let vt1 = run calls vt in IsTerm vt1 × (vt1.col + vt1.width * vt1.row < length vt1.buffer)
unfolding run putat setattr
run-IsTerm [] {vt} v = (v, cursor-in v vt.col vt.row v.col_in v.row_in)
run-IsTerm (put c ∷ calls) v = run-IsTerm calls (putc-IsTerm c v)
run-IsTerm (put_at x y c ∷ calls) {vt} v =
    run-IsTerm calls (set-IsTerm _ vt.col (new_cell vt c) v.col_in v)
run-IsTerm (set_to x y ∷ calls) v = run-IsTerm calls (setto-IsTerm x y v)
run-IsTerm (new_line ∷ calls) {vt} v = run-IsTerm calls (nextline-IsTerm vt (home-IsTerm v))
run-IsTerm (set_attr a ∷ calls) v = run-IsTerm calls (attr-IsTerm _ v)
run-IsTerm (clear ∷ calls) v = run-IsTerm calls (reset-IsTerm v)
