-- ===== src/VirtTerm/Rows.antt =====
-- kernel/vterm.cpp: what `nextline` leaves on the screen.
use xivix.Base.{
  ℕ, zero, suc, ◌+◌, ◌-◌, ◌*◌, ◌^◌, ◌≤◌, ◌<◌, ◌≡◌, refl, arith, bit_or, true, ◌==◌, List, leb,
  length, get_or-set_self, get_or-set_ne, length-set, Bool-cases, inl, inr, ap, sym, ◌∙◌,
}
use native.Mathlib.Nat.{mul-suc}
use xivix.Base.Word.{u16}
use xivix.VirtTerm.{VtCell, VirtTerm, update, no_cell, cell_at, scroll_cells, clear_cells, nextline}
use xivix.VirtTerm.Scroll.{look, look-moved, scroll_cells-moved, length-scroll_cells}

-- The screen has cells, and the cursor is on it.
pub record IsTerm (vt : VirtTerm) : Type 0 where
  pub wide : 0 < vt.width
  pub high : 0 < vt.height
  pub narrow : vt.width < 2 ^ 16
  pub low : vt.height < 2 ^ 16
  pub cells : length vt.buffer ≡ vt.width * vt.height
  pub col_in : vt.col < vt.width
  pub row_in : vt.row < vt.height

pub rows : (w h : ℕ) → 0 < h → w * (h - 1) + w ≡ w * h
rows w zero k = absurd (omega arith)
rows w (suc h) k = let e : suc h - 1 ≡ h = omega arith in rw e (sym (mul-suc w h))

length-clear_cells :
    (n i a : ℕ) (buffer : List VtCell) → length (clear_cells n i a buffer) ≡ length buffer
unfolding clear_cells
length-clear_cells zero i a buffer = refl
length-clear_cells (suc n) i a buffer = length-clear_cells n (suc i) a _ ∙ length-set buffer i _

clear_cells-past :
    (n i a : ℕ) (buffer : List VtCell) (j : ℕ)
    → j < i
    → cell_at (clear_cells n i a buffer) j ≡ cell_at buffer j
unfolding clear_cells
clear_cells-past zero i a buffer j h = refl
clear_cells-past (suc n) i a buffer j h =
    clear_cells-past n (suc i) a _ j (omega arith)
    ∙ get_or-set_ne buffer i j _ no_cell (λ e. absurd (omega arith))

clear_cells-blank :
    (n i a : ℕ) (buffer : List VtCell) (j : ℕ)
    → i ≤ j
    → j < i + n
    → i + n ≤ length buffer
    → cell_at (clear_cells n i a buffer) j ≡ record { code = 32; attr = bit_or a update }
unfolding clear_cells
clear_cells-blank zero i a buffer j h k l = absurd (omega arith)
clear_cells-blank (suc n) i a buffer j h k l = elim (Bool-cases (j == i)) [
  | inl here ↦
      let e : j ≡ i = ground arith in
      clear_cells-past n (suc i) a _ j (omega arith)
      ∙ rw e (get_or-set_self buffer i _ no_cell (omega arith))
  | inr later ↦
      clear_cells-blank n (suc i) a _ j (ground arith) (omega arith)
        (omega (arith, length-set buffer i (record { code = 32; attr = bit_or a update })))
]

pub nextline-room :
    {vt : VirtTerm} → IsTerm vt → 0 + vt.width * (vt.height - 1) + vt.width ≤ length vt.buffer
nextline-room {vt} v = omega (arith, rows vt.width vt.height v.high, v.cells)

-- The screen after a scroll.
unfoldable pub scrolled : VirtTerm → List VtCell
scrolled vt =
    let cells = vt.width * (vt.height - 1) in
    clear_cells vt.width cells vt.cattr (scroll_cells cells 0 vt.width vt.buffer)

pub length-scrolled : {vt : VirtTerm} → IsTerm vt → length (scrolled vt) ≡ length vt.buffer
unfolding scrolled
length-scrolled {vt} v =
    length-clear_cells vt.width _ vt.cattr _
    ∙ length-scroll_cells (vt.width * (vt.height - 1)) 0 vt.width vt.buffer v.wide (nextline-room v)

-- With the cursor in the last row of a screen, `nextline` moves every row up by one: each cell
-- looks like the one below it, the last row is blank in the current color, and the cursor is at its
-- start.
pub nextline-scrolls :
    {vt : VirtTerm}
    → IsTerm vt
    → vt.row + 1 ≡ vt.height
    → let vt1 = nextline vt in
      (vt1.col ≡ 0)
      × (vt1.row ≡ vt.row)
      × ((i : ℕ)
          → i < vt.width * (vt.height - 1)
          → look (cell_at vt1.buffer i) ≡ look (cell_at vt.buffer (i + vt.width)))
      × ((i : ℕ)
          → vt.width * (vt.height - 1) ≤ i
          → i < vt.width * vt.height
          → cell_at vt1.buffer i ≡ record { code = 32; attr = bit_or vt.cattr update })
unfolding nextline
nextline-scrolls {vt} v last =
    let cells : ℕ = vt.width * (vt.height - 1) in
    let len = length-scroll_cells cells 0 vt.width vt.buffer v.wide (nextline-room v) in
    let bottom : leb vt.height (u16 (vt.row + 1)) ≡ true = ground arith in
    rw bottom (
      refl,
      omega arith,
      λ i h.
          ap look (
            clear_cells-past vt.width cells vt.cattr _ i h
            ∙ scroll_cells-moved cells 0 vt.width vt.buffer v.wide (nextline-room v) i (omega arith)
                (omega arith))
          ∙ look-moved _ _,
      λ i h k.
          clear_cells-blank vt.width cells vt.cattr _ i h
            (omega (arith, rows vt.width vt.height v.high)) (omega (arith, len, nextline-room v)),
    )
