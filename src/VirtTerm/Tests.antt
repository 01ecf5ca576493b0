-- ===== src/VirtTerm/Tests.antt =====
-- kernel/vterm.cpp: tests, and examples of the theorems.
use xivix.Base.{
  ℕ, ◌+◌, ◌-◌, ◌*◌, ◌≤◌, ◌<◌, ◌≡◌, refl, arith, bit_or, [], ◌∷◌, length, replicate, map,
}
use xivix.VirtTerm.{
  scroll_cells, clear_cells, moved, VirtTerm, update, cell_at, putc, nextline, new_cell,
}
use xivix.VirtTerm.Scroll.{look}
use xivix.VirtTerm.Rows.{IsTerm, nextline-scrolls}
use xivix.VirtTerm.Cursor.{put, put_at, set_to, new_line, run, run-IsTerm}

-- A screen of 3 by 2 cells with the cursor in the last row.
abbrev small : VirtTerm
small = record {
  col = 1;
  row = 1;
  buffer = replicate 6 (record { code = 65; attr = 7 });
  height = 2;
  width = 3;
  cattr = 7;
}

small-IsTerm : IsTerm small
small-IsTerm = record {
  wide = omega arith;
  high = omega arith;
  narrow = omega arith;
  low = omega arith;
  cells = refl;
  col_in = omega arith;
  row_in = omega arith;
}

codes-run :
    map (λ c. c.code) (run (put 66 ∷ put 67 ∷ put 68 ∷ []) small).buffer
    ≡ 65 ∷ 66 ∷ 67 ∷ 68 ∷ 32 ∷ 32 ∷ []
unfolding run putc nextline scroll_cells clear_cells moved new_cell
codes-run = refl

nextline-scrolls_example :
    let vt1 = nextline small in
    (vt1.col ≡ 0)
    × (vt1.row ≡ 1)
    × ((i : ℕ)
        → i < 3 * (2 - 1)
        → look (cell_at vt1.buffer i) ≡ look (cell_at small.buffer (i + 3)))
    × ((i : ℕ)
        → 3 * (2 - 1) ≤ i
        → i < 3 * 2
        → cell_at vt1.buffer i ≡ record { code = 32; attr = bit_or 7 update })
nextline-scrolls_example = nextline-scrolls small-IsTerm refl

run-IsTerm_example :
    let vt1 = run (put 66 ∷ set_to 9 9 ∷ new_line ∷ put_at 0 0 67 ∷ []) small in
    IsTerm vt1 × (vt1.col + vt1.width * vt1.row < length vt1.buffer)
run-IsTerm_example = run-IsTerm (put 66 ∷ set_to 9 9 ∷ new_line ∷ put_at 0 0 67 ∷ []) small-IsTerm
