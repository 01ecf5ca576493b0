-- ===== src/VirtTerm.antt =====
-- kernel/vterm.cpp and kernel/vterm.hpp: the virtual terminal.
pub mod Scroll
pub mod Rows
pub mod Cursor
mod Tests
use xivix.Base.{
  ℕ, zero, suc, ◌+◌, ◌-◌, ◌*◌, ◌%◌, bit_and, bit_or, bit_xor, Bool, true, false, if◌then◌else◌,
  ◌==◌, has, not, ◌||◌, List, [], ◌∷◌, ltb, leb, get_or, set, replicate,
}
use xivix.Base.Word.{u8, u16, u32}

-- `VtCell`
pub record VtCell : Type 0 where
  pub code : ℕ
  pub attr : ℕ

-- `VirtTerm`
pub record VirtTerm : Type 0 where
  pub col : ℕ
  pub row : ℕ
  pub buffer : List VtCell
  pub height : ℕ
  pub width : ℕ
  pub cattr : ℕ

-- `ATTR_UPDATE`
abbrev pub update : ℕ
update = 0x8000_0000

abbrev pub no_cell : VtCell
no_cell = record { code = 0; attr = 0 }

abbrev pub cell_at : List VtCell → ℕ → VtCell
cell_at buffer i = get_or buffer i no_cell

-- `VirtTerm::reset`
unfoldable pub reset : VirtTerm → VirtTerm
reset vt = record vt {
  col = 0;
  row = 0;
  cattr = 0;
  buffer = replicate (vt.width * vt.height) (record { code = 32; attr = update });
}

-- The constructor.
unfoldable pub new_term : ℕ → ℕ → VirtTerm
unfolding reset
new_term w h = reset (record { col = 0; row = 0; buffer = []; height = h; width = w; cattr = 0 })

-- `if(x >= width) x = width - 1`
unfoldable pub clamp : ℕ → ℕ → ℕ
clamp x size = if leb size x then size - 1 else x

-- `VirtTerm::setto`
unfoldable pub setto : ℕ → ℕ → VirtTerm → VirtTerm
unfolding clamp
setto x y vt = record vt { col = clamp x vt.width; row = clamp y vt.height }

-- `VirtTerm::setattr`
unfoldable pub setattr : ℕ → VirtTerm → VirtTerm
setattr a vt = record vt { cattr = bit_and a 0xff_ffff }

-- The cell that `putc` and `putat` write.
unfoldable pub new_cell : VirtTerm → ℕ → VtCell
new_cell vt c = record { code = u8 c; attr = bit_or vt.cattr update }

-- The cell from the next row, marked if it does not look like the one it replaces.
unfoldable pub moved : VtCell → VtCell → VtCell
moved pr cr =
    if not (pr.code == cr.code) || has (bit_xor pr.attr cr.attr) 0xff_ffff
    then record cr { attr = bit_or cr.attr update }
    else cr

-- The loop of `nextline` over the rows, for the next `n` cells from `i` on. The mark is written in the
-- next row first.
unfoldable pub scroll_cells : ℕ → ℕ → ℕ → List VtCell → List VtCell
scroll_cells zero i width buffer = buffer
scroll_cells (suc n) i width buffer =
    let c = moved (cell_at buffer i) (cell_at buffer (i + width)) in
    scroll_cells n (suc i) width (set (set buffer (i + width) c) i c)

-- The loop of `nextline` over the last row.
unfoldable pub clear_cells : ℕ → ℕ → ℕ → List VtCell → List VtCell
clear_cells zero i cattr buffer = buffer
clear_cells (suc n) i cattr buffer =
    clear_cells n (suc i) cattr (set buffer i (record { code = 32; attr = bit_or cattr update }))

-- `VirtTerm::nextline`
unfoldable pub nextline : VirtTerm → VirtTerm
nextline vt =
    let row = u16 (vt.row + 1) in
    let cells = vt.width * (vt.height - 1) in
    let scrolled = clear_cells vt.width cells vt.cattr (scroll_cells cells 0 vt.width vt.buffer) in
    if leb vt.height row
    then record vt { col = 0; row = vt.height - 1; buffer = scrolled }
    else record vt { col = 0; row = row }

-- `VirtTerm::putc`
unfoldable pub putc : ℕ → VirtTerm → VirtTerm
putc c vt =
    let vt1 : VirtTerm = record vt {
      buffer = set vt.buffer (vt.col + vt.width * vt.row) (new_cell vt c);
      col = u16 (vt.col + 1);
    } in
    if leb vt.width vt1.col then nextline (record vt1 { col = 0 }) else vt1

-- `VirtTerm::putat`
unfoldable pub putat : ℕ → ℕ → ℕ → VirtTerm → VirtTerm
putat x y v vt = record vt {
  buffer = set vt.buffer (clamp x vt.width + vt.width * clamp y vt.height) (new_cell vt v);
}
