-- ===== src/VirtTerm/Scroll.antt =====
-- kernel/vterm.cpp, `nextline`: the rows move up by one.
use xivix.Base.{
  ℕ, zero, suc, ◌+◌, ◌*◌, ◌/◌, ◌%◌, ◌^◌, ◌≤◌, ◌<◌, ◌≡◌, ◌≢◌, refl, arith, bit_and, bit_or, bit_xor,
  ◌==◌, List, set, length, get_or-set_self, get_or-set_ne, length-set, Bool-cases, inl, inr, ap,
  sym, ◌∙◌,
}
use Prim.Native.Nat.{differ}
use xivix.Base.Bits.{bit_and_mask, bit_or_split, bit_or-zero, bit_xor_halves, op_split}
use xivix.VirtTerm.{VtCell, update, no_cell, cell_at, moved, scroll_cells}

-- What is seen of a cell: the code and the color.
pub record Look : Type 0 where
  pub code : ℕ
  pub color : ℕ

abbrev pub look : VtCell → Look
look c = record { code = c.code; color = c.attr % 2 ^ 24 }

marked_color : (a : ℕ) → bit_or a update % 2 ^ 24 ≡ a % 2 ^ 24
marked_color a =
    let parts : a / 2 ^ 24 * 2 ^ 24 + a % 2 ^ 24 ≡ a = omega arith in
    let split : bit_or a (128 * 2 ^ 24 + 0)
        ≡ bit_or (a / 2 ^ 24) 128 * 2 ^ 24 + bit_or (a % 2 ^ 24) 0 =
      rw parts at (bit_or_split 24 (a / 2 ^ 24) (a % 2 ^ 24) 128 0 (omega arith) (omega arith)) in
    omega (arith, split, bit_or-zero (a % 2 ^ 24))

pub look-moved : (pr cr : VtCell) → look (moved pr cr) ≡ look cr
unfolding moved
look-moved pr cr = ground (arith, marked_color cr.attr)

xor_color : (a b : ℕ) → bit_and (bit_xor a b) 0xff_ffff ≡ bit_xor (a % 2 ^ 24) (b % 2 ^ 24) % 2 ^ 24
xor_color a b =
    let split =
      op_split bit_xor differ bit_xor_halves refl 24 (a / 2 ^ 24) (a % 2 ^ 24) (b / 2 ^ 24)
        (b % 2 ^ 24) (omega arith) (omega arith) in
    let pa : a / 2 ^ 24 * 2 ^ 24 + a % 2 ^ 24 ≡ a = omega arith in
    let pb : b / 2 ^ 24 * 2 ^ 24 + b % 2 ^ 24 ≡ b = omega arith in
    omega (arith, bit_and_mask 24 (bit_xor a b), rw (pa, pb) at split)

-- A cell that looks the same is replaced in the same way.
moved-look : (p q c : VtCell) → look p ≡ look q → moved p c ≡ moved q c
unfolding moved
moved-look p q c h =
    let code : p.code ≡ q.code = ap (λ l. l.code) h in
    let color : p.attr % 2 ^ 24 ≡ q.attr % 2 ^ 24 = ap (λ l. l.color) h in
    rw (code, xor_color p.attr c.attr, color, xor_color q.attr c.attr) refl

-- One round of the loop.
unfoldable scroll_round : ℕ → ℕ → List VtCell → List VtCell
scroll_round i width buffer =
    let c = moved (cell_at buffer i) (cell_at buffer (i + width)) in
    set (set buffer (i + width) c) i c

module _ (i width : ℕ) (buffer : List VtCell) (wide : 0 < width)
    (room : i + width < length buffer) where
  length-scroll_round : length (scroll_round i width buffer) ≡ length buffer
  unfolding scroll_round
  length-scroll_round = length-set _ i _ ∙ length-set buffer (i + width) _

  scroll_round-here :
      cell_at (scroll_round i width buffer) i
      ≡ moved (cell_at buffer i) (cell_at buffer (i + width))
  unfolding scroll_round
  scroll_round-here = get_or-set_self _ i _ no_cell (
      omega (
        arith,
        length-set buffer (i + width) (moved (cell_at buffer i) (cell_at buffer (i + width))),
      ))

  scroll_round-ne :
      (j : ℕ) → j ≢ i → j ≢ i + width → cell_at (scroll_round i width buffer) j ≡ cell_at buffer j
  unfolding scroll_round
  scroll_round-ne j h k =
      get_or-set_ne _ i j _ no_cell (λ e. h (sym e))
      ∙ get_or-set_ne buffer (i + width) j _ no_cell (λ e. k (sym e))

  scroll_round-look :
      (j : ℕ) → j ≢ i → look (cell_at (scroll_round i width buffer) j) ≡ look (cell_at buffer j)
  unfolding scroll_round
  scroll_round-look j h = elim (Bool-cases (j == i + width)) [
    | inl next ↦
        let e : j ≡ i + width = ground arith in
        rw e (
          ap look (
            get_or-set_ne _ i (i + width) _ no_cell (λ q. absurd (omega arith))
            ∙ get_or-set_self buffer (i + width) _ no_cell room)
          ∙ look-moved (cell_at buffer i) (cell_at buffer (i + width)))
    | inr other ↦ ap look (scroll_round-ne j h (λ e. absurd (ground arith)))
  ]

scroll_cells-suc :
    (n i width : ℕ) (buffer : List VtCell)
    → scroll_cells (suc n) i width buffer
      ≡ scroll_cells n (suc i) width (scroll_round i width buffer)
unfolding scroll_cells scroll_round
scroll_cells-suc n i width buffer = refl

scroll_cells-zero : (i width : ℕ) (buffer : List VtCell) → scroll_cells zero i width buffer ≡ buffer
unfolding scroll_cells
scroll_cells-zero i width buffer = refl

pub length-scroll_cells :
    (n i width : ℕ) (buffer : List VtCell)
    → 0 < width
    → i + n + width ≤ length buffer
    → length (scroll_cells n i width buffer) ≡ length buffer
length-scroll_cells zero i width buffer h k = ap length (scroll_cells-zero i width buffer)
length-scroll_cells (suc n) i width buffer h k =
    let len = length-scroll_round i width buffer h (omega arith) in
    ap length (scroll_cells-suc n i width buffer)
    ∙ length-scroll_cells n (suc i) width (scroll_round i width buffer) h (omega (arith, len))
    ∙ len

scroll_cells-done :
    (n i width : ℕ) (buffer : List VtCell)
    → 0 < width
    → i + n + width ≤ length buffer
    → (j : ℕ) → j < i
    → cell_at (scroll_cells n i width buffer) j ≡ cell_at buffer j
scroll_cells-done zero i width buffer h k j l =
    ap (λ b. cell_at b j) (scroll_cells-zero i width buffer)
scroll_cells-done (suc n) i width buffer h k j l =
    let len = length-scroll_round i width buffer h (omega arith) in
    ap (λ b. cell_at b j) (scroll_cells-suc n i width buffer)
    ∙ scroll_cells-done n (suc i) width (scroll_round i width buffer) h (omega (arith, len)) j
        (omega arith)
    ∙ scroll_round-ne i width buffer h (omega arith) j (λ e. absurd (omega arith))
        (λ e. absurd (omega arith))

pub scroll_cells-moved :
    (n i width : ℕ) (buffer : List VtCell)
    → 0 < width
    → i + n + width ≤ length buffer
    → (j : ℕ) → i ≤ j
    → j < i + n
    → cell_at (scroll_cells n i width buffer) j
      ≡ moved (cell_at buffer j) (cell_at buffer (j + width))
scroll_cells-moved zero i width buffer h k j l m = absurd (omega arith)
scroll_cells-moved (suc n) i width buffer h k j l m =
    let len = length-scroll_round i width buffer h (omega arith) in
    ap (λ b. cell_at b j) (scroll_cells-suc n i width buffer) ∙ elim (Bool-cases (j == i)) [
      | inl now ↦
          let e : j ≡ i = ground arith in
          scroll_cells-done n (suc i) width (scroll_round i width buffer) h (omega (arith, len)) j
            (omega arith)
          ∙ rw e (scroll_round-here i width buffer h (omega arith))
      | inr later ↦
          let ne : j ≢ i = λ e. absurd (ground arith) in
          scroll_cells-moved n (suc i) width (scroll_round i width buffer) h (omega (arith, len)) j
            (ground arith) (omega arith)
          ∙ moved-look _ _ _ (scroll_round-look i width buffer h (omega arith) j ne)
          ∙ ap (moved (cell_at buffer j)) (
              scroll_round-ne i width buffer h (omega arith) (j + width) (λ e. absurd (omega arith))
                (λ e. ne (omega arith)))
    ]
