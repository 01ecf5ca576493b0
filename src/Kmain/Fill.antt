-- ===== src/Kmain/Fill.antt =====
-- `memset` fills its range and nothing else.
use xivix.Base.{
  ℕ, zero, suc, ◌+◌, ◌-◌, ◌*◌, ◌/◌, ◌%◌, ◌^◌, ◌≤◌, ◌<◌, ◌≡◌, arith, if◌then◌else◌, ◌==◌, ltb, leb,
  ◌&&◌, Bool-cases, inl, inr, ltb→le,
}
use xivix.Net.Packet.{Bytes}
use xivix.Kmain.Memset.{fill_bytes, store_word, fill_words, memset}

-- The byte at `a` of a memory whose `n` bytes from `p` on are `v`.
abbrev pub filled : ℕ → ℕ → ℕ → Bytes → ℕ → ℕ
filled p n v m a = if leb p a && ltb a (p + n) then v else m a

fill_bytes_lem : (n p v : ℕ) (m : Bytes) (a : ℕ) → fill_bytes n p v m a ≡ filled p n v m a
unfolding fill_bytes
fill_bytes_lem zero p v m a = ground arith
fill_bytes_lem (suc n) p v m a =
    ground (arith, fill_bytes_lem n (p + 1) v (λ x. if x == p then v else m x) a)

store_word_lem :
    (p b : ℕ) (m : Bytes) (a : ℕ) → b < 0x100 → store_word p (b * 0x101_0101) m a ≡ filled p 4 b m a
unfolding store_word
store_word_lem p b m a h =
    let b0 : b * 0x101_0101 % 2 ^ 8 ≡ b = omega (arith, h) in
    let b1 : b * 0x101_0101 / 2 ^ 8 % 2 ^ 8 ≡ b = omega (arith, h) in
    let b2 : b * 0x101_0101 / 2 ^ 16 % 2 ^ 8 ≡ b = omega (arith, h) in
    let b3 : b * 0x101_0101 / 2 ^ 24 % 2 ^ 8 ≡ b = omega (arith, h) in
    rw (b0, b1, b2, b3) (ground arith)

fill_words_lem :
    (n p b : ℕ) (m : Bytes) (a : ℕ)
    → b < 0x100
    → fill_words n p (b * 0x101_0101) m a ≡ filled p (4 * n) b m a
unfolding fill_words
fill_words_lem zero p b m a h = ground arith
fill_words_lem (suc n) p b m a h = ground (
  arith,
  fill_words_lem n (p + 4) b (store_word p (b * 0x101_0101) m) a h,
  store_word_lem p b m a h,
)

-- Bytes, words and bytes, one range behind the other.
fill_parts :
    (dst first words len b : ℕ) (m : Bytes) (a : ℕ)
    → b < 0x100
    → first + 4 * words ≤ len
    → let rest = dst + first + 4 * words in
      let m1 = fill_bytes first dst b m in
      let m2 = fill_words words (dst + first) (b * 0x101_0101) m1 in
      fill_bytes (dst + len - rest) rest b m2 a ≡ filled dst len b m a
fill_parts dst first words len b m a h fits =
    let rest = dst + first + 4 * words in
    let m1 = fill_bytes first dst b m in
    let m2 = fill_words words (dst + first) (b * 0x101_0101) m1 in
    ground (
      arith,
      fill_bytes_lem (dst + len - rest) rest b m2 a,
      fill_words_lem words (dst + first) b m1 a h,
      fill_bytes_lem first dst b m a,
    )

-- `memset` is the plain loop: after it every byte of the `len` bytes at `dst`, whose end is below 4 GB, is the low byte of
-- the value, and every other byte is as it was.
pub memset-filled :
    (dst ivalue len : ℕ) (m : Bytes) (a : ℕ)
    → dst + len < 0x1_0000_0000
    → memset dst ivalue len m a ≡ filled dst len (ivalue % 0x100) m a
unfolding memset
memset-filled dst ivalue len m a room =
    let b = ivalue % 0x100 in
    let value : b * 0x101_0101 % 0x1_0000_0000 ≡ b * 0x101_0101 = omega arith in
    let low : b * 0x101_0101 % 0x100 ≡ b = omega arith in
    let end : (dst + len) % 0x1_0000_0000 ≡ dst + len = omega (arith, room) in
    elim (Bool-cases (ltb len 16)) [
      | inl short ↦
          let count : dst + len - dst ≡ len = omega arith in
          rw (short, value, low, end, count) (fill_bytes_lem len dst b m a)
      | inr long ↦
          let n = dst % 16 % 4 in
          let first = if n == 0 then 0 else 4 - n in
          let small : first ≤ 3 = ground arith in
          let start : (dst + first) % 0x1_0000_0000 ≡ dst + first =
            omega (arith, room, small, ltb→le len 16 long) in
          let words = ((dst + len) / 4 * 4 - (dst + first)) / 4 in
          let fits : first + 4 * words ≤ len = omega (arith, small, ltb→le len 16 long) in
          rw (long, value, low, end, start)
            (fill_parts dst first words len b m a (omega arith) fits)
    ]
