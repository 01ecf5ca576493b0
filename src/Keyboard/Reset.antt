-- ===== src/Keyboard/Reset.antt =====
-- kernel/dev/keyboard.cpp, `key_up`: the three keys that reset the system.
use xivix.Base.{
  ℕ, ◌*◌, ◌/◌, ◌%◌, ◌≡◌, ◌↔◌, ◌⊎◌, true, false, arith, bit_and, bit_xor, has, ◌==◌, sym, ◌∙◌, ◌&&◌,
}
use xivix.Base.Bits.{digit, bit_and_halves, bit_and_mask, bit_and-zero, bit_xor-zero}
use xivix.Keyboard.{Keyboard, push_key, key_up, mod_mask}

bit_and_control : (m : ℕ) → bit_and m 0xc ≡ 4 * (m / 2 / 2 % 4)
bit_and_control m =
    omega (arith, bit_and_halves m 12, bit_and_halves (m / 2) 6, bit_and_mask 2 (m / 2 / 2))

bit_and_alt : (m : ℕ) → bit_and m 0x30 ≡ 16 * (m / 2 / 2 / 2 / 2 % 4)
bit_and_alt m = omega (
  arith,
  bit_and_halves m 48,
  bit_and_halves (m / 2) 24,
  bit_and_halves (m / 2 / 2) 12,
  bit_and_halves (m / 2 / 2 / 2) 6,
  bit_and_mask 2 (m / 2 / 2 / 2 / 2),
)

-- One of the two control keys, or of the two alt keys, is held.
abbrev pub HoldsControl : ℕ → Type 0
HoldsControl m = (digit 2 m ≡ 1) ⊎ (digit 3 m ≡ 1)

abbrev pub HoldsAlt : ℕ → Type 0
HoldsAlt m = (digit 4 m ≡ 1) ⊎ (digit 5 m ≡ 1)

has_control : (m : ℕ) → (has m 0xc ≡ true) ↔ HoldsControl m
has_control m = (λ h. ground (arith, bit_and_control m), λ h. ground (arith, bit_and_control m))

has_alt : (m : ℕ) → (has m 0x30 ≡ true) ↔ HoldsAlt m
has_alt m = (λ h. ground (arith, bit_and_alt m), λ h. ground (arith, bit_and_alt m))

mods_at_delete :
    (kb : Keyboard)
    → kb.keycode ≡ 0x30071
    → bit_xor kb.mods (bit_and kb.mods (mod_mask (bit_and kb.keycode 0x2ffff))) ≡ kb.mods
unfolding mod_mask
mods_at_delete kb e = rw e (rw (bit_and-zero, bit_xor-zero))

-- `mods` after the release.
abbrev freed : Keyboard → ℕ
freed kb = bit_xor kb.mods (bit_and kb.mods (mod_mask (bit_and kb.keycode 0x2ffff)))

halted-key_up :
    (kb : Keyboard)
    → kb.halted ≡ false
    → (key_up kb).halted ≡ ((has (freed kb) 0x30 && has (freed kb) 0xc) && kb.keycode == 0x30071)
unfolding key_up push_key
halted-key_up kb on = ground arith

-- On a running machine the release of a key resets the system exactly when the key is delete and both
-- a control key and an alt key are held.
pub key_up-halts :
    (kb : Keyboard)
    → kb.halted ≡ false
    → ((key_up kb).halted ≡ true)
      ↔ ((kb.keycode ≡ 0x30071) × HoldsControl kb.mods × HoldsAlt kb.mods)
key_up-halts kb on = (
  λ h.
      let all = sym (halted-key_up kb on) ∙ h in
      let key : kb.keycode ≡ 0x30071 = ground arith in
      let before : (has (freed kb) 0x30 && has (freed kb) 0xc) ≡ true = ground arith in
      let tests = rw (mods_at_delete kb key) at before in
      (key, (has_control kb.mods).0 (ground arith), (has_alt kb.mods).0 (ground arith)),
  λ h. rw (
    halted-key_up kb on,
    mods_at_delete kb h.0,
    (has_control kb.mods).1 h.1,
    (has_alt kb.mods).1 h.2,
    h.0,
  ),
)
