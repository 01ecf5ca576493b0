-- ===== src/Keyboard/Modifiers.antt =====
-- kernel/dev/keyboard.cpp, `key_down` and `key_up`: the modifier keys that are held.
use xivix.Base.{
  get_or, ℕ, zero, suc, ◌+◌, ◌*◌, ◌<◌, ◌≡◌, refl, ap, ◌∙◌, [], ◌∷◌, Bool, true, false, arith, ◌==◌,
  if◌then◌else◌, bit_and, bit_xor, min, max,
}
use Prim.Native.Nat.{differ}
use native.Mathlib.Nat.{min-zero}
use xivix.Base.Bits.{
  bit_and_split, bit_and_mask, digit, digit-lt, digit-bit_and, digit-bit_or, digit-bit_xor,
}
use xivix.Keyboard.{Keyboard, push_key, key_down, key_up, mod_mask}
use xivix.Keyboard.Decode.{Event, down, up, ext_down, ext_up, pair_down, pair_up, code, IsEvent}

-- The key whose state place `j` of `mods` holds.
abbrev pub modifier_key : ℕ → ℕ
modifier_key j =
    get_or
      (0x12 ∷ 0x59 ∷ 0x14 ∷ 0x20014 ∷ 0x11 ∷ 0x20011 ∷ 0x2001f ∷ 0x20027 ∷ 0x2002f ∷ 0x20012 ∷ []) j
      0

-- The key of an event, whether it goes down or up.
abbrev pub key_of : Event → ℕ
key_of (down c) = c
key_of (up c) = c
key_of (ext_down c) = 0x20000 + c
key_of (ext_up c) = 0x20000 + c
key_of (pair_down lo hi) = hi * 0x100 + lo
key_of (pair_up lo hi) = hi * 0x100 + lo

mask_key :
    (flags low : ℕ)
    → low < 0x10000
    → bit_and (flags * 0x10000 + low) 0x2ffff ≡ bit_and flags 2 * 0x10000 + low
mask_key flags low h =
    omega (arith, bit_and_split 16 flags low 2 0xffff h (omega arith), bit_and_mask 16 low)

pub bit_and-code : (e : Event) → IsEvent e → bit_and (code e) 0x2ffff ≡ key_of e
bit_and-code (down c) v =
    let sum : 0 + c ≡ c = omega arith in rw sum at (mask_key 0 c (omega arith))
bit_and-code (up c) v = mask_key 1 c (omega arith) ∙ omega arith
bit_and-code (ext_down c) v = mask_key 2 c (omega arith)
bit_and-code (ext_up c) v = mask_key 3 c (omega arith)
bit_and-code (pair_down lo hi) v =
    let sum : 0x40000 + hi * 0x100 + lo ≡ 0x40000 + (hi * 0x100 + lo) = omega arith in
    rw sum (mask_key 4 (hi * 0x100 + lo) (omega arith) ∙ omega arith)
bit_and-code (pair_up lo hi) v =
    let sum : 0x50000 + hi * 0x100 + lo ≡ 0x50000 + (hi * 0x100 + lo) = omega arith in
    rw sum (mask_key 5 (hi * 0x100 + lo) (omega arith) ∙ omega arith)

-- The ten places, and nothing else of a mask.
digit-mod_mask :
    (j key : ℕ) → j < 10 → digit j (mod_mask key) ≡ (if key == modifier_key j then 1 else 0)
unfolding mod_mask
digit-mod_mask zero key h = ground arith
digit-mod_mask (suc zero) key h = ground arith
digit-mod_mask (suc (suc zero)) key h = ground arith
digit-mod_mask (suc (suc (suc zero))) key h = ground arith
digit-mod_mask (suc (suc (suc (suc zero)))) key h = ground arith
digit-mod_mask (suc (suc (suc (suc (suc zero))))) key h = ground arith
digit-mod_mask (suc (suc (suc (suc (suc (suc zero)))))) key h = ground arith
digit-mod_mask (suc (suc (suc (suc (suc (suc (suc zero))))))) key h = ground arith
digit-mod_mask (suc (suc (suc (suc (suc (suc (suc (suc zero)))))))) key h = ground arith
digit-mod_mask (suc (suc (suc (suc (suc (suc (suc (suc (suc zero))))))))) key h = ground arith
digit-mod_mask (suc (suc (suc (suc (suc (suc (suc (suc (suc (suc j)))))))))) key h =
    absurd (omega arith)

set_place : (b : Bool) (d : ℕ) → d < 2 → max d (if b then 1 else 0) ≡ (if b then 1 else d)
set_place true d h = omega arith
set_place false d h = omega arith

differ-zero : (d : ℕ) → differ d 0 ≡ d
differ-zero zero = refl
differ-zero (suc d) = refl

clear_place :
    (b : Bool) (d : ℕ) → d < 2 → differ d (min d (if b then 1 else 0)) ≡ (if b then 0 else d)
clear_place true zero h = refl
clear_place true (suc zero) h = refl
clear_place true (suc (suc d)) h = absurd (omega arith)
clear_place false d h = ap (λ (t : ℕ). differ d t) (min-zero d) ∙ differ-zero d

-- Going down sets the place of the key and keeps the others.
pub key_down-mods :
    (j : ℕ) (kb : Keyboard)
    → j < 10
    → digit j (key_down kb).mods
      ≡ (if bit_and kb.keycode 0x2ffff == modifier_key j then 1 else digit j kb.mods)
unfolding key_down push_key
key_down-mods j kb h =
    let key = bit_and kb.keycode 0x2ffff in
    rw (digit-bit_or, digit-mod_mask j key h)
      (set_place (key == modifier_key j) (digit j kb.mods) (digit-lt j kb.mods))

mods-key_up :
    (kb : Keyboard)
    → (key_up kb).mods ≡ bit_xor kb.mods (bit_and kb.mods (mod_mask (bit_and kb.keycode 0x2ffff)))
unfolding key_up push_key
mods-key_up kb = ground arith

-- Going up clears the place of the key and keeps the others.
pub key_up-mods :
    (j : ℕ) (kb : Keyboard)
    → j < 10
    → digit j (key_up kb).mods
      ≡ (if bit_and kb.keycode 0x2ffff == modifier_key j then 0 else digit j kb.mods)
key_up-mods j kb h =
    let key = bit_and kb.keycode 0x2ffff in
    rw (mods-key_up kb, digit-bit_xor, digit-bit_and, digit-mod_mask j key h)
      (clear_place (key == modifier_key j) (digit j kb.mods) (digit-lt j kb.mods))
