-- ===== src/Ps2/Mouse.antt =====
-- kernel/dev/ps2.cpp, `Mouse`: the bytes of a packet and the position.
use xivix.Base.{
  ℕ, ◌+◌, ◌-◌, ◌*◌, ◌/◌, ◌%◌, ◌^◌, ◌≤◌, ◌≡◌, bit_and, bit_or, ◌&&◌, ◌||◌, List, [], ◌∷◌, ltb, ◌==◌,
  if◌then◌else◌, has, not, arith,
}
use xivix.Base.Word.{u8, u32}

pub record Mouse : Type 0 where
  pub mdata : ℕ
  pub x : ℕ
  pub y : ℕ
  pub xlim : ℕ
  pub ylim : ℕ
  pub smode : ℕ
  pub status : ℕ

-- `Mouse::Mouse`; the other fields keep what the memory held.
unfoldable pub new_mouse : Mouse → Mouse
new_mouse m = record m { smode = 0; x = 0; y = 0; xlim = 1024; ylim = 1024 }

-- `-d` in a byte.
abbrev pub negate : ℕ → ℕ
negate d = u8 (0x100 - d)

-- One coordinate: away from 0 up to its limit, or towards it.
unfoldable pub move_up : ℕ → ℕ → ℕ → ℕ
move_up d lim v = let moved = u32 (v + d) in if ltb lim moved then lim else moved

unfoldable pub move_down : ℕ → ℕ → ℕ
move_down d v = if ltb v d then 0 else v - d

-- The rest of `port_data` with the whole packet.
unfoldable pub packet : ℕ → Mouse → Mouse
packet mdata m =
    let stat = mdata / 2 ^ 24 % 0x100 in
    let dx = mdata / 2 ^ 16 % 0x100 in
    let dy = mdata / 2 ^ 8 % 0x100 in
    record m {
      x = if has stat 0x10 then move_down (negate dx) m.x else move_up dx m.xlim m.x;
      y = if has stat 0x20 then move_up (negate dy) m.ylim m.y else move_down dy m.y;
      status = bit_or (bit_and stat 0x7) 0x80;
      mdata = 0;
    }

-- `Mouse::port_data`. A packet has 3 bytes in mode 1 and 4 in the others; it is whole when the bit that the
-- first byte always has comes to the top.
unfoldable pub mouse_data : ℕ → Mouse → Mouse
mouse_data d m =
    let mdata = bit_or (u32 (m.mdata * 0x100)) d in
    let m' : Mouse = record m { mdata = mdata } in
    let shifted = u32 (mdata * 0x100) in
    if m.smode == 0
    then record m { mdata = 0 }
    else if m.smode == 1
    then if has mdata 0x8_0000 then packet shifted (record m' { mdata = shifted }) else m'
    else if (m.smode == 2 || m.smode == 3) && not (has mdata 0x800_0000)
    then m'
    else packet mdata m'

unfoldable pub mouse_bytes : List ℕ → Mouse → Mouse
mouse_bytes [] m = m
mouse_bytes (d ∷ ds) m = mouse_bytes ds (mouse_data d m)

move_up-le : (d lim v : ℕ) → move_up d lim v ≤ lim
unfolding move_up
move_up-le d lim v = ground arith

move_down-le : (d v : ℕ) → move_down d v ≤ v
unfolding move_down
move_down-le d v = ground arith

-- The mouse is inside the limits of `n`, which are its own.
abbrev pub Within : Mouse → Mouse → Type 0
Within n m = (m.x ≤ n.xlim) × (m.y ≤ n.ylim) × (m.xlim ≡ n.xlim) × (m.ylim ≡ n.ylim)

packet-Within : (mdata : ℕ) (n m : Mouse) → Within n m → Within n (packet mdata m)
unfolding packet
packet-Within mdata n m h =
    let stat : ℕ = mdata / 2 ^ 24 % 0x100 in
    let dx : ℕ = mdata / 2 ^ 16 % 0x100 in
    let dy : ℕ = mdata / 2 ^ 8 % 0x100 in
    ground (
      arith,
      h,
      move_down-le (negate dx) m.x,
      move_up-le dx m.xlim m.x,
      move_up-le (negate dy) m.ylim m.y,
      move_down-le dy m.y,
    )

mouse_data-Within : (d : ℕ) (n m : Mouse) → Within n m → Within n (mouse_data d m)
unfolding mouse_data
mouse_data-Within d n m h =
    let mdata : ℕ = bit_or (u32 (m.mdata * 0x100)) d in
    let m' : Mouse = record m { mdata = mdata } in
    let shifted : ℕ = u32 (mdata * 0x100) in
    ground (
      arith,
      h,
      packet-Within mdata n m' h,
      packet-Within shifted n (record m' { mdata = shifted }) h,
    )

-- Whatever bytes come from the port, in every mode: a position inside the limits stays inside, and the limits
-- stay.
pub mouse_bytes-Within :
    (bytes : List ℕ) (n m : Mouse) → Within n m → Within n (mouse_bytes bytes m)
unfolding mouse_bytes
mouse_bytes-Within [] n m h = h
mouse_bytes-Within (d ∷ ds) n m h =
    mouse_bytes-Within ds n (mouse_data d m) (mouse_data-Within d n m h)
