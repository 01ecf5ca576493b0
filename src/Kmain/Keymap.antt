-- ===== src/Kmain/Keymap.antt =====
-- kernel/kmain.cpp: the key maps and `mapchar`.
use xivix.Base.{ℕ, List, [], ◌∷◌, if◌then◌else◌, has, ltb, get_or, ◌%◌}

-- The characters of the keys. The rows behind 0x7f are zeros, as `get_or` reads them.
abbrev pub skeymap : List ℕ
skeymap =
    0 ∷ 0 ∷ 0 ∷ 0 ∷ 0 ∷ 0 ∷ 0 ∷ 0 ∷ 0 ∷ 0 ∷ 0 ∷ 0 ∷ 0 ∷ 0 ∷ 96 ∷ 0 ∷ 0 ∷ 0 ∷ 0 ∷ 0 ∷ 0 ∷ 113 ∷ 49
    ∷ 0 ∷ 0 ∷ 0 ∷ 122 ∷ 115 ∷ 97 ∷ 119 ∷ 50 ∷ 0 ∷ 0 ∷ 99 ∷ 120 ∷ 100 ∷ 101 ∷ 52 ∷ 51 ∷ 0 ∷ 0 ∷ 32
    ∷ 118 ∷ 102 ∷ 116 ∷ 114 ∷ 53 ∷ 0 ∷ 0 ∷ 110 ∷ 98 ∷ 104 ∷ 103 ∷ 121 ∷ 54 ∷ 0 ∷ 0 ∷ 0 ∷ 109 ∷ 106
    ∷ 117 ∷ 55 ∷ 56 ∷ 0 ∷ 0 ∷ 44 ∷ 107 ∷ 105 ∷ 111 ∷ 48 ∷ 57 ∷ 0 ∷ 0 ∷ 46 ∷ 47 ∷ 108 ∷ 59 ∷ 112 ∷ 45
    ∷ 0 ∷ 0 ∷ 0 ∷ 39 ∷ 0 ∷ 91 ∷ 61 ∷ 0 ∷ 0 ∷ 0 ∷ 0 ∷ 10 ∷ 93 ∷ 0 ∷ 92 ∷ 0 ∷ 0 ∷ 0 ∷ 0 ∷ 0 ∷ 0 ∷ 0
    ∷ 0 ∷ 8 ∷ 0 ∷ 0 ∷ 49 ∷ 0 ∷ 52 ∷ 55 ∷ 0 ∷ 0 ∷ 0 ∷ 48 ∷ 46 ∷ 50 ∷ 53 ∷ 54 ∷ 56 ∷ 27 ∷ 0 ∷ 0 ∷ 43
    ∷ 51 ∷ 45 ∷ 42 ∷ 57 ∷ 0 ∷ 0 ∷ []

-- The characters with a shift key.
abbrev pub sskeymap : List ℕ
sskeymap =
    0 ∷ 0 ∷ 0 ∷ 0 ∷ 0 ∷ 0 ∷ 0 ∷ 0 ∷ 0 ∷ 0 ∷ 0 ∷ 0 ∷ 0 ∷ 0 ∷ 126 ∷ 0 ∷ 0 ∷ 0 ∷ 0 ∷ 0 ∷ 0 ∷ 81 ∷ 33
    ∷ 0 ∷ 0 ∷ 0 ∷ 90 ∷ 83 ∷ 65 ∷ 87 ∷ 64 ∷ 0 ∷ 0 ∷ 67 ∷ 88 ∷ 68 ∷ 69 ∷ 36 ∷ 35 ∷ 0 ∷ 0 ∷ 32 ∷ 86
    ∷ 70 ∷ 84 ∷ 82 ∷ 37 ∷ 0 ∷ 0 ∷ 78 ∷ 66 ∷ 72 ∷ 71 ∷ 89 ∷ 94 ∷ 0 ∷ 0 ∷ 0 ∷ 77 ∷ 74 ∷ 85 ∷ 38 ∷ 42
    ∷ 0 ∷ 0 ∷ 60 ∷ 75 ∷ 73 ∷ 79 ∷ 41 ∷ 40 ∷ 0 ∷ 0 ∷ 62 ∷ 63 ∷ 76 ∷ 58 ∷ 80 ∷ 95 ∷ 0 ∷ 0 ∷ 0 ∷ 34 ∷ 0
    ∷ 123 ∷ 43 ∷ 0 ∷ 0 ∷ 0 ∷ 0 ∷ 10 ∷ 125 ∷ 0 ∷ 124 ∷ 0 ∷ 0 ∷ 0 ∷ 0 ∷ 0 ∷ 0 ∷ 0 ∷ 0 ∷ 8 ∷ 0 ∷ 0 ∷ 49
    ∷ 0 ∷ 52 ∷ 55 ∷ 0 ∷ 0 ∷ 0 ∷ 48 ∷ 46 ∷ 50 ∷ 53 ∷ 54 ∷ 56 ∷ 27 ∷ 0 ∷ 0 ∷ 43 ∷ 51 ∷ 45 ∷ 42 ∷ 57
    ∷ 0 ∷ 0 ∷ []

-- `mapchar`: 0 for a key without a character.
unfoldable pub mapchar : ℕ → ℕ → ℕ
mapchar k mods =
    if has k 0x1_0000
    then 0
    else if has k 0x6_0000
    then 0
    else if ltb (k % 0x1_0000) 0x100
    then if has mods 3 then get_or sskeymap (k % 0x100) 0 else get_or skeymap (k % 0x100) 0
    else 0
