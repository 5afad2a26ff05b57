-- ===== src/Digest/Runes.antt =====
-- canonical/canonical.go reads its strings by runes; a string is its bytes.
use veduta.Prelude.{
  ℕ, zero, suc, ◌+◌, ◌-◌, ◌*◌, ◌/◌, ◌%◌, Bool, ◌&&◌, [], ◌∷◌, ◌++◌, Bytes, leb, ltb, ◌==◌,
  if◌then◌else◌,
}

-- The rune U+FFFD, and no further byte: what reading makes of a byte that begins no rune.
abbrev replacement : ℕ × ℕ
replacement = (65533, 0)

abbrev within : ℕ → ℕ → ℕ → Bool
within low high b = leb low b && leb b high

abbrev is_tail : ℕ → Bool
is_tail b = within 128 191 b

abbrev read_two : ℕ → Bytes → ℕ × ℕ
read_two a (b ∷ s) = if is_tail b then ((a - 192) * 64 + (b - 128), 1) else replacement
read_two a _ = replacement

-- No overlong form, and no surrogate.
abbrev read_three : ℕ → Bytes → ℕ × ℕ
read_three a (b ∷ c ∷ s) =
    if within (if a == 224 then 160 else 128) (if a == 237 then 159 else 191) b && is_tail c
    then ((a - 224) * 4096 + (b - 128) * 64 + (c - 128), 2)
    else replacement
read_three a _ = replacement

-- No overlong form, and nothing above U+10FFFF.
abbrev read_four : ℕ → Bytes → ℕ × ℕ
read_four a (b ∷ c ∷ d ∷ s) =
    if within (if a == 240 then 144 else 128) (if a == 244 then 143 else 191) b
      && is_tail c
      && is_tail d
    then ((a - 240) * 262144 + (b - 128) * 4096 + (c - 128) * 64 + (d - 128), 3)
    else replacement
read_four a _ = replacement

-- One rune of UTF-8: its value, and how many bytes follow the first.
unfoldable pub read_rune : ℕ → Bytes → ℕ × ℕ
read_rune a s =
    if ltb a 128
    then (a, 0)
    else if within 194 223 a
    then read_two a s
    else if within 224 239 a
    then read_three a s
    else if within 240 244 a
    then read_four a s
    else replacement

-- The runes of a string, after some bytes that belong to the rune before.
unfoldable pub runes_after : ℕ → Bytes → Bytes
unfolding read_rune
runes_after skip [] = []
runes_after (suc n) (a ∷ s) = runes_after n s
runes_after zero (a ∷ s) = (read_rune a s).0 ∷ runes_after (read_rune a s).1 s

-- The runes of a string, as `range` gives them.
unfoldable pub runes : Bytes → Bytes
unfolding runes_after
runes s = runes_after 0 s

-- The UTF-8 of a rune, as `WriteRune` writes it.
unfoldable pub encode_rune : ℕ → Bytes
encode_rune r =
    if ltb r 128
    then r ∷ []
    else if ltb r 2048
    then (192 + r / 64) ∷ (128 + r % 64) ∷ []
    else if ltb r 65536
    then (224 + r / 4096) ∷ (128 + r / 64 % 64) ∷ (128 + r % 64) ∷ []
    else (240 + r / 262144) ∷ (128 + r / 4096 % 64) ∷ (128 + r / 64 % 64) ∷ (128 + r % 64) ∷ []

unfoldable pub encode : Bytes → Bytes
unfolding encode_rune
encode [] = []
encode (r ∷ rs) = encode_rune r ++ encode rs
