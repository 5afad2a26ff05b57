-- ===== src/Routepath/Hex.antt =====
-- Facts about the percent-escapes of routepath/canonicalise.go.
use veduta.Prelude.{
  ℕ, ◌+◌, ◌*◌, ◌/◌, ◌%◌, ◌<◌, ◌≡◌, refl, ◌≢◌, Bool, true, ◌&&◌, ◌||◌, arith, All, ok, ◌==◌,
  if◌then◌else◌, ==_iff, holds_below, holds_below_sound,
}
use veduta.Routepath.Escape.{
  slash, percent, is_hex, hex_val, hex_byte, hex_digit, is_unreserved, write_escape, check_escape,
}

-- The digits of an escape are small, and the escape of a byte reads back as that byte.
hex_val-lt : (b : ℕ) → is_hex b ≡ true → hex_val b < 16
unfolding is_hex hex_val
hex_val-lt b h = ground arith

abbrev byte_of_digits : ℕ → ℕ → Bool
unfolding hex_byte
byte_of_digits h l = Prim.Native.Nat.bit_or (h * 16 % 256) l == h * 16 + l

digits_table : holds_below 16 (λ h. holds_below 16 (byte_of_digits h)) ≡ true
unfolding holds_below hex_byte
digits_table = refl

pub hex_byte-lt : (hi lo : ℕ) → is_hex hi ≡ true → is_hex lo ≡ true → hex_byte hi lo < 256
unfolding hex_byte
hex_byte-lt hi lo h l =
    let row =
      holds_below_sound 16 (λ a. holds_below 16 (byte_of_digits a)) (hex_val hi) digits_table
        (hex_val-lt hi h) in
    let cell =
      holds_below_sound 16 (byte_of_digits (hex_val hi)) (hex_val lo) row (hex_val-lt lo l) in
    omega (arith, (==_iff _ _).0 cell, hex_val-lt hi h, hex_val-lt lo l)

abbrev reads_back : ℕ → Bool
reads_back b =
    if b == slash || b == 92
    then true
    else is_hex (hex_digit (b / 16))
      && is_hex (hex_digit (b % 16))
      && hex_byte (hex_digit (b / 16)) (hex_digit (b % 16)) == b

escape_table : holds_below 256 reads_back ≡ true
unfolding holds_below hex_byte is_hex hex_digit
escape_table = refl

pub record Escaped (hi lo b : ℕ) : Type 0 where
  pub hex_hi : is_hex hi ≡ true
  pub hex_lo : is_hex lo ≡ true
  pub value : hex_byte hi lo ≡ b
  pub bound : b < 256
  pub not_slash : b ≢ slash
  pub not_backslash : b ≢ 92

pub check_escape-Escaped : (hi lo : ℕ) → check_escape hi lo ≡ ok tt → Escaped hi lo (hex_byte hi lo)
unfolding check_escape
check_escape-Escaped hi lo h = ground (arith, hex_byte-lt hi lo)

pub Escaped-check_escape : {hi lo b : ℕ} → Escaped hi lo b → check_escape hi lo ≡ ok tt
unfolding check_escape
Escaped-check_escape e = ground arith

pub Escaped-hex_digit :
    (b : ℕ) → b < 256 → b ≢ slash → b ≢ 92 → Escaped (hex_digit (b / 16)) (hex_digit (b % 16)) b
Escaped-hex_digit b h s k = ground (arith, holds_below_sound 256 reads_back b escape_table)

pub unreserved-ne-percent : (b : ℕ) → is_unreserved b ≡ true → b ≢ percent
unfolding is_unreserved
unreserved-ne-percent b h = ground arith

-- A byte that every check of `Canonicalise` lets through.
pub record IsClean (c : ℕ) : Type 0 where
  pub visible : 0x20 < c
  pub not_delete : c ≢ 0x7f
  pub not_backslash : c ≢ 92
  pub not_query : c ≢ b'?'
  pub not_fragment : c ≢ b'#'

-- A clean byte of a segment.
abbrev pub IsSegmentByte : ℕ → Type 0
IsSegmentByte c = IsClean c × (c ≢ slash)

pub unreserved-IsSegmentByte : (b : ℕ) → is_unreserved b ≡ true → IsSegmentByte b
unfolding is_unreserved
unreserved-IsSegmentByte b h = ground arith

pub hex_digit-IsSegmentByte : (n : ℕ) → n < 16 → IsSegmentByte (hex_digit n)
unfolding hex_digit
hex_digit-IsSegmentByte n h = ground arith

pub write_escape-IsSegmentByte : (b : ℕ) → b < 256 → All IsSegmentByte (write_escape b)
unfolding write_escape
write_escape-IsSegmentByte b h = (
  ground arith,
  (
    hex_digit-IsSegmentByte (b / 16) (omega arith),
    (hex_digit-IsSegmentByte (b % 16) (omega arith), tt),
  ),
)
