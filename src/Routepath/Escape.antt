-- ===== src/Routepath/Escape.antt =====
-- routepath/canonicalise.go: bytes, percent-escapes, and the scan that checks them.
use Prim.Native.Nat.{bit_or}
use veduta.Prelude.{
  ℕ, ◌+◌, ◌-◌, ◌*◌, ◌/◌, ◌%◌, Bool, true, not, ◌&&◌, ◌||◌, [], ◌∷◌, Bytes, Result, ok, err, ◌>>◌,
  leb, ltb, ◌==◌, if◌then◌else◌,
}

-- The error values of the package; `panic` stands for an index out of range.
pub data RouteError : Type 0 where
  not_absolute backslash control_or_space malformed_escape : RouteError
  encoded_separator dot_segment empty_segment query_or_fragment : RouteError
  panic : RouteError

abbrev pub slash : ℕ
slash = 47

abbrev pub percent : ℕ
percent = 37

unfoldable pub is_hex : ℕ → Bool
is_hex b = leb b'0' b && leb b b'9' || leb b'a' b && leb b b'f' || leb b'A' b && leb b b'F'

-- `byte` arithmetic wraps, so the modulus is added before a subtraction.
unfoldable pub hex_val : ℕ → ℕ
hex_val b =
    if leb b'0' b && leb b b'9'
    then b - b'0'
    else if leb b'a' b && leb b b'f'
    then (b - b'a' + 10)
    else (b + 256 - b'A' + 10) % 256

unfoldable pub hex_byte : ℕ → ℕ → ℕ
unfolding hex_val
hex_byte hi lo = bit_or (hex_val hi * 16 % 256) (hex_val lo)

unfoldable pub is_unreserved : ℕ → Bool
is_unreserved b =
    if leb b'A' b && leb b b'Z' || leb b'a' b && leb b b'z' || leb b'0' b && leb b b'9'
    then true
    else b == b'-' || b == b'.' || b == b'_' || b == b'~'

-- One digit of the verb `%x`.
unfoldable pub hex_digit : ℕ → ℕ
hex_digit n = if ltb n 10 then b'0' + n else b'a' + (n - 10)

-- `fmt.Fprintf(&normalised, "%%%02x", b)`.
unfoldable pub write_escape : ℕ → Bytes
unfolding hex_digit
write_escape b = percent ∷ hex_digit (b / 16) ∷ hex_digit (b % 16) ∷ []

-- The verdict on one escape: two hex digits that do not decode to a separator.
unfoldable pub check_escape : ℕ → ℕ → Result RouteError (Unit {0})
unfolding is_hex hex_byte
check_escape hi lo =
    if not (is_hex hi) || not (is_hex lo)
    then err malformed_escape
    else if hex_byte hi lo == slash || hex_byte hi lo == 92
    then err encoded_separator
    else ok tt

-- `checkEscapesWellFormed`: at least two bytes follow a `%`, or it is malformed.
unfoldable pub check_escapes_well_formed : Bytes → Result RouteError (Unit {0})
unfolding check_escape
check_escapes_well_formed [] = ok tt
check_escapes_well_formed (c ∷ hi ∷ lo ∷ s) =
    let after = check_escapes_well_formed s in
    let next = check_escapes_well_formed (hi ∷ lo ∷ s) in
    if c == percent then check_escape hi lo >> after else next
check_escapes_well_formed (c ∷ s) =
    if c == percent then err malformed_escape else check_escapes_well_formed s
