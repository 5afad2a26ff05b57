-- ===== src/Digest/Text.antt =====
-- canonical/canonical.go: `serialise`, its escapes and its order of keys, and `Digest`.
use veduta.Prelude.{
  ℕ, zero, suc, ◌+◌, ◌-◌, ◌/◌, ◌%◌, List, [], ◌∷◌, ◌++◌, map, Bytes, codes, Result, ok, err, ◌>>=◌,
  ltb, ◌==◌, if◌then◌else◌, lex_less, String,
}
use veduta.Digest.Value.{
  ℤ, pos, negsuc, Value, null, bool, int_, number, float, text, other, arr, obj, Items, nil, cons,
  Fields, end, field, DigestError, panicked,
}
use veduta.Digest.Normal.{normalise}
use veduta.Digest.Runes.{runes}

-- A hexadecimal digit, in lower case.
abbrev pub hex_digit : ℕ → ℕ
hex_digit n = if ltb n 10 then b'0' + n else b'a' + (n - 10)

-- One rune of `escape`.
unfoldable pub escape_rune : ℕ → Bytes
escape_rune r =
    if r == 34
    then 92 ∷ 34 ∷ []
    else if r == 92
    then 92 ∷ 92 ∷ []
    else if r == 8
    then 92 ∷ b'b' ∷ []
    else if r == 12
    then 92 ∷ b'f' ∷ []
    else if r == 10
    then 92 ∷ b'n' ∷ []
    else if r == 13
    then 92 ∷ b'r' ∷ []
    else if r == 9
    then 92 ∷ b't' ∷ []
    else if ltb r 32
    then 92 ∷ b'u' ∷ b'0' ∷ b'0' ∷ hex_digit (r / 16) ∷ hex_digit (r % 16) ∷ []
    else r ∷ []

unfoldable pub escape_runes : Bytes → Bytes
unfolding escape_rune
escape_runes [] = []
escape_runes (r ∷ rs) = escape_rune r ++ escape_runes rs

-- `escape`, by the runes that it writes.
unfoldable pub escape : Bytes → Bytes
unfolding escape_runes
escape s = 34 ∷ (escape_runes (runes s) ++ (34 ∷ []))

-- `utf16.Encode`.
unfoldable pub utf16 : Bytes → Bytes
utf16 [] = []
utf16 (r ∷ rs) =
    let rest = utf16 rs in
    if ltb r 65536
    then r ∷ rest
    else (55296 + (r - 65536) / 1024) ∷ (56320 + (r - 65536) % 1024) ∷ rest

-- A key with what belongs to it.
abbrev pub Row : Type 0 → Type 0
Row A = Bytes × A

-- `sortKeys`, with the text of each value beside its key.
unfoldable pub sort_row : {A : Type 0} → Row A → List (Row A) → List (Row A)
unfolding utf16
sort_row p [] = p ∷ []
sort_row p (q ∷ qs) =
    if lex_less (utf16 (runes q.0)) (utf16 (runes p.0)) then q ∷ sort_row p qs else p ∷ q ∷ qs

unfoldable pub sort_rows : {A : Type 0} → List (Row A) → List (Row A)
unfolding sort_row
sort_rows [] = []
sort_rows (p ∷ ps) = sort_row p (sort_rows ps)

-- `strconv.FormatInt` to the base 10; the fuel is one more than the number.
unfoldable pub digits_from : ℕ → ℕ → Bytes
digits_from zero n = []
digits_from (suc fuel) n =
    let rest = digits_from fuel (n / 10) in
    (if n / 10 == 0 then [] else rest) ++ ((b'0' + n % 10) ∷ [])

unfoldable pub digits : ℕ → Bytes
unfolding digits_from
digits n = digits_from (n + 1) n

unfoldable pub format_int : ℤ → Bytes
unfolding digits
format_int (pos n) = digits n
format_int (negsuc n) = b'-' ∷ digits (n + 1)

-- The items between the brackets, and the rows between the braces.
unfoldable pub render_items : List Bytes → Bytes
render_items [] = []
render_items (t ∷ []) = t
render_items (t ∷ u ∷ ts) = t ++ (b',' ∷ render_items (u ∷ ts))

unfoldable pub render_row : Row Bytes → Bytes
unfolding escape
render_row p = escape p.0 ++ (b':' ∷ p.1)

abbrev pub bracketed : ℕ → ℕ → Bytes → Bytes
bracketed a b t = a ∷ (t ++ (b ∷ []))

-- The panic of `serialise`.
pub data Panic : Type 0 where
  unexpected_type : Panic

-- `serialise`. A value that normalisation should not have left is a panic.
unfoldable mutual
  pub serialise : Value → Result Panic Bytes
  serialise null = ok (codes "null")
  serialise (bool b) = ok (if b then codes "true" else codes "false")
  serialise (int_ i) = ok (format_int i)
  serialise (text s) = ok (escape s)
  serialise (arr xs) = serialise_items xs >>= λ ts. ok (bracketed b'[' b']' (render_items ts))
  serialise (obj fs) = serialise_fields fs >>= λ ps.
      ok (bracketed b'{' b'}' (render_items (map render_row (sort_rows ps))))
  serialise (number s) = err unexpected_type
  serialise (float i whole) = err unexpected_type
  serialise other = err unexpected_type

  pub serialise_items : Items → Result Panic (List Bytes)
  serialise_items nil = ok []
  serialise_items (cons x xs) = serialise x >>= λ t. serialise_items xs >>= λ ts. ok (t ∷ ts)

  pub serialise_fields : Fields → Result Panic (List (Row Bytes))
  serialise_fields end = ok []
  serialise_fields (field k v fs) =
      serialise v >>= λ t. serialise_fields fs >>= λ ps. ok ((k, t) ∷ ps)

abbrev pub hashed : (Bytes → String) → Result Panic Bytes → Result DigestError String
hashed sha (err unexpected_type) = err panicked
hashed sha (ok t) = ok (sha t)

-- `Digest`, for any hash of the canonical text, which is given by its runes.
unfoldable pub digest : (Bytes → String) → Value → Result DigestError String
digest sha v = normalise [] v >>= λ n. hashed sha (serialise n)
