-- ===== src/Routepath/Units.antt =====
-- How the two loops of routepath/canonicalise.go read a segment, as a relation.
use veduta.Prelude.{
  ℕ, ◌≡◌, refl, ◌∙◌, ◌≢◌, true, false, [], ◌∷◌, ◌++◌, arith, Bytes, All, All-append, ok,
}
use veduta.Routepath.Escape.{
  percent, hex_byte, is_unreserved, write_escape, check_escapes_well_formed,
}
use veduta.Routepath.Canonicalise.{escape_to, push_to, write_segment}
use veduta.Routepath.Hex.{
  Escaped, Escaped-check_escape, Escaped-hex_digit, unreserved-ne-percent, IsSegmentByte,
  unreserved-IsSegmentByte, write_escape-IsSegmentByte,
}

-- How a well-formed segment is read: the segment, what it decodes to, and its normal form.
pub data Units : Bytes → Bytes → Bytes → Type 0 where
  nothing : Units [] [] []
  plain : {c : ℕ} {s d n : Bytes} → c ≢ percent → Units s d n → Units (c ∷ s) (c ∷ d) (c ∷ n)
  decoded :
      {hi lo b : ℕ} {s d n : Bytes}
      → Escaped hi lo b
      → is_unreserved b ≡ true
      → Units s d n
      → Units (percent ∷ hi ∷ lo ∷ s) (b ∷ d) (b ∷ n)
  kept :
      {hi lo b : ℕ} {s d n : Bytes}
      → Escaped hi lo b
      → is_unreserved b ≡ false
      → Units s d n
      → Units (percent ∷ hi ∷ lo ∷ s) (b ∷ d) (write_escape b ++ n)

-- The two loops at a byte that begins no escape.
pub check_escapes-plain :
    (c : ℕ) (s : Bytes)
    → c ≢ percent
    → check_escapes_well_formed (c ∷ s) ≡ check_escapes_well_formed s
unfolding check_escapes_well_formed
check_escapes-plain c [] h = ground arith
check_escapes-plain c (a ∷ []) h = ground arith
check_escapes-plain c (a ∷ b ∷ s) h = ground arith

write_segment-plain :
    (c : ℕ) (s : Bytes)
    → c ≢ percent
    → write_segment (c ∷ s) ≡ push_to (c ∷ []) (c ∷ []) (write_segment s)
unfolding write_segment
write_segment-plain c [] h = ground arith
write_segment-plain c (a ∷ []) h = ground arith
write_segment-plain c (a ∷ b ∷ s) h = ground arith

write_segment-escape :
    (hi lo : ℕ) (s : Bytes)
    → write_segment (percent ∷ hi ∷ lo ∷ s)
      ≡ push_to (hex_byte hi lo ∷ []) (escape_to (hex_byte hi lo)) (write_segment s)
unfolding write_segment
write_segment-escape hi lo s = refl

check_escapes-escape :
    {hi lo b : ℕ} (s : Bytes)
    → Escaped hi lo b
    → check_escapes_well_formed (percent ∷ hi ∷ lo ∷ s) ≡ check_escapes_well_formed s
unfolding check_escapes_well_formed
check_escapes-escape s e = rw (Escaped-check_escape e)

-- A read segment passes the scan, whatever follows it.
pub Units-check :
    {s d n : Bytes} (r : Bytes)
    → Units s d n
    → check_escapes_well_formed (s ++ r) ≡ check_escapes_well_formed r
Units-check r nothing = refl
Units-check r (plain h u) = check_escapes-plain _ _ h ∙ Units-check r u
Units-check r (decoded e h u) = check_escapes-escape _ e ∙ Units-check r u
Units-check r (kept e h u) = check_escapes-escape _ e ∙ Units-check r u

-- The writing loop computes what the reading says.
pub Units-write : {s d n : Bytes} → Units s d n → write_segment s ≡ ok (d, n)
Units-write nothing = unfold write_segment in refl
Units-write (plain h u) = rw (write_segment-plain _ _ h, Units-write u)
Units-write (decoded e h u) = rw (write_segment-escape, Units-write u, e.value, h)
Units-write (kept e h u) = rw (write_segment-escape, Units-write u, e.value, h)

-- The normal form of a segment reads as itself, and decodes to the same bytes.
pub Units-normal : {s d n : Bytes} → Units s d n → Units n d n
unfolding write_escape
Units-normal nothing = nothing
Units-normal (plain h u) = plain h (Units-normal u)
Units-normal (decoded e h u) = plain (unreserved-ne-percent _ h) (Units-normal u)
Units-normal (kept e h u) =
    kept (Escaped-hex_digit _ e.bound e.not_slash e.not_backslash) h (Units-normal u)

pub Units-IsSegmentByte : {s d n : Bytes} → Units s d n → All IsSegmentByte s → All IsSegmentByte n
Units-IsSegmentByte nothing a = tt
Units-IsSegmentByte (plain h u) a = (a.0, Units-IsSegmentByte u a.1)
Units-IsSegmentByte (decoded e h u) a =
    (unreserved-IsSegmentByte _ h, Units-IsSegmentByte u a.1.1.1)
Units-IsSegmentByte (kept e h u) a =
    All-append IsSegmentByte (write_escape _) _ (write_escape-IsSegmentByte _ e.bound)
      (Units-IsSegmentByte u a.1.1.1)
