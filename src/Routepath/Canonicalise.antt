-- ===== src/Routepath/Canonicalise.antt =====
-- routepath/canonicalise.go: `Canonicalise` and `canonicaliseSegment`, over the bytes of a path.
use veduta.Prelude.{
  ℕ, Bool, true, false, not, ◌||◌, List, [], ◌∷◌, ◌++◌, Bytes, codes, bytes_eq, Result, ok, err,
  ◌>>=◌, ◌>>◌, leb, ◌==◌, if◌then◌else◌,
}
use veduta.Routepath.Escape.{
  RouteError, not_absolute, backslash, control_or_space, dot_segment, empty_segment,
  query_or_fragment, panic, slash, percent, hex_byte, is_unreserved, write_escape,
  check_escapes_well_formed,
}

-- `strings.Split` by one byte.
abbrev pub cons_head : ℕ → List Bytes → List Bytes
cons_head c [] = (c ∷ []) ∷ []
cons_head c (s ∷ ss) = (c ∷ s) ∷ ss

unfoldable pub split : ℕ → Bytes → List Bytes
split sep [] = [] ∷ []
split sep (c ∷ s) = let rest = split sep s in if c == sep then [] ∷ rest else cons_head c rest

-- `strings.Join` by one byte.
abbrev pub join : ℕ → List Bytes → Bytes
join sep [] = []
join sep (s ∷ []) = s
join sep (s ∷ t ∷ ss) = s ++ (sep ∷ join sep (t ∷ ss))

-- Whether a byte passes a test, as `strings.ContainsAny` and the byte loop ask.
unfoldable pub contains : (ℕ → Bool) → Bytes → Bool
contains p [] = false
contains p (c ∷ s) = if p c then true else contains p s

abbrev pub is_dots : Bytes → Bool
is_dots s = bytes_eq s (codes ".") || bytes_eq s (codes "..")

-- `decodedForDotCheck` and `normalised`, both written at the front here.
abbrev pub push : Bytes → Bytes → Bytes × Bytes → Bytes × Bytes
push d n (ds, ns) = (d ++ ds, n ++ ns)

abbrev pub push_to :
    Bytes → Bytes → Result RouteError (Bytes × Bytes) → Result RouteError (Bytes × Bytes)
push_to d n r = r >>= λ p. ok (push d n p)

abbrev pub escape_to : ℕ → Bytes
escape_to b = if is_unreserved b then b ∷ [] else write_escape b

-- The loop of `canonicaliseSegment`: what the segment decodes to, and its normal form.
unfoldable pub write_segment : Bytes → Result RouteError (Bytes × Bytes)
unfolding hex_byte is_unreserved write_escape
write_segment [] = ok ([], [])
write_segment (c ∷ hi ∷ lo ∷ s) =
    let after = write_segment s in
    let next = write_segment (hi ∷ lo ∷ s) in
    if c == percent
    then push_to (hex_byte hi lo ∷ []) (escape_to (hex_byte hi lo)) after
    else push_to (c ∷ []) (c ∷ []) next
write_segment (c ∷ s) =
    if c == percent then err panic else push_to (c ∷ []) (c ∷ []) (write_segment s)

-- `canonicaliseSegment`.
unfoldable pub canonicalise_segment : Bytes → Result RouteError Bytes
unfolding write_segment
canonicalise_segment [] = err empty_segment
canonicalise_segment (c ∷ seg) =
    if is_dots (c ∷ seg)
    then err dot_segment
    else (write_segment (c ∷ seg) >>= λ p. if is_dots p.0 then err dot_segment else ok p.1)

-- The loop over the segments, which returns the first error.
unfoldable pub canonicalise_segments : List Bytes → Result RouteError (List Bytes)
unfolding canonicalise_segment
canonicalise_segments [] = ok []
canonicalise_segments (seg ∷ segs) = do
  normalised ← canonicalise_segment seg
  out ← canonicalise_segments segs
  ok (normalised ∷ out)

abbrev pub is_query_or_fragment : ℕ → Bool
is_query_or_fragment c = c == b'?' || c == b'#'

abbrev pub is_control_or_space : ℕ → Bool
is_control_or_space c = leb c 0x20 || c == 0x7f

-- The part of `Canonicalise` behind the checks of single bytes.
unfoldable pub canonicalise_checked : Bytes → Result RouteError Bytes
unfolding check_escapes_well_formed split canonicalise_segments
canonicalise_checked rest =
    check_escapes_well_formed (slash ∷ rest)
    >> (if bytes_eq rest []
        then ok (slash ∷ [])
        else (canonicalise_segments (split slash rest) >>= λ out. ok (slash ∷ join slash out)))

-- `Canonicalise`.
unfoldable pub canonicalise : Bytes → Result RouteError Bytes
unfolding contains canonicalise_checked
canonicalise [] = err not_absolute
canonicalise (c ∷ rest) =
    if not (c == slash)
    then err not_absolute
    else if contains (λ b. b == 92) (c ∷ rest)
    then err backslash
    else if contains is_query_or_fragment (c ∷ rest)
    then err query_or_fragment
    else if contains is_control_or_space (c ∷ rest)
    then err control_or_space
    else canonicalise_checked rest
