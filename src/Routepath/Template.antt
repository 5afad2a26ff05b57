-- ===== src/Routepath/Template.antt =====
-- routepath/template.go: request paths with named segments, and the globs that cover them.
use veduta.Prelude.{
  ℕ, ◌-◌, Bool, true, false, not, ◌&&◌, ◌||◌, Option, none, some, List, [], ◌∷◌, Bytes, codes,
  length, drop, take, bytes_eq, Result, ok, err, ◌>>=◌, leb, ltb, ◌==◌, if◌then◌else◌,
}
use veduta.Routepath.Escape.{RouteError, not_absolute, panic, slash, is_unreserved}
use veduta.Routepath.Canonicalise.{split, join, is_dots, contains, canonicalise}
use veduta.Routepath.Glob.{trim_slash, match_segment}

-- The errors of a template, and those of the path that it is checked as.
pub data TemplateError : Type 0 where
  template_brace placeholder_name placeholder_value placeholder_absent : TemplateError
  route : RouteError → TemplateError

pub data TemplateSegment : Type 0 where
  literal : Bytes → TemplateSegment
  placeholder : Bytes → TemplateSegment

pub record Template : Type 0 where
  pub raw : Bytes
  pub segments : List TemplateSegment

abbrev pub to_template : {A : Type 0} → Result RouteError A → Result TemplateError A
to_template (ok a) = ok a
to_template (err e) = err (route e)

abbrev pub is_letter : ℕ → Bool
is_letter c = leb b'A' c && leb c b'Z' || leb b'a' c && leb c b'z'

abbrev pub is_word : ℕ → Bool
is_word c = is_letter c || leb b'0' c && leb c b'9' || c == b'_'

-- `placeholderName`, the expression `^[A-Za-z][A-Za-z0-9_]{0,31}$`.
unfoldable pub is_placeholder_name : Bytes → Bool
unfolding contains
is_placeholder_name [] = false
is_placeholder_name (c ∷ s) =
    is_letter c && leb (length s) 31 && not (contains (λ b. not (is_word b)) s)

abbrev pub is_brace : ℕ → Bool
is_brace c = c == b'{' || c == b'}'

-- `part[0]` and `part[len(part)-1]`, read behind the check of the length.
abbrev pub first_byte : Bytes → ℕ
first_byte [] = 0
first_byte (c ∷ s) = c

abbrev pub last_byte : Bytes → ℕ
last_byte [] = 0
last_byte (c ∷ []) = c
last_byte (c ∷ d ∷ s) = last_byte (d ∷ s)

-- `part[1 : len(part)-1]`.
abbrev pub inner : Bytes → Bytes
inner part = take (length part - 2) (drop 1 part)

-- One round of the first loop of `ParseTemplate`: the placeholder's name, if any, and the stand-in.
unfoldable pub plan_segment : Bytes → Result TemplateError (Option Bytes × Bytes)
unfolding contains is_placeholder_name
plan_segment part =
    if not (contains is_brace part)
    then ok (none, part)
    else if ltb (length part) 3
        || not (first_byte part == b'{')
        || not (last_byte part == b'}')
        || contains is_brace (inner part)
    then err template_brace
    else if not (is_placeholder_name (inner part))
    then err placeholder_name
    else ok (some (inner part), codes "x")

unfoldable pub plan_segments : List Bytes → Result TemplateError (List (Option Bytes × Bytes))
unfolding plan_segment
plan_segments [] = ok []
plan_segments (part ∷ parts) = do
  plan ← plan_segment part
  plans ← plan_segments parts
  ok (plan ∷ plans)

-- The second loop: the canonical segments become the literals, by index.
unfoldable pub fill :
    List (Option Bytes × Bytes) → List Bytes → Result TemplateError (List TemplateSegment)
fill [] [] = ok []
fill [] (s ∷ ss) = err (route panic)
fill ((some n, _) ∷ ps) (s ∷ ss) = do rest ← fill ps ss; ok (placeholder n ∷ rest)
fill ((none, _) ∷ ps) (s ∷ ss) = do rest ← fill ps ss; ok (literal s ∷ rest)
fill ((some n, _) ∷ ps) [] = do rest ← fill ps []; ok (placeholder n ∷ rest)
fill ((none, _) ∷ ps) [] = do rest ← fill ps []; ok (literal [] ∷ rest)

abbrev pub stand_ins : List (Option Bytes × Bytes) → List Bytes
stand_ins [] = []
stand_ins ((_, s) ∷ ps) = s ∷ stand_ins ps

-- `canonical[1:]`.
abbrev pub behind_slash : Bytes → Bytes
behind_slash [] = []
behind_slash (_ ∷ s) = s

-- `ParseTemplate` behind its check of the first byte.
unfoldable pub parse_segments : Bytes → Result TemplateError (List TemplateSegment)
unfolding plan_segments fill split canonicalise
parse_segments rest = do
  plans ← plan_segments (split slash rest)
  canonical ← to_template (canonicalise (slash ∷ join slash (stand_ins plans)))
  fill plans (split slash (behind_slash canonical))

-- `ParseTemplate`.
unfoldable pub parse_template : Bytes → Result TemplateError Template
unfolding parse_segments
parse_template [] = err (route not_absolute)
parse_template (c ∷ rest) =
    if bytes_eq (c ∷ rest) (slash ∷ [])
    then (to_template (canonicalise (c ∷ rest)) >>= λ _.
        ok (record { raw = c ∷ rest; segments = [] }))
    else if not (c == slash)
    then err (route not_absolute)
    else (parse_segments rest >>= λ segs. ok (record { raw = c ∷ rest; segments = segs }))

-- `ValidPlaceholderValue`.
unfoldable pub valid_placeholder_value : Bytes → Bool
unfolding contains is_unreserved
valid_placeholder_value v =
    if bytes_eq v [] || ltb 128 (length v) || is_dots v
    then false
    else not (contains (λ c. not (is_unreserved c) && not (c == b':') && not (c == b'@')) v)

-- The loop of `CoveredBy`, over lists of one length.
unfoldable pub segments_covered : List TemplateSegment → List Bytes → Bool
segments_covered [] [] = true
segments_covered (literal l ∷ ts) (g ∷ gs) =
    let rest = segments_covered ts gs in if not (match_segment g l) then false else rest
segments_covered (placeholder n ∷ ts) (g ∷ gs) =
    let rest = segments_covered ts gs in if not (bytes_eq g (codes "*")) then false else rest
segments_covered _ _ = false

abbrev pub covered_in : List TemplateSegment → Bytes → Bool
covered_in [] canonical = bytes_eq canonical (slash ∷ [])
covered_in (t ∷ ts) canonical =
    if bytes_eq canonical (slash ∷ [])
    then false
    else segments_covered (t ∷ ts) (split slash (trim_slash canonical))

-- `CoveredBy`.
unfoldable pub covered_by : Template → Bytes → Bool
unfolding segments_covered canonicalise split match_segment
covered_by t pattern_ = elim (canonicalise pattern_) [
  | err e ↦ false
  | ok canonical ↦ covered_in t.segments canonical
]

-- One round of the loop of `Expand`; `values` is the map that it looks names up in.
unfoldable pub expand_segment :
    (Bytes → Option Bytes) → TemplateSegment → Result TemplateError Bytes
unfolding valid_placeholder_value
expand_segment values (literal l) = ok l
expand_segment values (placeholder n) = elim (values n) [
  | none ↦ err placeholder_absent
  | some v ↦ if not (valid_placeholder_value v) then err placeholder_value else ok v
]

unfoldable pub expand_segments :
    (Bytes → Option Bytes) → List TemplateSegment → Result TemplateError (List Bytes)
unfolding expand_segment
expand_segments values [] = ok []
expand_segments values (t ∷ ts) = do
  out ← expand_segment values t
  outs ← expand_segments values ts
  ok (out ∷ outs)

abbrev pub expand_list : (Bytes → Option Bytes) → List TemplateSegment → Result TemplateError Bytes
expand_list values [] = ok (slash ∷ [])
expand_list values (t ∷ ts) = do
  out ← expand_segments values (t ∷ ts)
  to_template (canonicalise (slash ∷ join slash out))

-- `Expand`.
unfoldable pub expand : (Bytes → Option Bytes) → Template → Result TemplateError Bytes
unfolding expand_segments canonicalise
expand values t = expand_list values t.segments

-- `Placeholders`.
unfoldable pub placeholders : List TemplateSegment → List Bytes
placeholders [] = []
placeholders (literal _ ∷ ts) = placeholders ts
placeholders (placeholder n ∷ ts) = n ∷ placeholders ts
