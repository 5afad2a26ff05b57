-- ===== src/Routepath/Glob.antt =====
-- routepath/match.go and prefix.go: route globs and path subtrees.
use veduta.Prelude.{
  ℕ, ◌-◌, Bool, true, false, not, ◌&&◌, ◌||◌, Option, none, some, List, [], ◌∷◌, ◌++◌, Bytes,
  length, drop, take, bytes_eq, leb, ◌==◌, if◌then◌else◌,
}
use veduta.Routepath.Escape.{slash}
use veduta.Routepath.Canonicalise.{split, contains}

abbrev pub star : ℕ
star = b'*'

-- `strings.TrimPrefix(s, "/")`.
abbrev pub trim_slash : Bytes → Bytes
trim_slash [] = []
trim_slash (c ∷ s) = if c == slash then s else c ∷ s

-- `strings.CutPrefix`: what follows a prefix, if it is one.
abbrev pub cut_prefix : Bytes → Bytes → Option Bytes
cut_prefix [] s = some s
cut_prefix (p ∷ ps) [] = none
cut_prefix (p ∷ ps) (c ∷ s) = if p == c then cut_prefix ps s else none

-- `strings.HasSuffix` and the slice before it.
abbrev pub cut_suffix : Bytes → Bytes → Option Bytes
cut_suffix p s =
    let n = length s - length p in
    if leb (length p) (length s) && bytes_eq (drop n s) p then some (take n s) else none

-- What follows the first place where a part stands: `seg[idx+len(part):]` for `strings.Index`.
unfoldable pub after_index : Bytes → Bytes → Option Bytes
after_index part [] = cut_prefix part []
after_index part (c ∷ s) = elim (cut_prefix part (c ∷ s)) [
  | some rest ↦ some rest
  | none ↦ after_index part s
]

-- The loop over the middle parts.
unfoldable pub match_middle : List Bytes → Bytes → Bool
unfolding after_index
match_middle [] seg = true
match_middle ([] ∷ parts) seg = match_middle parts seg
match_middle (part ∷ parts) seg = elim (after_index part seg) [
  | none ↦ false
  | some rest ↦ match_middle parts rest
]

-- `parts[1 : len(parts)-1]` and `parts[len(parts)-1]`, for the parts behind the first.
abbrev pub middle : List Bytes → List Bytes
middle [] = []
middle (p ∷ []) = []
middle (p ∷ q ∷ ps) = p ∷ middle (q ∷ ps)

abbrev pub last : Bytes → List Bytes → Bytes
last d [] = d
last d (p ∷ ps) = last p ps

-- The parts of a pattern against a segment, the first and the last anchored.
unfoldable pub match_parts : Bytes → List Bytes → Bytes → Bool
unfolding match_middle
match_parts first parts seg = elim (cut_prefix first seg) [
  | none ↦ false
  | some seg ↦ elim (cut_suffix (last first parts) seg) [
    | none ↦ false
    | some seg ↦ match_middle (middle parts) seg
  ]
]

abbrev pub match_split : List Bytes → Bytes → Bool
match_split [] seg = false
match_split (first ∷ parts) seg = match_parts first parts seg

-- `matchSegment`.
unfoldable pub match_segment : Bytes → Bytes → Bool
unfolding contains split match_parts
match_segment pattern_ seg =
    if not (contains (λ c. c == star) pattern_)
    then bytes_eq pattern_ seg
    else match_split (split star pattern_) seg

-- The loop of `Match`; lists of unequal length do not match.
unfoldable pub match_segments : List Bytes → List Bytes → Bool
match_segments [] [] = true
match_segments (p ∷ ps) (s ∷ ss) =
    let rest = match_segments ps ss in if match_segment p s then rest else false
match_segments _ _ = false

-- `Match`.
unfoldable pub match : Bytes → Bytes → Bool
unfolding match_segments split match_segment
match pattern_ path =
    match_segments (split slash (trim_slash pattern_)) (split slash (trim_slash path))

-- `HasPathPrefix`: the path itself, or a separator behind the prefix without its last slash.
abbrev pub trim_last_slash : Bytes → Bytes
trim_last_slash s = elim (cut_suffix (slash ∷ []) s) [ none ↦ s | some t ↦ t ]

abbrev pub has_prefix : Bytes → Bytes → Bool
has_prefix p s = elim (cut_prefix p s) [ none ↦ false | some _ ↦ true ]

unfoldable pub has_path_prefix : Bytes → Bytes → Bool
has_path_prefix path prefix =
    if bytes_eq prefix (slash ∷ []) || bytes_eq path prefix
    then true
    else has_prefix (trim_last_slash prefix ++ (slash ∷ [])) path
