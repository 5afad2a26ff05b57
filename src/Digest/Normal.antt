-- ===== src/Digest/Normal.antt =====
-- canonical/canonical.go: `normalise`, which bounds the numbers and sorts the arrays that are sets.
use veduta.Prelude.{
  ℕ, ◌+◌, ◌-◌, ◌*◌, Bool, true, false, not, ◌&&◌, ◌||◌, Option, none, some, List, [], ◌∷◌, ◌++◌,
  Bytes, codes, bytes_eq, Result, ok, err, ◌>>=◌, leb, ◌==◌, if◌then◌else◌, sort, dedupe, String,
  str_eq,
}
use veduta.Digest.Value.{
  ℤ, pos, negsuc, Value, null, bool, int_, number, float, text, other, arr, obj, Items, nil, cons,
  Fields, end, field, Step, key, place, DigestError, floating, unsafe_integer, not_a_text, texts,
}

-- `maxSafeInt`.
abbrev pub max_safe_int : ℕ
max_safe_int = 9007199254740991

abbrev pub is_safe : ℤ → Bool
is_safe (pos n) = leb n max_safe_int
is_safe (negsuc n) = leb (n + 1) max_safe_int

-- One element of a pattern of `setLikePaths` against one of a path. A place in an array is matched by `*` only.
abbrev pub step_matches : String → Step → Bool
step_matches p (key k) = str_eq p "*" || bytes_eq (codes p) k
step_matches p (place i) = str_eq p "*"

unfoldable pub path_matches : List String → List Step → Bool
path_matches [] [] = true
path_matches (p ∷ ps) (s ∷ ss) = if step_matches p s then path_matches ps ss else false
path_matches _ _ = false

-- `setLikePaths`.
abbrev pub set_like_paths : List (List String)
set_like_paths =
    ("spec" ∷ "capabilities" ∷ [])
    ∷ ("spec" ∷ "operations" ∷ "*" ∷ "routes" ∷ "*" ∷ "queryKeys" ∷ [])
    ∷ []

abbrev pub some_path_matches : List (List String) → List Step → Bool
some_path_matches [] path = false
some_path_matches (p ∷ ps) path = if path_matches p path then true else some_path_matches ps path

-- `isSetLike`.
unfoldable pub is_set_like : List Step → Bool
unfolding path_matches
is_set_like path = some_path_matches set_like_paths path

abbrev pub is_digit : ℕ → Bool
is_digit c = leb b'0' c && leb c b'9'

-- The number that digits stand for; `none` on any other byte, and on none at all.
unfoldable pub read_digits : ℕ → Bytes → Option ℕ
read_digits acc [] = some acc
read_digits acc (c ∷ cs) =
    let rest = read_digits (acc * 10 + (c - b'0')) cs in if is_digit c then rest else none

-- `json.Number.Int64` without its 64-bit bound, which the bound of safe integers implies.
unfoldable pub read_int : Bytes → Option ℤ
unfolding read_digits
read_int [] = none
read_int (c ∷ cs) =
    if c == b'-'
    then (elim cs [
      | [] ↦ none
      | d ∷ ds ↦ elim (read_digits 0 (d ∷ ds)) [
        | none ↦ none
        | some n ↦ some (if n == 0 then pos 0 else negsuc (n - 1))
      ]
    ])
    else elim (read_digits 0 (c ∷ cs)) [ none ↦ none | some n ↦ some (pos n) ]

abbrev pub is_float_mark : ℕ → Bool
is_float_mark c = c == b'.' || c == b'e' || c == b'E'

abbrev pub contains_float_mark : Bytes → Bool
contains_float_mark [] = false
contains_float_mark (c ∷ cs) = if is_float_mark c then true else contains_float_mark cs

abbrev pub safe_or_error : ℤ → Result DigestError Value
safe_or_error i = if is_safe i then ok (int_ i) else err unsafe_integer

abbrev pub read_safe : Option ℤ → Result DigestError Value
read_safe none = err unsafe_integer
read_safe (some i) = safe_or_error i

-- The items of a set-like array, which must be texts.
unfoldable pub all_texts : Items → Result DigestError (List Bytes)
all_texts nil = ok []
all_texts (cons (text s) xs) = all_texts xs >>= λ ss. ok (s ∷ ss)
all_texts (cons _ xs) = err not_a_text

-- The end of the array case: a set-like array is sorted, by the bytes, and freed of repeats.
unfoldable pub as_set : Bool → Items → Result DigestError Value
unfolding all_texts
as_set false xs = ok (arr xs)
as_set true xs = all_texts xs >>= λ ss. ok (arr (texts (dedupe (sort ss))))

-- `normalise`; the path grows at its end.
unfoldable mutual
  pub normalise : List Step → Value → Result DigestError Value
  normalise path (obj fs) = normalise_fields path fs >>= λ gs. ok (obj gs)
  normalise path (arr xs) = normalise_items path 0 xs >>= λ ys. as_set (is_set_like path) ys
  normalise path (number s) = if contains_float_mark s then err floating else read_safe (read_int s)
  normalise path (float i whole) = if not whole then err floating else safe_or_error i
  normalise path (int_ i) = safe_or_error i
  normalise path null = ok null
  normalise path (bool b) = ok (bool b)
  normalise path (text s) = ok (text s)
  normalise path other = ok other

  pub normalise_items : List Step → ℕ → Items → Result DigestError Items
  normalise_items path i nil = ok nil
  normalise_items path i (cons x xs) = normalise (path ++ (place i ∷ [])) x >>= λ y.
      normalise_items path (i + 1) xs >>= λ ys. ok (cons y ys)

  pub normalise_fields : List Step → Fields → Result DigestError Fields
  normalise_fields path end = ok end
  normalise_fields path (field k v fs) = normalise (path ++ (key k ∷ [])) v >>= λ w.
      normalise_fields path fs >>= λ gs. ok (field k w gs)
