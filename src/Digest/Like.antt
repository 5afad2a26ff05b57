-- ===== src/Digest/Like.antt =====
-- What the canonical text of a normalised document forgets.
use veduta.Prelude.{
  ◌≡◌, refl, ap, ◌∙◌, ◌≢◌, Option, none, some, List, ◌∷◌, map, Bytes, Result, ok, err, ◌>>=◌,
  ok-injective,
}
use mathlib.Core.Path.{subst}
use veduta.Digest.Value.{
  Value, null, bool, int_, number, float, text, other, arr, obj, Items, cons, Fields, field,
  DigestError, not_a_text,
}
use veduta.Digest.Normal.{all_texts}
use veduta.Digest.Text.{
  Panic, unexpected_type, Row, sort_row, sort_rows, render_row, render_items, bracketed, serialise,
  serialise_items, serialise_fields,
}
use veduta.Digest.Keys.{IsText, sort_rows_swap}

abbrev pub as_text : Value → Option Bytes
as_text (text s) = some s
as_text null = none
as_text (bool b) = none
as_text (int_ i) = none
as_text (number s) = none
as_text (float i w) = none
as_text other = none
as_text (arr xs) = none
as_text (obj fs) = none

-- The rows of a map, sorted.
pub sorted : Fields → Result Panic (List (Row Bytes))
sorted fs = serialise_fields fs >>= λ ps. ok (sort_rows ps)

-- Normalised documents that neither the text nor the test for texts tells apart.
pub record Like (m n : Value) : Type 0 where
  pub same_text : serialise m ≡ serialise n
  pub same_kind : as_text m ≡ as_text n

pub record ItemsLike (xs ys : Items) : Type 0 where
  pub same_text : serialise_items xs ≡ serialise_items ys
  pub same_kind : all_texts xs ≡ all_texts ys

keep_text : Option Bytes → Result DigestError (List Bytes) → Result DigestError (List Bytes)
keep_text none r = err not_a_text
keep_text (some s) r = r >>= λ ss. ok (s ∷ ss)

all_texts-cons :
    (x : Value) (xs : Items) → all_texts (cons x xs) ≡ keep_text (as_text x) (all_texts xs)
unfolding keep_text all_texts
all_texts-cons (text s) xs = refl
all_texts-cons null xs = refl
all_texts-cons (bool b) xs = refl
all_texts-cons (int_ i) xs = refl
all_texts-cons (number s) xs = refl
all_texts-cons (float i w) xs = refl
all_texts-cons other xs = refl
all_texts-cons (arr ys) xs = refl
all_texts-cons (obj fs) xs = refl

pub ItemsLike-cons :
    (x y : Value) (xs ys : Items) → Like x y → ItemsLike xs ys → ItemsLike (cons x xs) (cons y ys)
unfolding serialise
ItemsLike-cons x y xs ys h k = record {
  same_text = rw (h.same_text, k.same_text) refl;
  same_kind = rw (all_texts-cons x xs, all_texts-cons y ys, h.same_kind, k.same_kind) refl;
}

sorted-field :
    (k : Bytes) (v : Value) (fs : Fields)
    → sorted (field k v fs) ≡ (serialise v >>= λ t. sorted fs >>= λ ps. ok (sort_row (k, t) ps))
unfolding sorted sort_rows serialise
sorted-field k v fs = by_parts (serialise v) (serialise_fields fs)
  where
    by_parts :
        (a : Result Panic Bytes) (b : Result Panic (List (Row Bytes)))
        → ((a >>= λ t. b >>= λ ps. ok ((k, t) ∷ ps)) >>= λ ps. ok (sort_rows ps))
          ≡ (a >>= λ t. (b >>= λ ps. ok (sort_rows ps)) >>= λ ps. ok (sort_row (k, t) ps))
    by_parts (err e) b = refl
    by_parts (ok t) (err e) = refl
    by_parts (ok t) (ok ps) = refl

pub sorted-field_congr :
    (k : Bytes) (v w : Value) (fs gs : Fields)
    → serialise v ≡ serialise w
    → sorted fs ≡ sorted gs
    → sorted (field k v fs) ≡ sorted (field k w gs)
sorted-field_congr k v w fs gs p q = rw (sorted-field k v fs, sorted-field k w gs, p, q) refl

pub sorted_swap :
    (k j : Bytes) (v w : Value) (fs : Fields)
    → IsText k
    → IsText j
    → k ≢ j
    → sorted (field k v (field j w fs)) ≡ sorted (field j w (field k v fs))
unfolding sorted serialise
sorted_swap k j v w fs p q h = by_parts (serialise v) (serialise w) (serialise_fields fs)
  where
    by_parts :
        (a b : Result Panic Bytes) (c : Result Panic (List (Row Bytes)))
        → ((a >>= λ t. (b >>= λ u. c >>= λ ps. ok ((j, u) ∷ ps)) >>= λ ps. ok ((k, t) ∷ ps))
            >>= λ ps. ok (sort_rows ps))
          ≡ ((b >>= λ t. (a >>= λ u. c >>= λ ps. ok ((k, u) ∷ ps)) >>= λ ps. ok ((j, t) ∷ ps))
              >>= λ ps. ok (sort_rows ps))
    by_parts (err unexpected_type) (err unexpected_type) c = refl
    by_parts (err unexpected_type) (ok u) c = refl
    by_parts (ok t) (err unexpected_type) c = refl
    by_parts (ok t) (ok u) (err unexpected_type) = refl
    by_parts (ok t) (ok u) (ok ps) = ap ok (sort_rows_swap (k, t) (j, u) ps p q h)

obj-sorted :
    (fs : Fields)
    → serialise (obj fs)
      ≡ (sorted fs >>= λ ps. ok (bracketed b'{' b'}' (render_items (map render_row ps))))
unfolding sorted serialise
obj-sorted fs = by_rows (serialise_fields fs)
  where
    by_rows :
        (a : Result Panic (List (Row Bytes)))
        → (a >>= λ ps. ok (bracketed b'{' b'}' (render_items (map render_row (sort_rows ps))))) ≡ (
            (a >>= λ ps. ok (sort_rows ps)) >>= λ ps.
            ok (bracketed b'{' b'}' (render_items (map render_row ps))))
    by_rows (err e) = refl
    by_rows (ok ps) = refl

pub carry :
    {E A : Type 0} (P : A → Type 0) {a b : A} → ◌≡◌ {A = Result E A} (ok a) (ok b) → P a → P b
carry P e p = subst P (ok-injective e) p

pub map_Like : (fs gs : Fields) → sorted fs ≡ sorted gs → Like (obj fs) (obj gs)
map_Like fs gs h = record {
  same_text = rw (obj-sorted fs, obj-sorted gs, h) refl;
  same_kind = refl;
}

pub array_Like : (xs ys : Items) → ItemsLike xs ys → Like (arr xs) (arr ys)
unfolding serialise
array_Like xs ys h = record { same_text = rw h.same_text refl; same_kind = refl }

pub Like-refl : (n : Value) → Like n n
Like-refl n = record { same_text = refl; same_kind = refl }

pub Like-trans : (l m n : Value) → Like l m → Like m n → Like l n
Like-trans l m n p q = record {
  same_text = p.same_text ∙ q.same_text;
  same_kind = p.same_kind ∙ q.same_kind;
}
