-- ===== src/Digest/Written.antt =====
-- A document of canonical/canonical.go written out as a value, and its maps in the order that sortKeys makes.
use veduta.Prelude.{
  ◌≡◌, refl, sym, ◌≢◌, inl, inr, List, [], ◌∷◌, ◌++◌, Bytes, All, Bool-cases, lex_less,
}
use mathlib.Core.Path.{subst}
use veduta.Digest.Value.{
  Value, null, bool, int_, number, float, text, other, arr, obj, Items, nil, cons, Fields, end,
  field, Step, key,
}
use veduta.Digest.Runes.{runes, encode}
use veduta.Digest.Keys.{IsText}
use veduta.Digest.Text.{utf16, Row, sort_row, sort_rows}
use veduta.Digest.Doc.{
  Doc, nothing, flag, whole, words, sequence, mapping, Docs, done, item, DocFields, closed, entry,
  to_fields,
}
use veduta.Digest.Same.{same_refl, same_field, same_end, same_swap, same_chain, SameFields}

-- A key that a map does not have.
abbrev pub Fresh : Bytes → Fields → Type 0
Fresh k end = Unit
Fresh k (field j v fs) = (k ≢ j) × Fresh k fs

-- What a decoder gives: texts of valid UTF-8, and no key twice in a map.
unfoldable mutual
  pub IsValid : Value → Type 0
  IsValid (text s) = IsText s
  IsValid (arr xs) = ItemsValid xs
  IsValid (obj fs) = FieldsValid fs
  IsValid null = Unit
  IsValid (bool b) = Unit
  IsValid (int_ i) = Unit
  IsValid (number s) = Unit
  IsValid (float i w) = Unit
  IsValid other = Unit

  pub ItemsValid : Items → Type 0
  ItemsValid nil = Unit
  ItemsValid (cons x xs) = IsValid x × ItemsValid xs

  pub FieldsValid : Fields → Type 0
  FieldsValid end = Unit
  FieldsValid (field k v fs) = IsText k × Fresh k fs × IsValid v × FieldsValid fs

-- A document as a value.
unfoldable mutual
  pub written : Doc → Value
  written nothing = null
  written (flag b) = bool b
  written (whole i) = int_ i
  written (words s) = text (encode s)
  written (sequence ds) = arr (written_items ds)
  written (mapping fs) = obj (written_fields fs)

  pub written_items : Docs → Items
  written_items done = nil
  written_items (item d ds) = cons (written d) (written_items ds)

  pub written_fields : DocFields → Fields
  written_fields closed = end
  written_fields (entry k d fs) = field (encode k) (written d) (written_fields fs)

-- Rows as the fields of a map.
abbrev pub fields_of : List (Row Doc) → Fields
fields_of [] = end
fields_of (p ∷ ps) = field p.0 (written p.1) (fields_of ps)

-- Rows with valid keys, no two of them the same.
abbrev pub Rows : List (Row Doc) → Type 0
Rows [] = Unit
Rows (p ∷ ps) = IsText p.0 × All (λ q. p.0 ≢ q.0) ps × Rows ps

SameFields-refl : (path : List Step) (fs : Fields) → SameFields path fs fs
SameFields-refl path end = same_end path
SameFields-refl path (field k v fs) =
    same_field path k v v fs fs (same_refl (path ++ (key k ∷ [])) v) (SameFields-refl path fs)

same_rest :
    (path : List Step) (p : Row Doc) (ps qs : List (Row Doc))
    → SameFields path (fields_of ps) (fields_of qs)
    → SameFields path (fields_of (p ∷ ps)) (fields_of (p ∷ qs))
same_rest path p ps qs h =
    same_field path p.0 (written p.1) (written p.1) (fields_of ps) (fields_of qs)
      (same_refl (path ++ (key p.0 ∷ [])) (written p.1)) h

All-sort_row :
    (P : Row Doc → Type 0) (p : Row Doc) (qs : List (Row Doc))
    → P p
    → All P qs
    → All P (sort_row p qs)
unfolding sort_row
All-sort_row P p [] h k = (h, tt)
All-sort_row P p (q ∷ qs) h k =
    elim (Bool-cases (lex_less (utf16 (runes q.0)) (utf16 (runes p.0)))) [
      | inl e ↦ rw e (k.0, All-sort_row P p qs h k.1)
      | inr e ↦ rw e (h, k)
    ]

All-sort_rows : (P : Row Doc → Type 0) (ps : List (Row Doc)) → All P ps → All P (sort_rows ps)
unfolding sort_rows
All-sort_rows P [] h = tt
All-sort_rows P (p ∷ ps) h = All-sort_row P p (sort_rows ps) h.0 (All-sort_rows P ps h.1)

sort_row-Same :
    (path : List Step) (p : Row Doc) (qs : List (Row Doc))
    → IsText p.0
    → All (λ q. IsText q.0) qs
    → All (λ q. p.0 ≢ q.0) qs
    → SameFields path (fields_of (p ∷ qs)) (fields_of (sort_row p qs))
unfolding sort_row
sort_row-Same path p [] t ts n = SameFields-refl path (fields_of (p ∷ []))
sort_row-Same path p (q ∷ qs) t ts n =
    elim (Bool-cases (lex_less (utf16 (runes q.0)) (utf16 (runes p.0)))) [
      | inl e ↦ rw e (
          same_chain path (fields_of (p ∷ q ∷ qs)) (fields_of (q ∷ p ∷ qs))
            (fields_of (q ∷ sort_row p qs))
            (same_swap path p.0 q.0 (written p.1) (written q.1) (fields_of qs) t ts.0 n.0)
            (same_rest path q (p ∷ qs) (sort_row p qs) (sort_row-Same path p qs t ts.1 n.1)))
      | inr e ↦ rw e (SameFields-refl path (fields_of (p ∷ q ∷ qs)))
    ]

pub Rows-texts : (ps : List (Row Doc)) → Rows ps → All (λ p. IsText p.0) ps
Rows-texts [] h = tt
Rows-texts (p ∷ ps) h = (h.0, Rows-texts ps h.2)

-- Sorting moves the fields of a map.
pub sort_rows-Same :
    (path : List Step) (ps : List (Row Doc))
    → Rows ps
    → SameFields path (fields_of ps) (fields_of (sort_rows ps))
unfolding sort_rows
sort_rows-Same path [] h = same_end path
sort_rows-Same path (p ∷ ps) h =
    same_chain path (fields_of (p ∷ ps)) (fields_of (p ∷ sort_rows ps))
      (fields_of (sort_row p (sort_rows ps)))
      (same_rest path p ps (sort_rows ps) (sort_rows-Same path ps h.2))
      (sort_row-Same path p (sort_rows ps) h.0
        (All-sort_rows (λ q. IsText q.0) ps (Rows-texts ps h.2))
        (All-sort_rows (λ q. p.0 ≢ q.0) ps h.1))

written-to_fields :
    (ps : List (Row Doc)) → All (λ p. IsText p.0) ps → written_fields (to_fields ps) ≡ fields_of ps
unfolding written to_fields
written-to_fields [] h = refl
written-to_fields (p ∷ ps) h = rw (h.0.1, written-to_fields ps h.1) refl

-- A sorted mapping, written out.
pub mapping-Same :
    (path : List Step) (ps : List (Row Doc))
    → Rows ps
    → SameFields path (fields_of ps) (written_fields (to_fields (sort_rows ps)))
mapping-Same path ps h =
    subst (λ fs. SameFields path (fields_of ps) fs)
      (sym
        (written-to_fields (sort_rows ps) (All-sort_rows (λ q. IsText q.0) ps (Rows-texts ps h))))
      (sort_rows-Same path ps h)
