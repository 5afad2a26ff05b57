-- ===== src/Digest/Doc.antt =====
-- What a canonical text of canonical/canonical.go says, apart from how a map is walked.
use veduta.Prelude.{Bool, List, [], ◌∷◌, ◌++◌, Bytes, codes, Result, ok, err, ◌>>=◌, if◌then◌else◌}
use veduta.Digest.Value.{
  ℤ, Value, null, bool, int_, number, float, text, other, arr, obj, Items, nil, cons, Fields, end,
  field,
}
use veduta.Digest.Runes.{runes}
use veduta.Digest.Text.{Panic, unexpected_type, Row, sort_rows, escape_runes, format_int}

-- A document by its runes: the fields of a mapping stand in the order of their keys.
mutual
  pub data Doc : Type 0 where
    nothing : Doc
    flag : Bool → Doc
    whole : ℤ → Doc
    words : Bytes → Doc
    sequence : Docs → Doc
    mapping : DocFields → Doc

  pub data Docs : Type 0 where
    done : Docs
    item : Doc → Docs → Docs

  pub data DocFields : Type 0 where
    closed : DocFields
    entry : Bytes → Doc → DocFields → DocFields

unfoldable pub to_docs : List Doc → Docs
to_docs [] = done
to_docs (d ∷ ds) = item d (to_docs ds)

unfoldable pub to_fields : List (Row Doc) → DocFields
to_fields [] = closed
to_fields ((k, d) ∷ ds) = entry (runes k) d (to_fields ds)

-- The document that a value stands for; a value of an unexpected type stands for none.
unfoldable mutual
  pub doc_of : Value → Result Panic Doc
  doc_of null = ok nothing
  doc_of (bool b) = ok (flag b)
  doc_of (int_ i) = ok (whole i)
  doc_of (text s) = ok (words (runes s))
  doc_of (arr xs) = docs_of xs >>= λ ds. ok (sequence (to_docs ds))
  doc_of (obj fs) = rows_of fs >>= λ ps. ok (mapping (to_fields (sort_rows ps)))
  doc_of (number s) = err unexpected_type
  doc_of (float i b) = err unexpected_type
  doc_of other = err unexpected_type

  pub docs_of : Items → Result Panic (List Doc)
  docs_of nil = ok []
  docs_of (cons x xs) = doc_of x >>= λ d. docs_of xs >>= λ ds. ok (d ∷ ds)

  pub rows_of : Fields → Result Panic (List (Row Doc))
  rows_of end = ok []
  rows_of (field k v fs) = doc_of v >>= λ d. rows_of fs >>= λ ps. ok ((k, d) ∷ ps)

abbrev pub truth : Bool → Bytes
truth b = if b then codes "true" else codes "false"

-- The text of a document, before a rest.
unfoldable mutual
  pub show : Doc → Bytes → Bytes
  show nothing r = codes "null" ++ r
  show (flag b) r = truth b ++ r
  show (whole i) r = format_int i ++ r
  show (words s) r = 34 ∷ (escape_runes s ++ (34 ∷ r))
  show (sequence done) r = b'[' ∷ b']' ∷ r
  show (sequence (item d ds)) r = b'[' ∷ show d (show_items ds r)
  show (mapping closed) r = b'{' ∷ b'}' ∷ r
  show (mapping (entry k d fs)) r =
      b'{' ∷ 34 ∷ (escape_runes k ++ (34 ∷ b':' ∷ show d (show_fields fs r)))

  pub show_items : Docs → Bytes → Bytes
  show_items done r = b']' ∷ r
  show_items (item d ds) r = b',' ∷ show d (show_items ds r)

  pub show_fields : DocFields → Bytes → Bytes
  show_fields closed r = b'}' ∷ r
  show_fields (entry k d fs) r =
      b',' ∷ 34 ∷ (escape_runes k ++ (34 ∷ b':' ∷ show d (show_fields fs r)))
