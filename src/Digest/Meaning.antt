-- ===== src/Digest/Meaning.antt =====
-- The canonical text of canonical/canonical.go is the text of a document.
use veduta.Prelude.{
  ◌≡◌, refl, sym, ap, ◌∙◌, inl, inr, List, [], ◌∷◌, ◌++◌, map, append-nil, append_assoc, Bytes,
  Result, ok, err, ◌>>=◌, Bool-cases, lex_less,
}
use veduta.Digest.Value.{
  Value, null, bool, int_, number, float, text, other, arr, obj, Items, nil, cons, Fields, end,
  field,
}
use veduta.Digest.Runes.{runes}
use veduta.Digest.Text.{
  Panic, Row, sort_row, sort_rows, utf16, escape, escape_runes, format_int, render_row,
  render_items, bracketed, serialise, serialise_items, serialise_fields,
}
use veduta.Digest.Doc.{
  Doc, nothing, flag, whole, words, sequence, mapping, Docs, done, item, DocFields, closed, entry,
  to_docs, to_fields, doc_of, docs_of, rows_of, truth, show, show_items, show_fields,
}

-- What follows a document may be appended to its text.
mutual
  unfolding show

  show-append : (d : Doc) (x r : Bytes) → show d x ++ r ≡ show d (x ++ r)
  show-append nothing x r = refl
  show-append (flag b) x r = append_assoc (truth b) x r
  show-append (whole i) x r = append_assoc (format_int i) x r
  show-append (words s) x r = ap (λ t. 34 ∷ t) (append_assoc (escape_runes s) (34 ∷ x) r)
  show-append (sequence done) x r = refl
  show-append (sequence (item d ds)) x r =
      ap (λ t. b'[' ∷ t)
        (show-append d (show_items ds x) r ∙ ap (show d) (show_items-append ds x r))
  show-append (mapping closed) x r = refl
  show-append (mapping (entry k d fs)) x r =
      ap (λ t. b'{' ∷ 34 ∷ t)
        (append_assoc (escape_runes k) (34 ∷ b':' ∷ show d (show_fields fs x)) r
          ∙ ap (λ t. escape_runes k ++ (34 ∷ b':' ∷ t))
              (show-append d (show_fields fs x) r ∙ ap (show d) (show_fields-append fs x r)))

  show_items-append : (ds : Docs) (x r : Bytes) → show_items ds x ++ r ≡ show_items ds (x ++ r)
  show_items-append done x r = refl
  show_items-append (item d ds) x r =
      ap (λ t. b',' ∷ t)
        (show-append d (show_items ds x) r ∙ ap (show d) (show_items-append ds x r))

  show_fields-append :
      (fs : DocFields) (x r : Bytes) → show_fields fs x ++ r ≡ show_fields fs (x ++ r)
  show_fields-append closed x r = refl
  show_fields-append (entry k d fs) x r =
      ap (λ t. b',' ∷ 34 ∷ t)
        (append_assoc (escape_runes k) (34 ∷ b':' ∷ show d (show_fields fs x)) r
          ∙ ap (λ t. escape_runes k ++ (34 ∷ b':' ∷ t))
              (show-append d (show_fields fs x) r ∙ ap (show d) (show_fields-append fs x r)))

abbrev pub alone : Doc → Bytes
alone d = show d []

row_alone : Row Doc → Row Bytes
row_alone p = (p.0, alone p.1)

render_items-show :
    (d : Doc) (ds : List Doc)
    → render_items (map alone (d ∷ ds)) ++ (b']' ∷ []) ≡ show d (show_items (to_docs ds) [])
unfolding render_items to_docs show
render_items-show d [] = show-append d [] (b']' ∷ [])
render_items-show d (e ∷ es) =
    append_assoc (alone d) (b',' ∷ render_items (map alone (e ∷ es))) (b']' ∷ [])
    ∙ (ap (λ t. alone d ++ (b',' ∷ t)) (render_items-show e es)
        ∙ show-append d [] (b',' ∷ show e (show_items (to_docs es) [])))

sequence_text :
    (ds : List Doc)
    → bracketed b'[' b']' (render_items (map alone ds)) ≡ alone (sequence (to_docs ds))
unfolding render_items to_docs show
sequence_text [] = refl
sequence_text (d ∷ ds) = ap (λ t. b'[' ∷ t) (render_items-show d ds)

row_text :
    (k : Bytes) (d : Doc) (r : Bytes)
    → render_row (k, alone d) ++ r ≡ 34 ∷ (escape_runes (runes k) ++ (34 ∷ b':' ∷ show d r))
unfolding render_row escape
row_text k d r =
    ap (λ t. 34 ∷ t)
      (append_assoc (escape_runes (runes k) ++ (34 ∷ [])) (b':' ∷ alone d) r
        ∙ (append_assoc (escape_runes (runes k)) (34 ∷ []) (b':' ∷ (alone d ++ r))
            ∙ ap (λ t. escape_runes (runes k) ++ (34 ∷ b':' ∷ t)) (show-append d [] r)))

render_rows-show :
    (k : Bytes) (d : Doc) (ps : List (Row Doc))
    → render_items (map render_row (map row_alone ((k, d) ∷ ps))) ++ (b'}' ∷ [])
      ≡ 34 ∷ (escape_runes (runes k) ++ (34 ∷ b':' ∷ show d (show_fields (to_fields ps) [])))
unfolding render_items to_fields show row_alone
render_rows-show k d [] = row_text k d (b'}' ∷ [])
render_rows-show k d ((j, e) ∷ ps) =
    append_assoc (render_row (k, alone d))
      (b',' ∷ render_items (map render_row (map row_alone ((j, e) ∷ ps)))) (b'}' ∷ [])
    ∙ (ap (λ t. render_row (k, alone d) ++ (b',' ∷ t)) (render_rows-show j e ps)
        ∙ row_text k d (
            b','
            ∷ 34
            ∷ (escape_runes (runes j) ++ (34 ∷ b':' ∷ show e (show_fields (to_fields ps) [])))))

mapping_text :
    (ps : List (Row Doc))
    → bracketed b'{' b'}' (render_items (map render_row (map row_alone ps)))
      ≡ alone (mapping (to_fields ps))
unfolding render_items to_fields show
mapping_text [] = refl
mapping_text ((k, d) ∷ ps) = ap (λ t. b'{' ∷ t) (render_rows-show k d ps)

sort_row_alone :
    (p : Row Doc) (ps : List (Row Doc))
    → sort_row (row_alone p) (map row_alone ps) ≡ map row_alone (sort_row p ps)
unfolding sort_row row_alone
sort_row_alone p [] = refl
sort_row_alone p (q ∷ qs) = elim (Bool-cases (lex_less (utf16 (runes q.0)) (utf16 (runes p.0)))) [
  | inl e ↦ rw e (ap (λ t. row_alone q ∷ t) (sort_row_alone p qs))
  | inr e ↦ rw e refl
]

sort_rows_alone :
    (ps : List (Row Doc)) → sort_rows (map row_alone ps) ≡ map row_alone (sort_rows ps)
unfolding sort_rows
sort_rows_alone [] = refl
sort_rows_alone (p ∷ ps) =
    ap (sort_row (row_alone p)) (sort_rows_alone ps) ∙ sort_row_alone p (sort_rows ps)

escape_text : (s : Bytes) → escape s ≡ 34 ∷ (escape_runes (runes s) ++ (34 ∷ []))
unfolding escape
escape_text s = refl

arr_step :
    (a : Result Panic (List Doc))
    → ((a >>= λ ds. ok (map alone ds)) >>= λ ts. ok (bracketed b'[' b']' (render_items ts)))
      ≡ ((a >>= λ ds. ok (sequence (to_docs ds))) >>= λ d. ok (alone d))
arr_step (err e) = refl
arr_step (ok ds) = ap ok (sequence_text ds)

obj_step :
    (a : Result Panic (List (Row Doc)))
    → ((a >>= λ ps. ok (map row_alone ps)) >>= λ ps.
        ok (bracketed b'{' b'}' (render_items (map render_row (sort_rows ps)))))
      ≡ ((a >>= λ ps. ok (mapping (to_fields (sort_rows ps)))) >>= λ d. ok (alone d))
obj_step (err e) = refl
obj_step (ok ps) = ap ok (
    ap (λ t. bracketed b'{' b'}' (render_items (map render_row t))) (sort_rows_alone ps)
    ∙ mapping_text (sort_rows ps))

items_step :
    (a : Result Panic Doc) (b : Result Panic (List Doc))
    → ((a >>= λ d. ok (alone d)) >>= λ t. (b >>= λ ds. ok (map alone ds)) >>= λ ts. ok (t ∷ ts))
      ≡ ((a >>= λ d. b >>= λ ds. ok (d ∷ ds)) >>= λ ds. ok (map alone ds))
items_step (err e) b = refl
items_step (ok d) (err e) = refl
items_step (ok d) (ok ds) = refl

rows_step :
    (k : Bytes) (a : Result Panic Doc) (b : Result Panic (List (Row Doc)))
    → ((a >>= λ d. ok (alone d)) >>= λ t.
        (b >>= λ ps. ok (map row_alone ps)) >>= λ ps. ok ((k, t) ∷ ps))
      ≡ ((a >>= λ d. b >>= λ ps. ok ((k, d) ∷ ps)) >>= λ ps. ok (map row_alone ps))
unfolding row_alone
rows_step k (err e) b = refl
rows_step k (ok d) (err e) = refl
rows_step k (ok d) (ok ps) = refl

-- The text of a value is that of the document that it stands for.
mutual
  unfolding serialise doc_of show row_alone

  pub serialise-doc_of : (v : Value) → serialise v ≡ (doc_of v >>= λ d. ok (alone d))
  serialise-doc_of null = refl
  serialise-doc_of (bool b) = ap ok (sym (append-nil (truth b)))
  serialise-doc_of (int_ i) = ap ok (sym (append-nil (format_int i)))
  serialise-doc_of (text s) = ap ok (escape_text s)
  serialise-doc_of (arr xs) = rw (serialise_items-docs_of xs) (arr_step (docs_of xs))
  serialise-doc_of (obj fs) = rw (serialise_fields-rows_of fs) (obj_step (rows_of fs))
  serialise-doc_of (number s) = refl
  serialise-doc_of (float i b) = refl
  serialise-doc_of other = refl

  serialise_items-docs_of :
      (xs : Items) → serialise_items xs ≡ (docs_of xs >>= λ ds. ok (map alone ds))
  serialise_items-docs_of nil = refl
  serialise_items-docs_of (cons x xs) =
      rw (serialise-doc_of x, serialise_items-docs_of xs) (items_step (doc_of x) (docs_of xs))

  serialise_fields-rows_of :
      (fs : Fields) → serialise_fields fs ≡ (rows_of fs >>= λ ps. ok (map row_alone ps))
  serialise_fields-rows_of end = refl
  serialise_fields-rows_of (field k v fs) =
      rw (serialise-doc_of v, serialise_fields-rows_of fs) (rows_step k (doc_of v) (rows_of fs))
