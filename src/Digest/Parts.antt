-- ===== src/Digest/Parts.antt =====
-- What an ok of normalise or of a document says of the parts (canonical/canonical.go).
use veduta.Prelude.{
  ℕ, ◌+◌, ◌≡◌, true, List, [], ◌∷◌, ◌++◌, Bytes, ok, >>=-eq-ok, ok-injective, sort, dedupe,
}
use veduta.Digest.Value.{Value, text, arr, obj, Items, cons, Fields, field, Step, key, place, texts}
use veduta.Digest.Normal.{
  is_set_like, all_texts, as_set, normalise, normalise_items, normalise_fields,
}
use veduta.Digest.Text.{Row, sort_rows}
use veduta.Digest.Doc.{Doc, sequence, mapping, to_docs, to_fields, doc_of, docs_of, rows_of}

pub normalise_arr-inv :
    (path : List Step) (xs : Items) (n : Value)
    → normalise path (arr xs) ≡ ok n
    → (ys : Items) × (normalise_items path 0 xs ≡ ok ys) × (as_set (is_set_like path) ys ≡ ok n)
unfolding normalise
normalise_arr-inv path xs n h = let (ys, e, k) = >>=-eq-ok _ _ h in (ys, e, k)

pub normalise_obj-inv :
    (path : List Step) (fs : Fields) (n : Value)
    → normalise path (obj fs) ≡ ok n
    → (gs : Fields) × (normalise_fields path fs ≡ ok gs) × (obj gs ≡ n)
unfolding normalise
normalise_obj-inv path fs n h = let (gs, e, k) = >>=-eq-ok _ _ h in (gs, e, ok-injective k)

pub as_set-inv :
    (ys : Items) (n : Value)
    → as_set true ys ≡ ok n
    → (ss : List Bytes) × (all_texts ys ≡ ok ss) × (arr (texts (dedupe (sort ss))) ≡ n)
unfolding as_set
as_set-inv ys n h = let (ss, e, k) = >>=-eq-ok _ _ h in (ss, e, ok-injective k)

pub all_texts_cons-inv :
    (s : Bytes) (ys : Items) (ss : List Bytes)
    → all_texts (cons (text s) ys) ≡ ok ss
    → (ts : List Bytes) × (all_texts ys ≡ ok ts) × (s ∷ ts ≡ ss)
unfolding all_texts
all_texts_cons-inv s ys ss h = let (ts, e, k) = >>=-eq-ok _ _ h in (ts, e, ok-injective k)

pub normalise_items_cons-inv :
    (path : List Step) (i : ℕ) (x : Value) (xs ys : Items)
    → normalise_items path i (cons x xs) ≡ ok ys
    → (n : Value) × (ns : Items) × (normalise (path ++ (place i ∷ [])) x ≡ ok n)
      × (normalise_items path (i + 1) xs ≡ ok ns)
      × (cons n ns ≡ ys)
unfolding normalise
normalise_items_cons-inv path i x xs ys h =
    let (n, e, k) = >>=-eq-ok _ _ h in
    let (ns, f, l) = >>=-eq-ok _ _ k in (n, ns, e, f, ok-injective l)

pub normalise_fields_field-inv :
    (path : List Step) (k : Bytes) (v : Value) (fs gs : Fields)
    → normalise_fields path (field k v fs) ≡ ok gs
    → (w : Value) × (hs : Fields) × (normalise (path ++ (key k ∷ [])) v ≡ ok w)
      × (normalise_fields path fs ≡ ok hs)
      × (field k w hs ≡ gs)
unfolding normalise
normalise_fields_field-inv path k v fs gs h =
    let (w, e, l) = >>=-eq-ok _ _ h in
    let (hs, f, m) = >>=-eq-ok _ _ l in (w, hs, e, f, ok-injective m)

pub doc_of_arr-inv :
    (ys : Items) (d : Doc)
    → doc_of (arr ys) ≡ ok d
    → (ds : List Doc) × (docs_of ys ≡ ok ds) × (sequence (to_docs ds) ≡ d)
unfolding doc_of
doc_of_arr-inv ys d h = let (ds, e, k) = >>=-eq-ok _ _ h in (ds, e, ok-injective k)

pub doc_of_obj-inv :
    (gs : Fields) (d : Doc)
    → doc_of (obj gs) ≡ ok d
    → (ps : List (Row Doc)) × (rows_of gs ≡ ok ps) × (mapping (to_fields (sort_rows ps)) ≡ d)
unfolding doc_of
doc_of_obj-inv gs d h = let (ps, e, k) = >>=-eq-ok _ _ h in (ps, e, ok-injective k)

pub docs_of_cons-inv :
    (x : Value) (xs : Items) (ds : List Doc)
    → docs_of (cons x xs) ≡ ok ds
    → (d : Doc) × (es : List Doc) × (doc_of x ≡ ok d) × (docs_of xs ≡ ok es) × (d ∷ es ≡ ds)
unfolding doc_of
docs_of_cons-inv x xs ds h =
    let (d, e, k) = >>=-eq-ok _ _ h in
    let (es, f, l) = >>=-eq-ok _ _ k in (d, es, e, f, ok-injective l)

pub rows_of_field-inv :
    (k : Bytes) (v : Value) (fs : Fields) (ps : List (Row Doc))
    → rows_of (field k v fs) ≡ ok ps
    → (d : Doc) × (qs : List (Row Doc)) × (doc_of v ≡ ok d)
      × (rows_of fs ≡ ok qs)
      × ((k, d) ∷ qs ≡ ps)
unfolding doc_of
rows_of_field-inv k v fs ps h =
    let (d, e, l) = >>=-eq-ok _ _ h in
    let (qs, f, m) = >>=-eq-ok _ _ l in (d, qs, e, f, ok-injective m)
