-- ===== src/Digest/Read.antt =====
-- A value stands for the document that its normal form in canonical/canonical.go shows.
use veduta.Prelude.{
  ℕ, ◌+◌, ◌≡◌, refl, sym, ap, ◌∙◌, ◌≢◌, inl, inr, Bool, true, false, List, [], ◌∷◌, ◌++◌, Bytes,
  All, ok, ok-injective, Bool-cases, Option-cases, sort, dedupe, set_of-Member, Member-set_of,
  dedupe-sort, All-dedupe-sort,
}
use mathlib.Core.Path.{subst}
use veduta.Digest.Value.{
  ℤ, Value, null, bool, int_, number, float, text, other, arr, obj, Items, nil, cons, Fields, end,
  field, Step, key, place, texts,
}
use veduta.Digest.Normal.{
  is_safe, safe_or_error, read_int, contains_float_mark, is_set_like, all_texts, as_set, normalise,
  normalise_items, normalise_fields,
}
use veduta.Digest.Runes.{runes}
use veduta.Digest.Keys.{IsText}
use veduta.Digest.Text.{Row}
use veduta.Digest.Doc.{
  Doc, nothing, flag, whole, words, to_docs, to_fields, doc_of, docs_of, rows_of,
}
use veduta.Digest.Same.{
  Same, same_refl, same_number, Denotes, same_map, same_array, same_set, SameItems, same_nil,
  same_cons, SameFields, same_field, same_end, same_chain,
}
use veduta.Digest.Parts.{
  normalise_arr-inv, normalise_obj-inv, as_set-inv, all_texts_cons-inv, normalise_items_cons-inv,
  normalise_fields_field-inv, doc_of_arr-inv, doc_of_obj-inv, docs_of_cons-inv, rows_of_field-inv,
}
use veduta.Digest.Written.{
  Fresh, IsValid, ItemsValid, FieldsValid, written, written_items, fields_of, Rows, mapping-Same,
}

safe-inv : (i : ℤ) (n : Value) → safe_or_error i ≡ ok n → int_ i ≡ n
safe-inv i n h = elim (Bool-cases (is_safe i)) [
  | inl e ↦ ok-injective (rw e at h)
  | inr e ↦ cc (rw e at h)
]

as_set-ne-text : (b : Bool) (ys : Items) (s : Bytes) → as_set b ys ≢ ok (text s)
unfolding as_set
as_set-ne-text false ys s h = cc
as_set-ne-text true ys s h = let (ss, e, k) = as_set-inv ys (text s) h in cc k

-- Only a text has a text for its normal form.
normalise-text :
    (path : List Step) (x : Value) (s : Bytes) → normalise path x ≡ ok (text s) → x ≡ text s
unfolding normalise
normalise-text path (text t) s h = ok-injective h
normalise-text path null s h = cc
normalise-text path (bool b) s h = cc
normalise-text path other s h = cc
normalise-text path (int_ i) s h = cc (safe-inv i (text s) h)
normalise-text path (float i w) s h = elim (Bool-cases w) [
  | inl e ↦ cc (safe-inv i (text s) (rw e at h))
  | inr e ↦ cc (rw e at h)
]
normalise-text path (number t) s h = elim (Bool-cases (contains_float_mark t)) [
  | inl e ↦ cc (rw e at h)
  | inr e ↦ elim (Option-cases (read_int t)) [
    | inl f ↦ cc (rw (e, f) at h)
    | inr (i, f) ↦ cc (safe-inv i (text s) (rw (e, f) at h))
  ]
]
normalise-text path (arr xs) s h =
    let (ys, e, k) = normalise_arr-inv path xs (text s) h in
    absurd (as_set-ne-text (is_set_like path) ys s k)
normalise-text path (obj fs) s h = let (gs, e, k) = normalise_obj-inv path fs (text s) h in cc k

normalise_items-texts_inv :
    (path : List Step) (i : ℕ) (xs : Items) (ss : List Bytes)
    → normalise_items path i xs ≡ ok (texts ss)
    → xs ≡ texts ss
unfolding normalise
normalise_items-texts_inv path i nil [] h = refl
normalise_items-texts_inv path i nil (s ∷ ss) h = cc
normalise_items-texts_inv path i (cons x xs) [] h =
    let (n, ns, e, f, l) = normalise_items_cons-inv path i x xs nil h in cc l
normalise_items-texts_inv path i (cons x xs) (s ∷ ss) h =
    let (n, ns, e, f, l) = normalise_items_cons-inv path i x xs (texts (s ∷ ss)) h in
    let one : n ≡ text s = cc l in
    let rest : ns ≡ texts ss = cc l in
    let a = normalise-text (path ++ (place i ∷ [])) x s (e ∙ ap ok one) in
    let b = normalise_items-texts_inv path (i + 1) xs ss (f ∙ ap ok rest) in cc

all_texts-inv : (ys : Items) (ss : List Bytes) → all_texts ys ≡ ok ss → ys ≡ texts ss
unfolding all_texts
all_texts-inv nil ss h = let e : [] ≡ ss = ok-injective h in ap texts e
all_texts-inv (cons (text s) ys) ss h =
    let (ts, e, f) = all_texts_cons-inv s ys ss h in
    ap (cons (text s)) (all_texts-inv ys ts e) ∙ ap texts f
all_texts-inv (cons null ys) ss h = cc
all_texts-inv (cons (bool b) ys) ss h = cc
all_texts-inv (cons (int_ i) ys) ss h = cc
all_texts-inv (cons (number s) ys) ss h = cc
all_texts-inv (cons (float i w) ys) ss h = cc
all_texts-inv (cons other ys) ss h = cc
all_texts-inv (cons (arr xs) ys) ss h = cc
all_texts-inv (cons (obj fs) ys) ss h = cc

texts-valid : (ss : List Bytes) → ItemsValid (texts ss) → All IsText ss
unfolding IsValid
texts-valid [] h = tt
texts-valid (s ∷ ss) h = (h.0, texts-valid ss h.1)

written-texts :
    (ss : List Bytes) (ds : List Doc)
    → All IsText ss
    → docs_of (texts ss) ≡ ok ds
    → written_items (to_docs ds) ≡ texts ss
unfolding doc_of written to_docs
written-texts [] ds v h =
    let e : [] ≡ ds = ok-injective h in ap (λ t. written_items (to_docs t)) (sym e)
written-texts (s ∷ ss) ds v h =
    let (d, rest, a, e, f) = docs_of_cons-inv (text s) (texts ss) ds h in
    let one : words (runes s) ≡ d = ok-injective a in
    ap (λ t. written_items (to_docs t)) (sym f)
    ∙ ap (λ t. written_items (to_docs (t ∷ rest))) (sym one)
    ∙ rw (v.0.1, written-texts ss rest v.1 e) refl

Fresh-rows :
    (path : List Step) (k : Bytes) (fs nf : Fields) (ps : List (Row Doc))
    → Fresh k fs
    → normalise_fields path fs ≡ ok nf
    → rows_of nf ≡ ok ps
    → All (λ q. k ≢ q.0) ps
unfolding normalise doc_of
Fresh-rows path k end nf ps n h g =
    let e : end ≡ nf = ok-injective h in
    let f : [] ≡ ps = ok-injective (ap rows_of e ∙ g) in subst (λ t. All (λ q. k ≢ q.0) t) f tt
Fresh-rows path k (field j v fs) nf ps n h g =
    let (w, gs, e, f, shape) = normalise_fields_field-inv path j v fs nf h in
    let (d, qs, e', f', shape') = rows_of_field-inv j w gs ps (ap rows_of shape ∙ g) in
    subst (λ t. All (λ q. k ≢ q.0) t) shape' (n.0, Fresh-rows path k fs gs qs n.1 f f')

-- A set of texts and the sorted list of it.
sorted_set-Same :
    (path : List Step) (ss : List Bytes)
    → is_set_like path ≡ true
    → Same path (arr (texts ss)) (arr (texts (dedupe (sort ss))))
sorted_set-Same path ss is =
    same_set path ss (dedupe (sort ss)) is
      (λ s. rw (dedupe-sort ss) (Member-set_of s ss, set_of-Member s ss))

numeral :
    (path : List Step) (v : Value) (i : ℤ) (n : Value) (d : Doc)
    → Denotes v i
    → int_ i ≡ n
    → doc_of n ≡ ok d
    → Same path v (written d)
unfolding doc_of written
numeral path v i n d a e g =
    let f : whole i ≡ d = ok-injective (ap doc_of e ∙ g) in
    subst (λ t. Same path v (written t)) f (same_number path v (int_ i) i a refl)

-- An array that is a set.
set-written :
    (path : List Step) (xs ys : Items) (n : Value) (d : Doc)
    → is_set_like path ≡ true
    → ItemsValid xs
    → normalise_items path 0 xs ≡ ok ys
    → as_set true ys ≡ ok n
    → doc_of n ≡ ok d
    → Same path (arr xs) (written d)
unfolding written
set-written path xs ys n d is v e k g =
    let (ss, f, shape) = as_set-inv ys n k in
    let members : xs ≡ texts ss =
      normalise_items-texts_inv path 0 xs ss (e ∙ ap ok (all_texts-inv ys ss f)) in
    let (ds, f', shape') = doc_of_arr-inv (texts (dedupe (sort ss))) d (ap doc_of shape ∙ g) in
    let valid : All IsText ss = texts-valid ss (subst ItemsValid members v) in
    let sorted : written_items (to_docs ds) ≡ texts (dedupe (sort ss)) =
      written-texts (dedupe (sort ss)) ds (All-dedupe-sort IsText ss valid) f' in
    subst (λ t. Same path (arr xs) (written t)) shape'
      (subst (λ t. Same path (arr xs) (arr t)) (sym sorted)
        (subst (λ t. Same path (arr t) (arr (texts (dedupe (sort ss))))) (sym members)
          (sorted_set-Same path ss is)))

-- A valid value stands for the document that its normal form shows.
mutual
  unfolding normalise doc_of written IsValid to_docs to_fields as_set

  pub Same-written :
      (path : List Step) (v n : Value) (d : Doc)
      → IsValid v
      → normalise path v ≡ ok n
      → doc_of n ≡ ok d
      → Same path v (written d)
  Same-written path null n d v h g =
      let e : nothing ≡ d = ok-injective (ap doc_of (ok-injective h) ∙ g) in
      subst (λ t. Same path null (written t)) e (same_refl path null)
  Same-written path (bool b) n d v h g =
      let e : flag b ≡ d = ok-injective (ap doc_of (ok-injective h) ∙ g) in
      subst (λ t. Same path (bool b) (written t)) e (same_refl path (bool b))
  Same-written path (text s) n d v h g =
      let e : words (runes s) ≡ d = ok-injective (ap doc_of (ok-injective h) ∙ g) in
      subst (λ t. Same path (text s) (written t)) e
        (subst (λ t. Same path (text s) (text t)) (sym v.1) (same_refl path (text s)))
  Same-written path other n d v h g = cc (ap doc_of (ok-injective h) ∙ g)
  Same-written path (int_ i) n d v h g = numeral path (int_ i) i n d refl (safe-inv i n h) g
  Same-written path (float i w) n d v h g = elim (Bool-cases w) [
    | inl e ↦ numeral path (float i w) i n d (e, refl) (safe-inv i n (rw e at h)) g
    | inr e ↦ cc (rw e at h)
  ]
  Same-written path (number s) n d v h g = elim (Bool-cases (contains_float_mark s)) [
    | inl e ↦ cc (rw e at h)
    | inr e ↦ elim (Option-cases (read_int s)) [
      | inl f ↦ cc (rw (e, f) at h)
      | inr (i, f) ↦ numeral path (number s) i n d (e, f) (safe-inv i n (rw (e, f) at h)) g
    ]
  ]
  Same-written path (arr xs) n d v h g =
      let (ys, e, k) = normalise_arr-inv path xs n h in
      elim (Bool-cases (is_set_like path)) [
        | inr is ↦
            let shape : arr ys ≡ n = ok-injective (rw (as_set, is) at k) in
            let (ds, f, shape') = doc_of_arr-inv ys d (ap doc_of shape ∙ g) in
            subst (λ t. Same path (arr xs) (written t)) shape'
              (same_array path xs (written_items (to_docs ds))
                (SameItems-written path 0 xs ys ds v e f))
        | inl is ↦ set-written path xs ys n d is v e (rw is at k) g
      ]
  Same-written path (obj fs) n d v h g =
      let (nf, e, shape) = normalise_obj-inv path fs n h in
      let (ps, f, shape') = doc_of_obj-inv nf d (ap doc_of shape ∙ g) in
      let (same, rows) = SameFields-written path fs nf ps v e f in
      subst (λ t. Same path (obj fs) (written t)) shape'
        (same_map path fs _ (same_chain path fs (fields_of ps) _ same (mapping-Same path ps rows)))

  SameItems-written :
      (path : List Step) (i : ℕ) (xs ys : Items) (ds : List Doc)
      → ItemsValid xs
      → normalise_items path i xs ≡ ok ys
      → docs_of ys ≡ ok ds
      → SameItems path i xs (written_items (to_docs ds))
  SameItems-written path i nil ys ds v h g =
      let e : [] ≡ ds = ok-injective (ap docs_of (ok-injective h) ∙ g) in
      subst (λ t. SameItems path i nil (written_items (to_docs t))) e (same_nil path i)
  SameItems-written path i (cons x xs) ys ds v h g =
      let (n, ns, e, f, shape) = normalise_items_cons-inv path i x xs ys h in
      let (d, es, e', f', shape') = docs_of_cons-inv n ns ds (ap docs_of shape ∙ g) in
      subst (λ t. SameItems path i (cons x xs) (written_items (to_docs t))) shape'
        (same_cons path i x (written d) xs (written_items (to_docs es))
          (Same-written (path ++ (place i ∷ [])) x n d v.0 e e')
          (SameItems-written path (i + 1) xs ns es v.1 f f'))

  SameFields-written :
      (path : List Step) (fs nf : Fields) (ps : List (Row Doc))
      → FieldsValid fs
      → normalise_fields path fs ≡ ok nf
      → rows_of nf ≡ ok ps
      → SameFields path fs (fields_of ps) × Rows ps
  SameFields-written path end nf ps v h g =
      let e : [] ≡ ps = ok-injective (ap rows_of (ok-injective h) ∙ g) in
      subst (λ t. SameFields path end (fields_of t) × Rows t) e (same_end path, tt)
  SameFields-written path (field k x fs) nf ps v h g =
      let (w, gs, e, f, shape) = normalise_fields_field-inv path k x fs nf h in
      let (d, qs, e', f', shape') = rows_of_field-inv k w gs ps (ap rows_of shape ∙ g) in
      let (same, rows) = SameFields-written path fs gs qs v.3 f f' in
      subst (λ t. SameFields path (field k x fs) (fields_of t) × Rows t) shape'
        (
          same_field path k x (written d) fs (fields_of qs)
              (Same-written (path ++ (key k ∷ [])) x w d v.2 e e') same,
          (v.0, Fresh-rows path k fs gs qs v.1 f f', rows),
        )
