-- ===== src/Digest/Panics.antt =====
-- Where the digest of canonical/canonical.go panics.
use veduta.Prelude.{
  ℕ, ◌+◌, ◌≡◌, refl, sym, ap, ◌∙◌, ◌↔◌, inl, inr, Bool, true, false, ◌||◌, Option, none, some, List,
  [], ◌∷◌, ◌++◌, Bytes, Result, ok, err, ◌>>=◌, >>=-eq-ok, ok-injective, guard-inv, Bool-cases,
  sort, dedupe, String,
}
use veduta.Digest.Value.{
  ℤ, Value, null, bool, int_, number, float, text, other, arr, obj, Items, nil, cons, Fields, end,
  field, Step, key, place, DigestError, panicked, texts,
}
use veduta.Digest.Normal.{
  is_safe, read_int, safe_or_error, read_safe, is_set_like, all_texts, as_set, normalise,
  normalise_items, normalise_fields,
}
use veduta.Digest.Text.{
  Panic, unexpected_type, serialise, serialise_items, serialise_fields, hashed, digest,
}

-- A value of an unexpected type stands somewhere in the document.
unfoldable mutual
  pub has_other : Value → Bool
  has_other other = true
  has_other (arr xs) = has_other_items xs
  has_other (obj fs) = has_other_fields fs
  has_other null = false
  has_other (bool b) = false
  has_other (int_ i) = false
  has_other (number s) = false
  has_other (float i w) = false
  has_other (text s) = false

  pub has_other_items : Items → Bool
  has_other_items nil = false
  has_other_items (cons x xs) = has_other x || has_other_items xs

  pub has_other_fields : Fields → Bool
  has_other_fields end = false
  has_other_fields (field k v fs) = has_other v || has_other_fields fs

is_err : {A : Type 0} → Result Panic A → Bool
is_err (ok a) = false
is_err (err e) = true

is_err_map :
    {A B : Type 0} (r : Result Panic A) (f : A → B) → is_err (r >>= λ a. ok (f a)) ≡ is_err r
unfolding is_err
is_err_map (ok a) f = refl
is_err_map (err e) f = refl

is_err_both :
    {A B C : Type 0} (r : Result Panic A) (s : Result Panic B) (f : A → B → C)
    → is_err (r >>= λ a. s >>= λ b. ok (f a b)) ≡ (is_err r || is_err s)
unfolding is_err
is_err_both (ok a) (ok b) f = refl
is_err_both (ok a) (err e) f = refl
is_err_both (err e) s f = refl

carry :
    {A : Type 0} (f : A → Bool) {a b : A} {c : Bool}
    → ◌≡◌ {A = Result DigestError A} (ok a) (ok b)
    → f a ≡ c
    → f b ≡ c
carry f e p = ap f (sym (ok-injective e)) ∙ p

text_fails : Value → Bool
text_fails n = is_err (serialise n)

items_fail : Items → Bool
items_fail xs = is_err (serialise_items xs)

fields_fail : Fields → Bool
fields_fail fs = is_err (serialise_fields fs)

safe_panics : (i : ℤ) {n : Value} → safe_or_error i ≡ ok n → is_err (serialise n) ≡ false
unfolding is_err serialise
safe_panics i {n} h = elim (Bool-cases (is_safe i)) [
  | inl e ↦ by_value (rw e at h)
  | inr e ↦ cc (rw e at h)
]
  where
    by_value :
        ◌≡◌ {A = Result DigestError Value} (ok (int_ i)) (ok n) → is_err (serialise n) ≡ false
    by_value k = rw (← (ok-injective k)) refl

read_panics : (o : Option ℤ) {n : Value} → read_safe o ≡ ok n → is_err (serialise n) ≡ false
read_panics none h = cc
read_panics (some i) h = safe_panics i h

texts_panic : (ss : List Bytes) → is_err (serialise_items (texts ss)) ≡ false
unfolding is_err serialise
texts_panic [] = refl
texts_panic (s ∷ ss) = is_err_map (serialise_items (texts ss)) (λ ts. _ ∷ ts) ∙ texts_panic ss

all_texts-panics :
    (xs : Items) {ss : List Bytes} → all_texts xs ≡ ok ss → is_err (serialise_items xs) ≡ false
unfolding is_err serialise all_texts
all_texts-panics nil h = refl
all_texts-panics (cons (text s) xs) h =
    let (ss, e, k) = >>=-eq-ok _ _ h in
    is_err_map (serialise_items xs) (λ ts. _ ∷ ts) ∙ all_texts-panics xs e
all_texts-panics (cons null xs) h = cc
all_texts-panics (cons (bool b) xs) h = cc
all_texts-panics (cons (int_ i) xs) h = cc
all_texts-panics (cons (number s) xs) h = cc
all_texts-panics (cons (float i w) xs) h = cc
all_texts-panics (cons other xs) h = cc
all_texts-panics (cons (arr x) xs) h = cc
all_texts-panics (cons (obj x) xs) h = cc

arr_panics :
    (b : Bool) (ys : Items) {n : Value}
    → as_set b ys ≡ ok n
    → is_err (serialise n) ≡ is_err (serialise_items ys)
unfolding as_set serialise text_fails
arr_panics false ys h = carry text_fails h (is_err_map (serialise_items ys) _)
arr_panics true ys h =
    let (ss, e, k) = >>=-eq-ok _ _ h in
    carry text_fails k (
      is_err_map (serialise_items (texts (dedupe (sort ss)))) _
      ∙ (texts_panic (dedupe (sort ss)) ∙ sym (all_texts-panics ys e)))

both : {a b c d : Bool} → a ≡ c → b ≡ d → (a || b) ≡ (c || d)
both p q = rw (p, q) refl

-- A normal form has no text exactly where the document holds a value of an unexpected type.
mutual
  unfolding normalise has_other serialise is_err text_fails items_fail fields_fail

  normalise-panics :
      (path : List Step) (v : Value) {n : Value}
      → normalise path v ≡ ok n
      → is_err (serialise n) ≡ has_other v
  normalise-panics path null h = carry text_fails h refl
  normalise-panics path (bool b) h = carry text_fails h refl
  normalise-panics path (int_ i) h = safe_panics i h
  normalise-panics path (number s) h = let (a, k) = guard-inv _ _ _ h in read_panics (read_int s) k
  normalise-panics path (float i w) h = let (a, k) = guard-inv _ _ _ h in safe_panics i k
  normalise-panics path (text s) h = carry text_fails h refl
  normalise-panics path other h = carry text_fails h refl
  normalise-panics path (arr xs) h =
      let (ys, e, k) = >>=-eq-ok _ _ h in
      arr_panics (is_set_like path) ys k ∙ normalise_items-panics path 0 xs e
  normalise-panics path (obj fs) h =
      let (gs, e, k) = >>=-eq-ok _ _ h in
      carry text_fails k (is_err_map (serialise_fields gs) _ ∙ normalise_fields-panics path fs e)

  normalise_items-panics :
      (path : List Step) (i : ℕ) (xs : Items) {ys : Items}
      → normalise_items path i xs ≡ ok ys
      → is_err (serialise_items ys) ≡ has_other_items xs
  normalise_items-panics path i nil h = carry items_fail h refl
  normalise_items-panics path i (cons x xs) h =
      let (y, e, k) = >>=-eq-ok _ _ h in
      let (ys, f, l) = >>=-eq-ok _ _ k in
      carry items_fail l (
        is_err_both (serialise y) (serialise_items ys) _
        ∙ both (normalise-panics (path ++ (place i ∷ [])) x e)
            (normalise_items-panics path (i + 1) xs f))

  normalise_fields-panics :
      (path : List Step) (fs : Fields) {gs : Fields}
      → normalise_fields path fs ≡ ok gs
      → is_err (serialise_fields gs) ≡ has_other_fields fs
  normalise_fields-panics path end h = carry fields_fail h refl
  normalise_fields-panics path (field k v fs) h =
      let (w, e, j) = >>=-eq-ok _ _ h in
      let (gs, f, l) = >>=-eq-ok _ _ j in
      carry fields_fail l (
        is_err_both (serialise w) (serialise_fields gs) _
        ∙ both (normalise-panics (path ++ (key k ∷ [])) v e) (normalise_fields-panics path fs f))

hashed-panics :
    (sha : Bytes → String) (r : Result Panic Bytes)
    → (hashed sha r ≡ err panicked) ↔ (is_err r ≡ true)
unfolding is_err
hashed-panics sha (ok t) = (λ h. cc, λ h. cc)
hashed-panics sha (err unexpected_type) = (λ h. refl, λ h. refl)

-- The digest of a document that normalises panics exactly when the document holds a value of a type that
-- the canonical form does not know, such as a time.
pub digest-panics_iff :
    (sha : Bytes → String) (v n : Value)
    → normalise [] v ≡ ok n
    → (digest sha v ≡ err panicked) ↔ (has_other v ≡ true)
unfolding digest
digest-panics_iff sha v n h = rw h (
  λ k. sym e ∙ (hashed-panics sha (serialise n)).0 k,
  λ k. (hashed-panics sha (serialise n)).1 (e ∙ k),
)
  where
    e : is_err (serialise n) ≡ has_other v
    e = normalise-panics [] v h
