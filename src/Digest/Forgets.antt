-- ===== src/Digest/Forgets.antt =====
-- The digest of canonical/canonical.go forgets the order of maps, and of the arrays that are sets.
use veduta.Prelude.{
  ℕ, ◌+◌, ◌≡◌, refl, sym, ap, ◌∙◌, ◌≢◌, Bool, true, false, List, [], ◌∷◌, ◌++◌, Bytes, Result, ok,
  >>=-eq-ok, ok-injective, sort, dedupe, dedupe-sort_iff, String,
}
use veduta.Digest.Value.{
  ℤ, Value, null, bool, int_, number, float, text, other, arr, obj, Items, cons, Fields, field,
  Step, key, place, DigestError, texts,
}
use veduta.Digest.Normal.{
  is_set_like, all_texts, as_set, safe_or_error, normalise, normalise_items, normalise_fields,
}
use veduta.Digest.Text.{serialise, hashed, digest}
use veduta.Digest.Keys.{IsText}
use veduta.Digest.Same.{
  Same, same_refl, same_trans, same_number, Denotes, same_map, same_array, same_set, SameItems,
  same_nil, same_cons, SameFields, same_end, same_field, same_swap, same_chain,
}
use veduta.Digest.Like.{
  sorted, sorted_swap, sorted-field_congr, ItemsLike-cons, map_Like, array_Like, Like-refl,
  Like-trans, carry, Like, ItemsLike,
}

abbrev Outcome : (Value → Type 0) → Result DigestError Value → Type 0
Outcome P r = (n : Value) × (r ≡ ok n) × P n

as_set-Like :
    (b : Bool) (xs ys : Items) (n : Value)
    → ItemsLike xs ys
    → as_set b xs ≡ ok n
    → Outcome (Like n) (as_set b ys)
unfolding as_set
as_set-Like false xs ys n l h = (arr ys, refl, carry (λ t. Like t (arr ys)) h (array_Like xs ys l))
as_set-Like true xs ys n l h = (n, rw (← l.same_kind) h, Like-refl n)

all_texts-texts : (ss : List Bytes) → all_texts (texts ss) ≡ ok ss
unfolding all_texts
all_texts-texts [] = refl
all_texts-texts (s ∷ ss) = rw (all_texts-texts ss) refl

normalise_items-texts :
    (path : List Step) (i : ℕ) (ss : List Bytes) → normalise_items path i (texts ss) ≡ ok (texts ss)
unfolding normalise
normalise_items-texts path i [] = refl
normalise_items-texts path i (s ∷ ss) = rw (normalise_items-texts path (i + 1) ss) refl

normalise-set :
    (path : List Step) (ss : List Bytes)
    → is_set_like path ≡ true
    → normalise path (arr (texts ss)) ≡ ok (arr (texts (dedupe (sort ss))))
unfolding normalise as_set
normalise-set path ss h = rw (normalise_items-texts path 0 ss, h, all_texts-texts ss) refl

normalise_fields-ok :
    (path : List Step) (k : Bytes) (v w : Value) (fs gs : Fields)
    → normalise (path ++ (key k ∷ [])) v ≡ ok w
    → normalise_fields path fs ≡ ok gs
    → normalise_fields path (field k v fs) ≡ ok (field k w gs)
unfolding normalise
normalise_fields-ok path k v w fs gs h f = rw (h, f) refl

record FieldParts (path : List Step) (k : Bytes) (v : Value) (fs nf : Fields) : Type 0 where
  value : Value
  rest : Fields
  value_of : normalise (path ++ (key k ∷ [])) v ≡ ok value
  rest_of : normalise_fields path fs ≡ ok rest
  whole : nf ≡ field k value rest

normalise_fields-inv :
    (path : List Step) (k : Bytes) (v : Value) (fs nf : Fields)
    → normalise_fields path (field k v fs) ≡ ok nf
    → FieldParts path k v fs nf
unfolding normalise
normalise_fields-inv path k v fs nf h =
    let (w, e, l) = >>=-eq-ok _ _ h in
    let (gs, f, m) = >>=-eq-ok _ _ l in
    record { value = w; rest = gs; value_of = e; rest_of = f; whole = sym (ok-injective m) }

-- Two neighbours change places.
swap_outcome :
    (path : List Step) (k j : Bytes) (v w : Value) (fs nf : Fields)
    → IsText k
    → IsText j
    → k ≢ j
    → normalise_fields path (field k v (field j w fs)) ≡ ok nf
    → (ng : Fields) × (normalise_fields path (field j w (field k v fs)) ≡ ok ng)
      × (sorted nf ≡ sorted ng)
swap_outcome path k j v w fs nf p q d h =
    let a = normalise_fields-inv path k v (field j w fs) nf h in
    let b = normalise_fields-inv path j w fs a.rest a.rest_of in
    (
      field j b.value (field k a.value b.rest),
      normalise_fields-ok path j w b.value _ _ b.value_of
          (normalise_fields-ok path k v a.value fs b.rest a.value_of b.rest_of),
      ap sorted (a.whole ∙ ap (field k a.value) b.whole)
          ∙ sorted_swap k j a.value b.value b.rest p q d,
    )

pub Denotes-normalise :
    (path : List Step) (v : Value) (i : ℤ) → Denotes v i → normalise path v ≡ safe_or_error i
unfolding normalise
Denotes-normalise path (int_ j) i h = ap safe_or_error h
Denotes-normalise path (number s) i h = rw (h.0, h.1) refl
Denotes-normalise path (float j whole) i h = rw (h.0, h.1) refl
Denotes-normalise path null i h = absurd h
Denotes-normalise path (bool b) i h = absurd h
Denotes-normalise path (text s) i h = absurd h
Denotes-normalise path other i h = absurd h
Denotes-normalise path (arr xs) i h = absurd h
Denotes-normalise path (obj fs) i h = absurd h

-- Documents that stand for one have normal forms that the canonical text does not tell apart.
mutual
  unfolding normalise as_set

  normalise-Like :
      (path : List Step) (v w n : Value)
      → Same path v w
      → normalise path v ≡ ok n
      → Outcome (Like n) (normalise path w)
  normalise-Like path v w n (same_refl _ _) h = (n, h, Like-refl n)
  normalise-Like path u w n (same_trans _ _ v _ a b) h =
      let (n', e, l) = normalise-Like path u v n a h in
      let (n'', e', l') = normalise-Like path v w n' b e in (n'', e', Like-trans n n' n'' l l')
  normalise-Like path v w n (same_number _ _ _ i a b) h =
      (n, Denotes-normalise path w i b ∙ (sym (Denotes-normalise path v i a) ∙ h), Like-refl n)
  normalise-Like path v w n (same_map _ fs gs a) h =
      let (nf, e, k) = >>=-eq-ok _ _ h in
      let (ng, e', l) = normalise_fields-Like path fs gs nf a e in
      (obj ng, rw e' refl, carry (λ t. Like t (obj ng)) k (map_Like nf ng l))
  normalise-Like path v w n (same_array _ xs ys a) h =
      let (nx, e, k) = >>=-eq-ok _ _ h in
      let (ny, e', l) = normalise_items-Like path 0 xs ys nx a e in
      let (n', f, m) = as_set-Like (is_set_like path) nx ny n l k in (n', rw e' f, m)
  normalise-Like path v w n (same_set _ ss ts is h') h = (
    n,
    normalise-set path ts is
        ∙ (ap (λ t. ok (arr (texts t))) (sym ((dedupe-sort_iff ss ts).1 h'))
            ∙ (sym (normalise-set path ss is) ∙ h)),
    Like-refl n,
  )

  normalise_items-Like :
      (path : List Step) (i : ℕ) (xs ys nx : Items)
      → SameItems path i xs ys
      → normalise_items path i xs ≡ ok nx
      → (ny : Items) × (normalise_items path i ys ≡ ok ny) × ItemsLike nx ny
  normalise_items-Like path i xs ys nx (same_nil _ _) h =
      (nx, h, record { same_text = refl; same_kind = refl })
  normalise_items-Like path i _ _ nx (same_cons _ _ x y xs ys a b) h =
      let (n, e, k) = >>=-eq-ok _ _ h in
      let (ns, f, l) = >>=-eq-ok _ _ k in
      let (n', e', p) = normalise-Like (path ++ (place i ∷ [])) x y n a e in
      let (ns', f', q) = normalise_items-Like path (i + 1) xs ys ns b f in
      (
        cons n' ns',
        rw (e', f') refl,
        carry (λ t. ItemsLike t (cons n' ns')) l (ItemsLike-cons n n' ns ns' p q),
      )

  normalise_fields-Like :
      (path : List Step) (fs gs nf : Fields)
      → SameFields path fs gs
      → normalise_fields path fs ≡ ok nf
      → (ng : Fields) × (normalise_fields path gs ≡ ok ng) × (sorted nf ≡ sorted ng)
  normalise_fields-Like path fs gs nf (same_end _) h = (nf, h, refl)
  normalise_fields-Like path _ _ nf (same_field _ k v w fs gs a b) h =
      let c = normalise_fields-inv path k v fs nf h in
      let (w', e, l) = normalise-Like (path ++ (key k ∷ [])) v w c.value a c.value_of in
      let (gs', f, m) = normalise_fields-Like path fs gs c.rest b c.rest_of in
      (
        field k w' gs',
        normalise_fields-ok path k w w' gs gs' e f,
        ap sorted c.whole ∙ sorted-field_congr k c.value w' c.rest gs' l.same_text m,
      )
  normalise_fields-Like path _ _ nf (same_swap _ k j v w fs p q d) h =
      swap_outcome path k j v w fs nf p q d h
  normalise_fields-Like path fs hs nf (same_chain _ _ gs _ a b) h =
      let (ng, e, l) = normalise_fields-Like path fs gs nf a h in
      let (nh, e', l') = normalise_fields-Like path gs hs ng b e in (nh, e', l ∙ l')

-- The digest forgets the order in which the keys of a map are written, at any depth, and the
-- order and the repeats of the arrays at the paths that stand for sets, and the types of integers: a
-- document that differs from another in nothing else has the same digest, where that has one.
pub digest-Same :
    (sha : Bytes → String) (v w : Value) (d : String)
    → Same [] v w
    → digest sha v ≡ ok d
    → digest sha w ≡ ok d
unfolding digest
digest-Same sha v w d s h =
    let (n, e, k) = >>=-eq-ok _ _ h in
    let (n', e', l) = normalise-Like [] v w n s e in
    let f : digest sha w ≡ hashed sha (serialise n') = rw e' refl in
    f ∙ (ap (hashed sha) (sym l.same_text) ∙ k)
