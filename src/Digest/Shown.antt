-- ===== src/Digest/Shown.antt =====
-- The canonical text of a document can be read in one way only.
use veduta.Prelude.{
  ℕ, ◌≡◌, refl, sym, ap, ◌∙◌, ◌≢◌, Bool, true, false, [], ◌∷◌, ◌++◌, arith, Bytes, ◌==◌,
  if◌then◌else◌,
}
use veduta.Digest.Text.{format_int}
use veduta.Digest.Numbers.{Stops, begins, is_number_lead, format_int-begins, format_int-injective}
use veduta.Digest.Strings.{escape_runes-injective}
use veduta.Digest.Doc.{
  Doc, nothing, flag, whole, words, sequence, mapping, Docs, done, item, DocFields, closed, entry,
  truth, show, show_items, show_fields,
}

-- The kind of a document, and the kind that the first byte of a text announces.
kind : Doc → ℕ
kind nothing = 0
kind (flag b) = 1
kind (whole i) = 2
kind (words s) = 3
kind (sequence ds) = 4
kind (mapping fs) = 5

byte_kind : ℕ → ℕ
byte_kind c =
    if c == b'n'
    then 0
    else if c == b't'
    then 1
    else if c == b'f'
    then 1
    else if c == 34
    then 3
    else if c == b'['
    then 4
    else if c == b'{'
    then 5
    else if is_number_lead c
    then 2
    else 6

text_kind : Bytes → ℕ
text_kind [] = 6
text_kind (c ∷ cs) = byte_kind c

number_kind : (t : Bytes) → begins is_number_lead t ≡ true → text_kind t ≡ 2
unfolding text_kind byte_kind
number_kind [] h = cc
number_kind (c ∷ cs) h = ground arith

text_kind-show : (d : Doc) (r : Bytes) → text_kind (show d r) ≡ kind d
unfolding text_kind byte_kind kind show
text_kind-show nothing r = refl
text_kind-show (flag true) r = refl
text_kind-show (flag false) r = refl
text_kind-show (whole i) r = number_kind (format_int i ++ r) (format_int-begins i r)
text_kind-show (words s) r = refl
text_kind-show (sequence done) r = refl
text_kind-show (sequence (item d ds)) r = refl
text_kind-show (mapping closed) r = refl
text_kind-show (mapping (entry k d fs)) r = refl

same_kind : (d e : Doc) (r s : Bytes) → show d r ≡ show e s → kind d ≡ kind e
same_kind d e r s h = sym (text_kind-show d r) ∙ (ap text_kind h ∙ text_kind-show e s)

-- No document begins with a closing bracket.
show-ne-close : (d : Doc) (r s : Bytes) → show d r ≢ b']' ∷ s
unfolding text_kind byte_kind kind
show-ne-close nothing r s h =
    absurd (omega (arith, sym (text_kind-show nothing r) ∙ ap text_kind h))
show-ne-close (flag b) r s h =
    absurd (omega (arith, sym (text_kind-show (flag b) r) ∙ ap text_kind h))
show-ne-close (whole i) r s h =
    absurd (omega (arith, sym (text_kind-show (whole i) r) ∙ ap text_kind h))
show-ne-close (words t) r s h =
    absurd (omega (arith, sym (text_kind-show (words t) r) ∙ ap text_kind h))
show-ne-close (sequence ds) r s h =
    absurd (omega (arith, sym (text_kind-show (sequence ds) r) ∙ ap text_kind h))
show-ne-close (mapping fs) r s h =
    absurd (omega (arith, sym (text_kind-show (mapping fs) r) ∙ ap text_kind h))

flag-injective : (a b : Bool) (r s : Bytes) → truth a ++ r ≡ truth b ++ s → (a ≡ b) × (r ≡ s)
flag-injective true true r s h = (refl, cc)
flag-injective true false r s h = ground arith
flag-injective false true r s h = ground arith
flag-injective false false r s h = (refl, cc)

items_Stops : (ds : Docs) (r : Bytes) → Stops (show_items ds r)
unfolding show
items_Stops done r = refl
items_Stops (item d ds) r = refl

fields_Stops : (fs : DocFields) (r : Bytes) → Stops (show_fields fs r)
unfolding show
fields_Stops closed r = refl
fields_Stops (entry k d fs) r = refl

after : {c d : ℕ} {r s : Bytes} → c ∷ r ≡ d ∷ s → r ≡ s
after h = cc

-- The text of a document tells it from every other, and ends where the document ends.
mutual
  unfolding show kind

  pub show-injective :
      (d e : Doc) (r s : Bytes) → Stops r → Stops s → show d r ≡ show e s → (d ≡ e) × (r ≡ s)
  show-injective nothing nothing r u stop stop2 h = (refl, cc)
  show-injective nothing (flag b2) r u stop stop2 h =
      absurd (omega (arith, same_kind nothing (flag b2) r u h))
  show-injective nothing (whole i2) r u stop stop2 h =
      absurd (omega (arith, same_kind nothing (whole i2) r u h))
  show-injective nothing (words s2) r u stop stop2 h =
      absurd (omega (arith, same_kind nothing (words s2) r u h))
  show-injective nothing (sequence ds2) r u stop stop2 h =
      absurd (omega (arith, same_kind nothing (sequence ds2) r u h))
  show-injective nothing (mapping fs2) r u stop stop2 h =
      absurd (omega (arith, same_kind nothing (mapping fs2) r u h))
  show-injective (flag b) nothing r u stop stop2 h =
      absurd (omega (arith, same_kind (flag b) nothing r u h))
  show-injective (flag b) (flag b2) r u p q h =
      let (e, f) = flag-injective b b2 r u h in (ap flag e, f)
  show-injective (flag b) (whole i2) r u stop stop2 h =
      absurd (omega (arith, same_kind (flag b) (whole i2) r u h))
  show-injective (flag b) (words s2) r u stop stop2 h =
      absurd (omega (arith, same_kind (flag b) (words s2) r u h))
  show-injective (flag b) (sequence ds2) r u stop stop2 h =
      absurd (omega (arith, same_kind (flag b) (sequence ds2) r u h))
  show-injective (flag b) (mapping fs2) r u stop stop2 h =
      absurd (omega (arith, same_kind (flag b) (mapping fs2) r u h))
  show-injective (whole i) nothing r u stop stop2 h =
      absurd (omega (arith, same_kind (whole i) nothing r u h))
  show-injective (whole i) (flag b2) r u stop stop2 h =
      absurd (omega (arith, same_kind (whole i) (flag b2) r u h))
  show-injective (whole i) (whole i2) r u stop stop2 h =
      let (e, f) = format_int-injective i i2 r u stop stop2 h in (ap whole e, f)
  show-injective (whole i) (words s2) r u stop stop2 h =
      absurd (omega (arith, same_kind (whole i) (words s2) r u h))
  show-injective (whole i) (sequence ds2) r u stop stop2 h =
      absurd (omega (arith, same_kind (whole i) (sequence ds2) r u h))
  show-injective (whole i) (mapping fs2) r u stop stop2 h =
      absurd (omega (arith, same_kind (whole i) (mapping fs2) r u h))
  show-injective (words s) nothing r u stop stop2 h =
      absurd (omega (arith, same_kind (words s) nothing r u h))
  show-injective (words s) (flag b2) r u stop stop2 h =
      absurd (omega (arith, same_kind (words s) (flag b2) r u h))
  show-injective (words s) (whole i2) r u stop stop2 h =
      absurd (omega (arith, same_kind (words s) (whole i2) r u h))
  show-injective (words s) (words s2) r u stop stop2 h =
      let (e, f) = escape_runes-injective s s2 r u (after h) in (ap words e, f)
  show-injective (words s) (sequence ds2) r u stop stop2 h =
      absurd (omega (arith, same_kind (words s) (sequence ds2) r u h))
  show-injective (words s) (mapping fs2) r u stop stop2 h =
      absurd (omega (arith, same_kind (words s) (mapping fs2) r u h))
  show-injective (sequence ds) nothing r u stop stop2 h =
      absurd (omega (arith, same_kind (sequence ds) nothing r u h))
  show-injective (sequence ds) (flag b2) r u stop stop2 h =
      absurd (omega (arith, same_kind (sequence ds) (flag b2) r u h))
  show-injective (sequence ds) (whole i2) r u stop stop2 h =
      absurd (omega (arith, same_kind (sequence ds) (whole i2) r u h))
  show-injective (sequence ds) (words s2) r u stop stop2 h =
      absurd (omega (arith, same_kind (sequence ds) (words s2) r u h))
  show-injective (sequence done) (sequence done) r u stop stop2 h = (refl, cc)
  show-injective (sequence done) (sequence (item e es)) r u stop stop2 h =
      absurd (show-ne-close e (show_items es u) r (sym (after h)))
  show-injective (sequence (item d ds)) (sequence done) r u stop stop2 h =
      absurd (show-ne-close d (show_items ds r) u (after h))
  show-injective (sequence (item d ds)) (sequence (item e es)) r u stop stop2 h =
      let (p, k) =
        show-injective d e (show_items ds r) (show_items es u) (items_Stops ds r) (items_Stops es u)
          (after h) in
      let (q, l) = show_items-injective ds es r u k in (cc, l)
  show-injective (sequence ds) (mapping fs2) r u stop stop2 h =
      absurd (omega (arith, same_kind (sequence ds) (mapping fs2) r u h))
  show-injective (mapping fs) nothing r u stop stop2 h =
      absurd (omega (arith, same_kind (mapping fs) nothing r u h))
  show-injective (mapping fs) (flag b2) r u stop stop2 h =
      absurd (omega (arith, same_kind (mapping fs) (flag b2) r u h))
  show-injective (mapping fs) (whole i2) r u stop stop2 h =
      absurd (omega (arith, same_kind (mapping fs) (whole i2) r u h))
  show-injective (mapping fs) (words s2) r u stop stop2 h =
      absurd (omega (arith, same_kind (mapping fs) (words s2) r u h))
  show-injective (mapping fs) (sequence ds2) r u stop stop2 h =
      absurd (omega (arith, same_kind (mapping fs) (sequence ds2) r u h))
  show-injective (mapping closed) (mapping closed) r u stop stop2 h = (refl, cc)
  show-injective (mapping closed) (mapping (entry k e es)) r u stop stop2 h = ground arith
  show-injective (mapping (entry k d ds)) (mapping closed) r u stop stop2 h = ground arith
  show-injective (mapping (entry k d ds)) (mapping (entry l e es)) r u stop stop2 h =
      let (x, y) = escape_runes-injective k l _ _ (after (after h)) in
      let (p, z) =
        show-injective d e (show_fields ds r) (show_fields es u) (fields_Stops ds r)
          (fields_Stops es u) (after y) in
      let (q, w) = show_fields-injective ds es r u z in (cc, w)

  show_items-injective :
      (ds es : Docs) (r s : Bytes) → show_items ds r ≡ show_items es s → (ds ≡ es) × (r ≡ s)
  show_items-injective done done r u h = (refl, cc)
  show_items-injective done (item e es) r u h = ground arith
  show_items-injective (item d ds) done r u h = ground arith
  show_items-injective (item d ds) (item e es) r u h =
      let (p, k) =
        show-injective d e (show_items ds r) (show_items es u) (items_Stops ds r) (items_Stops es u)
          (after h) in
      let (q, l) = show_items-injective ds es r u k in (cc, l)

  show_fields-injective :
      (ds es : DocFields) (r s : Bytes) → show_fields ds r ≡ show_fields es s → (ds ≡ es) × (r ≡ s)
  show_fields-injective closed closed r u h = (refl, cc)
  show_fields-injective closed (entry l e es) r u h = ground arith
  show_fields-injective (entry k d ds) closed r u h = ground arith
  show_fields-injective (entry k d ds) (entry l e es) r u h =
      let (x, y) = escape_runes-injective k l _ _ (after (after h)) in
      let (p, z) =
        show-injective d e (show_fields ds r) (show_fields es u) (fields_Stops ds r)
          (fields_Stops es u) (after y) in
      let (q, w) = show_fields-injective ds es r u z in (cc, w)
