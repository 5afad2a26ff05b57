-- ===== src/Routepath/Matching.antt =====
-- Globs of routepath/match.go: the search decides the relation that says what a glob means.
use veduta.Prelude.{
  ℕ, ◌≡◌, refl, sym, ap, ◌∙◌, ◌≢◌, ◌↔◌, inl, inr, true, false, none, some, List, [], ◌∷◌, ◌++◌,
  append-nil, append_assoc, arith, Bytes, All, bytes_eq, bytes_eq→≡, bytes_eq_refl, ◌==◌, ne→==,
  Bool-cases, Option-cases,
}
use veduta.Routepath.Canonicalise.{split, join, contains}
use veduta.Routepath.Glob.{
  star, cut_prefix, cut_suffix, middle, last, after_index, match_middle, match_parts, match_split,
  match_segment,
}
use veduta.Routepath.Cuts.{
  cut_prefix-inv, cut_prefix-append, cut_suffix-inv, cut_suffix-append, after_index-inv,
  after_index-Leftmost,
}
use veduta.Routepath.Split.{join-split, All-split}

-- What a glob of the route language matches, with no search order in it: `*` stands for any run
-- of bytes, and any other byte for itself.
pub data Globs : Bytes → Bytes → Type 0 where
  finish : Globs [] []
  byte : {c : ℕ} {p s : Bytes} → c ≢ star → Globs p s → Globs (c ∷ p) (c ∷ s)
  skip : {w : ℕ} {p s : Bytes} → w ≡ star → Globs p s → Globs (w ∷ p) s
  stretch : {w c : ℕ} {p s : Bytes} → w ≡ star → Globs (w ∷ p) s → Globs (w ∷ p) (c ∷ s)

-- A text cut by the parts of a pattern: the first part, then a gap before each other part.
abbrev Parts : Bytes → List Bytes → Bytes → Type 0
Parts p [] s = s ≡ p
Parts p (q ∷ ps) s = (gap : Bytes) × (rest : Bytes) × (s ≡ p ++ (gap ++ rest)) × Parts q ps rest

-- The middle parts in order, with gaps.
abbrev Middle : List Bytes → Bytes → Type 0
Middle [] s = Unit
Middle (q ∷ ps) s = (gap : Bytes) × (rest : Bytes) × (s ≡ gap ++ (q ++ rest)) × Middle ps rest

Middle-prepend : (ps : List Bytes) (pre s : Bytes) → Middle ps s → Middle ps (pre ++ s)
Middle-prepend [] pre s m = tt
Middle-prepend (q ∷ ps) pre s (gap, rest, e, m) =
    (pre ++ gap, rest, ap (λ t. pre ++ t) e ∙ sym (append_assoc pre gap (q ++ rest)), m)

match_middle-step :
    (x : ℕ) (q : Bytes) (ps : List Bytes) (s : Bytes) {r : Bytes}
    → after_index (x ∷ q) s ≡ some r
    → match_middle ((x ∷ q) ∷ ps) s ≡ match_middle ps r
unfolding match_middle
match_middle-step x q ps s h = rw (h, match_middle)

match_middle-stop :
    (x : ℕ) (q : Bytes) (ps : List Bytes) (s : Bytes)
    → after_index (x ∷ q) s ≡ none
    → match_middle ((x ∷ q) ∷ ps) s ≡ false
unfolding match_middle
match_middle-stop x q ps s h = rw (h, match_middle)

match_middle-empty : (ps : List Bytes) (s : Bytes) → match_middle ([] ∷ ps) s ≡ match_middle ps s
unfolding match_middle
match_middle-empty ps s = refl

match_middle-nil : (s : Bytes) → match_middle [] s ≡ true
unfolding match_middle
match_middle-nil s = refl

-- The greedy loop over the middle parts loses no match.
match_middle_sound : (ps : List Bytes) (s : Bytes) → match_middle ps s ≡ true → Middle ps s
match_middle_sound [] s h = tt
match_middle_sound ([] ∷ ps) s h =
    ([], s, refl, match_middle_sound ps s (sym (match_middle-empty ps s) ∙ h))
match_middle_sound ((x ∷ q) ∷ ps) s h = elim (Option-cases (after_index (x ∷ q) s)) [
  | inl e ↦ cc (match_middle-stop x q ps s e)
  | inr (r, e) ↦
      let (gap, f) = after_index-inv (x ∷ q) s e in
      (gap, r, f, match_middle_sound ps r (sym (match_middle-step x q ps s e) ∙ h))
]

match_middle_complete : (ps : List Bytes) (s : Bytes) → Middle ps s → match_middle ps s ≡ true
match_middle_complete [] s m = match_middle-nil s
match_middle_complete ([] ∷ ps) s (gap, rest, e, m) =
    match_middle-empty ps s ∙ match_middle_complete ps s (rw e (Middle-prepend ps gap rest m))
match_middle_complete ((x ∷ q) ∷ ps) s (gap, rest, e, m) =
    let k = after_index-Leftmost (x ∷ q) gap rest s e in
    match_middle-step x q ps s k.found
    ∙ match_middle_complete ps k.rest (rw k.behind (Middle-prepend ps k.before rest m))

-- Behind the first part: a gap and the other parts, or the middle parts and the last at the end.
Parts→Middle :
    (q : Bytes) (ps : List Bytes) (gap rest : Bytes)
    → Parts q ps rest
    → (m : Bytes) × (gap ++ rest ≡ m ++ last q ps) × Middle (middle (q ∷ ps)) m
Parts→Middle q [] gap rest h = (gap, rw h, tt)
Parts→Middle q (r ∷ ps) gap rest (gap', rest', e, k) =
    let (m, f, t) = Parts→Middle r ps gap' rest' k in
    (gap ++ (q ++ m), rw (e, f) (simp append_assoc), (gap, m, refl, t))

Middle→Parts :
    (q : Bytes) (ps : List Bytes) (m : Bytes)
    → Middle (middle (q ∷ ps)) m
    → (gap : Bytes) × (rest : Bytes) × (m ++ last q ps ≡ gap ++ rest) × Parts q ps rest
Middle→Parts q [] m h = (m, q, refl, refl)
Middle→Parts q (r ∷ ps) m (gap, m', e, k) =
    let (gap', rest', f, t) = Middle→Parts r ps m' k in
    (gap, q ++ (gap' ++ rest'), rw (e, ← f) (simp append_assoc), (gap', rest', refl, t))

match_parts_sound :
    (first q : Bytes) (ps : List Bytes) (s : Bytes)
    → match_parts first (q ∷ ps) s ≡ true
    → Parts first (q ∷ ps) s
unfolding match_parts
match_parts_sound first q ps s h = elim (Option-cases (cut_prefix first s)) [
  | inl e ↦ cc (rw (e, match_parts) at h)
  | inr (t, e) ↦ elim (Option-cases (cut_suffix (last q ps) t)) [
    | inl f ↦ cc (rw (e, f, match_parts) at h)
    | inr (m, f) ↦
        let found : match_middle (middle (q ∷ ps)) m ≡ true = rw (e, f, match_parts) at h in
        let (gap, rest, g, k) =
          Middle→Parts q ps m (match_middle_sound (middle (q ∷ ps)) m found) in
        (
          gap,
          rest,
          cut_prefix-inv first s e ∙ ap (λ u. first ++ u) (cut_suffix-inv (last q ps) t f ∙ g),
          k,
        )
  ]
]

match_parts_complete :
    (first q : Bytes) (ps : List Bytes) (s : Bytes)
    → Parts first (q ∷ ps) s
    → match_parts first (q ∷ ps) s ≡ true
unfolding match_parts
match_parts_complete first q ps s (gap, rest, e, k) =
    let (m, f, t) = Parts→Middle q ps gap rest k in
    let front : cut_prefix first s ≡ some (m ++ last q ps) =
      rw (e, f) (cut_prefix-append first (m ++ last q ps)) in
    rw (front, cut_suffix-append m (last q ps), match_parts)
      (match_middle_complete (middle (q ∷ ps)) m t)

-- A glob without a star means its own text; one with a star, its parts with gaps.
star_inv :
    {w : ℕ} {p s : Bytes}
    → w ≡ star
    → Globs (w ∷ p) s
    → (gap : Bytes) × (rest : Bytes) × (s ≡ gap ++ rest) × Globs p rest
star_inv e (byte n g) = absurd (n e)
star_inv {s} e (skip f g) = ([], s, refl, g)
star_inv e (stretch {c} f g) =
    let (gap, rest, h, k) = star_inv e g in (c ∷ gap, rest, ap (λ t. c ∷ t) h, k)

star_intro : (p gap rest : Bytes) → Globs p rest → Globs (star ∷ p) (gap ++ rest)
star_intro p [] rest g = skip refl g
star_intro p (c ∷ gap) rest g = stretch refl (star_intro p gap rest g)

abbrev StarFree : Bytes → Type 0
StarFree p = All (λ c. c ≢ star) p

Globs-append :
    (p q : Bytes) {s : Bytes}
    → StarFree p
    → Globs (p ++ q) s
    → (t : Bytes) × (s ≡ p ++ t) × Globs q t
Globs-append [] q {s} f g = (s, refl, g)
Globs-append (c ∷ p) q f (byte n g) =
    let (t, e, k) = Globs-append p q f.1 g in (t, ap (λ u. c ∷ u) e, k)
Globs-append (c ∷ p) q f (skip e g) = absurd (f.0 e)
Globs-append (c ∷ p) q f (stretch e g) = absurd (f.0 e)

Globs-literal : (p q t : Bytes) → StarFree p → Globs q t → Globs (p ++ q) (p ++ t)
Globs-literal [] q t f g = g
Globs-literal (c ∷ p) q t f g = byte f.0 (Globs-literal p q t f.1 g)

Globs-empty : {s : Bytes} → Globs [] s → s ≡ []
Globs-empty finish = refl

Globs→Parts :
    (p : Bytes) (ps : List Bytes) (s : Bytes)
    → All StarFree (p ∷ ps)
    → Globs (join star (p ∷ ps)) s
    → Parts p ps s
Globs→Parts p [] s f g =
    let (t, e, k) = Globs-append p [] {s = s} f.0 (rw append-nil g) in
    rw (e, Globs-empty k, append-nil)
Globs→Parts p (q ∷ ps) s f g =
    let (t, e, k) = Globs-append p (star ∷ join star (q ∷ ps)) f.0 g in
    let (gap, rest, h, m) = star_inv refl k in (gap, rest, rw (e, h), Globs→Parts q ps rest f.1 m)

Parts→Globs :
    (p : Bytes) (ps : List Bytes) (s : Bytes)
    → All StarFree (p ∷ ps)
    → Parts p ps s
    → Globs (join star (p ∷ ps)) s
Parts→Globs p [] s f e = rw e (rw append-nil at (Globs-literal p [] [] f.0 finish))
Parts→Globs p (q ∷ ps) s f (gap, rest, e, k) =
    rw e (Globs-literal p _ _ f.0 (star_intro _ gap rest (Parts→Globs q ps rest f.1 k)))

contains-StarFree : (p : Bytes) → contains (λ c. c == star) p ≡ false → StarFree p
unfolding contains
contains-StarFree [] h = tt
contains-StarFree (c ∷ p) h = (ground arith, contains-StarFree p (ground arith))

contains_of_StarFree : (p : Bytes) → StarFree p → contains (λ c. c == star) p ≡ false
unfolding contains
contains_of_StarFree [] f = refl
contains_of_StarFree (c ∷ p) f = rw (ne→== c star f.0) (contains_of_StarFree p f.1)

literal_iff : (p s : Bytes) → StarFree p → (bytes_eq p s ≡ true) ↔ Globs p s
literal_iff p s f = (
  λ h. rw (← bytes_eq→≡ p s h) (rw append-nil at (Globs-literal p [] [] f finish)),
  λ g. rw (Globs→Parts p [] s (f, tt) g) (bytes_eq_refl p),
)

star_parts_iff :
    (ps : List Bytes) (s : Bytes)
    → All StarFree ps
    → contains (λ c. c == star) (join star ps) ≡ true
    → (match_split ps s ≡ true) ↔ Globs (join star ps) s
unfolding contains
star_parts_iff [] s f h = cc
star_parts_iff (p ∷ []) s f h = cc (h, contains_of_StarFree p f.0)
star_parts_iff (p ∷ q ∷ ps) s f h = (
  λ m. Parts→Globs p (q ∷ ps) s f (match_parts_sound p q ps s m),
  λ g. match_parts_complete p q ps s (Globs→Parts p (q ∷ ps) s f g),
)

All-snd : (s : Bytes) → All (λ c. Unit {0} × (c ≢ star)) s → StarFree s
All-snd [] h = tt
All-snd (c ∷ s) h = (h.0.1, All-snd s h.1)

All-true : (s : Bytes) → All (λ c. Unit {0}) s
All-true [] = tt
All-true (c ∷ s) = (tt, All-true s)

split_StarFree : (ps : List Bytes) → All (All (λ c. Unit {0} × (c ≢ star))) ps → All StarFree ps
split_StarFree [] h = tt
split_StarFree (p ∷ ps) h = (All-snd p h.0, split_StarFree ps h.1)

-- `matchSegment` accepts exactly the segments that the glob matches.
pub match_segment_iff : (p s : Bytes) → (match_segment p s ≡ true) ↔ Globs p s
unfolding match_segment
match_segment_iff p s = elim (Bool-cases (contains (λ c. c == star) p)) [
  | inl starred ↦ rw starred (
      rw join-split at (
        star_parts_iff (split star p) s
          (split_StarFree _ (All-split (λ c. Unit {0}) star p (All-true p)))
          (rw join-split starred)))
  | inr literal ↦ rw literal (literal_iff p s (contains-StarFree p literal))
]
