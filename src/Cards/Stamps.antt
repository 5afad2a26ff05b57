-- ===== src/Cards/Stamps.antt =====
-- state/history.go: each reading that is drawn stands at the time of a retained sample.
use veduta.Prelude.{
  ℕ, suc, ◌-◌, ◌/◌, ◌≡◌, refl, ◌∙◌, ◌⊎◌, inl, inr, not, ◌&&◌, List, [], ◌∷◌, length, All, ltb, ◌==◌,
  Bool-cases,
}
use veduta.Cards.CardState.{Time}
use veduta.Cards.History.{
  Floats, Sample, bucket_width, dedup_after, inside, dedup, average_from, averaged,
}
use veduta.Cards.Window.{bucket_starts}

module _ {V : Type 0} where
  -- Each drawn reading has the time of a sample.
  abbrev pub At : List (Sample V) → Sample V → Type 0
  At [] s = ⊥
  At (x ∷ xs) s = (x.t ≡ s.t) ⊎ At xs s

  pub At-time : (xs : List (Sample V)) (s r : Sample V) → s.t ≡ r.t → At xs s → At xs r
  At-time [] s r e m = m
  At-time (x ∷ xs) s r e (inl k) = inl (k ∙ e)
  At-time (x ∷ xs) s r e (inr m) = inr (At-time xs s r e m)

  pub All-mono :
      (P Q : Sample V → Type 0) (xs : List (Sample V))
      → ((s : Sample V) → P s → Q s)
      → All P xs
      → All Q xs
  All-mono P Q [] f h = tt
  All-mono P Q (s ∷ xs) f h = (f s h.0, All-mono P Q xs f h.1)

  pub own-At : (xs : List (Sample V)) → All (At xs) xs
  own-At [] = tt
  own-At (s ∷ xs) = (inl refl, All-mono (At xs) (At (s ∷ xs)) xs (λ x m. inr m) (own-At xs))

  pub All-inside :
      (P : Sample V → Type 0) (from to : Time) (xs : List (Sample V))
      → All P xs
      → All P (inside from to xs)
  All-inside P from to [] h = tt
  All-inside P from to (s ∷ xs) h = elim (Bool-cases (not (ltb s.t from) && not (ltb to s.t))) [
    | inl e ↦ rw e (h.0, All-inside P from to xs h.1)
    | inr e ↦ rw e (All-inside P from to xs h.1)
  ]

  All-dedup_after :
      (P : Sample V → Type 0) (p : Sample V) (xs : List (Sample V))
      → P p
      → All P xs
      → All P (dedup_after p xs)
  All-dedup_after P p [] k h = (k, tt)
  All-dedup_after P p (s ∷ xs) k h = elim (Bool-cases (p.t == s.t)) [
    | inl e ↦ rw e (All-dedup_after P s xs h.0 h.1)
    | inr e ↦ rw e (k, All-dedup_after P s xs h.0 h.1)
  ]

  pub All-dedup : (P : Sample V → Type 0) (xs : List (Sample V)) → All P xs → All P (dedup xs)
  All-dedup P [] h = tt
  All-dedup P (s ∷ xs) h = All-dedup_after P s xs h.0 h.1

  average_from-At :
      (fl : Floats V) (samples : List (Sample V)) (from width bucket : ℕ) (sum : V) (n : ℕ)
      (s : Sample V) (xs : List (Sample V))
      → At samples s
      → All (At samples) xs
      → All (At samples) (average_from fl from width bucket sum (suc n) s.t xs)
  average_from-At fl samples from width bucket sum n s [] k h =
      (At-time samples s (record { t = s.t; v = fl.divide sum (suc n) }) refl k, tt)
  average_from-At fl samples from width bucket sum n s (x ∷ xs) k h =
      elim (Bool-cases (suc ((x.t - from) / width) == bucket)) [
        | inl e ↦
            rw (All, average_from, e)
              (average_from-At fl samples from width bucket (fl.add sum x.v) (suc n) x xs h.0 h.1)
        | inr e ↦
            rw (All, average_from, e)
              (
                At-time samples s (record { t = s.t; v = fl.divide sum (suc n) }) refl k,
                average_from-At fl samples from width (suc ((x.t - from) / width))
                    (fl.add fl.nought x.v) 0 x xs h.0 h.1,
              )
      ]

  pub averaged-At :
      (fl : Floats V) (samples : List (Sample V)) (from to : Time) (xs : List (Sample V))
      → All (At samples) xs
      → All (At samples) (averaged fl from to xs)
  averaged-At fl samples from to [] h = tt
  averaged-At fl samples from to (s ∷ xs) h = elim (Bool-cases (ltb 144 (length (s ∷ xs)))) [
    | inl e ↦
        rw (All, average_from, e, bucket_starts ((s.t - from) / bucket_width from to))
          (average_from-At fl samples from (bucket_width from to)
            (suc ((s.t - from) / bucket_width from to)) (fl.add fl.nought s.v) 0 s xs h.0 h.1)
    | inr e ↦ rw e h
  ]
