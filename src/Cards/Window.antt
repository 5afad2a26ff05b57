-- ===== src/Cards/Window.antt =====
-- state/history.go: the samples that are left after the filter, the sort and the buckets are in order.
use veduta.Prelude.{
  ℕ, suc, ◌-◌, ◌/◌, ◌≤◌, ◌≡◌, inl, inr, false, List, [], ◌∷◌, arith, length, All, ltb, ◌==◌,
  Bool-cases,
}
use veduta.Cards.CardState.{Time}
use veduta.Cards.History.{
  Floats, Sample, history_budget, bucket_width, inside, dedup_after, dedup, average_from, averaged,
}

-- Times that strictly increase, from `lo` on and up to `hi`.
abbrev pub Rising : Time → Time → List Time → Type 0
Rising lo hi [] = Unit
Rising lo hi (t ∷ ts) = (lo ≤ t) × (t ≤ hi) × Rising (suc t) hi ts

Rising-earlier : (a b hi : ℕ) (ts : List Time) → a ≤ b → Rising b hi ts → Rising a hi ts
Rising-earlier a b hi [] h k = tt
Rising-earlier a b hi (t ∷ ts) h k = (omega (arith, h, k.0), k.1, k.2)

pub bucket_starts : (x : ℕ) → (suc x == 0) ≡ false
bucket_starts x = ground arith

module _ {V : Type 0} where
  abbrev pub times : List (Sample V) → List Time
  times [] = []
  times (s ∷ xs) = s.t ∷ times xs

  -- Each sample is no later than those after it.
  abbrev pub Ordered : List (Sample V) → Type 0
  Ordered [] = Unit
  Ordered (s ∷ xs) = All (λ y. s.t ≤ y.t) xs × Ordered xs

  -- What `sort.Slice` promises: an ordered list of no other samples than it was given.
  abbrev pub Sorts : (List (Sample V) → List (Sample V)) → Type 1
  Sorts order =
      ((xs : List (Sample V)) → Ordered (order xs))
      × ((P : Sample V → Type 0) (xs : List (Sample V)) → All P xs → All P (order xs))

  abbrev pub Between : Time → Time → Sample V → Type 0
  Between from to s = (from ≤ s.t) × (s.t ≤ to)

  inside-Between :
      (from to : Time) (xs : List (Sample V)) → All (Between from to) (inside from to xs)
  inside-Between from to [] = tt
  inside-Between from to (s ∷ xs) = elim (Bool-cases (ltb s.t from)) [
    | inl e ↦ rw e (inside-Between from to xs)
    | inr e ↦ elim (Bool-cases (ltb to s.t)) [
      | inl k ↦ rw (e, k) (inside-Between from to xs)
      | inr k ↦ rw (e, k) ((ground arith, ground arith), inside-Between from to xs)
    ]
  ]

  dedup_after-Rising :
      (lo hi : Time) (p : Sample V) (xs : List (Sample V))
      → lo ≤ p.t
      → p.t ≤ hi
      → All (λ y. p.t ≤ y.t) xs
      → Ordered xs
      → All (λ y. y.t ≤ hi) xs
      → Rising lo hi (times (dedup_after p xs))
  dedup_after-Rising lo hi p [] h k a o b = (h, k, tt)
  dedup_after-Rising lo hi p (s ∷ xs) h k a o b = elim (Bool-cases (p.t == s.t)) [
    | inl e ↦ rw e (dedup_after-Rising lo hi s xs (omega (arith, h, a.0)) b.0 o.0 o.1 b.1)
    | inr e ↦
        rw e (h, k, dedup_after-Rising (suc p.t) hi s xs (ground (arith, a.0)) b.0 o.0 o.1 b.1)
  ]

  upper :
      (from to : Time) (xs : List (Sample V)) → All (Between from to) xs → All (λ y. y.t ≤ to) xs
  upper from to [] h = tt
  upper from to (s ∷ xs) h = (h.0.1, upper from to xs h.1)

  dedup-Rising :
      (from to : Time) (xs : List (Sample V))
      → Ordered xs
      → All (Between from to) xs
      → Rising from to (times (dedup xs))
  dedup-Rising from to [] o b = tt
  dedup-Rising from to (s ∷ xs) o b =
      dedup_after-Rising from to s xs b.0.0 b.0.1 o.0 o.1 (upper from to xs b.1)

  average_from-Rising :
      (fl : Floats V) (from width : ℕ) (lo hi : Time) (bucket : ℕ) (sum : V) (n : ℕ) (last : Time)
      (xs : List (Sample V))
      → lo ≤ last
      → last ≤ hi
      → Rising (suc last) hi (times xs)
      → Rising lo hi (times (average_from fl from width bucket sum (suc n) last xs))
  average_from-Rising fl from width lo hi bucket sum n last [] h k r = (h, k, tt)
  average_from-Rising fl from width lo hi bucket sum n last (s ∷ xs) h k r =
      elim (Bool-cases (suc ((s.t - from) / width) == bucket)) [
        | inl e ↦
            rw (Rising, times, average_from, e)
              (average_from-Rising fl from width lo hi bucket (fl.add sum s.v) (suc n) s.t xs
                (omega (arith, h, r.0)) r.1 r.2)
        | inr e ↦
            rw (Rising, times, average_from, e)
              (
                h,
                k,
                average_from-Rising fl from width (suc last) hi (suc ((s.t - from) / width))
                    (fl.add fl.nought s.v) 0 s.t xs r.0 r.1 r.2,
              )
      ]

  pub averaged-Rising :
      (fl : Floats V) (from to : Time) (xs : List (Sample V))
      → Rising from to (times xs)
      → Rising from to (times (averaged fl from to xs))
  averaged-Rising fl from to [] r = tt
  averaged-Rising fl from to (s ∷ xs) r = elim (Bool-cases (ltb history_budget (length (s ∷ xs)))) [
    | inl e ↦
        rw (Rising, times, average_from, e, bucket_starts ((s.t - from) / bucket_width from to))
          (average_from-Rising fl from (bucket_width from to) from to
            (suc ((s.t - from) / bucket_width from to)) (fl.add fl.nought s.v) 0 s.t xs r.0 r.1 r.2)
    | inr e ↦ rw e r
  ]

  -- One sample an instant, in the window and in order.
  pub dedup_order_inside-Rising :
      (order : List (Sample V) → List (Sample V))
      → Sorts order
      → (samples : List (Sample V)) (from to : Time)
      → Rising from to (times (dedup (order (inside from to samples))))
  dedup_order_inside-Rising order h samples from to =
      dedup-Rising from to (order (inside from to samples)) (h.0 (inside from to samples))
        (h.1 (Between from to) (inside from to samples) (inside-Between from to samples))
