-- ===== src/Cards/Drawn.antt =====
-- state/history.go: what is drawn is chosen from the samples of the window, and averaged by buckets.
use veduta.Prelude.{
  ℕ, suc, ◌+◌, ◌-◌, ◌/◌, ◌≤◌, ◌<◌, ◌≡◌, refl, ap, ◌∙◌, ◌≢◌, ◌⊎◌, inl, inr, true, false, not, ◌&&◌,
  List, [], ◌∷◌, ◌++◌, arith, length, All, ltb, ◌==◌, Bool-cases,
}
use mathlib.Core.Path.{subst}
use veduta.Cards.CardState.{Time}
use veduta.Cards.History.{
  Floats, Sample, history_budget, bucket_width, inside, dedup_after, dedup, average_from, averaged,
}
use veduta.Cards.Window.{Rising, times, Sorts, Between, bucket_starts, dedup_order_inside-Rising}
use veduta.Cards.Stamps.{At, At-time, All-mono, All-inside, All-dedup}

-- Samples that are averaged: the first, and those after it.
abbrev pub Group : Type 0 → Type 0
Group V = Sample V × List (Sample V)

wide_bucket : (from to : Time) → 144 ≤ to - from → bucket_width from to ≡ (to - from) / 144
wide_bucket from to h =
    let some_width : ((to - from) / 144 == 0) ≡ false = ground arith in rw some_width refl

module _ {V : Type 0} where
  abbrev pub Has : List (Sample V) → Sample V → Type 0
  Has [] s = ⊥
  Has (x ∷ xs) s = (x ≡ s) ⊎ Has xs s

  -- `sort.Slice` leaves out no sample.
  abbrev pub Keeps : (List (Sample V) → List (Sample V)) → Type 0
  Keeps order = (xs : List (Sample V)) (s : Sample V) → Has xs s → Has (order xs) s

  -- One sample for each instant of the window that has one.
  pub record Chosen (from to : Time) (samples ys : List (Sample V)) : Type 0 where
    pub own : All (Has samples) ys
    pub in_order : Rising from to (times ys)
    pub complete : (s : Sample V) → Has samples s → Between from to s → At ys s

  abbrev pub joined : List (Group V) → List (Sample V)
  joined [] = []
  joined ((s, xs) ∷ gs) = s ∷ (xs ++ joined gs)

  abbrev pub last_time : Time → List (Sample V) → Time
  last_time t [] = t
  last_time t (x ∷ xs) = last_time x.t xs

  abbrev pub sum_from : Floats V → V → List (Sample V) → V
  sum_from fl sum [] = sum
  sum_from fl sum (x ∷ xs) = sum_from fl (fl.add sum x.v) xs

  -- The mean of a group, at the time of its last sample.
  abbrev pub mean_of : Floats V → Group V → Sample V
  mean_of fl (s, xs) = record {
    t = last_time s.t xs;
    v = fl.divide (sum_from fl (fl.add fl.nought s.v) xs) (suc (length xs));
  }

  abbrev pub means : Floats V → List (Group V) → List (Sample V)
  means fl [] = []
  means fl (g ∷ gs) = mean_of fl g ∷ means fl gs

  abbrev pub bucket_of : Time → ℕ → Sample V → ℕ
  bucket_of from width s = (s.t - from) / width

  abbrev pub Apart : Time → ℕ → ℕ → List (Group V) → Type 0
  Apart from width b [] = Unit
  Apart from width b (g ∷ gs) = bucket_of from width g.0 ≢ b

  -- Each group is the whole of one bucket.
  abbrev pub Buckets : Time → ℕ → List (Group V) → Type 0
  Buckets from width [] = Unit
  Buckets from width ((s, xs) ∷ gs) =
      All (λ x. bucket_of from width x ≡ bucket_of from width s) xs
      × Apart from width (bucket_of from width s) gs
      × Buckets from width gs

  -- Readings that are the means of the buckets of `width`.
  pub record Means (fl : Floats V) (from : Time) (width : ℕ) (ys rs : List (Sample V))
      : Type 0 where
    pub groups : List (Group V)
    pub cut : ys ≡ joined groups
    pub buckets : Buckets from width groups
    pub averages : rs ≡ means fl groups

  abbrev at : Time → V → Sample V
  at t v = record { t = t; v = v }

  record Run (fl : Floats V) (from : Time) (width b : ℕ) (sum : V) (n : ℕ) (last : Time)
      (xs : List (Sample V)) : Type 0 where
    pre : List (Sample V)
    groups : List (Group V)
    cut : xs ≡ pre ++ joined groups
    same : All (λ x. bucket_of from width x ≡ b) pre
    next : Apart from width b groups
    buckets : Buckets from width groups
    out :
        average_from fl from width (suc b) sum (suc n) last xs
        ≡ record {
          t = last_time last pre;
          v = fl.divide (sum_from fl sum pre) (suc n + length pre);
        }
          ∷ means fl groups

  average_from-Run :
      (fl : Floats V) (from : Time) (width b : ℕ) (sum : V) (n : ℕ) (last : Time)
      (xs : List (Sample V))
      → Run fl from width b sum n last xs
  average_from-Run fl from width b sum n last [] = record {
    pre = [];
    groups = [];
    cut = refl;
    same = tt;
    next = tt;
    buckets = tt;
    out = ap (λ k. record { t = last; v = fl.divide sum k } ∷ []) (omega arith);
  }
  average_from-Run fl from width b sum n last (s ∷ xs) =
      elim (Bool-cases (suc (bucket_of from width s) == suc b)) [
        | inl e ↦
            let k = average_from-Run fl from width b (fl.add sum s.v) (suc n) s.t xs in
            record {
              pre = s ∷ k.pre;
              groups = k.groups;
              cut = ap (λ t. s ∷ t) k.cut;
              same = (ground arith, k.same);
              next = k.next;
              buckets = k.buckets;
              out =
                  rw (average_from, e)
                    (k.out
                      ∙ ap
                          (λ m.
                            record {
                              t = last_time s.t k.pre;
                              v = fl.divide (sum_from fl (fl.add sum s.v) k.pre) m;
                            }
                            ∷ means fl k.groups)
                          (omega arith));
            }
        | inr e ↦
            let k =
              average_from-Run fl from width (bucket_of from width s) (fl.add fl.nought s.v) 0 s.t
                xs in
            let apart : bucket_of from width s ≢ b = λ z. ground arith in
            record {
              pre = [];
              groups = (s, k.pre) ∷ k.groups;
              cut = ap (λ t. s ∷ t) k.cut;
              same = tt;
              next = apart;
              buckets = (k.same, k.next, k.buckets);
              out =
                  rw (average_from, e)
                    (ap
                        (λ m.
                          at last (fl.divide sum m)
                          ∷ average_from fl from width (suc (bucket_of from width s))
                              (fl.add fl.nought s.v) 1 s.t xs)
                        (omega arith)
                      ∙ ap (λ t. at last (fl.divide sum (suc n + 0)) ∷ t)
                          (k.out
                            ∙ ap
                                (λ m.
                                  at (last_time s.t k.pre)
                                    (fl.divide (sum_from fl (fl.add fl.nought s.v) k.pre) m)
                                  ∷ means fl k.groups)
                                (omega arith)));
            }
      ]

  averaged-Means :
      (fl : Floats V) (from to : Time) (xs : List (Sample V))
      → history_budget < length xs
      → Means fl from (bucket_width from to) xs (averaged fl from to xs)
  averaged-Means fl from to [] h = absurd (omega (arith, h))
  averaged-Means fl from to (s ∷ xs) h =
      let width = bucket_width from to in
      let k =
        average_from-Run fl from width (bucket_of from width s) (fl.add fl.nought s.v) 0 s.t xs in
      let many : ltb history_budget (length (s ∷ xs)) ≡ true = ground (arith, h) in
      record {
        groups = (s, k.pre) ∷ k.groups;
        cut = ap (λ t. s ∷ t) k.cut;
        buckets = (k.same, k.next, k.buckets);
        averages =
            rw (averaged, average_from, many, bucket_starts (bucket_of from width s))
              (k.out
                ∙ ap
                    (λ m.
                      at (last_time s.t k.pre)
                        (fl.divide (sum_from fl (fl.add fl.nought s.v) k.pre) m)
                      ∷ means fl k.groups)
                    (omega arith));
      }

  inside-Has :
      (from to : Time) (xs : List (Sample V)) (s : Sample V)
      → Has xs s
      → Between from to s
      → Has (inside from to xs) s
  inside-Has from to [] s m b = absurd m
  inside-Has from to (x ∷ xs) s (inl e) b =
      let early : ltb x.t from ≡ false = ground (arith, ap (λ k. k.t) e, b.0) in
      let late : ltb to x.t ≡ false = ground (arith, ap (λ k. k.t) e, b.1) in
      rw (early, late) (inl e)
  inside-Has from to (x ∷ xs) s (inr m) b =
      elim (Bool-cases (not (ltb x.t from) && not (ltb to x.t))) [
        | inl e ↦ rw e (inr (inside-Has from to xs s m b))
        | inr e ↦ rw e (inside-Has from to xs s m b)
      ]

  dedup_after-At :
      (p : Sample V) (xs : List (Sample V)) (s : Sample V)
      → Has (p ∷ xs) s
      → At (dedup_after p xs) s
  dedup_after-At p [] s (inl e) = inl (ap (λ k. k.t) e)
  dedup_after-At p [] s (inr m) = absurd m
  dedup_after-At p (x ∷ xs) s (inl e) = elim (Bool-cases (p.t == x.t)) [
    | inl same ↦
        let time : x.t ≡ s.t = ground (arith, ap (λ k. k.t) e) in
        rw same (At-time (dedup_after x xs) x s time (dedup_after-At x xs x (inl refl)))
    | inr other ↦ rw other (inl (ap (λ k. k.t) e))
  ]
  dedup_after-At p (x ∷ xs) s (inr m) = elim (Bool-cases (p.t == x.t)) [
    | inl same ↦ rw same (dedup_after-At x xs s m)
    | inr other ↦ rw other (inr (dedup_after-At x xs s m))
  ]

  dedup-At : (xs : List (Sample V)) (s : Sample V) → Has xs s → At (dedup xs) s
  dedup-At [] s m = absurd m
  dedup-At (x ∷ xs) s m = dedup_after-At x xs s m

  own-Has : (xs : List (Sample V)) → All (Has xs) xs
  own-Has [] = tt
  own-Has (s ∷ xs) = (inl refl, All-mono (Has xs) (Has (s ∷ xs)) xs (λ x m. inr m) (own-Has xs))

  pub dedup_order-Chosen :
      (order : List (Sample V) → List (Sample V))
      → Sorts order
      → Keeps order
      → (samples : List (Sample V)) (from to : Time)
      → Chosen from to samples (dedup (order (inside from to samples)))
  dedup_order-Chosen order h k samples from to = record {
    own = All-dedup (Has samples) (order (inside from to samples)) (
        h.1 (Has samples) (inside from to samples)
          (All-inside (Has samples) from to samples (own-Has samples)));
    in_order = dedup_order_inside-Rising order h samples from to;
    complete = λ s m b.
        dedup-At (order (inside from to samples)) s
          (k (inside from to samples) s (inside-Has from to samples s m b));
  }

  -- The readings that are drawn of chosen samples: those themselves up to 144, else the means of
  -- the parts of the window that hold one, each a 144th of it long.
  abbrev pub Drawn : Floats V → Time → Time → List (Sample V) → List (Sample V) → Type 0
  Drawn fl from to ys rs =
      (length ys ≤ 144) × (rs ≡ ys) ⊎ (144 < length ys) × Means fl from ((to - from) / 144) ys rs

  pub averaged-Drawn :
      (fl : Floats V) (from to : Time) (ys : List (Sample V))
      → 144 ≤ to - from
      → Drawn fl from to ys (averaged fl from to ys)
  averaged-Drawn fl from to ys wide = elim (Bool-cases (ltb 144 (length ys))) [
    | inr e ↦ rw e (inl (ground arith, refl))
    | inl e ↦
        let many : 144 < length ys = ground arith in
        let width : bucket_width from to ≡ (to - from) / 144 = wide_bucket from to wide in
        inr (
          many,
          subst (λ w. Means fl from w ys (averaged fl from to ys)) width
              (averaged-Means fl from to ys many),
        )
  ]
