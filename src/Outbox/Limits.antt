-- ===== src/Outbox/Limits.antt =====
-- What storage/notifications.go lets into the outbox.
use veduta.Prelude.{
  suc, ◌+◌, ◌<◌, ◌≡◌, refl, ◌∙◌, inl, inr, Bool, true, false, not, ◌&&◌, arith, length,
  length-append, leb, ltb, Bool-cases, str_eq, eq_iff, lookup, insert, lookup-insert, if◌then◌else◌,
  ℕ, ◌-◌, ◌*◌, ◌^◌, min,
}
use veduta.Cards.Document.{hour}
use veduta.Cards.CardState.{Time}
use veduta.Scheduler.Backoff.{double_up}
use veduta.Scheduler.Waits.{double_up-min}
use veduta.Outbox.Delivery.{
  retry_delay, Request, Outbox, is_suspended, count_items, is_recent, in_hour, ceiling, clashes,
  insert_item, enqueue,
}

-- What held before a request was put in the outbox.
pub record Allowed (not_before : Time → Time → Bool) (r : Request) (o : Outbox) : Type 0 where
  pub not_suspended : is_suspended (lookup r.channel o.suspended) r.now ≡ false
  pub below_ceiling : count_items (in_hour not_before r) o.items < ceiling not_before r
  pub not_repeated :
      0 < r.cooldown
      → str_eq r.dedupe_key "" ≡ false
      → count_items (is_recent not_before r) o.items ≡ 0
  pub no_open_row : count_items (clashes not_before r) o.items ≡ 0

insert_item-ok :
    (nb : Time → Time → Bool) (r : Request) (o : Outbox)
    → (insert_item nb r o).1 ≡ true
    → (count_items (clashes nb r) o.items ≡ 0)
      × (length (insert_item nb r o).0.items ≡ suc (length o.items))
unfolding insert_item
insert_item-ok nb r o h = elim (Bool-cases (ltb 0 (count_items (clashes nb r) o.items))) [
  | inl clash ↦ cc (rw clash at h)
  | inr free ↦ (ground arith, rw free (length-append o.items _ ∙ omega arith))
]

-- A request enters the outbox only on a channel that is not suspended and is below its hourly
-- ceiling, without a recent item under its key where it has a cooldown, and without an open one;
-- and it adds one item.
pub enqueue-Allowed :
    (not_before : Time → Time → Bool) (r : Request) (o : Outbox)
    → (enqueue not_before r o).1.0 ≡ true
    → Allowed not_before r o × (length (enqueue not_before r o).0.items ≡ suc (length o.items))
unfolding enqueue
enqueue-Allowed nb r o h = elim (Bool-cases (is_suspended (lookup r.channel o.suspended) r.now)) [
  | inl shut ↦ cc (rw shut at h)
  | inr free ↦
      elim (Bool-cases (
        ltb 0 r.cooldown
        && not (str_eq r.dedupe_key "")
        && ltb 0 (count_items (is_recent nb r) o.items))) [
          | inl again ↦ cc (rw (free, again) at h)
          | inr first ↦
              elim (Bool-cases (leb (ceiling nb r) (count_items (in_hour nb r) o.items))) [
                | inl full ↦ cc (rw (free, first, full) at h)
                | inr below ↦
                    let (n, l) = insert_item-ok nb r o (rw (free, first, below) at h) in
                    (
                      record {
                        not_suspended = free;
                        below_ceiling = ground arith;
                        not_repeated = λ p q. ground arith;
                        no_open_row = n;
                      },
                      rw (free, first, below) l,
                    )
              ]
        ]
]

suspended_until :
    (nb : Time → Time → Bool) (r : Request) (o : Outbox)
    → (enqueue nb r o).1.1 ≡ true
    → (enqueue nb r o).0.suspended ≡ insert r.channel (r.now + hour) o.suspended
unfolding enqueue
suspended_until nb r o h = ground arith

refused_while :
    (nb : Time → Time → Bool) (r : Request) (o : Outbox)
    → is_suspended (lookup r.channel o.suspended) r.now ≡ true
    → enqueue nb r o ≡ (o, (false, false))
unfolding enqueue
refused_while nb r o h = rw h refl

-- A channel that has just been suspended takes nothing for an hour: every request on it is
-- dropped without a change, and the suspension is not reported again.
pub suspension-holds :
    (not_before : Time → Time → Bool) (r later : Request) (o : Outbox)
    → (enqueue not_before r o).1.1 ≡ true
    → later.channel ≡ r.channel
    → later.now < r.now + hour
    → enqueue not_before later (enqueue not_before r o).0
      ≡ ((enqueue not_before r o).0, (false, false))
suspension-holds nb r later o h c l =
    refused_while nb later (enqueue nb r o).0
      (rw (suspended_until nb r o h, lookup-insert, c, same) (ground arith))
  where
    same : str_eq r.channel r.channel ≡ true
    same = (eq_iff r.channel r.channel).1 refl

-- The delay after the first attempt and `n` more is the base doubled `n` times, an hour at most.
pub retry_delay-closed : (n base : ℕ) → retry_delay (suc n) base ≡ min (base * 2 ^ n) hour
unfolding retry_delay
retry_delay-closed n base =
    let rounds : suc n - 1 ≡ n = omega arith in
    rw rounds (cut (double_up n base) ∙ double_up-min n base)
  where
    cut : (d : ℕ) → (if ltb hour d then hour else d) ≡ min d hour
    cut d = ground arith
