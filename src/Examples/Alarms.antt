-- ===== src/Examples/Alarms.antt =====
-- Runs of the outbox: a delivery that is retried, and a channel that is suspended.
use veduta.Prelude.{
  ◌≡◌, refl, ap, ◌+◌, ◌*◌, Bool, true, false, some, [], ◌∷◌, length, lookup, suc, leb,
}
use veduta.Cards.Document.{second, hour}
use veduta.Cards.CardState.{Time}
use veduta.Scheduler.Backoff.{double_up}
use veduta.Outbox.Delivery.{
  waiting, Item, Request, Outbox, count_items, insert_item, enqueue, claim, update, settle,
  retry_delay, run_once, failed_to_send,
}
use veduta.Outbox.Limits.{Allowed, enqueue-Allowed}

abbrev in_order : Time → Time → Bool
in_order a b = leb b a

abbrev request : Request
request = record {
  channel = "mail";
  dedupe_key = "mail:hot:fired";
  payload = "{}";
  now = 2 * hour;
  cooldown = 0;
  per_hour = 1;
}

abbrev second_request : Request
second_request = record request { dedupe_key = "mail:cold:fired"; now = 2 * hour + second }

abbrev empty : Outbox
empty = record { items = []; suspended = []; suspension_events = []; next_id = 1 }

abbrev queued : Item
queued = record {
  id = 1;
  created_at = 2 * hour;
  channel = "mail";
  dedupe_key = some "mail:hot:fired";
  payload = "{}";
  state = waiting;
  attempts = 0;
  next_attempt_at = some (2 * hour);
}

abbrev holding : Outbox
holding = record empty { items = queued ∷ []; next_id = 2 }

entered : enqueue in_order request empty ≡ (holding, (true, false))
unfolding enqueue insert_item count_items lookup
entered = refl

enqueue-Allowed_example :
    Allowed in_order request empty
    × (length (enqueue in_order request empty).0.items ≡ suc (length empty.items))
enqueue-Allowed_example = enqueue-Allowed in_order request empty (ap (λ p. p.1.0) entered)

shut : (enqueue in_order second_request holding).1.1 ≡ true
unfolding enqueue insert_item count_items lookup
shut = refl

retried :
    (run_once in_order
      (record { max_attempts = 5; retry_base = second })
      (2 * hour)
      (λ it. failed_to_send)
      holding).0.items
    ≡ record queued { attempts = 1; next_attempt_at = some (2 * hour + second) } ∷ []
unfolding run_once claim update settle retry_delay double_up
retried = refl
