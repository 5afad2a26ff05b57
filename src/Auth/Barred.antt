-- ===== src/Auth/Barred.antt =====
-- A lockout lasts through the logins of other sources, while their table has room (auth/service.go).
use veduta.Prelude.{
  ℕ, suc, ◌+◌, ◌*◌, ◌≤◌, ◌<◌, ◌≡◌, refl, ap, ◌∙◌, inl, inr, Bool, true, false, ◌&&◌, some, List, [],
  ◌∷◌, arith, length, All, err, ltb, Bool-cases, Option-cases, String, str_eq, eq_iff, lookup,
  insert, erase, lookup-insert, lookup-erase,
}
use veduta.Cards.CardState.{Time}
use veduta.Scheduler.Backoff.{minute}
use veduta.Auth.Lockout.{
  Attempts, Sources, attempts_of, is_locked, evict, room_for, fail_once, record_failure,
  max_tracked_sources,
}
use veduta.Auth.Tracking.{
  fifth_failure_locks, insert-length, insert-there, erase-shorter, room_for_new, room_for_tracked,
}
use veduta.Auth.Sessions.{rate_limited, invalid_credentials, Service, Verdict, login}

-- While a source is locked out, a login is refused whatever the password, and nothing changes.
locked_login :
    (due : Time → Time → Bool) (s : Service) (now : Time) (source username : String) (v : Verdict)
    (id csrf : String)
    → is_locked source now s.attempts ≡ true
    → login due s now source username v id csrf ≡ (s, err rate_limited)
unfolding login
locked_login due s now source username v id csrf h = rw h refl

failed_login :
    (due : Time → Time → Bool) (s : Service) (now : Time) (source username id csrf : String)
    → is_locked source now s.attempts ≡ false
    → login due s now source username (some false) id csrf
      ≡ (record s { attempts = record_failure source now s.attempts }, err invalid_credentials)
unfolding login
failed_login due s now source username id csrf h = rw h refl

-- One login.
pub record Login : Type 0 where
  pub at : Time
  pub source : String
  pub username : String
  pub verdict : Verdict
  pub id : String
  pub csrf : String

-- What a sequence of logins leaves.
abbrev pub logins : (Time → Time → Bool) → Service → List Login → Service
logins due s [] = s
logins due s (l ∷ ls) = logins due (login due s l.at l.source l.username l.verdict l.id l.csrf).0 ls

-- A source is locked out up to `until`, with `room` more sources to come.
Barred : String → Time → ℕ → Sources → Type 0
Barred source until room s =
    ((later : Time) → later < until → is_locked source later s ≡ true)
    × (length s + room ≤ max_tracked_sources)

-- A change that leaves the record of the source, and at most one more source.
Barred-step :
    (source : String) (until : Time) (room : ℕ) (s t : Sources)
    → lookup source t ≡ lookup source s
    → length t ≤ suc (length s)
    → Barred source until (suc room) s
    → Barred source until room t
unfolding Barred
Barred-step source until room s t same few h =
    (λ later early. rw same (h.0 later early), omega (arith, few, h.1))

evict_with_room : (now : Time) (s : Sources) → length s < max_tracked_sources → evict now s ≡ s
unfolding evict
evict_with_room now s h =
    let fits : ltb (length s) max_tracked_sources ≡ true = ground arith in rw fits refl

other_failure :
    (source other : String) (until now : Time) (room : ℕ) (s : Sources)
    → str_eq other source ≡ false
    → Barred source until (suc room) s
    → Barred source until room (record_failure other now s)
unfolding record_failure Barred
other_failure source other until now room s apart h =
    let roomy : room_for other now s ≡ s = elim (Option-cases (lookup other s)) [
      | inl fresh ↦ room_for_new other now s fresh ∙ evict_with_room now s (omega (arith, h.1))
      | inr (a, tracked) ↦ room_for_tracked other now s a tracked
    ] in
    let new : Attempts = fail_once now (attempts_of (lookup other s)) in
    rw roomy (
      Barred-step source until room s (insert other new s)
        (lookup-insert other source new s ∙ rw apart refl) (insert-length other new s) h)

other_erased :
    (source other : String) (until : Time) (room : ℕ) (s : Sources)
    → str_eq other source ≡ false
    → Barred source until (suc room) s
    → Barred source until room (erase other s)
other_erased source other until room s apart h =
    Barred-step source until room s (erase other s) (lookup-erase other source s ∙ rw apart refl)
      (omega (arith, erase-shorter other s)) h

apart_free :
    (source other : String) (until now : Time) (room : ℕ) (s : Sources)
    → now < until
    → is_locked other now s ≡ false
    → Barred source until room s
    → str_eq other source ≡ false
unfolding Barred
apart_free source other until now room s early free h = elim (Bool-cases (str_eq other source)) [
  | inr e ↦ e
  | inl e ↦
      let name : other ≡ source = (eq_iff other source).0 e in
      cc (ap (λ k. is_locked k now s) name, free, h.0 now early)
]

tracked_failure :
    (source : String) (now : Time) (s : Sources) (a : Attempts)
    → lookup source s ≡ some a
    → length (record_failure source now s) ≡ length s
unfolding record_failure
tracked_failure source now s a t =
    rw (room_for_tracked source now s a t)
      (insert-there source (fail_once now (attempts_of (lookup source s))) a s t)

login-Barred :
    (due : Time → Time → Bool) (s : Service) (l : Login) (source : String) (until : Time) (room : ℕ)
    → l.at < until
    → Barred source until (suc room) s.attempts
    → Barred source until room
        (login due s l.at l.source l.username l.verdict l.id l.csrf).0.attempts
unfolding login
login-Barred due s l source until room early h =
    elim (Bool-cases (is_locked l.source l.at s.attempts)) [
      | inl shut ↦ rw shut kept
      | inr free ↦ elim (Option-cases l.verdict) [
        | inl e ↦ rw (login, free, e) kept
        | inr (valid, e) ↦ elim (Bool-cases (valid && str_eq l.username s.username)) [
          | inl right ↦
              rw (login, free, e, right)
                (other_erased source l.source until room s.attempts (apart free) h)
          | inr wrong ↦
              rw (login, free, e, wrong)
                (other_failure source l.source until l.at room s.attempts (apart free) h)
        ]
      ]
    ]
  where
    kept : Barred source until room s.attempts
    kept = Barred-step source until room s.attempts s.attempts refl (omega arith) h

    apart : is_locked l.source l.at s.attempts ≡ false → str_eq l.source source ≡ false
    apart free = apart_free source l.source until l.at (suc room) s.attempts early free h

logins-Barred :
    (due : Time → Time → Bool) (s : Service) (ls : List Login) (source : String) (until : Time)
    → All (λ l. l.at < until) ls
    → Barred source until (length ls) s.attempts
    → Barred source until 0 (logins due s ls).attempts
logins-Barred due s [] source until early h = h
logins-Barred due s (l ∷ ls) source until early h =
    logins-Barred due (login due s l.at l.source l.username l.verdict l.id l.csrf).0 ls source until
      early.1 (login-Barred due s l source until (length ls) early.0 h)

-- After the fifth or a later wrong password from one source within ten minutes, every login from
-- there is refused for fifteen minutes, the right password included, and leaves the service as it was,
-- whatever logins of this and of other sources come in between, as long as the sources tracked
-- before and the logins in between are together no more than the 4,096 that are tracked.
pub login-lockout :
    (due : Time → Time → Bool) (s : Service) (now later : Time) (source username other : String)
    (a : Attempts) (v : Verdict) (id csrf new_id new_csrf : String) (between : List Login)
    → is_locked source now s.attempts ≡ false
    → lookup source s.attempts ≡ some a
    → 4 ≤ a.count
    → 0 < a.window_start
    → now < a.window_start + 10 * minute
    → later < now + 15 * minute
    → All (λ l. l.at < now + 15 * minute) between
    → length s.attempts + length between ≤ max_tracked_sources
    → let t = logins due (login due s now source username (some false) id csrf).0 between in
      login due t later source other v new_id new_csrf ≡ (t, err rate_limited)
unfolding Barred
login-lockout due s now later source username other a v id csrf new_id new_csrf between free t c w n
      l early room =
    let s' = (login due s now source username (some false) id csrf).0 in
    let same : s'.attempts ≡ record_failure source now s.attempts =
      ap (λ p. p.0.attempts) (failed_login due s now source username id csrf free) in
    let few : length (record_failure source now s.attempts) ≡ length s.attempts =
      tracked_failure source now s.attempts a t in
    let start : Barred source (now + 15 * minute) (length between) s'.attempts = rw same (
      (λ k e. fifth_failure_locks source now k s.attempts a t c w n e),
      omega (arith, few, room),
    ) in
    locked_login due (logins due s' between) later source other v new_id new_csrf
      ((logins-Barred due s' between source (now + 15 * minute) early start).0 later l)
