-- ===== src/Auth/Access.antt =====
-- Who gets in, for how long, and what a rotation or a logout ends (auth/service.go).
use veduta.Prelude.{
  ℕ, ◌+◌, ◌*◌, ◌≤◌, ◌<◌, ◌≡◌, refl, ap, ◌∙◌, ◌≢◌, inl, inr, Bool, true, false, not, ◌&&◌, Option,
  none, some, [], ◌∷◌, arith, length, Result, ok, err, ok-injective, ltb, if◌then◌else◌, Bool-cases,
  Option-cases, String, str_eq, eq_iff, lookup, insert, erase, lookup-insert, lookup-erase,
}
use veduta.Cards.CardState.{Time}
use veduta.Scheduler.Backoff.{minute}
use veduta.Auth.Lockout.{Sources, is_locked, record_failure, max_tracked_sources}
use veduta.Auth.Tracking.{record_failure-bounded}
use veduta.Auth.Sessions.{
  Session, AuthError, no_session, invalid_credentials, busy, Service, Verdict, login, authenticate,
  logout, grant_sudo, open_sudo, sudo_for, match_tokens, bad_tokens, allows_privileged, check_csrf,
  Database, store_failed, new_row_of, credentials_differ, reconfigure,
}

erase-length : (k : String) (m : Sources) → length (erase k m) ≤ length m
unfolding erase
erase-length k [] = omega arith
erase-length k ((j, a) ∷ m) = ground (arith, erase-length k m)

-- No login, whatever its outcome, takes the number of tracked sources over the ceiling.
pub login-bounded :
    (due : Time → Time → Bool) (s : Service) (now : Time) (source username : String) (v : Verdict)
    (id csrf : String)
    → length s.attempts ≤ max_tracked_sources
    → length (login due s now source username v id csrf).0.attempts ≤ max_tracked_sources
unfolding login
login-bounded due s now source username v id csrf h =
    ground (arith, record_failure-bounded source now s.attempts, erase-length source s.attempts)

differ_stored :
    (row : Option (String × String)) (username hash : String)
    → credentials_differ row username hash ≡ true
    → new_row_of row username hash ≡ some (username, hash)
unfolding credentials_differ
differ_stored none username hash h = cc
differ_stored (some row) username hash h = refl

differ_self :
    (username hash : String) → credentials_differ (some (username, hash)) username hash ≡ false
unfolding credentials_differ
differ_self username hash =
    let a : str_eq username username ≡ true = (eq_iff username username).1 refl in
    let b : str_eq hash hash ≡ true = (eq_iff hash hash).1 refl in rw (a, b) refl

abbrev pub Revoked : Service → Time → String → Type 0
Revoked s now id =
    ((authenticate s now id).1 ≡ err no_session) × ((allows_privileged s now id).1 ≡ false)

-- What a rotation of other credentials comes to, by the statements that the database carries out.
abbrev pub Rotated :
    Database → String → String → Service → Service × Result AuthError (Unit {0}) → Type 0
Rotated db username hash s (t, ok _) =
    (db.selects && db.updates && db.deletes ≡ true)
    × (t.stored ≡ some (username, hash))
    × ((now : Time) (id : String) → Revoked t now id)
Rotated db username hash s (t, err e) =
    (db.selects && db.updates && db.deletes ≡ false)
    × (e ≡ store_failed)
    × (t.stored ≡ (if db.selects && db.updates then some (username, hash) else s.stored))
    × (t.sessions ≡ s.sessions)
    × (t.sudo_until ≡ s.sudo_until)

all-Revoked :
    (s : Service) (now : Time) (id : String)
    → Revoked (record s { sessions = []; sudo_until = [] }) now id
unfolding authenticate allows_privileged lookup
all-Revoked s now id = (refl, ground arith)

-- A rotation that changes the credentials succeeds exactly when the database carries out its three
-- statements, and then the new credentials are stored and no session authenticates or allows
-- anything privileged at any time. Where one fails, it reports that the store failed and has ended
-- no session and no window of privilege; the new credentials are stored all the same where the
-- statement that failed is the last, which deletes the sessions.
pub reconfigure-revokes :
    (db : Database) (s : Service) (username hash : String) (ttl : ℕ)
    → credentials_differ s.stored username hash ≡ true
    → Rotated db username hash s (reconfigure db s username hash ttl)
unfolding reconfigure
reconfigure-revokes db s username hash ttl h = elim (Bool-cases db.selects) [
  | inr e ↦ rw e (refl, refl, refl, refl, refl)
  | inl e ↦ elim (Bool-cases db.updates) [
    | inr f ↦ rw (e, f) (refl, refl, refl, refl, refl)
    | inl f ↦ elim (Bool-cases db.deletes) [
      | inr g ↦ rw (e, f, h, g) (refl, refl, differ_stored s.stored username hash h, refl, refl)
      | inl g ↦
          rw (e, f, h, g)
            (
              refl,
              differ_stored s.stored username hash h,
              λ now id.
                  all-Revoked
                    (record s {
                      username = username;
                      stored = new_row_of s.stored username hash;
                      ttl = ttl;
                    })
                    now id,
            )
    ]
  ]
]

-- Where the rows of the sessions cannot be deleted, a rotation fails with the new credentials stored,
-- and repeating it succeeds without ending a session.
pub reconfigure-reconfigure :
    (db again : Database) (s : Service) (username hash : String) (ttl : ℕ)
    → credentials_differ s.stored username hash ≡ true
    → (db.selects ≡ true) × (db.updates ≡ true) × (db.deletes ≡ false)
    → (again.selects ≡ true) × (again.updates ≡ true)
    → let first = reconfigure db s username hash ttl in
      let second = reconfigure again first.0 username hash ttl in
      (first.1 ≡ err store_failed) × (second.1 ≡ ok tt) × (second.0.sessions ≡ s.sessions)
unfolding reconfigure
reconfigure-reconfigure db again s username hash ttl h (a, b, c) (d, e) =
    rw (a, b, h, c, d, e, differ_stored s.stored username hash h, differ_self username hash)
      (refl, refl, refl)

-- After a logout the session of the token does not authenticate and allows nothing privileged.
pub logout-revokes :
    (s : Service) (now : Time) (id : String)
    → ((authenticate (logout s id) now id).1 ≡ err no_session)
      × ((allows_privileged (logout s id) now id).1 ≡ false)
unfolding logout authenticate allows_privileged
logout-revokes s now id =
    let e : str_eq id id ≡ true = (eq_iff id id).1 refl in
    let gone : lookup id (erase id s.sessions) ≡ none = rw (lookup-erase, e) refl in
    let shut : lookup id (erase id s.sudo_until) ≡ none = rw (lookup-erase, e) refl in
    (rw (gone, authenticate) refl, rw shut (ground arith))

grant_sudo-window :
    (s : Service) (now later : Time) (id source : String) (v : Verdict)
    → (grant_sudo s now id source v).1 ≡ ok tt
    → (allows_privileged (grant_sudo s now id source v).0 later id).1 ≡ ltb later (now + 5 * minute)
unfolding grant_sudo allows_privileged
grant_sudo-window s now later id source v h = elim (Bool-cases (is_locked source now s.attempts)) [
  | inl locked ↦ cc (rw locked at h)
  | inr open_ ↦ rw open_ (by_verdict v (rw open_ at h))
]
  where
    grant : Verdict → Service × Result AuthError (Unit {0})
    grant none = (s, err busy)
    grant (some valid) =
        if not valid
        then (record s { attempts = record_failure source now s.attempts }, err invalid_credentials)
        else (
          record s {
            attempts = erase source s.attempts;
            sudo_until = insert id (now + 5 * minute) s.sudo_until;
          },
          ok tt,
        )

    by_verdict :
        (w : Verdict)
        → (grant w).1 ≡ ok tt
        → (allows_privileged (grant w).0 later id).1 ≡ ltb later (now + 5 * minute)
    by_verdict none k = cc
    by_verdict (some false) k = cc
    by_verdict (some true) k =
        let e : str_eq id id ≡ true = (eq_iff id id).1 refl in
        let there : lookup id (insert id (now + 5 * minute) s.sudo_until)
            ≡ some (now + 5 * minute) =
          rw (lookup-insert, e) refl in
        rw there (ground arith)

-- A window of privilege that a right password opens lasts five minutes, and no longer.
open_sudo-window :
    (s : Service) (now later : Time) (id source : String) (v : Verdict)
    → (open_sudo s now id source v).1 ≡ ok tt
    → (allows_privileged (open_sudo s now id source v).0 later id).1 ≡ ltb later (now + 5 * minute)
unfolding open_sudo
open_sudo-window s now later id source v h = by_session (authenticate s now id) h
  where
    by_session :
        (p : Service × Result AuthError Session)
        → (sudo_for now id source v p).1 ≡ ok tt
        → (allows_privileged (sudo_for now id source v p).0 later id).1
          ≡ ltb later (now + 5 * minute)
    by_session (t, err e) k = cc
    by_session (t, ok session) k = grant_sudo-window t now later id source v k

authenticate_inv :
    (s : Service) (now : Time) (id : String) (session : Session)
    → (authenticate s now id).1 ≡ ok session
    → (lookup id s.sessions ≡ some session) × (now < session.expires_at)
unfolding authenticate
authenticate_inv s now id session h = elim (Option-cases (lookup id s.sessions)) [
  | inl missing ↦ cc (rw (missing, authenticate) at h)
  | inr (found, there) ↦ elim (Bool-cases (ltb now found.expires_at)) [
    | inr late ↦ cc (rw (there, authenticate, late) at h)
    | inl live ↦
        let e : found ≡ session = ok-injective (rw (there, authenticate, live) at h) in
        (there ∙ ap some e, rw (← e) (ground arith))
  ]
]

-- What an accepted CSRF check had: a live session, and its token in both halves.
pub record Accepted (s : Service) (now : Time) (id cookie header : String) (session : Session)
    : Type 0 where
  pub stored : lookup id s.sessions ≡ some session
  pub live : now < session.expires_at
  pub cookie_token : session.csrf_token ≡ cookie
  pub header_token : session.csrf_token ≡ header
  pub filled : cookie ≢ ""

bad_tokens-inv :
    (cookie header : String) (session : Session)
    → bad_tokens cookie header session ≡ false
    → (session.csrf_token ≡ cookie) × (session.csrf_token ≡ header) × (cookie ≢ "")
bad_tokens-inv cookie header session h = (
  (eq_iff session.csrf_token cookie).0 (ground arith),
  (eq_iff session.csrf_token header).0 (ground arith),
  λ e. let t : str_eq cookie "" ≡ true = (eq_iff cookie "").1 e in ground arith,
)

-- An accepted CSRF check had a session that has not expired, and its token, which is not empty, in
-- the cookie and in the header.
pub check_csrf-Accepted :
    (s : Service) (now : Time) (id cookie header : String) (session : Session)
    → (check_csrf s now id cookie header).1 ≡ ok session
    → Accepted s now id cookie header session
unfolding check_csrf
check_csrf-Accepted s now id cookie header session h = by_session (authenticate s now id) refl h
  where
    by_session :
        (p : Service × Result AuthError Session)
        → authenticate s now id ≡ p
        → (match_tokens cookie header p).1 ≡ ok session
        → Accepted s now id cookie header session
    by_session (t, err e) f k = cc
    by_session (t, ok found) f k = elim (Bool-cases (bad_tokens cookie header found)) [
      | inl bad ↦ cc (rw bad at k)
      | inr good ↦
          let e : found ≡ session = ok-injective (rw good at k) in
          let (there, live) = authenticate_inv s now id session (ap (λ y. y.1) f ∙ ap ok e) in
          let (a, b, c) = bad_tokens-inv cookie header session (rw e at good) in
          record { stored = there; live = live; cookie_token = a; header_token = b; filled = c }
    ]
