-- ===== src/Auth/Sessions.antt =====
-- auth/service.go: login, sessions, windows of privilege and the rotation of credentials.
use veduta.Prelude.{
  ℕ, ◌+◌, ◌*◌, Bool, true, false, not, ◌&&◌, ◌||◌, Option, none, some, List, [], ◌∷◌, Result, ok,
  err, ltb, if◌then◌else◌, String, str_eq, lookup, insert, erase,
}
use veduta.Cards.CardState.{Time}
use veduta.Scheduler.Backoff.{minute}
use veduta.Auth.Lockout.{Sources, is_locked, record_failure}

-- A row of the table of sessions, under the hash of its token.
pub record Session : Type 0 where
  pub username : String
  pub csrf_token : String
  pub expires_at : Time

pub data AuthError : Type 0 where
  invalid_credentials rate_limited no_session bad_csrf busy store_failed : AuthError

-- `Service` with the rows that it owns: the sessions and the administrator's row.
pub record Service : Type 0 where
  pub username : String
  pub stored : Option (String × String)
  pub ttl : ℕ
  pub attempts : Sources
  pub sessions : List (String × Session)
  pub sudo_until : List (String × Time)

abbrev pub time_of : Option Time → Time
time_of none = 0
time_of (some t) = t

-- The outcome of `verifier.verify`: none where it is busy, else whether the password is right.
abbrev pub Verdict : Type 0
Verdict = Option Bool

-- The deletion of sessions by `PruneExpired`; `due` is the comparison of the two texts by SQLite.
unfoldable pub prune :
    (Time → Time → Bool) → Time → List (String × Session) → List (String × Session)
prune due now [] = []
prune due now ((id, s) ∷ ss) =
    let rest = prune due now ss in if due s.expires_at now then rest else (id, s) ∷ rest

-- `Login`: `source` is the key of the attempts, `id` the hash of the new token.
unfoldable pub login :
    (Time → Time → Bool)
    → Service
    → Time
    → String
    → String
    → Verdict
    → String
    → String
    → Service × Result AuthError Session
login due s now source username verdict id csrf =
    if is_locked source now s.attempts then (s, err rate_limited) else elim verdict [
      | none ↦ (s, err busy)
      | some valid ↦
          if not (valid && str_eq username s.username)
          then (
            record s { attempts = record_failure source now s.attempts },
            err invalid_credentials,
          )
          else let session : Session = record {
            username = s.username;
            csrf_token = csrf;
            expires_at = now + s.ttl;
          } in
            (
              record s {
                attempts = erase source s.attempts;
                sessions = prune due now (insert id session s.sessions);
              },
              ok session,
            )
    ]

-- `Authenticate`, by the hash of a token: a session that has expired is deleted.
unfoldable pub authenticate : Service → Time → String → Service × Result AuthError Session
authenticate s now id = elim (lookup id s.sessions) [
  | none ↦ (s, err no_session)
  | some session ↦
      if ltb now session.expires_at
      then (s, ok session)
      else (record s { sessions = erase id s.sessions }, err no_session)
]

-- `Logout`.
unfoldable pub logout : Service → String → Service
logout s id = record s { sessions = erase id s.sessions; sudo_until = erase id s.sudo_until }

-- `OpenSudo` behind the authentication; `source` is made of the session and the address.
unfoldable pub grant_sudo :
    Service → Time → String → String → Verdict → Service × Result AuthError (Unit {0})
grant_sudo s now id source verdict =
    if is_locked source now s.attempts then (s, err rate_limited) else elim verdict [
      | none ↦ (s, err busy)
      | some valid ↦
          if not valid
          then (
            record s { attempts = record_failure source now s.attempts },
            err invalid_credentials,
          )
          else (
            record s {
              attempts = erase source s.attempts;
              sudo_until = insert id (now + 5 * minute) s.sudo_until;
            },
            ok tt,
          )
    ]

abbrev pub sudo_for :
    Time
    → String
    → String
    → Verdict
    → Service × Result AuthError Session
    → Service × Result AuthError (Unit {0})
sudo_for now id source verdict (s, err e) = (s, err e)
sudo_for now id source verdict (s, ok session) = grant_sudo s now id source verdict

-- `OpenSudo`.
unfoldable pub open_sudo :
    Service → Time → String → String → Verdict → Service × Result AuthError (Unit {0})
open_sudo s now id source verdict = sudo_for now id source verdict (authenticate s now id)

-- `AllowsPrivileged`.
unfoldable pub allows_privileged : Service → Time → String → Service × Bool
allows_privileged s now id =
    if not (ltb now (time_of (lookup id s.sudo_until)))
    then (record s { sudo_until = erase id s.sudo_until }, false)
    else (s, true)

-- The tests of the two halves of the token against the session's.
abbrev pub bad_tokens : String → String → Session → Bool
bad_tokens cookie header session =
    str_eq cookie ""
    || str_eq header ""
    || not (str_eq session.csrf_token cookie)
    || not (str_eq session.csrf_token header)

abbrev pub match_tokens :
    String → String → Service × Result AuthError Session → Service × Result AuthError Session
match_tokens cookie header (s, err e) = (s, err e)
match_tokens cookie header (s, ok session) =
    if bad_tokens cookie header session then (s, err bad_csrf) else (s, ok session)

-- `CheckCSRF`.
unfoldable pub check_csrf :
    Service → Time → String → String → String → Service × Result AuthError Session
check_csrf s now id cookie header = match_tokens cookie header (authenticate s now id)

-- `credentialsDiffer`.
unfoldable pub credentials_differ : Option (String × String) → String → String → Bool
credentials_differ none username hash = false
credentials_differ (some (stored_name, stored_hash)) username hash =
    not (str_eq stored_name username) || not (str_eq stored_hash hash)

-- Which statements of a rotation the database carries out.
pub record Database : Type 0 where
  pub selects : Bool
  pub updates : Bool
  pub deletes : Bool

-- `revokeEverythingLocked`.
abbrev pub revoke_everything : Database → Service → Service × Result AuthError (Unit {0})
revoke_everything db s =
    if not db.deletes
    then (s, err store_failed)
    else (record s { sessions = []; sudo_until = [] }, ok tt)

abbrev pub new_row_of : Option (String × String) → String → String → Option (String × String)
new_row_of none username hash = none
new_row_of (some _) username hash = some (username, hash)

-- `Reconfigure` behind its validation.
unfoldable pub reconfigure :
    Database → Service → String → String → ℕ → Service × Result AuthError (Unit {0})
unfolding credentials_differ
reconfigure db s username hash ttl =
    if not db.selects
    then (s, err store_failed)
    else if not db.updates
    then (s, err store_failed)
    else let s' = record s {
      username = username;
      ttl = ttl;
      stored = new_row_of s.stored username hash;
    } in
      if credentials_differ s.stored username hash then revoke_everything db s' else (s', ok tt)
