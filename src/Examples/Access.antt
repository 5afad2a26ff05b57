-- ===== src/Examples/Access.antt =====
-- Runs of auth: a lockout, a session, a window of privilege and a rotation.
use veduta.Prelude.{
  ◌≡◌, refl, ◌≤◌, ◌+◌, ◌*◌, Bool, true, false, some, List, [], ◌∷◌, ok, err, arith, length, lookup,
  ltb,
}
use veduta.Cards.CardState.{Time}
use veduta.Scheduler.Backoff.{minute}
use veduta.Auth.Lockout.{Attempts, max_tracked_sources, is_locked}
use veduta.Auth.Sessions.{
  Session, rate_limited, Service, login, authenticate, grant_sudo, open_sudo, check_csrf, Database,
  store_failed, credentials_differ, reconfigure,
}
use veduta.Auth.Barred.{Login, logins, login-lockout}
use veduta.Auth.Access.{
  login-bounded, Rotated, reconfigure-revokes, reconfigure-reconfigure, Accepted,
  check_csrf-Accepted,
}

abbrev four : Attempts
four = record { count = 4; window_start = 1; locked_until = 0 }

abbrev session : Session
session = record { username = "ada"; csrf_token = "c"; expires_at = 90 * minute }

abbrev service : Service
service = record {
  username = "ada";
  stored = some ("ada", "old");
  ttl = 60 * minute;
  attempts = ("ada@1", four) ∷ [];
  sessions = ("s1", session) ∷ [];
  sudo_until = [];
}

abbrev due : Time → Time → Bool
due expires now = ltb expires (now + 1)

not_locked : is_locked "ada@1" minute service.attempts ≡ false
unfolding lookup
not_locked = refl

four_tracked : lookup "ada@1" service.attempts ≡ some four
unfolding lookup
four_tracked = refl

few : length service.attempts ≤ max_tracked_sources
unfolding max_tracked_sources
few = omega arith

-- Another source fails, and the locked one tries again, before the right password comes.
abbrev between : List Login
between =
    record {
      at = minute;
      source = "bob@2";
      username = "bob";
      verdict = some false;
      id = "s4";
      csrf = "f";
    }
    ∷ record {
      at = 2 * minute;
      source = "ada@1";
      username = "ada";
      verdict = some true;
      id = "s5";
      csrf = "g";
    }
    ∷ []

room : length service.attempts + length between ≤ max_tracked_sources
unfolding max_tracked_sources
room = omega arith

login-lockout_example :
    let t = logins due (login due service minute "ada@1" "ada" (some false) "s2" "d").0 between in
    login due t (3 * minute) "ada@1" "ada" (some true) "s3" "e" ≡ (t, err rate_limited)
login-lockout_example =
    login-lockout due service minute (3 * minute) "ada@1" "ada" "ada" four (some true) "s2" "d" "s3"
      "e" between not_locked four_tracked (omega arith) (omega arith) (omega arith) (omega arith)
      (omega arith, (omega arith, tt)) room

login-bounded_example :
    length (login due service minute "bob@1" "bob" (some false) "s2" "d").0.attempts
    ≤ max_tracked_sources
login-bounded_example = login-bounded due service minute "bob@1" "bob" (some false) "s2" "d" few

new_hash : credentials_differ service.stored "ada" "new" ≡ true
unfolding credentials_differ
new_hash = refl

abbrev working : Database
working = record { selects = true; updates = true; deletes = true }

abbrev undeletable : Database
undeletable = record { selects = true; updates = true; deletes = false }

reconfigure-revokes_example :
    Rotated working "ada" "new" service (reconfigure working service "ada" "new" minute)
reconfigure-revokes_example = reconfigure-revokes working service "ada" "new" minute new_hash

retried_rotation :
    let first = reconfigure undeletable service "ada" "new" minute in
    let second = reconfigure working first.0 "ada" "new" minute in
    (first.1 ≡ err store_failed) × (second.1 ≡ ok tt) × (second.0.sessions ≡ service.sessions)
retried_rotation =
    reconfigure-reconfigure undeletable working service "ada" "new" minute new_hash
      (refl, refl, refl) (refl, refl)

opened : (open_sudo service minute "s1" "sudo@1" (some true)).1 ≡ ok tt
unfolding open_sudo authenticate grant_sudo lookup
opened = refl

checked : (check_csrf service minute "s1" "c" "c").1 ≡ ok session
unfolding check_csrf authenticate lookup
checked = refl

check_csrf-Accepted_example : Accepted service minute "s1" "c" "c" session
check_csrf-Accepted_example = check_csrf-Accepted service minute "s1" "c" "c" session checked
