-- ===== src/Auth/Lockout.antt =====
-- auth/service.go: the attempts of each source, `recordFailure` and `evictLocked`.
use veduta.Prelude.{
  ℕ, ◌+◌, ◌*◌, Bool, not, ◌&&◌, ◌||◌, Option, none, some, List, [], ◌∷◌, length, leb, ltb, ◌==◌,
  if◌then◌else◌, String, lookup, insert, erase,
}
use veduta.Cards.CardState.{Time}
use veduta.Scheduler.Backoff.{minute}

-- `attempts`; 0 is the zero time.
pub record Attempts : Type 0 where
  pub count : ℕ
  pub window_start : Time
  pub locked_until : Time

abbrev pub Sources : Type 0
Sources = List (String × Attempts)

abbrev pub no_attempts : Attempts
no_attempts = record { count = 0; window_start = 0; locked_until = 0 }

abbrev pub attempts_of : Option Attempts → Attempts
attempts_of none = no_attempts
attempts_of (some a) = a

unfoldable pub max_tracked_sources : ℕ
max_tracked_sources = 4096

-- A window that is over: ten minutes, reckoned like a `Duration` of a later time.
abbrev pub over : Time → Attempts → Bool
over now a = leb (a.window_start + 10 * minute) now

-- The first loop of `evictLocked`: windows that are over and not locked are dropped.
unfoldable pub drop_over : Time → Sources → Sources
drop_over now [] = []
drop_over now ((k, a) ∷ s) =
    let rest = drop_over now s in
    if over now a && not (ltb now a.locked_until) then rest else (k, a) ∷ rest

-- The second loop: the key of the oldest window.
unfoldable pub oldest_key : Sources → String → Time → String
oldest_key [] k t = k
oldest_key ((j, a) ∷ s) k t =
    if t == 0 || ltb a.window_start t then oldest_key s j a.window_start else oldest_key s k t

-- `evictLocked`.
unfoldable pub evict : Time → Sources → Sources
evict now s =
    if ltb (length s) max_tracked_sources
    then s
    else let kept = drop_over now s in
      if ltb (length kept) max_tracked_sources then kept else erase (oldest_key kept "" 0) kept

unfoldable pub room_for : String → Time → Sources → Sources
room_for key now s = elim (lookup key s) [ none ↦ evict now s | some _ ↦ s ]

-- The new record of a source after one more failure.
unfoldable pub fail_once : Time → Attempts → Attempts
fail_once now a =
    let current =
      if a.window_start == 0 || over now a
      then record { count = 0; window_start = now; locked_until = 0 }
      else a in
    let counted = record current { count = current.count + 1 } in
    if leb 5 counted.count then record counted { locked_until = now + 15 * minute } else counted

-- `recordFailure`.
unfoldable pub record_failure : String → Time → Sources → Sources
record_failure key now s =
    let roomy = room_for key now s in
    insert key (fail_once now (attempts_of (lookup key roomy))) roomy

-- Whether a source is locked out.
abbrev pub is_locked : String → Time → Sources → Bool
is_locked key now s = ltb now (attempts_of (lookup key s)).locked_until
