-- ===== src/Scheduler/Backoff.antt =====
-- scheduler/scheduler.go: `backoff`, `minDuration` and `jitter`, over nanoseconds.
use veduta.Prelude.{
  ℕ, zero, suc, ◌+◌, ◌-◌, ◌*◌, ◌/◌, ◌%◌, ◌^◌, [], ◌∷◌, Bytes, leb, ltb, ◌==◌, if◌then◌else◌,
}
use Prim.Native.Nat.{bit_xor}
use veduta.Cards.Document.{second, hour}

abbrev pub minute : ℕ
minute = 60 * second

-- `minDuration`.
abbrev pub min_duration : ℕ → ℕ → ℕ
min_duration a b = if ltb a b then a else b

-- The loop of `backoff`, by the rounds that are left.
unfoldable pub double_up : ℕ → ℕ → ℕ
double_up zero base = base
double_up (suc k) base = let more = double_up k (base * 2) in if ltb base hour then more else base

-- `backoff`: the first failure waits the base, each further one twice as long, an hour at most.
unfoldable pub backoff : ℕ → ℕ → ℕ
unfolding double_up
backoff n base = min_duration (double_up (n - 1) (if base == 0 then second else base)) hour

-- `hash/fnv`: the 32-bit FNV-1a hash of the bytes of an id.
unfoldable pub fnv_1a : ℕ → Bytes → ℕ
fnv_1a h [] = h
fnv_1a h (b ∷ s) = fnv_1a (bit_xor h b * 16_777_619 % 2 ^ 32) s

unfoldable pub hash_id : Bytes → ℕ
unfolding fnv_1a
hash_id id = fnv_1a 2_166_136_261 id

-- `jitter` by the hash: `percent` is its remainder by 11 less 5, and the division truncates to 0.
unfoldable pub jitter_by : ℕ → ℕ → ℕ
jitter_by h base =
    if base == 0
    then minute
    else if leb 5 (h % 11)
    then base + base * (h % 11 - 5) / 100
    else base - base * (5 - h % 11) / 100

-- `jitter`.
unfoldable pub jitter : Bytes → ℕ → ℕ
unfolding jitter_by hash_id
jitter id base = jitter_by (hash_id id) base
