-- ===== src/Capabilities/Budget.antt =====
-- capabilities/budget.go: the counters of one invocation.
use veduta.Prelude.{
  ℕ, ◌+◌, ◌/◌, ◌≤◌, ◌<◌, ◌≡◌, Bool, ◌&&◌, Option, none, some, arith, leb, ltb, if◌then◌else◌,
}
use veduta.Capabilities.Policy.{Limits}

-- `budgetState`: what one invocation has used.
pub record Budget : Type 0 where
  pub host_calls_used : ℕ
  pub http_requests_used : ℕ
  pub cache_entries_used : ℕ
  pub cache_bytes_kb_used : ℕ

abbrev pub fresh_budget : Budget
fresh_budget = record {
  host_calls_used = 0;
  http_requests_used = 0;
  cache_entries_used = 0;
  cache_bytes_kb_used = 0;
}

-- A limit of 0 is no limit.
abbrev pub spent : ℕ → ℕ → Bool
spent limit used = ltb 0 limit && leb limit used

-- `consumeHostCall`; `none` is `ErrBudgetExceeded`.
unfoldable pub consume_host_call : Limits → Budget → Option Budget
consume_host_call l b =
    if spent l.host_calls b.host_calls_used
    then none
    else some (record b { host_calls_used = b.host_calls_used + 1 })

-- `consumeHTTPRequest`.
unfoldable pub consume_http_request : Limits → Budget → Option Budget
consume_http_request l b =
    if spent l.http_requests b.http_requests_used
    then none
    else some (record b { http_requests_used = b.http_requests_used + 1 })

-- `consumeCacheWrite`: one entry, and the size of the value rounded up to kilobytes.
unfoldable pub consume_cache_write : Limits → ℕ → Budget → Option Budget
consume_cache_write l value_bytes b =
    if spent l.cache_entries b.cache_entries_used
    then none
    else let kb = (value_bytes + 1023) / 1024 in
      if ltb 0 l.cache_bytes_kb && ltb l.cache_bytes_kb (b.cache_bytes_kb_used + kb)
      then none
      else some (record b {
        cache_entries_used = b.cache_entries_used + 1;
        cache_bytes_kb_used = b.cache_bytes_kb_used + kb;
      })

-- Every use is within its limit, where that is not 0.
pub record Within (l : Limits) (b : Budget) : Type 0 where
  pub host_calls : 0 < l.host_calls → b.host_calls_used ≤ l.host_calls
  pub http_requests : 0 < l.http_requests → b.http_requests_used ≤ l.http_requests
  pub cache_entries : 0 < l.cache_entries → b.cache_entries_used ≤ l.cache_entries
  pub cache_bytes_kb : 0 < l.cache_bytes_kb → b.cache_bytes_kb_used ≤ l.cache_bytes_kb

pub consume_host_call-Within :
    (l : Limits) (b c : Budget) → Within l b → consume_host_call l b ≡ some c → Within l c
unfolding consume_host_call
consume_host_call-Within l b c w h = ground arith

pub consume_http_request-Within :
    (l : Limits) (b c : Budget) → Within l b → consume_http_request l b ≡ some c → Within l c
unfolding consume_http_request
consume_http_request-Within l b c w h = ground arith

pub consume_cache_write-Within :
    (l : Limits) (n : ℕ) (b c : Budget)
    → Within l b
    → consume_cache_write l n b ≡ some c
    → Within l c
unfolding consume_cache_write
consume_cache_write-Within l n b c w h = ground arith
