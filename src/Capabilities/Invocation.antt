-- ===== src/Capabilities/Invocation.antt =====
-- Any sequence of broker calls of one invocation (capabilities/broker.go).
use veduta.Prelude.{
  ℕ, ◌≡◌, refl, inl, inr, Option, none, some, List, [], ◌∷◌, arith, Bytes, length, Result, ok, err,
  Option-cases, String,
}
use veduta.Capabilities.Policy.{Limits, HttpRequest, Grant}
use veduta.Capabilities.Authorize.{BrokerError, Mime}
use veduta.Capabilities.Budget.{
  Budget, consume_host_call, consume_http_request, consume_cache_write, Within,
  consume_host_call-Within, consume_http_request-Within, consume_cache_write-Within,
}
use veduta.Capabilities.Cache.{cache_get, cache_put, cache_namespace, full_key}
use veduta.Capabilities.Broker.{
  State, Verdict, audited, charge, spend_http, spend_put, check_http, admit_http, check_plain,
  cache_get_op, check_put, cache_put_op, admit_log, admit_emit, check_asset, admit_asset,
}

-- One call of the broker under one grant.
pub data Call : Type 0 where
  http : HttpRequest → Call
  read_cache : ℕ → Bytes → Call
  write_cache : ℕ → Bytes → Bytes → ℕ → Call
  log emit : Call
  asset : String → Bytes → List (String × String) → Call

unfoldable pub call : Mime → Grant → Call → State → State
call m g (http req) s = (admit_http m g req s).0
call m g (read_cache now key) s = (cache_get_op now g key s).0
call m g (write_cache now key val ttl) s = (cache_put_op now g key val ttl s).0
call m g log s = (admit_log g s).0
call m g emit s = (admit_emit g s).0
call m g (asset slot path query) s = (admit_asset m g slot path query s).0

unfoldable pub calls : Mime → Grant → List Call → State → State
unfolding call
calls m g [] s = s
calls m g (c ∷ cs) s = calls m g cs (call m g c s)

charge-Within :
    (l : Limits) (b : Budget) (o : Option Budget)
    → Within l b
    → ((c : Budget) → o ≡ some c → Within l c)
    → Within l (charge b o).0
charge-Within l b none w h = w
charge-Within l b (some c) w h = h c refl

host_charge : (l : Limits) (b : Budget) → Within l b → Within l (charge b (consume_host_call l b)).0
host_charge l b w =
    charge-Within l b (consume_host_call l b) w (λ c. consume_host_call-Within l b c w)

audited_budget :
    (g : Grant) (method : String) (s : State) (v : Verdict) → (audited g method s v).0.budget ≡ v.0
unfolding audited
audited_budget g method s (b, ok u) = refl
audited_budget g method s (b, err e) = refl

spend_http-Within : (l : Limits) (b : Budget) → Within l b → Within l (spend_http l b).0
unfolding spend_http
spend_http-Within l b w = elim (Option-cases (consume_host_call l b)) [
  | inl e ↦ rw (e, spend_http) w
  | inr (c, e) ↦
      rw (e, spend_http)
        (charge-Within l c (consume_http_request l c) (consume_host_call-Within l b c w e)
          (λ d. consume_http_request-Within l c d (consume_host_call-Within l b c w e)))
]

spend_put-Within : (l : Limits) (n : ℕ) (b : Budget) → Within l b → Within l (spend_put l n b).0
unfolding spend_put
spend_put-Within l n b w = elim (Option-cases (consume_host_call l b)) [
  | inl e ↦ rw (e, spend_put) w
  | inr (c, e) ↦
      rw (e, spend_put)
        (charge-Within l c (consume_cache_write l n c) (consume_host_call-Within l b c w e)
          (λ d. consume_cache_write-Within l n c d (consume_host_call-Within l b c w e)))
]

check_http-Within :
    (m : Mime) (g : Grant) (req : HttpRequest) (b : Budget)
    → Within g.limits b
    → Within g.limits (check_http m g req b).0
unfolding check_http
check_http-Within m g req b w = ground (arith, spend_http-Within g.limits b)

check_asset-Within :
    (m : Mime) (g : Grant) (slot : String) (path : Bytes) (query : List (String × String))
    (b : Budget)
    → Within g.limits b
    → Within g.limits (check_asset m g slot path query b).0
unfolding check_asset
check_asset-Within m g slot path query b w = ground (arith, host_charge g.limits b)

check_plain-Within :
    (cap_name : String) (g : Grant) (b : Budget)
    → Within g.limits b
    → Within g.limits (check_plain cap_name g b).0
unfolding check_plain
check_plain-Within cap_name g b w = ground (arith, host_charge g.limits b)

check_put-Within :
    (g : Grant) (n : ℕ) (b : Budget) → Within g.limits b → Within g.limits (check_put g n b).0
unfolding check_put
check_put-Within g n b w = ground (arith, spend_put-Within g.limits n b)

read_budget :
    (now : ℕ) (g : Grant) (key : Bytes) (s : State)
    → (cache_get_op now g key s).0.budget ≡ (check_plain "cache" g s.budget).0
unfolding cache_get_op
read_budget now g key s = by_verdict (check_plain "cache" g s.budget)
  where
    by_verdict :
        (v : Verdict)
        → (let (s', r) = audited g "CacheGet" s v in
            (elim r as (λ _. State × Result BrokerError (Option Bytes)) [
              | err e ↦ (s', err e)
              | ok u ↦
                  let (o, items) = cache_get now (full_key (cache_namespace g) key) s'.items in
                  (record s' { items = items }, ok o)
            ]).0.budget)
          ≡ v.0
    by_verdict (b, ok u) = refl
    by_verdict (b, err e) = refl

write_budget :
    (now : ℕ) (g : Grant) (key val : Bytes) (ttl : ℕ) (s : State)
    → (cache_put_op now g key val ttl s).0.budget ≡ (check_put g (length val) s.budget).0
unfolding cache_put_op
write_budget now g key val ttl s = by_verdict (check_put g (length val) s.budget)
  where
    by_verdict :
        (v : Verdict)
        → (let (s', r) = audited g "CachePut" s v in
            (elim r as (λ _. State × Result BrokerError (Unit {0})) [
              | err e ↦ (s', err e)
              | ok u ↦ (
                record s' {
                  items = cache_put now (full_key (cache_namespace g) key) val ttl s'.items;
                },
                ok tt,
              )
            ]).0.budget)
          ≡ v.0
    by_verdict (b, ok u) = refl
    by_verdict (b, err e) = refl

-- A call keeps every counter within its limit, where that is not 0.
pub call-Within :
    (m : Mime) (g : Grant) (c : Call) (s : State)
    → Within g.limits s.budget
    → Within g.limits (call m g c s).budget
unfolding call admit_http cache_get_op cache_put_op admit_log admit_emit admit_asset
call-Within m g (http req) s w =
    rw (audited_budget g "HTTP" s (check_http m g req s.budget))
      (check_http-Within m g req s.budget w)
call-Within m g (read_cache now key) s w =
    rw (read_budget now g key s) (check_plain-Within "cache" g s.budget w)
call-Within m g (write_cache now key val ttl) s w =
    rw (write_budget now g key val ttl s) (check_put-Within g (length val) s.budget w)
call-Within m g log s w =
    rw (audited_budget g "Log" s (check_plain "log" g s.budget))
      (check_plain-Within "log" g s.budget w)
call-Within m g emit s w =
    rw (audited_budget g "Emit" s (check_plain "events" g s.budget))
      (check_plain-Within "events" g s.budget w)
call-Within m g (asset slot path query) s w =
    rw (audited_budget g "AssetRef" s (check_asset m g slot path query s.budget))
      (check_asset-Within m g slot path query s.budget w)

-- No sequence of broker calls takes counters that are within the limits of the grant past a limit
-- that is not 0; the code reads a limit of 0 as none, so such a limit bounds nothing.
pub calls-Within :
    (m : Mime) (g : Grant) (cs : List Call) (s : State)
    → Within g.limits s.budget
    → Within g.limits (calls m g cs s).budget
unfolding calls
calls-Within m g [] s w = w
calls-Within m g (c ∷ cs) s w = calls-Within m g cs (call m g c s) (call-Within m g c s w)
