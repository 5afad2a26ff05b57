-- ===== src/Capabilities/Broker.antt =====
-- capabilities/broker.go and assetref.go: the preamble of every broker method, and the cache methods whole.
use veduta.Prelude.{
  ℕ, not, Option, none, some, List, [], ◌∷◌, Bytes, length, Result, ok, err, if◌then◌else◌, String,
  mem_text, lookup,
}
use veduta.Capabilities.Policy.{use_data, use_asset, Limits, known, HttpRequest, Grant}
use veduta.Capabilities.Authorize.{
  BrokerError, cap_denied, slot_denied, budget_exceeded, Mime, authorize,
}
use veduta.Capabilities.Budget.{
  Budget, consume_host_call, consume_http_request, consume_cache_write,
}
use veduta.Capabilities.Cache.{Items, cache_namespace, full_key, cache_get, cache_put}

-- What the broker changes: the counters of the invocation, the cache, and the audited denials.
pub record State : Type 0 where
  pub budget : Budget
  pub items : Items
  pub denials : List (String × String × BrokerError)

-- The counters after a check and its verdict: a check that fails late has spent what it spent.
abbrev pub Verdict : Type 0
Verdict = Budget × Result BrokerError (Unit {0})

abbrev pub refuse : Budget → BrokerError → Verdict
refuse b e = (b, err e)

abbrev pub charge : Budget → Option Budget → Verdict
charge b none = (b, err budget_exceeded)
charge b (some c) = (c, ok tt)

-- `broker.authorize`: a failed check is audited under the method's name.
unfoldable pub audited : Grant → String → State → Verdict → State × Result BrokerError (Unit {0})
audited g method s (b, ok u) = (record s { budget = b }, ok u)
audited g method s (b, err e) =
    (record s { budget = b; denials = (g.plugin_id, method, e) ∷ s.denials }, err e)

-- The two budgets of an HTTP call, one after the other.
unfoldable pub spend_http : Limits → Budget → Verdict
spend_http l b = elim (consume_host_call l b) [
  | none ↦ refuse b budget_exceeded
  | some c ↦ charge c (consume_http_request l c)
]

-- The two budgets of a cache write.
unfoldable pub spend_put : Limits → ℕ → Budget → Verdict
spend_put l value_bytes b = elim (consume_host_call l b) [
  | none ↦ refuse b budget_exceeded
  | some c ↦ charge c (consume_cache_write l value_bytes c)
]

-- The check of `HTTP`: capability, slot, route, then the two budgets.
unfoldable pub check_http : Mime → Grant → HttpRequest → Budget → Verdict
check_http m g req b =
    if not (mem_text "http" g.caps) then refuse b cap_denied else elim (lookup req.slot g.slots) [
      | none ↦ refuse b slot_denied
      | some conn ↦ elim (authorize m g req use_data) [
        | err e ↦ refuse b e
        | ok u ↦ spend_http g.limits b
      ]
    ]

-- `HTTP` up to the call of the connection registry.
unfoldable pub admit_http :
    Mime → Grant → HttpRequest → State → State × Result BrokerError (Unit {0})
unfolding check_http audited
admit_http m g req s = audited g "HTTP" s (check_http m g req s.budget)

-- The check of `CacheGet`, `Log` and `Emit`, which have neither slot nor route.
unfoldable pub check_plain : String → Grant → Budget → Verdict
check_plain cap_name g b =
    if not (mem_text cap_name g.caps)
    then refuse b cap_denied
    else charge b (consume_host_call g.limits b)

-- `CacheGet`.
unfoldable pub cache_get_op : ℕ → Grant → Bytes → State → State × Result BrokerError (Option Bytes)
unfolding check_plain audited
cache_get_op now g key s =
    let (s', r) = audited g "CacheGet" s (check_plain "cache" g s.budget) in
    elim r [
      | err e ↦ (s', err e)
      | ok u ↦
          let (v, items) = cache_get now (full_key (cache_namespace g) key) s'.items in
          (record s' { items = items }, ok v)
    ]

-- The check of `CachePut`.
unfoldable pub check_put : Grant → ℕ → Budget → Verdict
check_put g value_bytes b =
    if not (mem_text "cache" g.caps) then refuse b cap_denied else spend_put g.limits value_bytes b

-- `CachePut`.
unfoldable pub cache_put_op :
    ℕ → Grant → Bytes → Bytes → ℕ → State → State × Result BrokerError (Unit {0})
unfolding check_put audited spend_put
cache_put_op now g key val ttl s =
    let (s', r) = audited g "CachePut" s (check_put g (length val) s.budget) in
    elim r [
      | err e ↦ (s', err e)
      | ok u ↦ (
        record s' { items = cache_put now (full_key (cache_namespace g) key) val ttl s'.items },
        ok tt,
      )
    ]

-- `Log` and `Emit` up to the line or event that they hand on.
unfoldable pub admit_log : Grant → State → State × Result BrokerError (Unit {0})
unfolding check_plain audited
admit_log g s = audited g "Log" s (check_plain "log" g s.budget)

unfoldable pub admit_emit : Grant → State → State × Result BrokerError (Unit {0})
unfolding check_plain audited
admit_emit g s = audited g "Emit" s (check_plain "events" g s.budget)

-- The check of `AssetRef`: a GET request without a body, judged against asset routes.
abbrev pub asset_request : String → Bytes → List (String × String) → HttpRequest
asset_request slot path query = record {
  slot = slot;
  method = "GET";
  path = path;
  query = query;
  header = [];
  body = [];
  stated_len = known 0;
}

unfoldable pub check_asset :
    Mime → Grant → String → Bytes → List (String × String) → Budget → Verdict
check_asset m g slot path query b =
    if not (mem_text "assets" g.caps) then refuse b cap_denied else elim (lookup slot g.slots) [
      | none ↦ refuse b slot_denied
      | some conn ↦ elim (authorize m g (asset_request slot path query) use_asset) [
        | err e ↦ refuse b e
        | ok u ↦ charge b (consume_host_call g.limits b)
      ]
    ]

unfoldable pub admit_asset :
    Mime
    → Grant
    → String
    → Bytes
    → List (String × String)
    → State
    → State × Result BrokerError (Unit {0})
unfolding check_asset audited
admit_asset m g slot path query s =
    audited g "AssetRef" s (check_asset m g slot path query s.budget)
