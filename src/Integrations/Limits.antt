-- ===== src/Integrations/Limits.antt =====
-- integrations/limits.go: the requested, approved and effective resource ceilings. An `int` of
-- this table is a natural number: the schemas allow no negative ceiling.
use veduta.Prelude.{
  ℕ, Bool, true, false, ◌&&◌, Option, none, some, List, [], ◌∷◌, ltb, if◌then◌else◌, String, str_eq,
  lookup,
}

-- `limitBound`.
pub record Bound : Type 0 where
  pub default : ℕ
  pub maximum : ℕ

abbrev pub bound : ℕ → ℕ → Bound
bound d m = record { default = d; maximum = m }

-- `limitBounds`.
abbrev pub limit_bounds : List (String × Bound)
limit_bounds =
    ("memoryMB", bound 64 256)
    ∷ ("timeoutMs", bound 3000 30000)
    ∷ ("outputKB", bound 64 256)
    ∷ ("httpRequests", bound 8 32)
    ∷ ("responseMB", bound 4 16)
    ∷ ("cacheEntries", bound 64 512)
    ∷ ("inputMB", bound 4 16)
    ∷ ("jsonDepth", bound 32 64)
    ∷ ("jsonNodes", bound 200000 1000000)
    ∷ ("exprNodes", bound 512 4096)
    ∷ ("iterations", bound 20000 100000)
    ∷ ("requestBodyKB", bound 64 1024)
    ∷ ("hostCalls", bound 256 2048)
    ∷ ("cacheBytesKB", bound 256 4096)
    ∷ []

-- A read of the table; a name that is not in it reads as zero.
unfoldable pub bound_of : String → Bound
bound_of name = elim (lookup name limit_bounds) [ none ↦ bound 0 0 | some b ↦ b ]

-- `limitFieldOrder`.
abbrev pub limit_field_order : List String
limit_field_order =
    "cacheBytesKB" ∷ "cacheEntries" ∷ "exprNodes" ∷ "hostCalls" ∷ "httpRequests" ∷ "inputMB"
    ∷ "iterations" ∷ "jsonDepth" ∷ "jsonNodes" ∷ "memoryMB" ∷ "outputKB" ∷ "requestBodyKB"
    ∷ "responseMB" ∷ "timeoutMs" ∷ []

-- `Limits`: an unset field is `none`.
pub record Limits : Type 0 where
  pub memory_mb : Option ℕ
  pub timeout_ms : Option ℕ
  pub output_kb : Option ℕ
  pub http_requests : Option ℕ
  pub response_mb : Option ℕ
  pub cache_entries : Option ℕ
  pub input_mb : Option ℕ
  pub json_depth : Option ℕ
  pub json_nodes : Option ℕ
  pub expr_nodes : Option ℕ
  pub iterations : Option ℕ
  pub request_body_kb : Option ℕ
  pub host_calls : Option ℕ
  pub cache_bytes_kb : Option ℕ

abbrev pub no_limits : Limits
no_limits = record {
  memory_mb = none;
  timeout_ms = none;
  output_kb = none;
  http_requests = none;
  response_mb = none;
  cache_entries = none;
  input_mb = none;
  json_depth = none;
  json_nodes = none;
  expr_nodes = none;
  iterations = none;
  request_body_kb = none;
  host_calls = none;
  cache_bytes_kb = none;
}

-- `Limits.field`.
unfoldable pub field : Limits → String → Option ℕ
field l name =
    if str_eq name "memoryMB"
    then l.memory_mb
    else if str_eq name "timeoutMs"
    then l.timeout_ms
    else if str_eq name "outputKB"
    then l.output_kb
    else if str_eq name "httpRequests"
    then l.http_requests
    else if str_eq name "responseMB"
    then l.response_mb
    else if str_eq name "cacheEntries"
    then l.cache_entries
    else if str_eq name "inputMB"
    then l.input_mb
    else if str_eq name "jsonDepth"
    then l.json_depth
    else if str_eq name "jsonNodes"
    then l.json_nodes
    else if str_eq name "exprNodes"
    then l.expr_nodes
    else if str_eq name "iterations"
    then l.iterations
    else if str_eq name "requestBodyKB"
    then l.request_body_kb
    else if str_eq name "hostCalls"
    then l.host_calls
    else if str_eq name "cacheBytesKB"
    then l.cache_bytes_kb
    else none

-- `requested`: a side of the formula, within the core's maximum.
unfoldable pub requested : String → Limits → ℕ
unfolding bound_of field
requested name m =
    let b : Bound = bound_of name in
    let v : ℕ = elim (field m name) [ none ↦ b.default | some n ↦ n ] in
    if ltb b.maximum v then b.maximum else v

abbrev pub unset : Option ℕ → Bool
unset none = true
unset (some n) = false

-- `isZero`.
unfoldable pub is_zero : Limits → Bool
is_zero l =
    unset l.memory_mb
    && unset l.timeout_ms
    && unset l.output_kb
    && unset l.http_requests
    && unset l.response_mb
    && unset l.cache_entries
    && unset l.input_mb
    && unset l.json_depth
    && unset l.json_nodes
    && unset l.expr_nodes
    && unset l.iterations
    && unset l.request_body_kb
    && unset l.host_calls
    && unset l.cache_bytes_kb

-- `effectiveLimit`.
unfoldable pub effective_limit : String → Limits → Limits → ℕ
effective_limit name manifest approved =
    let m : ℕ = requested name manifest in
    let a : ℕ = requested name approved in if ltb a m then a else m

-- `EffectiveLimits`.
pub record EffectiveLimits : Type 0 where
  pub memory_mb : ℕ
  pub timeout_ms : ℕ
  pub output_kb : ℕ
  pub http_requests : ℕ
  pub response_mb : ℕ
  pub cache_entries : ℕ
  pub input_mb : ℕ
  pub json_depth : ℕ
  pub json_nodes : ℕ
  pub expr_nodes : ℕ
  pub iterations : ℕ
  pub request_body_kb : ℕ
  pub host_calls : ℕ
  pub cache_bytes_kb : ℕ

abbrev pub zero_limits : EffectiveLimits
zero_limits = record {
  memory_mb = 0;
  timeout_ms = 0;
  output_kb = 0;
  http_requests = 0;
  response_mb = 0;
  cache_entries = 0;
  input_mb = 0;
  json_depth = 0;
  json_nodes = 0;
  expr_nodes = 0;
  iterations = 0;
  request_body_kb = 0;
  host_calls = 0;
  cache_bytes_kb = 0;
}

-- `EffectiveLimits.field`.
unfoldable pub effective_field : EffectiveLimits → String → ℕ
effective_field e name =
    if str_eq name "memoryMB"
    then e.memory_mb
    else if str_eq name "timeoutMs"
    then e.timeout_ms
    else if str_eq name "outputKB"
    then e.output_kb
    else if str_eq name "httpRequests"
    then e.http_requests
    else if str_eq name "responseMB"
    then e.response_mb
    else if str_eq name "cacheEntries"
    then e.cache_entries
    else if str_eq name "inputMB"
    then e.input_mb
    else if str_eq name "jsonDepth"
    then e.json_depth
    else if str_eq name "jsonNodes"
    then e.json_nodes
    else if str_eq name "exprNodes"
    then e.expr_nodes
    else if str_eq name "iterations"
    then e.iterations
    else if str_eq name "requestBodyKB"
    then e.request_body_kb
    else if str_eq name "hostCalls"
    then e.host_calls
    else if str_eq name "cacheBytesKB"
    then e.cache_bytes_kb
    else 0

-- `EffectiveLimits.setField`.
unfoldable pub set_field : String → ℕ → EffectiveLimits → EffectiveLimits
set_field name v e =
    if str_eq name "memoryMB"
    then record e { memory_mb = v }
    else if str_eq name "timeoutMs"
    then record e { timeout_ms = v }
    else if str_eq name "outputKB"
    then record e { output_kb = v }
    else if str_eq name "httpRequests"
    then record e { http_requests = v }
    else if str_eq name "responseMB"
    then record e { response_mb = v }
    else if str_eq name "cacheEntries"
    then record e { cache_entries = v }
    else if str_eq name "inputMB"
    then record e { input_mb = v }
    else if str_eq name "jsonDepth"
    then record e { json_depth = v }
    else if str_eq name "jsonNodes"
    then record e { json_nodes = v }
    else if str_eq name "exprNodes"
    then record e { expr_nodes = v }
    else if str_eq name "iterations"
    then record e { iterations = v }
    else if str_eq name "requestBodyKB"
    then record e { request_body_kb = v }
    else if str_eq name "hostCalls"
    then record e { host_calls = v }
    else if str_eq name "cacheBytesKB"
    then record e { cache_bytes_kb = v }
    else e

-- The loop of `ReconcileAtApproval`.
unfoldable pub reconcile_fields : List String → Limits → Limits → EffectiveLimits → EffectiveLimits
unfolding set_field
reconcile_fields [] manifest approved out = out
reconcile_fields (name ∷ names) manifest approved out =
    reconcile_fields names manifest approved
      (set_field name (effective_limit name manifest approved) out)

-- `ReconcileAtApproval`.
unfoldable pub reconcile_at_approval : Limits → Limits → EffectiveLimits
unfolding reconcile_fields
reconcile_at_approval manifest approved =
    reconcile_fields limit_field_order manifest approved zero_limits
