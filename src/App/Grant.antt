-- ===== src/App/Grant.antt =====
-- app/runtime.go: the grant that a card of an approved integration runs with.
use veduta.Prelude.{
  ◌||◌, Option, none, some, List, [], ◌∷◌, ◌++◌, Bytes, if◌then◌else◌, String, str_eq,
}
use veduta.Capabilities.Policy as Policy
use veduta.Capabilities.Policy.{UseKind, use_data, use_asset, Grant}
use veduta.Integrations.Limits.{EffectiveLimits}
use veduta.Integrations.Route.{Route}
use veduta.Integrations.Manifest.{LockEntry}

-- The parts of `manifestload.Manifest` that a grant takes.
pub record OperationDef : Type 0 where
  pub id : String
  pub routes : List Route

pub record LoadedManifest : Type 0 where
  pub id : String
  pub version : String
  pub runtime : String
  pub digest : String
  pub operations : List OperationDef

-- The parts of `config.Card` that a grant takes.
pub record Card : Type 0 where
  pub id : String
  pub integration : String
  pub operation : String
  pub slots : List (String × String)

-- The allowed paths of an HTTP connection; `none` for any other connection, or for none.
abbrev pub Registry : Type 0
Registry = String → Option (List Bytes)

-- `runtimeUse`. The schemas know two kinds; `none` stands for a kind outside them, which no request has.
unfoldable pub runtime_use : String → Option UseKind
runtime_use value =
    if str_eq value "" || str_eq value "data"
    then some use_data
    else if str_eq value "asset"
    then some use_asset
    else none

abbrev pub as_kind : Route → Option UseKind → Option Policy.Route
as_kind r none = none
as_kind r (some u) = some (record {
  slot = r.slot;
  method = r.method;
  path = r.path;
  use_kind = u;
  query_keys = r.query_keys;
  content_type = r.content_type;
  max_body_kb = r.max_body_kb;
})

-- A route as the broker reads it.
unfoldable pub capability_route : Route → Option Policy.Route
unfolding runtime_use
capability_route r = as_kind r (runtime_use r.use_name)

abbrev pub keep_route : Option Policy.Route → List Policy.Route → List Policy.Route
keep_route none rs = rs
keep_route (some r) rs = r ∷ rs

unfoldable pub capability_routes : List Route → List Policy.Route
unfolding capability_route
capability_routes [] = []
capability_routes (r ∷ rs) = keep_route (capability_route r) (capability_routes rs)

unfoldable pub operation_routes : List OperationDef → List Route
operation_routes [] = []
operation_routes (o ∷ os) = o.routes ++ operation_routes os

-- The path policy of every slot that is bound to an HTTP connection.
unfoldable pub slot_policies : Registry → List (String × String) → List (String × List Bytes)
slot_policies reg [] = []
slot_policies reg ((slot, id) ∷ slots) = elim (reg id) [
  | none ↦ slot_policies reg slots
  | some paths ↦ (slot, paths) ∷ slot_policies reg slots
]

abbrev pub broker_limits : EffectiveLimits → Policy.Limits
broker_limits e = record {
  http_requests = e.http_requests;
  response_mb = e.response_mb;
  cache_entries = e.cache_entries;
  cache_bytes_kb = e.cache_bytes_kb;
  host_calls = e.host_calls;
  request_body_kb = e.request_body_kb;
}

-- `grant`.
unfoldable pub grant : LoadedManifest → LockEntry → Card → Registry → Grant
unfolding capability_routes operation_routes slot_policies
grant m l c reg = record {
  plugin_id = m.id;
  version = m.version;
  instance_id = c.id;
  manifest_digest = m.digest;
  slots = c.slots;
  caps = l.capabilities;
  manifest_routes = capability_routes (operation_routes m.operations);
  approved_routes = capability_routes l.routes;
  connection_policy = slot_policies reg c.slots;
  limits = broker_limits l.effective_limits;
}

-- `operation`.
unfoldable pub operation : List OperationDef → String → Option OperationDef
operation [] id = none
operation (o ∷ os) id = if str_eq o.id id then some o else operation os id
