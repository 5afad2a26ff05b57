-- ===== src/Capabilities/Authorize.antt =====
-- capabilities/authorize.go: `Authorize`, the only judgement of a request against the policies.
use veduta.Prelude.{
  ℕ, Bool, true, false, not, Option, none, some, List, [], ◌∷◌, Bytes, Result, ok, err,
  if◌then◌else◌, String, str_eq, lookup, insert,
}
use veduta.Routepath.Escape.{RouteError}
use veduta.Routepath.Canonicalise.{canonicalise}
use veduta.Capabilities.Policy.{
  UseKind, Route, HttpRequest, body_len, Grant, query_keys_allowed, body_size_allowed,
  route_matches, connection_allows,
}

-- Why the broker refuses. A refused route keeps the policy that refused it.
pub data BrokerError : Type 0 where
  cap_denied slot_denied budget_exceeded : BrokerError
  bad_path : RouteError → BrokerError
  manifest_denied approved_denied connection_denied : BrokerError

-- The functions of the package `mime` and of `strings` that the comparison of media types calls.
pub record Mime : Type 0 where
  pub parse : String → Option (String × List (String × String))
  pub format : String → List (String × String) → String
  pub lower : String → String

abbrev pub lower_charset : Mime → List (String × String) → List (String × String)
lower_charset m params = elim (lookup "charset" params) [
  | none ↦ params
  | some cs ↦ insert "charset" (m.lower cs) params
]

abbrev pub non_empty : String → Option String
non_empty s = if str_eq s "" then none else some s

-- `normaliseMediaType`.
unfoldable pub normalise_media_type : Mime → String → Option String
normalise_media_type m v = elim (m.parse v) [
  | none ↦ none
  | some (mt, params) ↦ non_empty (m.format (m.lower mt) (lower_charset m params))
]

abbrev pub same_media : Option String → Option String → Bool
same_media (some a) (some b) = str_eq a b
same_media _ _ = false

abbrev pub header_value : List (String × String) → String
header_value header = elim (lookup "Content-Type" header) [ none ↦ "" | some v ↦ v ]

-- `contentTypeAllowed`.
unfoldable pub content_type_allowed : Mime → String → List (String × String) → Bool
content_type_allowed m declared header =
    if str_eq declared ""
    then true
    else same_media (normalise_media_type m (header_value header)) (normalise_media_type m declared)

-- The body of the loop of `anyRouteAllows`: the whole tuple of one route.
unfoldable pub route_allows : Mime → Route → HttpRequest → Bytes → UseKind → ℕ → Bool
route_allows m route req canonical use_kind body_kb =
    if not (route_matches route req.slot req.method canonical use_kind)
    then false
    else if not (query_keys_allowed route.query_keys req.query)
    then false
    else if not (content_type_allowed m route.content_type req.header)
    then false
    else body_size_allowed route.max_body_kb body_kb (body_len req)

-- `anyRouteAllows`.
unfoldable pub any_route_allows : Mime → List Route → HttpRequest → Bytes → UseKind → ℕ → Bool
any_route_allows m [] req canonical use_kind body_kb = false
any_route_allows m (route ∷ routes) req canonical use_kind body_kb =
    if route_allows m route req canonical use_kind body_kb
    then true
    else any_route_allows m routes req canonical use_kind body_kb

abbrev pub policy_allows : Option (List Bytes) → Bytes → Bool
policy_allows none canonical = true
policy_allows (some allowed) canonical = connection_allows allowed canonical

-- `Authorize` behind the canonicalisation of the path.
unfoldable pub authorize_path :
    Mime → Grant → HttpRequest → UseKind → Bytes → Result BrokerError (Unit {0})
authorize_path m g req use_kind canonical =
    if not (any_route_allows m g.manifest_routes req canonical use_kind g.limits.request_body_kb)
    then err manifest_denied
    else if not
        (any_route_allows m g.approved_routes req canonical use_kind g.limits.request_body_kb)
    then err approved_denied
    else if not (policy_allows (lookup req.slot g.connection_policy) canonical)
    then err connection_denied
    else ok tt

-- `Authorize`: one canonical path, judged by the three policies in turn.
unfoldable pub authorize : Mime → Grant → HttpRequest → UseKind → Result BrokerError (Unit {0})
authorize m g req use_kind = elim (canonicalise req.path) [
  | err e ↦ err (bad_path e)
  | ok canonical ↦ authorize_path m g req use_kind canonical
]
