-- ===== src/Integrations/Route.antt =====
-- integrations/route.go: a route, and the tuple by which two routes are the same authority.
use veduta.Prelude.{
  ℕ, Bool, true, false, ◌&&◌, ◌||◌, Option, none, some, List, [], ◌∷◌, map, Bytes, codes, bytes_eq,
  Result, ok, err, ◌>>=◌, ltb, ◌==◌, if◌then◌else◌, sort, dedupe, String, str_eq,
}
use veduta.Routepath.Escape.{RouteError}
use veduta.Routepath.Canonicalise.{canonicalise, join}
use veduta.Capabilities.Policy.{core_default_body_kb}
use veduta.Capabilities.Authorize.{Mime, normalise_media_type}

-- `Route`: an entry of a manifest or of a lock. `query_keys` is `none` for a nil slice.
pub record Route : Type 0 where
  pub slot : String
  pub method : String
  pub path : Bytes
  pub use_name : String
  pub reason : String
  pub query_keys : Option (List String)
  pub content_type : String
  pub max_body_kb : ℕ

-- `identity`: the tuple that is authority.
pub record Identity : Type 0 where
  pub slot : String
  pub method : String
  pub path : Bytes
  pub use_name : String
  pub query_keys : Bytes
  pub content_type : String
  pub max_body_kb : ℕ

pub data IdentityError : Type 0 where
  bad_path : RouteError → IdentityError
  bad_media_type : String → IdentityError

-- `canonicalQueryKeys`: sorted, without repeats, joined by NUL.
unfoldable pub canonical_query_keys : Option (List String) → Bytes
canonical_query_keys none = codes "*"
canonical_query_keys (some ks) = 0 ∷ join 0 (dedupe (sort (map codes ks)))

-- `effectiveMaxBodyKB`.
unfoldable pub effective_max_body_kb : ℕ → ℕ → ℕ
effective_max_body_kb route_max request_body =
    if ltb 0 route_max
    then route_max
    else if ltb 0 request_body
    then request_body
    else core_default_body_kb

-- `normaliseContentType`: as the broker's `normaliseMediaType`, but an absent type stays absent.
unfoldable pub normalise_content_type : Mime → String → Result IdentityError String
normalise_content_type m v =
    if str_eq v ""
    then ok ""
    else elim (normalise_media_type m v) [ none ↦ err (bad_media_type v) | some t ↦ ok t ]

abbrev pub canonical_path : Bytes → Result IdentityError Bytes
canonical_path path = elim (canonicalise path) [ err e ↦ err (bad_path e) | ok p ↦ ok p ]

abbrev pub use_or_data : String → String
use_or_data u = if str_eq u "" then "data" else u

-- `Route.identity`.
unfoldable pub identity : Mime → Route → ℕ → Result IdentityError Identity
identity m r request_body = do
  path ← canonical_path r.path
  ct ← normalise_content_type m r.content_type
  ok (record {
    slot = r.slot;
    method = r.method;
    path = path;
    use_name = use_or_data r.use_name;
    query_keys = canonical_query_keys r.query_keys;
    content_type = ct;
    max_body_kb = effective_max_body_kb r.max_body_kb request_body;
  })

-- Equality of the structs, as keys of a Go map.
unfoldable pub same_identity : Identity → Identity → Bool
same_identity a b =
    str_eq a.slot b.slot
    && str_eq a.method b.method
    && bytes_eq a.path b.path
    && str_eq a.use_name b.use_name
    && bytes_eq a.query_keys b.query_keys
    && str_eq a.content_type b.content_type
    && a.max_body_kb == b.max_body_kb

-- The key of `dedupeRoutes`: the tuple as it is declared.
unfoldable pub same_declared : Route → Route → Bool
unfolding canonical_query_keys
same_declared a b =
    str_eq a.slot b.slot
    && str_eq a.method b.method
    && bytes_eq a.path b.path
    && str_eq a.use_name b.use_name
    && str_eq a.content_type b.content_type
    && a.max_body_kb == b.max_body_kb
    && bytes_eq (canonical_query_keys a.query_keys) (canonical_query_keys b.query_keys)

abbrev pub declared_in : Route → List Route → Bool
declared_in r [] = false
declared_in r (s ∷ ss) = if same_declared s r then true else declared_in r ss

-- The loop of `dedupeRoutes`; `seen` holds what was kept.
unfoldable pub dedupe_routes_from : List Route → List Route → List Route
dedupe_routes_from seen [] = []
dedupe_routes_from seen (r ∷ rs) =
    let rest = dedupe_routes_from seen rs in
    let next = r ∷ dedupe_routes_from (r ∷ seen) rs in if declared_in r seen then rest else next

-- `dedupeRoutes`.
unfoldable pub dedupe_routes : List Route → List Route
unfolding dedupe_routes_from
dedupe_routes = dedupe_routes_from []

-- `bodyBearing`.
unfoldable pub body_bearing : String → Bool
body_bearing method = str_eq method "POST" || str_eq method "PUT" || str_eq method "PATCH"
