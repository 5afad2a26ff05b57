-- ===== src/Capabilities/Policy.antt =====
-- capabilities/types.go, grant.go, request.go and authorize.go: routes, grants, and the test of each part of a route.
use veduta.Prelude.{
  ℕ, ◌*◌, Bool, true, false, not, ◌&&◌, ◌||◌, Option, none, some, List, [], ◌∷◌, Bytes, length, ok,
  err, leb, ltb, ◌==◌, if◌then◌else◌, String, str_eq, mem_text,
}
use veduta.Routepath.Canonicalise.{canonicalise}
use veduta.Routepath.Glob.{match, has_path_prefix}

pub data UseKind : Type 0 where
  use_data use_asset : UseKind

abbrev pub same_use : UseKind → UseKind → Bool
same_use use_data use_data = true
same_use use_asset use_asset = true
same_use _ _ = false

-- `query_keys` is `none` for a nil slice (any key), `some` for an allowlist; a `max_body_kb` of 0
-- falls back to the manifest's ceiling.
pub record Route : Type 0 where
  pub slot : String
  pub method : String
  pub path : Bytes
  pub use_kind : UseKind
  pub query_keys : Option (List String)
  pub content_type : String
  pub max_body_kb : ℕ

pub record Limits : Type 0 where
  pub http_requests : ℕ
  pub response_mb : ℕ
  pub cache_entries : ℕ
  pub cache_bytes_kb : ℕ
  pub host_calls : ℕ
  pub request_body_kb : ℕ

-- An `int64` length: unknown stands for every negative value.
pub data BodyLength : Type 0 where
  known : ℕ → BodyLength
  unknown : BodyLength

pub record HttpRequest : Type 0 where
  pub slot : String
  pub method : String
  pub path : Bytes
  pub query : List (String × String)
  pub header : List (String × String)
  pub body : Bytes
  pub stated_len : BodyLength

-- `bodyLen`: a stated length of 0 means the length of the body.
unfoldable pub body_len : HttpRequest → BodyLength
body_len r = elim (r.stated_len) [
  | unknown ↦ unknown
  | known n ↦ if n == 0 then known (length r.body) else known n
]

-- Authority of one invocation: the three policies stay separate.
pub record Grant : Type 0 where
  pub plugin_id : String
  pub version : String
  pub instance_id : String
  pub manifest_digest : String
  pub slots : List (String × String)
  pub caps : List String
  pub manifest_routes : List Route
  pub approved_routes : List Route
  pub connection_policy : List (String × List Bytes)
  pub limits : Limits

abbrev pub keys : List (String × String) → List String
keys [] = []
keys ((k, _) ∷ m) = k ∷ keys m

abbrev pub all_in : List String → List String → Bool
all_in [] allowed = true
all_in (k ∷ ks) allowed = if mem_text k allowed then all_in ks allowed else false

-- `queryKeysAllowed`.
unfoldable pub query_keys_allowed : Option (List String) → List (String × String) → Bool
query_keys_allowed none query = true
query_keys_allowed (some allowed) query = all_in (keys query) allowed

abbrev pub core_default_body_kb : ℕ
core_default_body_kb = 64

-- The effective ceiling of `bodySizeAllowed`, in kilobytes.
unfoldable pub effective_kb : ℕ → ℕ → ℕ
effective_kb route_max manifest_max =
    let base = if manifest_max == 0 then core_default_body_kb else manifest_max in
    if ltb 0 route_max && ltb route_max base then route_max else base

-- `bodySizeAllowed`.
unfoldable pub body_size_allowed : ℕ → ℕ → BodyLength → Bool
unfolding effective_kb
body_size_allowed route_max manifest_max unknown = false
body_size_allowed route_max manifest_max (known n) =
    leb n (effective_kb route_max manifest_max * 1024)

-- `routeMatchesSlotMethodAndPath`; `canonical` is the request's canonical path.
unfoldable pub route_matches : Route → String → String → Bytes → UseKind → Bool
route_matches route slot method canonical use_kind =
    if not (str_eq route.slot slot)
      || not (same_use route.use_kind use_kind)
      || not (str_eq route.method method)
    then false
    else elim (canonicalise route.path) [ err e ↦ false | ok pattern_ ↦ match pattern_ canonical ]

-- `connectionAllows`: the loop over the allowed subtrees, and the empty list that allows all.
unfoldable pub some_subtree : List Bytes → Bytes → Bool
some_subtree [] canonical = false
some_subtree (allowed ∷ rest) canonical =
    if elim (canonicalise allowed) [ err e ↦ false | ok prefix ↦ has_path_prefix canonical prefix ]
    then true
    else some_subtree rest canonical

unfoldable pub connection_allows : List Bytes → Bytes → Bool
connection_allows [] canonical = true
connection_allows (a ∷ as_) canonical = some_subtree (a ∷ as_) canonical
