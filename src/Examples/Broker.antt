-- ===== src/Examples/Broker.antt =====
-- Runs of capabilities: one grant, its requests, headers and cache keys.
use veduta.Prelude.{
  Member, ◌≡◌, refl, ◌↔◌, ◌≢◌, ◌&&◌, none, some, List, [], ◌∷◌, Bytes, codes, bytes_eq, ltb, ok,
  err, if◌then◌else◌, arith, All, ◌+◌,
}
use mathlib.Core.List.{Memᴰ}
use veduta.Prelude.{lookup}
use veduta.Routepath.Canonicalise.{canonicalise}
use veduta.Routepath.Glob.{match, has_path_prefix}
use veduta.Capabilities.Policy.{
  query_keys_allowed, body_size_allowed, body_len, route_matches, connection_allows, some_subtree,
  use_data, use_asset, Route, Limits, known, HttpRequest, Grant,
}
use veduta.Capabilities.Authorize.{
  manifest_denied, Mime, authorize_path, any_route_allows, route_allows, content_type_allowed,
  authorize,
}
use veduta.Capabilities.Authority.{Authorised, authorize-Authorised}
use veduta.Capabilities.Budget.{fresh_budget, consume_host_call, consume_http_request, Within}
use veduta.Capabilities.Headers.{
  Ownership, Headers, auth_header, new_connection_ownership, to_lower, mem_name,
  always_stripped_headers, plugin_header_allowlist, filter_headers,
}
use veduta.Capabilities.Passing.{negotiable, Owned, filter_headers_iff}
use veduta.Capabilities.Cache.{Items, cache_get, cache_put, cache_get-put}
use veduta.Capabilities.Broker.{State, spend_http, admit_http, admit_asset}
use veduta.Capabilities.Invocation.{Call, http, write_cache, log, calls, calls-Within}
use veduta.Capabilities.Admission.{Admitted, admit_http-Admitted}

-- A media type without parameters is its own normal form.
abbrev plain_mime : Mime
plain_mime = record { parse = λ v. some (v, []); format = λ t params. t; lower = λ v. v }

abbrev read_items : Route
read_items = record {
  slot = "api";
  method = "GET";
  path = codes "/items/*";
  use_kind = use_data;
  query_keys = some ("page" ∷ []);
  content_type = "";
  max_body_kb = 0;
}

abbrev read_icon : Route
read_icon = record {
  slot = "api";
  method = "GET";
  path = codes "/icons/*.png";
  use_kind = use_asset;
  query_keys = some [];
  content_type = "";
  max_body_kb = 0;
}

abbrev limits : Limits
limits = record {
  http_requests = 2;
  response_mb = 1;
  cache_entries = 2;
  cache_bytes_kb = 4;
  host_calls = 3;
  request_body_kb = 0;
}

abbrev grant : Grant
grant = record {
  plugin_id = "demo";
  version = "1.0.0";
  instance_id = "home";
  manifest_digest = "d1";
  slots = ("api", "conn") ∷ [];
  caps = "http" ∷ "cache" ∷ "assets" ∷ [];
  manifest_routes = read_items ∷ read_icon ∷ [];
  approved_routes = read_items ∷ read_icon ∷ [];
  connection_policy = ("api", codes "/items" ∷ codes "/icons" ∷ []) ∷ [];
  limits = limits;
}

abbrev get : Bytes → HttpRequest
get path = record {
  slot = "api";
  method = "GET";
  path = path;
  query = [];
  header = [];
  body = [];
  stated_len = known 0;
}

abbrev start : State
start = record { budget = fresh_budget; items = []; denials = [] }

item_allowed : authorize plain_mime grant (get (codes "/items/%37")) use_data ≡ ok tt
unfolding authorize authorize_path any_route_allows route_allows route_matches canonicalise match
    query_keys_allowed content_type_allowed body_size_allowed body_len connection_allows
    some_subtree has_path_prefix lookup
item_allowed = refl

deeper_denied : authorize plain_mime grant (get (codes "/items/7/8")) use_data ≡ err manifest_denied
unfolding authorize authorize_path any_route_allows route_allows route_matches canonicalise match
    query_keys_allowed content_type_allowed body_size_allowed body_len connection_allows
    some_subtree has_path_prefix lookup
deeper_denied = refl

authorize-Authorised_example : Authorised plain_mime grant (get (codes "/items/%37")) use_data
authorize-Authorised_example =
    authorize-Authorised plain_mime grant (get (codes "/items/%37")) use_data item_allowed

item_admitted : (admit_http plain_mime grant (get (codes "/items/7")) start).1 ≡ ok tt
unfolding admit_http spend_http consume_host_call consume_http_request authorize authorize_path
    any_route_allows route_allows route_matches canonicalise match query_keys_allowed
    content_type_allowed body_size_allowed body_len connection_allows some_subtree has_path_prefix
    lookup
item_admitted = refl

admit_http-Admitted_example : Admitted plain_mime grant "http" (get (codes "/items/7")) use_data
admit_http-Admitted_example =
    admit_http-Admitted plain_mime grant (get (codes "/items/7")) start item_admitted

icon_admitted : (admit_asset plain_mime grant "api" (codes "/icons/a.png") [] start).1 ≡ ok tt
unfolding admit_asset consume_host_call authorize authorize_path any_route_allows route_allows
    route_matches canonicalise match query_keys_allowed content_type_allowed body_size_allowed
    body_len connection_allows some_subtree has_path_prefix lookup
icon_admitted = refl

start-Within : Within limits fresh_budget
start-Within = record {
  host_calls = λ _. omega arith;
  http_requests = λ _. omega arith;
  cache_entries = λ _. omega arith;
  cache_bytes_kb = λ _. omega arith;
}

abbrev three_calls : List Call
three_calls = http (get (codes "/items/7")) ∷ write_cache 5 (codes "k") (codes "v") 10 ∷ log ∷ []

calls-Within_example : Within limits (calls plain_mime grant three_calls start).budget
calls-Within_example = calls-Within plain_mime grant three_calls start start-Within

abbrev key_owner : Ownership
key_owner = record { headers = codes "x-api-key" ∷ []; query_keys = [] }

key_owned : new_connection_ownership auth_header (codes "X-Api-Key") [] ≡ key_owner
unfolding new_connection_ownership to_lower
key_owned = refl

abbrev sent : Headers
sent =
    (codes "Accept", codes "*/*")
    ∷ (codes "X-API-KEY", codes "stolen")
    ∷ (codes "Host", codes "evil")
    ∷ []

one_header_left : filter_headers key_owner sent ≡ (codes "Accept", codes "*/*") ∷ []
unfolding filter_headers mem_name to_lower always_stripped_headers plugin_header_allowlist
one_header_left = refl

filter_headers_iff_example :
    Memᴰ
      (codes "Accept", codes "*/*")
      (filter_headers (new_connection_ownership auth_header (codes "X-Api-Key") []) sent)
    ↔ Memᴰ (codes "Accept", codes "*/*") sent
      × Member (to_lower (codes "Accept")) negotiable
      × (Owned auth_header (codes "X-Api-Key") [] (codes "Accept") → ⊥)
filter_headers_iff_example =
    filter_headers_iff auth_header (codes "X-Api-Key") [] sent (codes "Accept", codes "*/*")

abbrev no_items : Items
no_items = []

cache_get-put_example :
    (cache_get 20 (codes "k") (cache_put 5 (codes "k") (codes "v") 10 no_items)).0 ≡ (
      if bytes_eq (codes "k") (codes "k")
      then (if ltb 0 10 && ltb (5 + 10) 20 then none else some (codes "v"))
      else (cache_get 20 (codes "k") no_items).0)
cache_get-put_example = cache_get-put 5 20 10 (codes "k") (codes "k") (codes "v") no_items

demo_free : All (λ c. c ≢ b':') (codes "demo")
demo_free = (λ e. omega arith, (λ e. omega arith, (λ e. omega arith, (λ e. omega arith, tt))))

d1_free : All (λ c. c ≢ b':') (codes "d1")
d1_free = (λ e. omega arith, (λ e. omega arith, tt))

home_free : All (λ c. c ≢ b':') (codes "home")
home_free = (λ e. omega arith, (λ e. omega arith, (λ e. omega arith, (λ e. omega arith, tt))))
