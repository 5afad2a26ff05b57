-- ===== src/Examples/Approvals.antt =====
-- Runs of internal/integrations: a manifest, its approval in part and in full, and its diffs.
use veduta.Prelude.{
  ◌<◌, min, ◌≡◌, refl, ◌↔◌, true, none, some, [], ◌∷◌, ◌++◌, arith, codes, ok, sort, dedupe, lookup,
}
use veduta.Routepath.Canonicalise.{canonicalise}
use veduta.Capabilities.Policy.{use_data, HttpRequest, known}
use veduta.Capabilities.Authorize.{Mime, normalise_media_type}
use veduta.Integrations.Limits.{
  Limits, no_limits, bound_of, requested, effective_limit, field, reconcile_at_approval,
}
use veduta.Integrations.Ceilings.{EachField, asked, reconcile-closed}
use veduta.Integrations.Route.{
  Route, Identity, identity, canonical_query_keys, normalise_content_type, effective_max_body_kb,
  same_identity,
}
use veduta.Integrations.Keys.{AllowsSame, canonical_query_keys_iff}
use veduta.Integrations.Manifest.{Manifest, LockEntry, approved, evaluate_status}
use veduta.Integrations.Diff.{
  Diff, diff_is_empty, identity_set, has_identity, compute_diff, locked_routes, locked_limits,
}
use veduta.Integrations.Missing.{Unchanged, compute_diff_iff}
use veduta.Integrations.Approve.{Grants, approval, approve}
use veduta.Integrations.InFull.{WithinMaxima, in_full, approve-compute_diff}
use veduta.App.Parts.{allows}
use veduta.App.Authority.{same_identity-allows}
use veduta.App.Approved.{NoMore, approve-NoMore}

-- A media type without parameters is its own normal form.
abbrev bare_mime : Mime
bare_mime = record { parse = λ v. some (v, []); format = λ t params. t; lower = λ v. v }

abbrev search : Route
search = record {
  slot = "server";
  method = "POST";
  path = codes "/api/search";
  use_name = "";
  reason = "to list albums";
  query_keys = some ("page" ∷ "size" ∷ []);
  content_type = "application/json";
  max_body_kb = 0;
}

-- The same authority, written in another way.
abbrev search_again : Route
search_again = record {
  slot = "server";
  method = "POST";
  path = codes "/api/s%65arch";
  use_name = "data";
  reason = "";
  query_keys = some ("size" ∷ "page" ∷ "size" ∷ []);
  content_type = "application/json";
  max_body_kb = 64;
}

abbrev few_requests : Limits
few_requests = record no_limits { http_requests = some 4; timeout_ms = some 60000 }

abbrev photos : Manifest
photos = record {
  id = "photos";
  name = "Photos";
  version = "1.0.0";
  runtime = "declarative";
  capabilities = "http" ∷ "log" ∷ [];
  limits = record no_limits { http_requests = some 4 };
  routes = search ∷ [];
  module_sha256 = "";
  digest = "abc";
}

abbrev part : Grants
part = record {
  capabilities = "http" ∷ [];
  routes = search_again ∷ [];
  limits = record no_limits { http_requests = some 2 };
}

abbrev search_identity : Identity
search_identity = record {
  slot = "server";
  method = "POST";
  path = codes "/api/search";
  use_name = "data";
  query_keys = 0 ∷ (codes "page" ++ (0 ∷ codes "size"));
  content_type = "application/json";
  max_body_kb = 64;
}

search-identity : identity bare_mime search 64 ≡ ok search_identity
unfolding identity canonicalise normalise_content_type normalise_media_type canonical_query_keys
    effective_max_body_kb sort dedupe
search-identity = refl

search_again-identity : identity bare_mime search_again 64 ≡ ok search_identity
unfolding identity canonicalise normalise_content_type normalise_media_type canonical_query_keys
    effective_max_body_kb sort dedupe
search_again-identity = refl

same : same_identity search_identity search_identity ≡ true
unfolding same_identity
same = refl

abbrev post : HttpRequest
post = record {
  slot = "server";
  method = "POST";
  path = codes "/api/search";
  query = ("page", "2") ∷ [];
  header = ("Content-Type", "application/json") ∷ [];
  body = codes "{}";
  stated_len = known 2;
}

same_identity-allows_example :
    allows bare_mime search post (codes "/api/search") use_data 32
    ≡ allows bare_mime search_again post (codes "/api/search") use_data 32
same_identity-allows_example =
    same_identity-allows bare_mime search search_again 64 search_identity search_identity
      search-identity search_again-identity same (omega arith) (omega arith) post
      (codes "/api/search") use_data 32 (omega arith) (omega arith)

accepted : approve bare_mime photos "abc" part "admin" 100 ≡ ok (approval photos part "admin" 100)
unfolding approve identity_set requested identity canonicalise normalise_content_type
    normalise_media_type canonical_query_keys effective_max_body_kb sort dedupe has_identity
    same_identity lookup
accepted = refl

positive : 0 < (approval photos part "admin" 100).effective_limits.request_body_kb
unfolding approval reconcile_at_approval effective_limit requested lookup
positive = omega arith

approve-NoMore_example :
    ((approval photos part "admin" 100).manifest_sha256 ≡ "abc")
    × NoMore bare_mime photos (approval photos part "admin" 100)
approve-NoMore_example =
    approve-NoMore bare_mime photos "abc" part "admin" 100 accepted (omega arith) (omega arith)
      positive

photos_ids :
    identity_set bare_mime photos.routes (requested "requestBodyKB" photos.limits)
    ≡ ok (search_identity ∷ [])
unfolding identity_set requested identity canonicalise normalise_content_type normalise_media_type
    canonical_query_keys effective_max_body_kb sort dedupe lookup
photos_ids = refl

no_ids : identity_set bare_mime (locked_routes none) (locked_limits none).request_body_kb ≡ ok []
unfolding identity_set
no_ids = refl

compute_diff_iff_example :
    (d : Diff) × (compute_diff bare_mime photos none ≡ ok d)
    × ((diff_is_empty d ≡ true) ↔ Unchanged (search_identity ∷ []) [] photos none)
compute_diff_iff_example =
    compute_diff_iff bare_mime photos none (search_identity ∷ []) [] photos_ids no_ids

maxima : WithinMaxima photos.limits
unfolding bound_of field lookup
maxima = (
  refl,
  (
    refl,
    (
      refl,
      (refl, (refl, (refl, (refl, (refl, (refl, (refl, (refl, (refl, (refl, (refl, tt))))))))))),
    ),
  ),
)

approve-compute_diff_example :
    (entry : LockEntry) × (d : Diff) × (approve bare_mime photos "abc" (in_full photos) "admin" 100
      ≡ ok entry)
    × (evaluate_status photos (some entry) ≡ approved)
    × (compute_diff bare_mime photos (some entry) ≡ ok d)
    × (diff_is_empty d ≡ true)
approve-compute_diff_example =
    approve-compute_diff bare_mime photos "admin" 100 (search_identity ∷ []) photos_ids maxima

canonical_query_keys_iff_example :
    (canonical_query_keys search.query_keys ≡ canonical_query_keys search_again.query_keys)
    ↔ AllowsSame search.query_keys search_again.query_keys
canonical_query_keys_iff_example =
    canonical_query_keys_iff search.query_keys search_again.query_keys (omega arith) (omega arith)

reconcile-closed_example :
    EachField
      (λ name v.
        v ≡ min (bound_of name).maximum (min (asked name few_requests) (asked name no_limits)))
      (reconcile_at_approval few_requests no_limits)
reconcile-closed_example = reconcile-closed few_requests no_limits

-- An allowlist of the empty key has the form of an empty allowlist.
empty_key_collides : canonical_query_keys (some ("" ∷ [])) ≡ canonical_query_keys (some [])
unfolding canonical_query_keys sort dedupe
empty_key_collides = refl

-- A key with NUL has the form of two keys.
nul_key_collides :
    canonical_query_keys (some ("a\0b" ∷ [])) ≡ canonical_query_keys (some ("a" ∷ "b" ∷ []))
unfolding canonical_query_keys sort dedupe
nul_key_collides = refl
