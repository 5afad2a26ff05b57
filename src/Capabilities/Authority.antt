-- ===== src/Capabilities/Authority.antt =====
-- What `Authorize` of capabilities/authorize.go permits.
use veduta.Prelude.{
  ℕ, ◌*◌, ◌≤◌, ◌≡◌, refl, ◌≢◌, inl, inr, Bool, true, false, not, ◌||◌, Option, none, some, List, [],
  ◌∷◌, arith, Bytes, Result, ok, err, guard-inv, if◌then◌else◌, Bool-cases, refuse-inv, not-false,
  guard-inv, lookup, String, str_eq, eq_iff, lookup,
}
use mathlib.Core.List.{Memᴰ}
use veduta.Routepath.Escape.{RouteError}
use veduta.Routepath.Canonicalise.{canonicalise}
use veduta.Routepath.Glob.{match, has_path_prefix}
use veduta.Capabilities.Policy.{
  UseKind, use_data, use_asset, same_use, Route, BodyLength, known, unknown, HttpRequest, body_len,
  Grant, query_keys_allowed, effective_kb, body_size_allowed, route_matches, some_subtree,
  connection_allows,
}
use veduta.Capabilities.Authorize.{
  BrokerError, bad_path, Mime, content_type_allowed, route_allows, any_route_allows, policy_allows,
  authorize_path, authorize,
}

-- What a route permits, element by element of its identity.
pub record Permits (m : Mime) (route : Route) (req : HttpRequest) (canonical : Bytes)
    (use_kind : UseKind) (body_kb : ℕ) : Type 0 where
  pub same_slot : route.slot ≡ req.slot
  pub same_kind : route.use_kind ≡ use_kind
  pub same_method : route.method ≡ req.method
  pub glob : Bytes
  pub glob_canonical : canonicalise route.path ≡ ok glob
  pub path_matches : match glob canonical ≡ true
  pub query_allowed : query_keys_allowed route.query_keys req.query ≡ true
  pub content_allowed : content_type_allowed m route.content_type req.header ≡ true
  pub size : ℕ
  pub size_known : body_len req ≡ known size
  pub fits : size ≤ effective_kb route.max_body_kb body_kb * 1024

-- The path lies in one of the subtrees that a connection allows.
pub record InSubtree (allowed : List Bytes) (canonical : Bytes) : Type 0 where
  pub subtree : Bytes
  pub listed : Memᴰ subtree allowed
  pub prefix : Bytes
  pub prefix_canonical : canonicalise subtree ≡ ok prefix
  pub below : has_path_prefix canonical prefix ≡ true

same_use-inv : (a b : UseKind) → same_use a b ≡ true → a ≡ b
same_use-inv use_data use_data h = refl
same_use-inv use_data use_asset h = cc
same_use-inv use_asset use_data h = cc
same_use-inv use_asset use_asset h = refl

same_names :
    (a b c d : String) (u : Bool)
    → (not (str_eq a b) || not u || not (str_eq c d)) ≡ false
    → (a ≡ b) × (u ≡ true) × (c ≡ d)
same_names a b c d u h = ground (arith, eq_iff a b, eq_iff c d)

glob_inv :
    (r : Result RouteError Bytes) (canonical : Bytes)
    → elim r as (λ _. Bool) [ err e ↦ false | ok pattern_ ↦ match pattern_ canonical ] ≡ true
    → (g : Bytes) × (r ≡ ok g) × (match g canonical ≡ true)
glob_inv (ok g) canonical h = (g, refl, h)
glob_inv (err e) canonical h = cc

route_matches-inv :
    (r : Route) (slot method : String) (canonical : Bytes) (u : UseKind)
    → route_matches r slot method canonical u ≡ true
    → (r.slot ≡ slot)
      × (r.use_kind ≡ u)
      × (r.method ≡ method)
      × ((g : Bytes) × (canonicalise r.path ≡ ok g) × (match g canonical ≡ true))
unfolding route_matches
route_matches-inv r slot method canonical u h =
    let (names, k) = refuse-inv _ _ h in
    let (slots, kinds, methods) =
      same_names r.slot slot r.method method (same_use r.use_kind u) names in
    let (g, e, f) = glob_inv (canonicalise r.path) canonical k in
    (slots, same_use-inv _ _ kinds, methods, (g, e, f))

body_inv :
    (a b : ℕ) (n : BodyLength)
    → body_size_allowed a b n ≡ true
    → (k : ℕ) × (n ≡ known k) × (k ≤ effective_kb a b * 1024)
unfolding body_size_allowed
body_inv a b unknown h = cc
body_inv a b (known n) h = (n, refl, ground arith)

route_allows-Permits :
    (m : Mime) (r : Route) (req : HttpRequest) (canonical : Bytes) (u : UseKind) (kb : ℕ)
    → route_allows m r req canonical u kb ≡ true
    → Permits m r req canonical u kb
unfolding route_allows
route_allows-Permits m r req canonical u kb h =
    let (a, h1) = refuse-inv _ _ h in
    let (b, h2) = refuse-inv _ _ h1 in
    let (c, h3) = refuse-inv _ _ h2 in
    let (slots, kinds, methods, (g, e, f)) =
      route_matches-inv r req.slot req.method canonical u (not-false _ a) in
    let (n, k, l) = body_inv r.max_body_kb kb (body_len req) h3 in
    record {
      same_slot = slots;
      same_kind = kinds;
      same_method = methods;
      glob = g;
      glob_canonical = e;
      path_matches = f;
      query_allowed = not-false _ b;
      content_allowed = not-false _ c;
      size = n;
      size_known = k;
      fits = l;
    }

-- Some route of the list permits the request.
pub record SomePermits (m : Mime) (routes : List Route) (req : HttpRequest) (canonical : Bytes)
    (use_kind : UseKind) (body_kb : ℕ) : Type 0 where
  pub route : Route
  pub listed : Memᴰ route routes
  pub permits : Permits m route req canonical use_kind body_kb

any_route_allows-inv :
    (m : Mime) (rs : List Route) (req : HttpRequest) (canonical : Bytes) (u : UseKind) (kb : ℕ)
    → any_route_allows m rs req canonical u kb ≡ true
    → SomePermits m rs req canonical u kb
unfolding any_route_allows
any_route_allows-inv m [] req canonical u kb h = cc
any_route_allows-inv m (r ∷ rs) req canonical u kb h =
    elim (Bool-cases (route_allows m r req canonical u kb)) [
      | inl now ↦ record {
        route = r;
        listed = Memᴰ.head refl;
        permits = route_allows-Permits m r req canonical u kb now;
      }
      | inr later ↦
          let k = any_route_allows-inv m rs req canonical u kb (rw later at h) in
          record { route = k.route; listed = Memᴰ.tail k.listed; permits = k.permits }
    ]

subtree_later :
    (p : Bytes) (ps : List Bytes) (canonical : Bytes)
    → InSubtree ps canonical
    → InSubtree (p ∷ ps) canonical
subtree_later p ps canonical k = record {
  subtree = k.subtree;
  listed = Memᴰ.tail k.listed;
  prefix = k.prefix;
  prefix_canonical = k.prefix_canonical;
  below = k.below;
}

subtree_at :
    (p : Bytes) (ps : List Bytes) (canonical : Bytes)
    → (some_subtree ps canonical ≡ true → InSubtree ps canonical)
    → (r : Result RouteError Bytes) → canonicalise p ≡ r
    → (if elim r as (λ _. Bool) [ err e ↦ false | ok prefix ↦ has_path_prefix canonical prefix ]
        then true
        else some_subtree ps canonical)
      ≡ true
    → InSubtree (p ∷ ps) canonical
subtree_at p ps canonical rest (err e) q k = subtree_later p ps canonical (rest k)
subtree_at p ps canonical rest (ok prefix) q k =
    elim (Bool-cases (has_path_prefix canonical prefix)) [
      | inl below ↦ record {
        subtree = p;
        listed = Memᴰ.head refl;
        prefix = prefix;
        prefix_canonical = q;
        below = below;
      }
      | inr not_below ↦ subtree_later p ps canonical (rest (rw not_below at k))
    ]

some_subtree-inv :
    (ps : List Bytes) (canonical : Bytes)
    → some_subtree ps canonical ≡ true
    → InSubtree ps canonical
unfolding some_subtree
some_subtree-inv [] canonical h = cc
some_subtree-inv (p ∷ ps) canonical h =
    subtree_at p ps canonical (some_subtree-inv ps canonical) (canonicalise p) refl h

-- The request of an accepted call: its canonical path, a route of each list that permits it, and
-- a subtree of the connection, where the connection restricts its paths.
pub record Authorised (m : Mime) (g : Grant) (req : HttpRequest) (use_kind : UseKind) : Type 0 where
  pub canonical : Bytes
  pub canonical_path : canonicalise req.path ≡ ok canonical
  pub manifest : SomePermits m g.manifest_routes req canonical use_kind g.limits.request_body_kb
  pub approved : SomePermits m g.approved_routes req canonical use_kind g.limits.request_body_kb
  pub connection :
      (allowed : List Bytes)
      → lookup req.slot g.connection_policy ≡ some allowed
      → allowed ≢ []
      → InSubtree allowed canonical

policy-inv :
    (policy : Option (List Bytes)) (canonical : Bytes)
    → policy_allows policy canonical ≡ true
    → (allowed : List Bytes) → policy ≡ some allowed
    → allowed ≢ []
    → InSubtree allowed canonical
unfolding connection_allows
policy-inv none canonical h allowed e n = cc
policy-inv (some []) canonical h allowed e n = absurd (n (cc e))
policy-inv (some (p ∷ ps)) canonical h allowed e n =
    let same : p ∷ ps ≡ allowed = cc e in rw (← same) (some_subtree-inv (p ∷ ps) canonical h)

authorize_path-Authorised :
    (m : Mime) (g : Grant) (req : HttpRequest) (u : UseKind) (canonical : Bytes)
    → canonicalise req.path ≡ ok canonical
    → authorize_path m g req u canonical ≡ ok tt
    → Authorised m g req u
unfolding authorize_path
authorize_path-Authorised m g req u canonical p h =
    let (a, h1) = guard-inv _ _ _ h in
    let (b, h2) = guard-inv _ _ _ h1 in
    let (c, h3) = guard-inv _ _ _ h2 in
    record {
      canonical = canonical;
      canonical_path = p;
      manifest = any_route_allows-inv m _ req canonical u _ (not-false _ a);
      approved = any_route_allows-inv m _ req canonical u _ (not-false _ b);
      connection = policy-inv (lookup req.slot g.connection_policy) canonical (not-false _ c);
    }

-- A request is let through only if a manifest route, an approved route and the connection each
-- permit it, all on one canonical path.
pub authorize-Authorised :
    (m : Mime) (g : Grant) (req : HttpRequest) (u : UseKind)
    → authorize m g req u ≡ ok tt
    → Authorised m g req u
unfolding authorize
authorize-Authorised m g req u h = judged (canonicalise req.path) refl h
  where
    judged :
        (r : Result RouteError Bytes)
        → canonicalise req.path ≡ r
        → elim r as (λ _. Result BrokerError (Unit {0})) [
          | err e ↦ err (bad_path e)
          | ok canonical ↦ authorize_path m g req u canonical
        ]
          ≡ ok tt
        → Authorised m g req u
    judged (err e) p k = cc
    judged (ok canonical) p k = authorize_path-Authorised m g req u canonical p k
