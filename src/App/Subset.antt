-- ===== src/App/Subset.antt =====
-- An approval grants no more than the manifest asks for, as the broker judges it.
use veduta.Prelude.{
  ℕ, ◌≤◌, ◌<◌, ◌≡◌, refl, sym, ◌∙◌, ◌⊎◌, inl, inr, Bool, true, false, not, Option, none, some, List,
  [], ◌∷◌, map, Bytes, All, Result, ok, err, ◌>>=◌, ok-injective, guard-inv, if◌then◌else◌,
  not-false, Bool-cases,
}
use veduta.Capabilities.Policy.{UseKind, HttpRequest}
use veduta.Capabilities.Policy as Policy
use veduta.Capabilities.Authorize.{Mime, any_route_allows}
use veduta.Integrations.Route.{Route, Identity, IdentityError, identity, same_identity}
use veduta.Integrations.Keys.{HasPlainKeys}
use veduta.Integrations.Diff.{identity_set, has_identity}
use veduta.Integrations.Missing.{identity_set-step}
use veduta.Integrations.Approve.{ApproveError, check_routes, without_reason, exceeds_route}
use veduta.App.Grant.{runtime_use, as_kind, capability_route, keep_route, capability_routes}
use veduta.App.Parts.{allows_as, allows}
use veduta.App.Authority.{same_identity-allows}

abbrev pub PlainRoute : Route → Type 0
PlainRoute r = HasPlainKeys r.query_keys

-- The first route or a later one.
any_keep :
    (m : Mime) (o : Option Policy.Route) (rs : List Policy.Route) (req : HttpRequest) (path : Bytes)
    (u : UseKind) (kb : ℕ)
    → any_route_allows m (keep_route o rs) req path u kb
      ≡ (if allows_as m req path u kb o then true else any_route_allows m rs req path u kb)
unfolding any_route_allows
any_keep m none rs req path u kb = refl
any_keep m (some c) rs req path u kb = refl

check_routes-step :
    (m : Mime) (kb : ℕ) (ids : List Identity) (r : Route) (rs : List Route)
    → check_routes m kb ids (r ∷ rs) ≡ ok tt
    → (id : Identity) × (identity m r kb ≡ ok id)
      × (has_identity id ids ≡ true)
      × (check_routes m kb ids rs ≡ ok tt)
unfolding check_routes
check_routes-step m kb ids r rs h = by_identity (identity m r kb) refl h
  where
    by_identity :
        (t : Result IdentityError Identity)
        → identity m r kb ≡ t
        → ((elim t as (λ _. Result ApproveError Identity) [
          | err e ↦ err (ApproveError.bad_granted_route e)
          | ok id ↦ ok id
        ])
            >>= λ id.
                if not (has_identity id ids)
                then err (exceeds_route r)
                else check_routes m kb ids rs)
          ≡ ok tt
        → (id : Identity) × (identity m r kb ≡ ok id)
          × (has_identity id ids ≡ true)
          × (check_routes m kb ids rs ≡ ok tt)
    by_identity (err e) f k = cc
    by_identity (ok id) f k = let (a, b) = guard-inv _ _ _ k in (id, f, not-false _ a, b)

module _ (m : Mime) (kb eff : ℕ) (pos : 0 < eff) (le : eff ≤ kb) (req : HttpRequest) (path : Bytes)
    (u : UseKind) where
  either : (b : Bool) {c : Bool} → c ≡ true → (if b then true else c) ≡ true
  either true h = refl
  either false h = h

  allows_reason :
      (r : Route)
      → allows m (without_reason r) req path u eff ≡ true
      → allows m r req path u eff ≡ true
  unfolding capability_route
  allows_reason r h = by_kind (runtime_use r.use_name) h
    where
      by_kind :
          (o : Option UseKind)
          → allows_as m req path u eff (as_kind (without_reason r) o) ≡ true
          → allows_as m req path u eff (as_kind r o) ≡ true
      by_kind none k = k
      by_kind (some v) k = k

  -- A route whose identity is in the set is allowed by some route of the set.
  has_identity-allows :
      (r : Route) (id : Identity) (ss : List Route) {ids : List Identity}
      → identity m r kb ≡ ok id
      → PlainRoute r
      → All PlainRoute ss
      → identity_set m ss kb ≡ ok ids
      → has_identity id ids ≡ true
      → allows m r req path u eff ≡ true
      → any_route_allows m (capability_routes ss) req path u eff ≡ true
  unfolding identity_set has_identity capability_routes
  has_identity-allows r id [] p q qs h k a = cc (sym (ok-injective h))
  has_identity-allows r id (s ∷ ss) p q qs h k a =
      let (j, js, e, f, l) = identity_set-step m kb s ss h in
      any_keep m (capability_route s) (capability_routes ss) req path u eff
      ∙ by_match j js (Bool-cases (same_identity j id)) e f (rw l at k)
          (λ t. has_identity-allows r id ss {ids = js} p q qs.1 f t a)
    where
      by_match :
          (j : Identity) (js : List Identity)
          → (same_identity j id ≡ true) ⊎ (same_identity j id ≡ false)
          → identity m s kb ≡ ok j
          → identity_set m ss kb ≡ ok js
          → (if same_identity j id then true else has_identity id js) ≡ true
          → (has_identity id js ≡ true
              → any_route_allows m (capability_routes ss) req path u eff ≡ true)
          → (if allows m s req path u eff
              then true
              else any_route_allows m (capability_routes ss) req path u eff)
            ≡ true
      by_match j js (inl t) e f k later =
          rw (same_identity-allows m s r kb j id e p t qs.0 q req path u eff pos le, a) refl
      by_match j js (inr t) e f k later = either (allows m s req path u eff) (later (rw t at k))

  -- Routes whose identities are all in the set allow nothing that the set does not.
  pub check_routes-allows :
      (rs ss : List Route) {ids : List Identity}
      → All PlainRoute rs
      → All PlainRoute ss
      → identity_set m ss kb ≡ ok ids
      → check_routes m kb ids rs ≡ ok tt
      → any_route_allows m (capability_routes (map without_reason rs)) req path u eff ≡ true
      → any_route_allows m (capability_routes ss) req path u eff ≡ true
  unfolding capability_routes any_route_allows
  check_routes-allows [] ss ps qs h k a = cc
  check_routes-allows (r ∷ rs) ss {ids = ids} ps qs h k a =
      let (id, e, f, l) = check_routes-step m kb ids r rs k in
      by_allows (Bool-cases (allows m (without_reason r) req path u eff)) id e f
        (sym (
            any_keep m (capability_route (without_reason r))
              (capability_routes (map without_reason rs)) req path u eff)
          ∙ a)
        (λ t. check_routes-allows rs ss {ids = ids} ps.1 qs h l t)
    where
      by_allows :
          (allows m (without_reason r) req path u eff ≡ true)
            ⊎ (allows m (without_reason r) req path u eff ≡ false)
          → (id : Identity) → identity m r kb ≡ ok id
          → has_identity id ids ≡ true
          → (if allows m (without_reason r) req path u eff
              then true
              else any_route_allows m (capability_routes (map without_reason rs)) req path u eff)
            ≡ true
          → (any_route_allows m (capability_routes (map without_reason rs)) req path u eff ≡ true
              → any_route_allows m (capability_routes ss) req path u eff ≡ true)
          → any_route_allows m (capability_routes ss) req path u eff ≡ true
      by_allows (inl t) id e f b later =
          has_identity-allows r id ss {ids = ids} e ps.0 qs h f (allows_reason r t)
      by_allows (inr t) id e f b later = later (rw t at b)
