-- ===== src/App/Approved.antt =====
-- What internal/integrations grants by an approval.
use veduta.Prelude.{
  ℕ, ◌≤◌, ◌<◌, ◌≡◌, sym, ap, ◌∙◌, inl, inr, true, List, [], ◌∷◌, Bytes, All, Result, ok, err,
  >>=-eq-ok, ok-injective, guard-inv, not-false, Bool-cases, String, str_eq, eq_iff, mem_text,
}
use mathlib.Core.Path.{subst}
use veduta.Capabilities.Policy.{UseKind, HttpRequest}
use veduta.Capabilities.Authorize.{Mime, any_route_allows}
use veduta.Integrations.Limits.{
  Limits, requested, limit_field_order, reconcile_at_approval, reconcile_fields, set_field,
}
use veduta.Integrations.Ceilings.{EachField, reconcile-EachField, effective_limit-le}
use veduta.Integrations.Route.{Identity, IdentityError}
use veduta.Integrations.Manifest.{Manifest, LockEntry}
use veduta.Integrations.Diff.{identity_set}
use veduta.Integrations.Approve.{
  Grants, ApproveError, bad_manifest_route, check_capabilities, manifest_identities, check_routes,
  check_limits, approval, approve,
}
use veduta.App.Grant.{capability_routes}
use veduta.App.Subset.{PlainRoute, check_routes-allows}

-- What a successful approval has checked.
pub record Approved (m : Mime) (manifest : Manifest) (expected : String) (grants : Grants)
    (approved_by : String) (now : ℕ) (entry : LockEntry) : Type 0 where
  pub same_digest : manifest.digest ≡ expected
  pub capabilities : check_capabilities manifest.capabilities grants.capabilities ≡ ok tt
  pub ids : List Identity
  pub manifest_ids :
      identity_set m manifest.routes (requested "requestBodyKB" manifest.limits) ≡ ok ids
  pub routes : check_routes m (requested "requestBodyKB" manifest.limits) ids grants.routes ≡ ok tt
  pub limits : check_limits grants.limits manifest.limits limit_field_order ≡ ok tt
  pub recorded : entry ≡ approval manifest grants approved_by now

manifest_identities-inv :
    (m : Mime) (manifest : Manifest) (kb : ℕ) {ids : List Identity}
    → manifest_identities m manifest kb ≡ ok ids
    → identity_set m manifest.routes kb ≡ ok ids
manifest_identities-inv m manifest kb {ids} h = by_set (identity_set m manifest.routes kb) h
  where
    by_set :
        (t : Result IdentityError (List Identity))
        → elim t as (λ _. Result ApproveError (List Identity)) [
          | err e ↦ err (bad_manifest_route e)
          | ok x ↦ ok x
        ]
          ≡ ok ids
        → t ≡ ok ids
    by_set (err e) k = cc
    by_set (ok x) k = ap ok (ok-injective k)

pub approve-Approved :
    (m : Mime) (manifest : Manifest) (expected : String) (grants : Grants) (approved_by : String)
    (now : ℕ) {entry : LockEntry}
    → approve m manifest expected grants approved_by now ≡ ok entry
    → Approved m manifest expected grants approved_by now entry
unfolding approve
approve-Approved m manifest expected grants approved_by now h =
    let (a, h1) = guard-inv _ _ _ h in
    let (t, c, h2) = >>=-eq-ok _ _ h1 in
    let (ids, i, h3) = >>=-eq-ok _ _ h2 in
    let (t', r, h4) = >>=-eq-ok _ _ h3 in
    let (t'', l, h5) = >>=-eq-ok _ _ h4 in
    record {
      same_digest = (eq_iff manifest.digest expected).0 (not-false _ a);
      capabilities = c;
      ids = ids;
      manifest_ids = manifest_identities-inv m manifest _ i;
      routes = r;
      limits = l;
      recorded = sym (ok-injective h5);
    }

check_capabilities-mem :
    (asked granted : List String) (c : String)
    → check_capabilities asked granted ≡ ok tt
    → mem_text c granted ≡ true
    → mem_text c asked ≡ true
unfolding check_capabilities
check_capabilities-mem asked [] c h k = cc
check_capabilities-mem asked (g ∷ gs) c h k =
    let (a, b) = guard-inv _ _ _ h in
    elim (Bool-cases (str_eq g c)) [
      | inl e ↦ rw ((eq_iff g c).0 e) at (not-false (mem_text g asked) a)
      | inr e ↦ check_capabilities-mem asked gs c b (rw e at k)
    ]

-- An entry grants no more than the manifest asks for.
pub record NoMore (m : Mime) (manifest : Manifest) (entry : LockEntry) : Type 0 where
  pub capabilities :
      (c : String) → mem_text c entry.capabilities ≡ true → mem_text c manifest.capabilities ≡ true
  pub requests :
      (req : HttpRequest) (path : Bytes) (u : UseKind)
      → any_route_allows m
          (capability_routes entry.routes)
          req
          path
          u
          entry.effective_limits.request_body_kb
        ≡ true
      → any_route_allows m
          (capability_routes manifest.routes)
          req
          path
          u
          entry.effective_limits.request_body_kb
        ≡ true
  pub limits : EachField (λ name v. v ≤ requested name manifest.limits) entry.effective_limits

body_ceiling-le :
    (l a : Limits) → (reconcile_at_approval l a).request_body_kb ≤ requested "requestBodyKB" l
unfolding reconcile_at_approval reconcile_fields set_field
body_ceiling-le l a = effective_limit-le "requestBodyKB" l a

-- A successful approval was given the digest that the manifest has, and its record grants no
-- capability, allows no request of the broker and sets no ceiling beyond what the manifest asks
-- for, as long as the query allowlists of both hold plain keys and the granted body ceiling is
-- positive.
pub approve-NoMore :
    (m : Mime) (manifest : Manifest) (expected : String) (grants : Grants) (approved_by : String)
    (now : ℕ) {entry : LockEntry}
    → approve m manifest expected grants approved_by now ≡ ok entry
    → All PlainRoute manifest.routes
    → All PlainRoute grants.routes
    → 0 < entry.effective_limits.request_body_kb
    → (entry.manifest_sha256 ≡ expected) × NoMore m manifest entry
unfolding approval
approve-NoMore m manifest expected grants approved_by now {entry} h ps qs pos =
    (ap (λ (e : LockEntry). e.manifest_sha256) a.recorded ∙ a.same_digest, more)
  where
    a : Approved m manifest expected grants approved_by now entry
    a = approve-Approved m manifest expected grants approved_by now h

    recorded_pos : 0 < (approval manifest grants approved_by now).effective_limits.request_body_kb
    recorded_pos = subst (λ (e : LockEntry). 0 < e.effective_limits.request_body_kb) a.recorded pos

    body_le :
        (approval manifest grants approved_by now).effective_limits.request_body_kb
        ≤ requested "requestBodyKB" manifest.limits
    body_le = body_ceiling-le manifest.limits grants.limits

    kept : NoMore m manifest (approval manifest grants approved_by now)
    kept = record {
      capabilities =
          λ c. check_capabilities-mem manifest.capabilities grants.capabilities c a.capabilities;
      requests = λ req path u.
          check_routes-allows m (requested "requestBodyKB" manifest.limits) _ recorded_pos body_le
            req path u grants.routes manifest.routes qs ps a.manifest_ids a.routes;
      limits =
          reconcile-EachField (λ name v. v ≤ requested name manifest.limits) manifest.limits
            grants.limits (λ name. effective_limit-le name manifest.limits grants.limits);
    }

    more : NoMore m manifest entry
    more = subst (NoMore m manifest) (sym a.recorded) kept
