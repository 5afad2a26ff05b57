-- ===== src/Integrations/Approve.antt =====
-- integrations/approve.go: the digest-bound approval.
use veduta.Prelude.{
  ℕ, Bool, false, not, Option, none, some, List, [], ◌∷◌, map, Result, ok, err, ◌>>=◌, ◌>>◌, ltb,
  if◌then◌else◌, String, str_eq, mem_text,
}
use veduta.Capabilities.Authorize.{Mime}
use veduta.Integrations.Limits.{
  Limits, field, is_zero, requested, limit_field_order, reconcile_at_approval,
}
use veduta.Integrations.Route.{Route, Identity, IdentityError, identity}
use veduta.Integrations.Manifest.{Manifest, LockEntry}
use veduta.Integrations.Diff.{identity_set, has_identity}

-- `Grants`: what an administrator approves.
pub record Grants : Type 0 where
  pub capabilities : List String
  pub routes : List Route
  pub limits : Limits

-- `ErrDigestChanged` and `ErrGrantExceedsRequest`, with what exceeds.
pub data ApproveError : Type 0 where
  digest_changed : String → String → ApproveError
  exceeds_capability : String → ApproveError
  bad_manifest_route : IdentityError → ApproveError
  bad_granted_route : IdentityError → ApproveError
  exceeds_route : Route → ApproveError
  exceeds_limit : String → ApproveError

unfoldable pub check_capabilities : List String → List String → Result ApproveError (Unit {0})
check_capabilities requested_caps [] = ok tt
check_capabilities requested_caps (c ∷ cs) =
    if not (mem_text c requested_caps)
    then err (exceeds_capability c)
    else check_capabilities requested_caps cs

abbrev pub manifest_identities : Mime → Manifest → ℕ → Result ApproveError (List Identity)
manifest_identities m manifest kb = elim (identity_set m manifest.routes kb) [
  | err e ↦ err (bad_manifest_route e)
  | ok ids ↦ ok ids
]

abbrev pub granted_identity : Mime → Route → ℕ → Result ApproveError Identity
granted_identity m r kb = elim (identity m r kb) [
  | err e ↦ err (bad_granted_route e)
  | ok id ↦ ok id
]

unfoldable pub check_routes : Mime → ℕ → List Identity → List Route → Result ApproveError (Unit {0})
check_routes m kb ids [] = ok tt
check_routes m kb ids (r ∷ rs) = do
  id ← granted_identity m r kb
  if not (has_identity id ids) then err (exceeds_route r) else check_routes m kb ids rs

abbrev pub exceeds : Option ℕ → ℕ → Bool
exceeds none limit = false
exceeds (some v) limit = ltb limit v

unfoldable pub check_limits : Limits → Limits → List String → Result ApproveError (Unit {0})
check_limits granted manifest_limits [] = ok tt
check_limits granted manifest_limits (name ∷ names) =
    if exceeds (field granted name) (requested name manifest_limits)
    then err (exceeds_limit name)
    else check_limits granted manifest_limits names

-- The reason is only shown, never recorded.
abbrev pub without_reason : Route → Route
without_reason r = record r { reason = "" }

abbrev pub recorded_limits : Limits → Option Limits
recorded_limits l = if is_zero l then none else some l

-- The record that `Approve` builds.
unfoldable pub approval : Manifest → Grants → String → ℕ → LockEntry
approval manifest grants approved_by now = record {
  manifest_sha256 = manifest.digest;
  module_sha256 = manifest.module_sha256;
  version = manifest.version;
  runtime = manifest.runtime;
  approved_at = now;
  approved_by = approved_by;
  capabilities = grants.capabilities;
  routes = map without_reason grants.routes;
  limits = recorded_limits grants.limits;
  effective_limits = reconcile_at_approval manifest.limits grants.limits;
}

-- `Approve`.
unfoldable pub approve :
    Mime → Manifest → String → Grants → String → ℕ → Result ApproveError LockEntry
unfolding check_capabilities check_routes check_limits approval
approve m manifest expected grants approved_by now =
    if not (str_eq manifest.digest expected)
    then err (digest_changed expected manifest.digest)
    else (check_capabilities manifest.capabilities grants.capabilities
        >> (let kb : ℕ = requested "requestBodyKB" manifest.limits in
            manifest_identities m manifest kb >>= λ ids.
            check_routes m kb ids grants.routes
            >> (check_limits grants.limits manifest.limits limit_field_order
                >> ok (approval manifest grants approved_by now))))
