-- ===== src/Integrations/Diff.antt =====
-- integrations/diff.go: the permission diff that is shown before an approval.
use veduta.Prelude.{
  ℕ, Bool, true, false, not, ◌&&◌, Option, none, some, List, [], ◌∷◌, Result, ok, ◌>>=◌, ltb,
  if◌then◌else◌, String, mem_text,
}
use veduta.Capabilities.Authorize.{Mime}
use veduta.Integrations.Limits.{
  Limits, EffectiveLimits, zero_limits, requested, effective_field, limit_field_order,
}
use veduta.Integrations.Route.{
  Route, Identity, IdentityError, identity, same_identity, body_bearing,
}
use veduta.Integrations.Manifest.{Manifest, LockEntry}

pub record LimitDiff : Type 0 where
  pub field : String
  pub current : ℕ
  pub requested : ℕ

-- `Diff`: what a re-approval would change.
pub record Diff : Type 0 where
  pub added_routes : List Route
  pub removed_routes : List Route
  pub added_capabilities : List String
  pub raised_limits : List LimitDiff
  pub body_bearing_routes : List Route

abbrev pub is_nil {ℓ} : {A : Type ℓ} → List A → Bool
is_nil [] = true
is_nil (x ∷ xs) = false

-- `Diff.Empty`.
unfoldable pub diff_is_empty : Diff → Bool
diff_is_empty d =
    is_nil d.added_routes
    && is_nil d.removed_routes
    && is_nil d.added_capabilities
    && is_nil d.raised_limits

-- `identitySet`.
unfoldable pub identity_set : Mime → List Route → ℕ → Result IdentityError (List Identity)
identity_set m [] kb = ok []
identity_set m (r ∷ rs) kb = do id ← identity m r kb; ids ← identity_set m rs kb; ok (id ∷ ids)

unfoldable pub has_identity : Identity → List Identity → Bool
has_identity id [] = false
has_identity id (i ∷ is) = if same_identity i id then true else has_identity id is

abbrev pub keep_when : Bool → Route → List Route → List Route
keep_when b r rs = if b then r ∷ rs else rs

-- The loop over the manifest's routes: those added, and those that carry a body.
unfoldable pub added_routes :
    Mime → ℕ → List Identity → List Route → Result IdentityError (List Route × List Route)
added_routes m kb locked [] = ok ([], [])
added_routes m kb locked (r ∷ rs) = do
  id ← identity m r kb
  rest ← added_routes m kb locked rs
  ok (keep_when (not (has_identity id locked)) r rest.0, keep_when (body_bearing r.method) r rest.1)

-- The loop over the lock's routes: those that the manifest no longer asks for.
unfoldable pub removed_routes :
    Mime → ℕ → List Identity → List Route → Result IdentityError (List Route)
removed_routes m kb requested_ids [] = ok []
removed_routes m kb requested_ids (r ∷ rs) = do
  id ← identity m r kb
  rest ← removed_routes m kb requested_ids rs
  ok (keep_when (not (has_identity id requested_ids)) r rest)

unfoldable pub added_capabilities : List String → List String → List String
added_capabilities locked [] = []
added_capabilities locked (c ∷ cs) =
    let rest = added_capabilities locked cs in if mem_text c locked then rest else c ∷ rest

unfoldable pub raised_limits : Limits → EffectiveLimits → List String → List LimitDiff
raised_limits l effective [] = []
raised_limits l effective (name ∷ names) =
    let rest = raised_limits l effective names in
    let raised : LimitDiff = record {
      field = name;
      current = effective_field effective name;
      requested = requested name l;
    } in
    if ltb (effective_field effective name) (requested name l) then raised ∷ rest else rest

-- What an absent entry stands for: no route, no capability, every limit zero.
abbrev pub locked_routes : Option LockEntry → List Route
locked_routes none = []
locked_routes (some entry) = entry.routes

abbrev pub locked_capabilities : Option LockEntry → List String
locked_capabilities none = []
locked_capabilities (some entry) = entry.capabilities

abbrev pub locked_limits : Option LockEntry → EffectiveLimits
locked_limits none = zero_limits
locked_limits (some entry) = entry.effective_limits

-- `ComputeDiff`.
unfoldable pub compute_diff : Mime → Manifest → Option LockEntry → Result IdentityError Diff
unfolding identity_set added_routes removed_routes added_capabilities raised_limits
compute_diff m manifest entry =
    let manifest_kb : ℕ = requested "requestBodyKB" manifest.limits in
    let lock_kb : ℕ = (locked_limits entry).request_body_kb in
    identity_set m manifest.routes manifest_kb >>= λ manifest_set.
    identity_set m (locked_routes entry) lock_kb >>= λ lock_set.
    added_routes m manifest_kb lock_set manifest.routes >>= λ added.
    removed_routes m lock_kb manifest_set (locked_routes entry) >>= λ removed. ok (record {
      added_routes = added.0;
      removed_routes = removed;
      added_capabilities = added_capabilities (locked_capabilities entry) manifest.capabilities;
      raised_limits = raised_limits manifest.limits (locked_limits entry) limit_field_order;
      body_bearing_routes = added.1;
    })
