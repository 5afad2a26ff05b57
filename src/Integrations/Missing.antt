-- ===== src/Integrations/Missing.antt =====
-- The loops of integrations/diff.go over routes as filters.
use veduta.Prelude.{
  ℕ, ◌≤◌, ◌≡◌, refl, sym, ap, ◌∙◌, ◌↔◌, Bool, true, false, not, ◌&&◌, Option, List, [], ◌∷◌, arith,
  All, ok, >>=-eq-ok, ok-injective, if◌then◌else◌, String, mem_text,
}
use veduta.Capabilities.Authorize.{Mime}
use veduta.Integrations.Limits.{
  Limits, EffectiveLimits, requested, effective_field, limit_field_order,
}
use veduta.Integrations.Ceilings.{EachField}
use veduta.Integrations.Route.{Route, Identity, identity, body_bearing}
use veduta.Integrations.Manifest.{Manifest, LockEntry}
use veduta.Integrations.Diff.{
  Diff, is_nil, diff_is_empty, identity_set, has_identity, keep_when, added_routes, removed_routes,
  added_capabilities, raised_limits, locked_routes, locked_capabilities, locked_limits,
  compute_diff,
}

-- The identities of a list of routes, one by one.
pub identity_set-step :
    (m : Mime) (kb : ℕ) (s : Route) (ss : List Route) {ids : List Identity}
    → identity_set m (s ∷ ss) kb ≡ ok ids
    → (j : Identity) × (js : List Identity) × (identity m s kb ≡ ok j)
      × (identity_set m ss kb ≡ ok js)
      × (ids ≡ j ∷ js)
unfolding identity_set
identity_set-step m kb s ss h =
    let (j, e, k) = >>=-eq-ok _ _ h in
    let (js, f, l) = >>=-eq-ok _ _ k in (j, js, e, f, sym (ok-injective l))

identity_set-nil :
    (m : Mime) (kb : ℕ) {ids : List Identity} → identity_set m [] kb ≡ ok ids → ids ≡ []
unfolding identity_set
identity_set-nil m kb h = sym (ok-injective h)

abbrev pub AllIn : List Identity → List Identity → Type 0
AllIn ids others = All (λ i. has_identity i others ≡ true) ids

-- The part of a list of routes whose identity is not in the set.
abbrev pub missing : List Identity → List Route → List Identity → List Route
missing others [] ids = []
missing others (r ∷ rs) [] = []
missing others (r ∷ rs) (i ∷ is) = keep_when (not (has_identity i others)) r (missing others rs is)

pub removed_routes-missing :
    (m : Mime) (kb : ℕ) (others : List Identity) (rs : List Route) {ids : List Identity}
    → identity_set m rs kb ≡ ok ids
    → removed_routes m kb others rs ≡ ok (missing others rs ids)
unfolding removed_routes
removed_routes-missing m kb others [] h = refl
removed_routes-missing m kb others (r ∷ rs) h =
    let (j, js, e, f, l) = identity_set-step m kb r rs h in
    let step : removed_routes m kb others (r ∷ rs) ≡ ok (missing others (r ∷ rs) (j ∷ js)) =
      simp (e, removed_routes-missing m kb others rs f) in
    step ∙ ap (λ t. ok (missing others (r ∷ rs) t)) (sym l)

abbrev pub with_body : List Route → List Route
with_body [] = []
with_body (r ∷ rs) = keep_when (body_bearing r.method) r (with_body rs)

pub added_routes-missing :
    (m : Mime) (kb : ℕ) (others : List Identity) (rs : List Route) {ids : List Identity}
    → identity_set m rs kb ≡ ok ids
    → added_routes m kb others rs ≡ ok (missing others rs ids, with_body rs)
unfolding added_routes
added_routes-missing m kb others [] h = refl
added_routes-missing m kb others (r ∷ rs) h =
    let (j, js, e, f, l) = identity_set-step m kb r rs h in
    let step : added_routes m kb others (r ∷ rs)
        ≡ ok (missing others (r ∷ rs) (j ∷ js), with_body (r ∷ rs)) =
      simp (e, added_routes-missing m kb others rs f) in
    step ∙ ap (λ t. ok (missing others (r ∷ rs) t, with_body (r ∷ rs))) (sym l)

pub missing-nil :
    (m : Mime) (kb : ℕ) (others : List Identity) (rs : List Route) {ids : List Identity}
    → identity_set m rs kb ≡ ok ids
    → (is_nil (missing others rs ids) ≡ true) ↔ AllIn ids others
missing-nil m kb others [] {ids} h = rw (identity_set-nil m kb h) (λ e. tt, λ e. refl)
missing-nil m kb others (r ∷ rs) {ids} h =
    let (j, js, e, f, l) = identity_set-step m kb r rs h in
    rw l (by_first j (has_identity j others) refl js (missing-nil m kb others rs f))
  where
    by_first :
        (j : Identity) (b : Bool)
        → has_identity j others ≡ b
        → (js : List Identity) → (is_nil (missing others rs js) ≡ true) ↔ AllIn js others
        → (is_nil (keep_when (not (has_identity j others)) r (missing others rs js)) ≡ true)
          ↔ ((has_identity j others ≡ true) × AllIn js others)
    by_first j true e js ih = rw e (λ k. (refl, ih.0 k), λ k. ih.1 k.1)
    by_first j false e js ih = rw e (λ k. cc, λ k. cc)

pub added_capabilities-nil :
    (locked cs : List String)
    → (is_nil (added_capabilities locked cs) ≡ true) ↔ All (λ c. mem_text c locked ≡ true) cs
unfolding added_capabilities
added_capabilities-nil locked [] = (λ e. tt, λ e. refl)
added_capabilities-nil locked (c ∷ cs) =
    by_first (mem_text c locked) refl (added_capabilities-nil locked cs)
  where
    by_first :
        (b : Bool)
        → mem_text c locked ≡ b
        → (is_nil (added_capabilities locked cs) ≡ true) ↔ All (λ c. mem_text c locked ≡ true) cs
        → (is_nil (
              if mem_text c locked
              then added_capabilities locked cs
              else c ∷ added_capabilities locked cs)
            ≡ true)
          ↔ ((mem_text c locked ≡ true) × All (λ c. mem_text c locked ≡ true) cs)
    by_first true e ih = rw e (λ k. (refl, ih.0 k), λ k. ih.1 k.1)
    by_first false e ih = rw e (λ k. cc, λ k. cc)

pub raised_limits-nil :
    (l : Limits) (e : EffectiveLimits) (names : List String)
    → (is_nil (raised_limits l e names) ≡ true)
      ↔ All (λ name. requested name l ≤ effective_field e name) names
unfolding raised_limits
raised_limits-nil l e [] = (λ h. tt, λ h. refl)
raised_limits-nil l e (name ∷ names) = (
  λ h. ground (arith, (raised_limits-nil l e names).0),
  λ h. ground (arith, (raised_limits-nil l e names).1 h.1),
)

-- Every route that the manifest asks for is in the lock and conversely, up to identity; every
-- capability is in the lock; and no limit is asked for beyond what the lock records.
pub record Unchanged (manifest_ids lock_ids : List Identity) (manifest : Manifest)
    (entry : Option LockEntry) : Type 0 where
  pub requested_routes : AllIn manifest_ids lock_ids
  pub locked_routes : AllIn lock_ids manifest_ids
  pub capabilities : All (λ c. mem_text c (locked_capabilities entry) ≡ true) manifest.capabilities
  pub limits : EachField (λ name v. requested name manifest.limits ≤ v) (locked_limits entry)

all_four :
    (a b c d : Bool)
    → (a && b && c && d ≡ true) ↔ ((a ≡ true) × (b ≡ true) × (c ≡ true) × (d ≡ true))
all_four a b c d = ground arith

-- The permission diff of two computable sets of identities exists, and it is empty exactly when
-- nothing that is authority has changed: the identities of the manifest's routes and the lock's
-- contain each other, and neither a capability nor a limit is asked for that the lock lacks.
pub compute_diff_iff :
    (m : Mime) (manifest : Manifest) (entry : Option LockEntry)
    (manifest_ids lock_ids : List Identity)
    → identity_set m manifest.routes (requested "requestBodyKB" manifest.limits) ≡ ok manifest_ids
    → identity_set m (locked_routes entry) (locked_limits entry).request_body_kb ≡ ok lock_ids
    → (d : Diff) × (compute_diff m manifest entry ≡ ok d)
      × ((diff_is_empty d ≡ true) ↔ Unchanged manifest_ids lock_ids manifest entry)
unfolding compute_diff diff_is_empty
compute_diff_iff m manifest entry ids lock_ids p q = (
  record {
    added_routes = missing lock_ids manifest.routes ids;
    removed_routes = missing ids (locked_routes entry) lock_ids;
    added_capabilities = added_capabilities (locked_capabilities entry) manifest.capabilities;
    raised_limits = raised_limits manifest.limits (locked_limits entry) limit_field_order;
    body_bearing_routes = with_body manifest.routes;
  },
  simp (
    p,
    q,
    added_routes-missing m _ lock_ids manifest.routes p,
    removed_routes-missing m _ ids (locked_routes entry) q,
  ),
  (λ h. changed→ ((all_four _ _ _ _).0 h), λ u. (all_four _ _ _ _).1 (→changed u)),
)
  where
    added : (is_nil (missing lock_ids manifest.routes ids) ≡ true) ↔ AllIn ids lock_ids
    added = missing-nil m _ lock_ids manifest.routes p

    removed : (is_nil (missing ids (locked_routes entry) lock_ids) ≡ true) ↔ AllIn lock_ids ids
    removed = missing-nil m _ ids (locked_routes entry) q

    changed→ :
        (is_nil (missing lock_ids manifest.routes ids) ≡ true)
          × (is_nil (missing ids (locked_routes entry) lock_ids) ≡ true)
          × (is_nil (added_capabilities (locked_capabilities entry) manifest.capabilities) ≡ true)
          × (is_nil (raised_limits manifest.limits (locked_limits entry) limit_field_order) ≡ true)
        → Unchanged ids lock_ids manifest entry
    changed→ h = record {
      requested_routes = added.0 h.0;
      locked_routes = removed.0 h.1;
      capabilities = (added_capabilities-nil _ _).0 h.2;
      limits = (raised_limits-nil _ _ limit_field_order).0 h.3;
    }

    →changed :
        Unchanged ids lock_ids manifest entry
        → (is_nil (missing lock_ids manifest.routes ids) ≡ true)
          × (is_nil (missing ids (locked_routes entry) lock_ids) ≡ true)
          × (is_nil (added_capabilities (locked_capabilities entry) manifest.capabilities) ≡ true)
          × (is_nil (raised_limits manifest.limits (locked_limits entry) limit_field_order) ≡ true)
    →changed u = (
      added.1 u.requested_routes,
      removed.1 u.locked_routes,
      (added_capabilities-nil _ _).1 u.capabilities,
      (raised_limits-nil _ _ limit_field_order).1 u.limits,
    )
