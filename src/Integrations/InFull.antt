-- ===== src/Integrations/InFull.antt =====
-- An approval in full, and the diff and status that follow it.
use veduta.Prelude.{
  ℕ, ◌≤◌, ◌≡◌, refl, ◌∙◌, inl, inr, true, false, some, List, [], ◌∷◌, map, arith, All,
  bytes_eq_refl, Result, ok, ◌>>=◌, ltb, if◌then◌else◌, Option-cases, String, eq_iff, mem_text,
}
use veduta.Capabilities.Authorize.{Mime}
use veduta.Integrations.Limits.{
  Limits, bound_of, field, requested, limit_field_order, reconcile_at_approval, reconcile_fields,
  set_field,
}
use veduta.Integrations.Ceilings.{reconcile-EachField, effective_limit_self}
use veduta.Integrations.Route.{Route, Identity, identity, same_identity}
use veduta.Integrations.Manifest.{Manifest, LockEntry, approved, evaluate_status}
use veduta.Integrations.Diff.{Diff, diff_is_empty, identity_set, has_identity, compute_diff}
use veduta.Integrations.Missing.{AllIn, Unchanged, identity_set-step, compute_diff_iff}
use veduta.Integrations.Approve.{
  Grants, check_capabilities, manifest_identities, granted_identity, check_routes, exceeds,
  check_limits, without_reason, approval, approve,
}

same_identity_refl : (i : Identity) → same_identity i i ≡ true
unfolding same_identity
same_identity_refl i = ground (
  arith,
  eq_iff i.slot i.slot,
  eq_iff i.method i.method,
  bytes_eq_refl i.path,
  eq_iff i.use_name i.use_name,
  bytes_eq_refl i.query_keys,
  eq_iff i.content_type i.content_type,
)

AllIn-cons : (i : Identity) (is others : List Identity) → AllIn is others → AllIn is (i ∷ others)
unfolding has_identity
AllIn-cons i [] others h = tt
AllIn-cons i (j ∷ js) others h = (ground arith, AllIn-cons i js others h.1)

AllIn-refl : (is : List Identity) → AllIn is is
unfolding has_identity
AllIn-refl [] = tt
AllIn-refl (i ∷ is) = (rw (same_identity_refl i) refl, AllIn-cons i is is (AllIn-refl is))

abbrev AllListed : List String → List String → Type 0
AllListed cs others = All (λ c. mem_text c others ≡ true) cs

AllListed-cons :
    (c : String) (cs others : List String) → AllListed cs others → AllListed cs (c ∷ others)
AllListed-cons c [] others h = tt
AllListed-cons c (d ∷ ds) others h = (ground arith, AllListed-cons c ds others h.1)

AllListed-refl : (cs : List String) → AllListed cs cs
AllListed-refl [] = tt
AllListed-refl (c ∷ cs) = (ground (arith, eq_iff c c), AllListed-cons c cs cs (AllListed-refl cs))

check_capabilities_all :
    (asked cs : List String) → AllListed cs asked → check_capabilities asked cs ≡ ok tt
unfolding check_capabilities
check_capabilities_all asked [] h = refl
check_capabilities_all asked (c ∷ cs) h = rw h.0 (check_capabilities_all asked cs h.1)

>>=-ok : {E A B : Type 0} (r : Result E A) (k : A → Result E B) {a : A} → r ≡ ok a → (r >>= k) ≡ k a
>>=-ok r k h = rw h refl

granted_identity-ok :
    (m : Mime) (r : Route) (kb : ℕ) {i : Identity}
    → identity m r kb ≡ ok i
    → granted_identity m r kb ≡ ok i
granted_identity-ok m r kb h = rw (granted_identity, h) refl

manifest_identities-ok :
    (m : Mime) (manifest : Manifest) (kb : ℕ) {ids : List Identity}
    → identity_set m manifest.routes kb ≡ ok ids
    → manifest_identities m manifest kb ≡ ok ids
manifest_identities-ok m manifest kb h = rw (manifest_identities, h) refl

check_routes_all :
    (m : Mime) (kb : ℕ) (others : List Identity) (rs : List Route) {ids : List Identity}
    → identity_set m rs kb ≡ ok ids
    → AllIn ids others
    → check_routes m kb others rs ≡ ok tt
unfolding check_routes
check_routes_all m kb others [] h a = refl
check_routes_all m kb others (r ∷ rs) h a =
    let (j, js, e, f, l) = identity_set-step m kb r rs h in
    let b : AllIn (j ∷ js) others = rw l at a in
    >>=-ok (granted_identity m r kb) _ (granted_identity-ok m r kb e)
    ∙ rw b.0 (check_routes_all m kb others rs f b.1)

-- No limit is asked for above the core's maximum.
abbrev pub WithinMaxima : Limits → Type 0
WithinMaxima l =
    All (λ name. exceeds (field l name) (bound_of name).maximum ≡ false) limit_field_order

exceeds-requested :
    (name : String) (l : Limits)
    → exceeds (field l name) (bound_of name).maximum ≡ false
    → exceeds (field l name) (requested name l) ≡ false
unfolding requested
exceeds-requested name l h = elim (Option-cases (field l name)) [
  | inl e ↦ rw e refl
  | inr (n, e) ↦ rw e (within n (rw e at h))
]
  where
    within :
        (n : ℕ)
        → exceeds (some n) (bound_of name).maximum ≡ false
        → exceeds (some n) (if ltb (bound_of name).maximum n then (bound_of name).maximum else n)
          ≡ false
    within n h = ground arith

check_limits_all :
    (l : Limits) (names : List String)
    → All (λ name. exceeds (field l name) (bound_of name).maximum ≡ false) names
    → check_limits l l names ≡ ok tt
unfolding check_limits
check_limits_all l [] h = refl
check_limits_all l (name ∷ names) h =
    rw (exceeds-requested name l h.0) (check_limits_all l names h.1)

identity_set-without_reason :
    (m : Mime) (rs : List Route) (kb : ℕ)
    → identity_set m (map without_reason rs) kb ≡ identity_set m rs kb
unfolding identity_set identity
identity_set-without_reason m [] kb = refl
identity_set-without_reason m (r ∷ rs) kb = rw (identity_set-without_reason m rs kb) refl

recorded_body :
    (l : Limits) → (reconcile_at_approval l l).request_body_kb ≡ requested "requestBodyKB" l
unfolding reconcile_at_approval reconcile_fields set_field
recorded_body l = effective_limit_self "requestBodyKB" l

-- What the manifest asks for, word for word.
abbrev pub in_full : Manifest → Grants
in_full manifest = record {
  capabilities = manifest.capabilities;
  routes = manifest.routes;
  limits = manifest.limits;
}

-- Approving all that a manifest asks for succeeds, and leaves nothing to approve: the status of
-- the record is `approved` and its diff against the same manifest is empty. The manifest's routes
-- must have identities, and no limit may be asked for above the core's maximum.
pub approve-compute_diff :
    (m : Mime) (manifest : Manifest) (approved_by : String) (now : ℕ) (ids : List Identity)
    → identity_set m manifest.routes (requested "requestBodyKB" manifest.limits) ≡ ok ids
    → WithinMaxima manifest.limits
    → (entry : LockEntry) × (d : Diff) × (approve m manifest manifest.digest
          (in_full manifest)
          approved_by
          now
        ≡ ok entry)
      × (evaluate_status manifest (some entry) ≡ approved)
      × (compute_diff m manifest (some entry) ≡ ok d)
      × (diff_is_empty d ≡ true)
unfolding approve approval evaluate_status
approve-compute_diff m manifest approved_by now ids h w =
    let (d, e, f) = compute_diff_iff m manifest (some entry) ids ids h locked in
    (
      entry,
      d,
      accepted,
      rw ((eq_iff manifest.digest manifest.digest).1 refl) refl,
      e,
      f.1 unchanged,
    )
  where
    entry : LockEntry
    entry = approval manifest (in_full manifest) approved_by now

    accepted : approve m manifest manifest.digest (in_full manifest) approved_by now ≡ ok entry
    accepted = rw ((eq_iff manifest.digest manifest.digest).1 refl) (
        >>=-ok _ _
          (check_capabilities_all manifest.capabilities manifest.capabilities (AllListed-refl _))
        ∙ (>>=-ok _ _ (manifest_identities-ok m manifest _ h)
            ∙ (>>=-ok _ _ (check_routes_all m _ ids manifest.routes h (AllIn-refl ids))
                ∙ >>=-ok _ _ (check_limits_all manifest.limits limit_field_order w))))

    locked :
        identity_set m
          (map without_reason manifest.routes)
          (reconcile_at_approval manifest.limits manifest.limits).request_body_kb
        ≡ ok ids
    locked = rw (recorded_body manifest.limits, identity_set-without_reason m manifest.routes) h

    unchanged : Unchanged ids ids manifest (some entry)
    unchanged = record {
      requested_routes = AllIn-refl ids;
      locked_routes = AllIn-refl ids;
      capabilities = AllListed-refl manifest.capabilities;
      limits =
          reconcile-EachField (λ name v. requested name manifest.limits ≤ v) manifest.limits
            manifest.limits (λ name. omega (arith, effective_limit_self name manifest.limits));
    }
