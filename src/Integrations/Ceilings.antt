-- ===== src/Integrations/Ceilings.antt =====
-- The recorded ceilings of integrations/limits.go in closed form.
use veduta.Prelude.{ℕ, ◌≤◌, min, ◌≡◌, inl, inr, none, some, arith, All, Option-cases, String}
use veduta.Integrations.Limits.{
  bound_of, limit_field_order, Limits, field, requested, effective_limit, EffectiveLimits,
  effective_field, set_field, reconcile_fields, reconcile_at_approval,
}

-- The value that is asked for, or the documented default.
abbrev pub asked : String → Limits → ℕ
asked name l = elim (field l name) [ none ↦ (bound_of name).default | some n ↦ n ]

requested_min :
    (name : String) (l : Limits) → requested name l ≡ min (bound_of name).maximum (asked name l)
unfolding requested
requested_min name l = elim (Option-cases (field l name)) [
  | inl e ↦ rw e (ground arith)
  | inr (n, e) ↦ rw e (ground arith)
]

pub effective_limit-closed :
    (name : String) (m a : Limits)
    → effective_limit name m a ≡ min (bound_of name).maximum (min (asked name m) (asked name a))
unfolding effective_limit
effective_limit-closed name m a = ground (arith, requested_min name m, requested_min name a)

pub effective_limit-le :
    (name : String) (m a : Limits) → effective_limit name m a ≤ requested name m
unfolding effective_limit
effective_limit-le name m a = ground arith

pub effective_limit_self :
    (name : String) (m : Limits) → effective_limit name m m ≡ requested name m
unfolding effective_limit
effective_limit_self name m = ground arith

-- What `P` says of the name and value of every field.
abbrev pub EachField : (String → ℕ → Type 0) → EffectiveLimits → Type 0
EachField P e = All (λ name. P name (effective_field e name)) limit_field_order

pub reconcile-EachField :
    (P : String → ℕ → Type 0) (m a : Limits)
    → ((name : String) → P name (effective_limit name m a))
    → EachField P (reconcile_at_approval m a)
unfolding reconcile_at_approval reconcile_fields set_field effective_field
reconcile-EachField P m a h = (
  h "cacheBytesKB",
  (
    h "cacheEntries",
    (
      h "exprNodes",
      (
        h "hostCalls",
        (
          h "httpRequests",
          (
            h "inputMB",
            (
              h "iterations",
              (
                h "jsonDepth",
                (
                  h "jsonNodes",
                  (
                    h "memoryMB",
                    (h "outputKB", (h "requestBodyKB", (h "responseMB", (h "timeoutMs", tt)))),
                  ),
                ),
              ),
            ),
          ),
        ),
      ),
    ),
  ),
)

-- Every recorded ceiling is the least of the core's maximum, what the manifest asks for and what
-- the approval grants, where a side that sets nothing counts as the documented default.
pub reconcile-closed :
    (m a : Limits)
    → EachField
        (λ name v. v ≡ min (bound_of name).maximum (min (asked name m) (asked name a)))
        (reconcile_at_approval m a)
reconcile-closed m a =
    reconcile-EachField
      (λ name v. v ≡ min (bound_of name).maximum (min (asked name m) (asked name a))) m a
      (λ name. effective_limit-closed name m a)
