-- ===== src/Integrations/Manifest.antt =====
-- integrations/manifest.go, lock.go and status.go: what is requested, what was approved, and the status of the two.
use veduta.Prelude.{ℕ, not, Option, none, some, List, [], ◌∷◌, ◌++◌, if◌then◌else◌, String, str_eq}
use veduta.Integrations.Limits.{Limits, EffectiveLimits}
use veduta.Integrations.Route.{Route, dedupe_routes}

-- `Manifest`: what the approval needs of a plugin manifest.
pub record Manifest : Type 0 where
  pub id : String
  pub name : String
  pub version : String
  pub runtime : String
  pub capabilities : List String
  pub limits : Limits
  pub routes : List Route
  pub module_sha256 : String
  pub digest : String

-- `manifestDoc`: the decoded document; `operations` holds the routes of each operation.
pub record ManifestDoc : Type 0 where
  pub id : String
  pub name : String
  pub version : String
  pub runtime : String
  pub capabilities : List String
  pub limits : Limits
  pub sha256 : String
  pub operations : List (List Route)

unfoldable pub all_routes : List (List Route) → List Route
all_routes [] = []
all_routes (rs ∷ ops) = rs ++ all_routes ops

-- The end of `LoadManifest`, once the bytes are digested and decoded.
unfoldable pub manifest_of : String → ManifestDoc → Manifest
unfolding all_routes dedupe_routes
manifest_of digest doc = record {
  id = doc.id;
  name = doc.name;
  version = doc.version;
  runtime = doc.runtime;
  capabilities = doc.capabilities;
  limits = doc.limits;
  routes = dedupe_routes (all_routes doc.operations);
  module_sha256 = doc.sha256;
  digest = digest;
}

-- `LockEntry`: the approval record of one integration.
pub record LockEntry : Type 0 where
  pub manifest_sha256 : String
  pub module_sha256 : String
  pub version : String
  pub runtime : String
  pub approved_at : ℕ
  pub approved_by : String
  pub capabilities : List String
  pub routes : List Route
  pub limits : Option Limits
  pub effective_limits : EffectiveLimits

-- `Lock`.
pub record Lock : Type 0 where
  pub version : ℕ
  pub integrations : List (String × LockEntry)

-- `emptyLock`: nothing has been approved.
abbrev pub empty_lock : Lock
empty_lock = record { version = 1; integrations = [] }

-- `Status`.
pub data Status : Type 0 where
  builtin approved unapproved changed : Status

-- `Evaluate`.
unfoldable pub evaluate_status : Manifest → Option LockEntry → Status
evaluate_status m none = unapproved
evaluate_status m (some entry) =
    if not (str_eq entry.manifest_sha256 m.digest) then changed else approved
