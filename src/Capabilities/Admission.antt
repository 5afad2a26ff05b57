-- ===== src/Capabilities/Admission.antt =====
-- Who gets past the preambles of capabilities/broker.go and assetref.go.
use veduta.Prelude.{
  ◌≡◌, refl, inl, inr, true, not, Option, none, some, List, Bytes, Result, ok, err, if◌then◌else◌,
  Bool-cases, String, mem_text, lookup,
}
use veduta.Capabilities.Policy.{UseKind, use_data, use_asset, HttpRequest, Grant}
use veduta.Capabilities.Authorize.{BrokerError, Mime, authorize}
use veduta.Capabilities.Authority.{Authorised, authorize-Authorised}
use veduta.Capabilities.Budget.{Budget, consume_host_call}
use veduta.Capabilities.Broker.{
  State, Verdict, audited, charge, refuse, spend_http, check_http, admit_http, check_asset,
  admit_asset, asset_request,
}

-- What an admitted request had.
pub record Admitted (m : Mime) (g : Grant) (cap_name : String) (req : HttpRequest)
    (use_kind : UseKind) : Type 0 where
  pub capability : mem_text cap_name g.caps ≡ true
  pub connection : String
  pub bound : lookup req.slot g.slots ≡ some connection
  pub authorised : Authorised m g req use_kind

audited-ok :
    (g : Grant) (method : String) (s : State) (v : Verdict)
    → (audited g method s v).1 ≡ ok tt
    → v.1 ≡ ok tt
unfolding audited
audited-ok g method s (b, ok u) h = h
audited-ok g method s (b, err e) h = cc

-- The steps of a check, for any way to charge at its end.
abbrev steps : Mime → Grant → String → HttpRequest → UseKind → (Budget → Verdict) → Budget → Verdict
steps m g cap_name req use_kind spend b =
    if not (mem_text cap_name g.caps)
    then refuse b BrokerError.cap_denied
    else elim (lookup req.slot g.slots) [
      | none ↦ refuse b BrokerError.slot_denied
      | some conn ↦ elim (authorize m g req use_kind) [ err e ↦ refuse b e | ok u ↦ spend b ]
    ]

steps-Admitted :
    (m : Mime) (g : Grant) (cap_name : String) (req : HttpRequest) (u : UseKind)
    (spend : Budget → Verdict) (b : Budget)
    → (steps m g cap_name req u spend b).1 ≡ ok tt
    → Admitted m g cap_name req u
steps-Admitted m g cap_name req u spend b h = elim (Bool-cases (mem_text cap_name g.caps)) [
  | inr lacks ↦ cc (rw lacks at h)
  | inl has ↦ at_slot (lookup req.slot g.slots) (authorize m g req u) refl refl has (rw has at h)
]
  where
    at_slot :
        (o : Option String) (r : Result BrokerError (Unit {0}))
        → lookup req.slot g.slots ≡ o
        → authorize m g req u ≡ r
        → mem_text cap_name g.caps ≡ true
        → (elim o as (λ _. Verdict) [
          | none ↦ refuse b BrokerError.slot_denied
          | some conn ↦ elim r as (λ _. Verdict) [ err e ↦ refuse b e | ok v ↦ spend b ]
        ]).1
          ≡ ok tt
        → Admitted m g cap_name req u
    at_slot none r e f has k = cc
    at_slot (some conn) (err x) e f has k = cc
    at_slot (some conn) (ok v) e f has k = record {
      capability = has;
      connection = conn;
      bound = e;
      authorised = authorize-Authorised m g req u f;
    }

-- An HTTP request is admitted only with the capability, on a slot that is bound to a connection,
-- and authorised.
pub admit_http-Admitted :
    (m : Mime) (g : Grant) (req : HttpRequest) (s : State)
    → (admit_http m g req s).1 ≡ ok tt
    → Admitted m g "http" req use_data
unfolding admit_http check_http
admit_http-Admitted m g req s h =
    steps-Admitted m g "http" req use_data (spend_http g.limits) s.budget
      (audited-ok g "HTTP" s _ h)

-- An asset reference is admitted only with the capability, on a slot that is bound to a connection,
-- and authorised as a GET request for an asset.
pub admit_asset-Admitted :
    (m : Mime) (g : Grant) (slot : String) (path : Bytes) (query : List (String × String))
    (s : State)
    → (admit_asset m g slot path query s).1 ≡ ok tt
    → Admitted m g "assets" (asset_request slot path query) use_asset
unfolding admit_asset check_asset
admit_asset-Admitted m g slot path query s h =
    steps-Admitted m g "assets" (asset_request slot path query) use_asset
      (λ b. charge b (consume_host_call g.limits b)) s.budget (audited-ok g "AssetRef" s _ h)
