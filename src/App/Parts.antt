-- ===== src/App/Parts.antt =====
-- The parts of a route, as the broker of internal/capabilities and the identity of internal/integrations read them.
use veduta.Prelude.{
  ℕ, ◌≤◌, ◌<◌, ◌≡◌, refl, sym, ap, ◌∙◌, ◌⊎◌, inl, inr, Bool, true, false, Option, none, some, List,
  [], ◌∷◌, arith, Bytes, bytes_eq→≡, Result, ok, err, ◌>>=◌, ok-injective, Bool-cases, String,
  str_eq, eq_iff, mem_text,
}
use veduta.Routepath.Escape.{RouteError}
use veduta.Routepath.Canonicalise.{canonicalise}
use veduta.Capabilities.Policy as Policy
use veduta.Capabilities.Policy.{
  UseKind, HttpRequest, BodyLength, known, unknown, body_len, keys, all_in, query_keys_allowed,
  effective_kb, body_size_allowed, route_matches, same_use, core_default_body_kb,
}
use veduta.Capabilities.Authorize.{
  Mime, lower_charset, non_empty, normalise_media_type, content_type_allowed, route_allows,
}
use veduta.Integrations.Route.{
  Route, Identity, IdentityError, bad_media_type, normalise_content_type, effective_max_body_kb,
  canonical_query_keys, use_or_data, identity, same_identity,
}
use veduta.Integrations.Keys.{AllowsSame}
use veduta.App.Grant.{runtime_use, capability_route}

-- What the identity of a route says of it.
pub record IdentityOf (m : Mime) (r : Route) (kb : ℕ) (i : Identity) : Type 0 where
  pub path : canonicalise r.path ≡ ok i.path
  pub media : normalise_content_type m r.content_type ≡ ok i.content_type
  pub slot : i.slot ≡ r.slot
  pub method : i.method ≡ r.method
  pub use_name : i.use_name ≡ use_or_data r.use_name
  pub query_keys : i.query_keys ≡ canonical_query_keys r.query_keys
  pub body : i.max_body_kb ≡ effective_max_body_kb r.max_body_kb kb

pub identity-inv :
    (m : Mime) (r : Route) (kb : ℕ) {i : Identity} → identity m r kb ≡ ok i → IdentityOf m r kb i
unfolding identity
identity-inv m r kb {i} h =
    by_result (canonicalise r.path) (normalise_content_type m r.content_type) refl refl h
  where
    by_result :
        (p : Result RouteError Bytes) (c : Result IdentityError String)
        → canonicalise r.path ≡ p
        → normalise_content_type m r.content_type ≡ c
        → ((elim p as (λ _. Result IdentityError Bytes) [
          | err e ↦ err (IdentityError.bad_path e)
          | ok q ↦ ok q
        ])
            >>= λ path. c >>= λ ct. ok (record {
              slot = r.slot;
              method = r.method;
              path = path;
              use_name = use_or_data r.use_name;
              query_keys = canonical_query_keys r.query_keys;
              content_type = ct;
              max_body_kb = effective_max_body_kb r.max_body_kb kb;
            }))
          ≡ ok i
        → IdentityOf m r kb i
    by_result (err e) c p q k = cc
    by_result (ok path) (err e) p q k = cc
    by_result (ok path) (ok ct) p q k =
        let e = ok-injective k in
        record {
          path = p ∙ ap ok (ap (λ (t : Identity). t.path) e);
          media = q ∙ ap ok (ap (λ (t : Identity). t.content_type) e);
          slot = sym (ap (λ (t : Identity). t.slot) e);
          method = sym (ap (λ (t : Identity). t.method) e);
          use_name = sym (ap (λ (t : Identity). t.use_name) e);
          query_keys = sym (ap (λ (t : Identity). t.query_keys) e);
          body = sym (ap (λ (t : Identity). t.max_body_kb) e);
        }

pub record SameTuple (a b : Identity) : Type 0 where
  pub slot : a.slot ≡ b.slot
  pub method : a.method ≡ b.method
  pub path : a.path ≡ b.path
  pub use_name : a.use_name ≡ b.use_name
  pub query_keys : a.query_keys ≡ b.query_keys
  pub content_type : a.content_type ≡ b.content_type
  pub max_body_kb : a.max_body_kb ≡ b.max_body_kb

pub same_identity-inv : (a b : Identity) → same_identity a b ≡ true → SameTuple a b
unfolding same_identity
same_identity-inv a b h = ground (
  arith,
  eq_iff a.slot b.slot,
  eq_iff a.method b.method,
  bytes_eq→≡ a.path b.path,
  eq_iff a.use_name b.use_name,
  bytes_eq→≡ a.query_keys b.query_keys,
  eq_iff a.content_type b.content_type,
)

-- The decision of the broker on a route as the manifest or the lock writes it.
abbrev pub allows_as : Mime → HttpRequest → Bytes → UseKind → ℕ → Option Policy.Route → Bool
allows_as m req path u kb none = false
allows_as m req path u kb (some c) = route_allows m c req path u kb

abbrev pub allows : Mime → Route → HttpRequest → Bytes → UseKind → ℕ → Bool
allows m r req path u kb = allows_as m req path u kb (capability_route r)

pub runtime_use-use_or_data : (u : String) → runtime_use (use_or_data u) ≡ runtime_use u
unfolding runtime_use
runtime_use-use_or_data u = elim (Bool-cases (str_eq u "")) [
  | inl e ↦ rw ((eq_iff u "").0 e) refl
  | inr e ↦ ap runtime_use (kept e)
]
  where
    kept : str_eq u "" ≡ false → use_or_data u ≡ u
    kept e = rw e refl

all_in-same :
    (ks xs ys : List String)
    → ((k : String) → mem_text k xs ≡ mem_text k ys)
    → all_in ks xs ≡ all_in ks ys
all_in-same [] xs ys h = refl
all_in-same (k ∷ ks) xs ys h = ground (arith, h k, all_in-same ks xs ys h)

pub query_allowed_same :
    (a b : Option (List String)) (q : List (String × String))
    → AllowsSame a b
    → query_keys_allowed a q ≡ query_keys_allowed b q
unfolding query_keys_allowed
query_allowed_same none none q h = refl
query_allowed_same none (some ys) q h = absurd h
query_allowed_same (some xs) none q h = absurd h
query_allowed_same (some xs) (some ys) q h = all_in-same (keys q) xs ys h

-- The body ceiling, where both routes have one effective ceiling at approval and none is widened.
pub body_allowed_same :
    (a b kb eff : ℕ) (n : BodyLength)
    → 0 < eff
    → eff ≤ kb
    → effective_max_body_kb a kb ≡ effective_max_body_kb b kb
    → body_size_allowed a eff n ≡ body_size_allowed b eff n
unfolding body_size_allowed effective_max_body_kb effective_kb
body_allowed_same a b kb eff unknown p q h = refl
body_allowed_same a b kb eff (known n) p q h = rw e refl
  where
    e : effective_kb a eff ≡ effective_kb b eff
    e = ground arith

non_empty-ne : (s : String) {t : String} → non_empty s ≡ some t → str_eq t "" ≡ false
non_empty-ne s h = ground (arith, eq_iff s "")

normalise_media_type-ne :
    (m : Mime) (v : String) {t : String} → normalise_media_type m v ≡ some t → str_eq t "" ≡ false
unfolding normalise_media_type
normalise_media_type-ne m v {t} h = by_parse (m.parse v) refl h
  where
    by_parse :
        (p : Option (String × List (String × String)))
        → m.parse v ≡ p
        → elim p as (λ _. Option String) [
          | none ↦ none
          | some (mt, params) ↦ non_empty (m.format (m.lower mt) (lower_charset m params))
        ]
          ≡ some t
        → str_eq t "" ≡ false
    by_parse none e k = cc
    by_parse (some (mt, params)) e k = non_empty-ne _ k

-- The two ways to a normalised media type.
normalise_content_type-inv :
    (m : Mime) (v : String) {c : String}
    → normalise_content_type m v ≡ ok c
    → ((str_eq v "" ≡ true) × (str_eq c "" ≡ true))
      ⊎ ((str_eq v "" ≡ false) × (normalise_media_type m v ≡ some c) × (str_eq c "" ≡ false))
unfolding normalise_content_type
normalise_content_type-inv m v {c} h = elim (Bool-cases (str_eq v "")) [
  | inl e ↦ inl (e, rw (sym (ok-injective (rw e at h))) refl)
  | inr e ↦ inr (by_media (normalise_media_type m v) refl e (rw e at h))
]
  where
    by_media :
        (t : Option String)
        → normalise_media_type m v ≡ t
        → str_eq v "" ≡ false
        → elim t as (λ _. Result IdentityError String) [
          | none ↦ err (bad_media_type v)
          | some u ↦ ok u
        ]
          ≡ ok c
        → (str_eq v "" ≡ false) × (normalise_media_type m v ≡ some c) × (str_eq c "" ≡ false)
    by_media none e f k = cc
    by_media (some u) e f k =
        let e' : normalise_media_type m v ≡ some c = e ∙ ap some (ok-injective k) in
        (f, e', normalise_media_type-ne m v e')

pub content_allowed_same :
    (m : Mime) (a b c : String) (header : List (String × String))
    → normalise_content_type m a ≡ ok c
    → normalise_content_type m b ≡ ok c
    → content_type_allowed m a header ≡ content_type_allowed m b header
unfolding content_type_allowed
content_allowed_same m a b c header p q =
    by_cases (normalise_content_type-inv m a p) (normalise_content_type-inv m b q)
  where
    by_cases :
        ((str_eq a "" ≡ true) × (str_eq c "" ≡ true))
          ⊎ ((str_eq a "" ≡ false) × (normalise_media_type m a ≡ some c) × (str_eq c "" ≡ false))
        → ((str_eq b "" ≡ true) × (str_eq c "" ≡ true))
          ⊎ ((str_eq b "" ≡ false) × (normalise_media_type m b ≡ some c) × (str_eq c "" ≡ false))
        → content_type_allowed m a header ≡ content_type_allowed m b header
    by_cases (inl x) (inl y) = rw (x.0, y.0) refl
    by_cases (inl x) (inr y) = cc
    by_cases (inr x) (inl y) = cc
    by_cases (inr x) (inr y) = rw (x.0, y.0, x.1, y.1) refl

pub matches_same :
    (a b : Policy.Route) (slot method : String) (path : Bytes) (u : UseKind) {p : Bytes}
    → a.slot ≡ b.slot
    → a.method ≡ b.method
    → a.use_kind ≡ b.use_kind
    → canonicalise a.path ≡ ok p
    → canonicalise b.path ≡ ok p
    → route_matches a slot method path u ≡ route_matches b slot method path u
unfolding route_matches
matches_same a b slot method path u s t k p q = rw (s, t, k, p, q) refl
