-- ===== src/App/Authority.antt =====
-- Routes with one identity are one authority, and an approval grants no more than was asked for.
use veduta.Prelude.{ℕ, ◌≤◌, ◌<◌, ◌≡◌, refl, sym, ap, ◌∙◌, true, Option, none, some, Bytes, ok}
use veduta.Capabilities.Policy as Policy
use veduta.Capabilities.Policy.{
  UseKind, HttpRequest, BodyLength, known, unknown, body_len, keys, all_in, query_keys_allowed,
  effective_kb, body_size_allowed, route_matches, same_use, core_default_body_kb,
}
use veduta.Capabilities.Authorize.{Mime, content_type_allowed, route_allows}
use veduta.Integrations.Route.{Route, Identity, identity, same_identity}
use veduta.Integrations.Keys.{HasPlainKeys, AllowsSame, canonical_query_keys_iff}
use veduta.App.Grant.{runtime_use, as_kind, capability_route}
use veduta.App.Parts.{
  IdentityOf, identity-inv, SameTuple, same_identity-inv, runtime_use-use_or_data,
  query_allowed_same, body_allowed_same, content_allowed_same, matches_same, allows_as, allows,
}

route_allows-same :
    (m : Mime) (a b : Policy.Route) (req : HttpRequest) (path : Bytes) (u : UseKind) (kb : ℕ)
    → route_matches a req.slot req.method path u ≡ route_matches b req.slot req.method path u
    → query_keys_allowed a.query_keys req.query ≡ query_keys_allowed b.query_keys req.query
    → content_type_allowed m a.content_type req.header
      ≡ content_type_allowed m b.content_type req.header
    → body_size_allowed a.max_body_kb kb (body_len req)
      ≡ body_size_allowed b.max_body_kb kb (body_len req)
    → route_allows m a req path u kb ≡ route_allows m b req path u kb
unfolding route_allows
route_allows-same m a b req path u kb p q r s = rw (p, q, r, s) refl

-- Two routes whose identities are equal, computed with the ceiling that the manifest asks for,
-- are one authority: the broker decides every request alike by either, as long as their query
-- allowlists hold plain keys and the ceiling it works with is positive and at most that one.
pub same_identity-allows :
    (m : Mime) (r s : Route) (kb : ℕ) (i j : Identity)
    → identity m r kb ≡ ok i
    → identity m s kb ≡ ok j
    → same_identity i j ≡ true
    → HasPlainKeys r.query_keys
    → HasPlainKeys s.query_keys
    → (req : HttpRequest) (path : Bytes) (u : UseKind) (eff : ℕ) → 0 < eff
    → eff ≤ kb
    → allows m r req path u eff ≡ allows m s req path u eff
unfolding capability_route
same_identity-allows m r s kb i j hi hj same pr ps req path u eff pos le =
    by_kind (runtime_use r.use_name) refl kinds
  where
    a : IdentityOf m r kb i
    a = identity-inv m r kb hi

    b : IdentityOf m s kb j
    b = identity-inv m s kb hj

    t : SameTuple i j
    t = same_identity-inv i j same

    kinds : runtime_use r.use_name ≡ runtime_use s.use_name
    kinds =
        sym (runtime_use-use_or_data r.use_name)
        ∙ (ap runtime_use (sym a.use_name ∙ (t.use_name ∙ b.use_name))
            ∙ runtime_use-use_or_data s.use_name)

    queries : AllowsSame r.query_keys s.query_keys
    queries =
        (canonical_query_keys_iff r.query_keys s.query_keys pr ps).0
          (sym a.query_keys ∙ (t.query_keys ∙ b.query_keys))

    by_kind :
        (o : Option UseKind)
        → runtime_use r.use_name ≡ o
        → runtime_use r.use_name ≡ runtime_use s.use_name
        → allows m r req path u eff ≡ allows m s req path u eff
    by_kind none e f =
        ap (allows_as m req path u eff) (ap (as_kind r) e ∙ ap (as_kind s) (sym e ∙ f))
    by_kind (some k) e f =
        ap (λ o. allows_as m req path u eff (as_kind r o)) e
        ∙ ((route_allows-same m _ _ req path u eff
              (matches_same _ _ req.slot req.method path u (sym a.slot ∙ (t.slot ∙ b.slot))
                (sym a.method ∙ (t.method ∙ b.method)) refl a.path (b.path ∙ ap ok (sym t.path)))
              (query_allowed_same r.query_keys s.query_keys req.query queries)
              (content_allowed_same m r.content_type s.content_type i.content_type req.header
                a.media (b.media ∙ ap ok (sym t.content_type)))
              (body_allowed_same r.max_body_kb s.max_body_kb kb eff (body_len req) pos le
                (sym a.body ∙ (t.max_body_kb ∙ b.body))))
            ∙ ap (λ o. allows_as m req path u eff (as_kind s o)) (sym e ∙ f))
