-- ===== src/Capabilities/Passing.antt =====
-- capabilities/headers.go: which headers of a plugin reach the upstream.
use veduta.Prelude.{
  ◌≡◌, refl, sym, ap, ◌∙◌, ◌≢◌, ◌↔◌, ◌⊎◌, inl, inr, true, false, List, [], ◌∷◌, Bytes, codes,
  bytes_eq, bytes_eq→≡, bytes_eq_refl, if◌then◌else◌, refuse-inv, Bool-cases, Member,
}
use mathlib.Core.List.{Memᴰ}
use veduta.Capabilities.Headers.{
  to_lower, mem_name, plugin_header_allowlist, always_stripped_headers, Ownership, AuthType,
  auth_none, auth_bearer, auth_basic, auth_header, auth_query, lower_all, new_connection_ownership,
  Headers, keeps_header, filter_headers,
}

-- The headers of a plugin that an upstream may see, by their names in lower case: what the content is,
-- what the plugin takes for an answer, and what it has already.
abbrev pub negotiable : List Bytes
negotiable =
    codes "accept"
    ∷ codes "accept-language"
    ∷ codes "content-type"
    ∷ codes "if-modified-since"
    ∷ codes "if-none-match"
    ∷ codes "range"
    ∷ []

-- The header that carries a connection's credential, when one does.
abbrev pub CredentialHeader : AuthType → Bytes → Bytes → Type 0
CredentialHeader auth_header auth_name name =
    (auth_name ≢ []) × (to_lower auth_name ≡ to_lower name)
CredentialHeader _ auth_name name = ⊥

-- A header that a connection sets itself, whatever the case of its letters.
abbrev pub Owned : AuthType → Bytes → List Bytes → Bytes → Type 0
Owned auth auth_name statics name =
    CredentialHeader auth auth_name name ⊎ Member (to_lower name) (lower_all statics)

mem_name_iff : (n : Bytes) (ms : List Bytes) → (mem_name n ms ≡ true) ↔ Member n ms
unfolding mem_name
mem_name_iff n [] = (λ h. cc, λ h. absurd h)
mem_name_iff n (m ∷ ms) = (found (mem_name_iff n ms), there (mem_name_iff n ms))
  where
    found :
        ((mem_name n ms ≡ true) ↔ Member n ms) → mem_name n (m ∷ ms) ≡ true → (m ≡ n) ⊎ Member n ms
    found tail h = elim (Bool-cases (bytes_eq m n)) [
      | inl e ↦ inl (bytes_eq→≡ m n e)
      | inr e ↦ inr (tail.0 (rw e at h))
    ]

    there :
        ((mem_name n ms ≡ true) ↔ Member n ms) → (m ≡ n) ⊎ Member n ms → mem_name n (m ∷ ms) ≡ true
    there tail (inl e) = rw e (rw (bytes_eq_refl n) refl)
    there tail (inr t) = elim (Bool-cases (bytes_eq m n)) [
      | inl e ↦ rw e refl
      | inr e ↦ rw e (tail.1 t)
    ]

-- Only the static names, or one more in front of them.
only_static : (n : Bytes) (ms : List Bytes) → (mem_name n ms ≡ true) ↔ (⊥ ⊎ Member n ms)
only_static n ms = (
  λ h. inr ((mem_name_iff n ms).0 h),
  λ k. elim k [ inl z ↦ absurd z | inr m ↦ (mem_name_iff n ms).1 m ],
)

Owned-iff :
    (auth : AuthType) (auth_name : Bytes) (statics : List Bytes) (name : Bytes)
    → (mem_name (to_lower name) (new_connection_ownership auth auth_name statics).headers ≡ true)
      ↔ Owned auth auth_name statics name
unfolding new_connection_ownership
Owned-iff auth_header [] statics name = (
  λ h. inr ((mem_name_iff (to_lower name) (lower_all statics)).0 h),
  λ k. elim k [
    | inl z ↦ absurd (z.0 refl)
    | inr m ↦ (mem_name_iff (to_lower name) (lower_all statics)).1 m
  ],
)
Owned-iff auth_header (c ∷ cs) statics name =
    let whole = mem_name_iff (to_lower name) (to_lower (c ∷ cs) ∷ lower_all statics) in
    (
      λ h. elim (whole.0 h) [ inl e ↦ inl (λ z. cc, e) | inr m ↦ inr m ],
      λ k. whole.1 (elim k [ inl z ↦ inl z.1 | inr m ↦ inr m ]),
    )
Owned-iff auth_query [] statics name = only_static (to_lower name) (lower_all statics)
Owned-iff auth_query (c ∷ cs) statics name = only_static (to_lower name) (lower_all statics)
Owned-iff auth_none auth_name statics name = only_static (to_lower name) (lower_all statics)
Owned-iff auth_bearer auth_name statics name = only_static (to_lower name) (lower_all statics)
Owned-iff auth_basic auth_name statics name = only_static (to_lower name) (lower_all statics)

Tables : Bytes → Type 0
Tables n =
    (mem_name n always_stripped_headers ≡ false) × (mem_name n plugin_header_allowlist ≡ true)

-- Each negotiable name is allowed by the one table and not stripped by the other.
negotiable-Tables : (n : Bytes) → Member n negotiable → Tables n
unfolding Tables mem_name always_stripped_headers plugin_header_allowlist
negotiable-Tables n (inl e) = rw (← e) (refl, refl)
negotiable-Tables n (inr (inl e)) = rw (← e) (refl, refl)
negotiable-Tables n (inr (inr (inl e))) = rw (← e) (refl, refl)
negotiable-Tables n (inr (inr (inr (inl e)))) = rw (← e) (refl, refl)
negotiable-Tables n (inr (inr (inr (inr (inl e))))) = rw (← e) (refl, refl)
negotiable-Tables n (inr (inr (inr (inr (inr (inl e)))))) = rw (← e) (refl, refl)
negotiable-Tables n (inr (inr (inr (inr (inr (inr z)))))) = absurd z

allowed-negotiable : (n : Bytes) → mem_name n plugin_header_allowlist ≡ true → Member n negotiable
unfolding plugin_header_allowlist
allowed-negotiable n h = reordered ((mem_name_iff n plugin_header_allowlist).0 h)
  where
    reordered : Member n plugin_header_allowlist → Member n negotiable
    reordered (inl e) = inl e
    reordered (inr (inl e)) = inr (inl e)
    reordered (inr (inr (inl e))) = inr (inr (inl e))
    reordered (inr (inr (inr (inl e)))) = inr (inr (inr (inr (inl e))))
    reordered (inr (inr (inr (inr (inl e))))) = inr (inr (inr (inl e)))
    reordered (inr (inr (inr (inr (inr m))))) = inr (inr (inr (inr (inr m))))

abbrev Passes : AuthType → Bytes → List Bytes → Bytes → Type 0
Passes auth auth_name statics name =
    Member (to_lower name) negotiable × (Owned auth auth_name statics name → ⊥)

keeps_iff :
    (auth : AuthType) (auth_name : Bytes) (statics : List Bytes) (name : Bytes)
    → (keeps_header (new_connection_ownership auth auth_name statics) name ≡ true)
      ↔ Passes auth auth_name statics name
unfolding keeps_header Tables
keeps_iff auth auth_name statics name = (kept→, →kept)
  where
    o : Ownership
    o = new_connection_ownership auth auth_name statics

    kept→ : keeps_header o name ≡ true → Passes auth auth_name statics name
    kept→ h =
        let (a, k) =
          refuse-inv (mem_name (to_lower name) always_stripped_headers)
            (if mem_name (to_lower name) o.headers
              then false
              else mem_name (to_lower name) plugin_header_allowlist)
            h in
        let (b, l) =
          refuse-inv (mem_name (to_lower name) o.headers)
            (mem_name (to_lower name) plugin_header_allowlist) k in
        (
          allowed-negotiable (to_lower name) l,
          λ q. cc (b, (Owned-iff auth auth_name statics name).1 q),
        )

    →kept : Passes auth auth_name statics name → keeps_header o name ≡ true
    →kept (m, free) =
        let (a, l) = negotiable-Tables (to_lower name) m in
        elim (Bool-cases (mem_name (to_lower name) o.headers)) [
          | inl b ↦ absurd (free ((Owned-iff auth auth_name statics name).0 b))
          | inr b ↦ rw (a, b) l
        ]

module _ (owned : Ownership) (h : Bytes × Bytes) where
  passes_head :
      (x : Bytes × Bytes) (hs r : Headers)
      → keeps_header owned x.0 ≡ true
      → (Memᴰ h r → Memᴰ h hs × (keeps_header owned h.0 ≡ true))
      → Memᴰ h (x ∷ r)
      → Memᴰ h (x ∷ hs) × (keeps_header owned h.0 ≡ true)
  passes_head x hs r kept rest (Memᴰ.head e) =
      (Memᴰ.head e, ap (λ y. keeps_header owned y.0) e ∙ kept)
  passes_head x hs r kept rest (Memᴰ.tail m) = let (k, q) = rest m in (Memᴰ.tail k, q)

  filter_sound :
      (hs : Headers)
      → Memᴰ h (filter_headers owned hs)
      → Memᴰ h hs × (keeps_header owned h.0 ≡ true)
  unfolding filter_headers
  filter_sound [] m = elim m [ ]
  filter_sound ((n, v) ∷ hs) m = elim (Bool-cases (keeps_header owned n)) [
    | inl kept ↦
        passes_head (n, v) hs (filter_headers owned hs) kept (filter_sound hs) (rw kept at m)
    | inr dropped ↦ let (k, q) = filter_sound hs (rw dropped at m) in (Memᴰ.tail k, q)
  ]

  filter_complete :
      (hs : Headers) → Memᴰ h hs → keeps_header owned h.0 ≡ true → Memᴰ h (filter_headers owned hs)
  unfolding filter_headers
  filter_complete [] m p = elim m [ ]
  filter_complete ((n, v) ∷ hs) (Memᴰ.head e) p =
      rw (sym (ap (λ y. keeps_header owned y.0) e) ∙ p) (Memᴰ.head e)
  filter_complete ((n, v) ∷ hs) (Memᴰ.tail m) p = elim (Bool-cases (keeps_header owned n)) [
    | inl kept ↦ rw kept (Memᴰ.tail (filter_complete hs m p))
    | inr dropped ↦ rw dropped (filter_complete hs m p)
  ]

-- Of the headers of a plugin exactly those reach the upstream that are named, in whatever case,
-- Accept, Accept-Language, Content-Type, If-Modified-Since, If-None-Match or Range, and that the
-- connection sets neither as its credential nor as one of its static headers.
pub filter_headers_iff :
    (auth : AuthType) (auth_name : Bytes) (statics : List Bytes) (hs : Headers) (h : Bytes × Bytes)
    → Memᴰ h (filter_headers (new_connection_ownership auth auth_name statics) hs)
      ↔ Memᴰ h hs × Member (to_lower h.0) negotiable × (Owned auth auth_name statics h.0 → ⊥)
filter_headers_iff auth auth_name statics hs h =
    let owned = new_connection_ownership auth auth_name statics in
    let keeps = keeps_iff auth auth_name statics h.0 in
    (
      λ m. let (k, q) = filter_sound owned h hs m in let (a, b) = keeps.0 q in (k, a, b),
      λ p. filter_complete owned h hs p.0 (keeps.1 (p.1, p.2)),
    )
