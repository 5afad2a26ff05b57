-- ===== src/Capabilities/Cache.antt =====
-- capabilities/cache.go: the cache of the broker and its namespaces.
use veduta.Prelude.{
  ℕ, ◌+◌, ◌≡◌, refl, sym, ◌∙◌, ◌≢◌, inl, inr, Bool, true, false, ◌&&◌, Option, none, some, List, [],
  ◌∷◌, ◌++◌, append_assoc, arith, Bytes, codes, All, bytes_eq, bytes_eq→≡, bytes_eq_refl, ltb,
  if◌then◌else◌, Bool-cases, Option-cases,
}
use veduta.Capabilities.Policy.{Grant}

-- `cacheItem`; no expiry is the zero time.
pub record CacheItem : Type 0 where
  pub value : Bytes
  pub expires_at : Option ℕ

abbrev pub Items : Type 0
Items = List (Bytes × CacheItem)

abbrev pub colon : ℕ
colon = b':'

-- `cacheNamespace`, and the full key of an entry.
unfoldable pub cache_namespace : Grant → Bytes
cache_namespace g =
    codes "plugin:"
    ++ (codes g.plugin_id ++ (colon ∷ (codes g.manifest_digest ++ (colon ∷ codes g.instance_id))))

abbrev pub full_key : Bytes → Bytes → Bytes
full_key namespace key = namespace ++ (colon ∷ key)

unfoldable pub find_item : Bytes → Items → Option CacheItem
find_item k [] = none
find_item k ((j, it) ∷ items) = if bytes_eq j k then some it else find_item k items

unfoldable pub put_item : Bytes → CacheItem → Items → Items
put_item k it [] = (k, it) ∷ []
put_item k it ((j, old) ∷ items) =
    if bytes_eq j k then (k, it) ∷ items else (j, old) ∷ put_item k it items

unfoldable pub delete_item : Bytes → Items → Items
delete_item k [] = []
delete_item k ((j, it) ∷ items) =
    if bytes_eq j k then delete_item k items else (j, it) ∷ delete_item k items

abbrev pub expired : ℕ → CacheItem → Bool
expired now it = elim (it.expires_at) [ none ↦ false | some t ↦ ltb t now ]

-- `memCache.Get`: an expired entry is deleted on the way.
unfoldable pub cache_get : ℕ → Bytes → Items → Option Bytes × Items
cache_get now full items = elim (find_item full items) [
  | none ↦ (none, items)
  | some it ↦ if expired now it then (none, delete_item full items) else (some it.value, items)
]

-- `memCache.Put`: a time to live of 0 never expires.
unfoldable pub cache_put : ℕ → Bytes → Bytes → ℕ → Items → Items
cache_put now full val ttl items =
    put_item full
      (record { value = val; expires_at = if ltb 0 ttl then some (now + ttl) else none }) items

apart_of : (i k j : Bytes) → i ≡ j → bytes_eq i k ≡ false → bytes_eq k j ≡ false
apart_of i k j e h = elim (Bool-cases (bytes_eq k j)) [
  | inl same ↦
      let equal : bytes_eq i k ≡ true = rw (e, bytes_eq→≡ k j same) (bytes_eq_refl j) in
      cc (h, equal)
  | inr no_match ↦ no_match
]

find_item-put :
    (k j : Bytes) (it : CacheItem) (items : Items)
    → find_item j (put_item k it items) ≡ (if bytes_eq k j then some it else find_item j items)
unfolding find_item put_item
find_item-put k j it [] = refl
find_item-put k j it ((i, old) ∷ items) = elim (Bool-cases (bytes_eq i k)) [
  | inl same ↦ elim (Bool-cases (bytes_eq k j)) [
    | inl here ↦ rw (same, here)
    | inr there ↦
        let other : bytes_eq i j ≡ false = rw (bytes_eq→≡ i k same) there in rw (same, there, other)
  ]
  | inr other ↦ elim (Bool-cases (bytes_eq i j)) [
    | inl found ↦
        let apart : bytes_eq k j ≡ false = apart_of i k j (bytes_eq→≡ i j found) other in
        rw (other, found, apart)
    | inr later ↦ rw (other, later) (find_item-put k j it items)
  ]
]

abbrev read : ℕ → Option CacheItem → Option Bytes
read now none = none
read now (some it) = if expired now it then none else some it.value

cache_get-read :
    (now : ℕ) (j : Bytes) (items : Items) → (cache_get now j items).0 ≡ read now (find_item j items)
unfolding cache_get
cache_get-read now j items = elim (Option-cases (find_item j items)) [
  | inl e ↦ rw (e, cache_get)
  | inr (it, e) ↦ elim (Bool-cases (expired now it)) [
    | inl old ↦ rw (e, old, cache_get)
    | inr good ↦ rw (e, good, cache_get)
  ]
]

read_fresh :
    (t now ttl : ℕ) (val : Bytes)
    → read now
        (some (record { value = val; expires_at = if ltb 0 ttl then some (t + ttl) else none }))
      ≡ (if ltb 0 ttl && ltb (t + ttl) now then none else some val)
read_fresh t now ttl val = ground arith

-- After a write a read of the same key gives the value, until it expires, and a read of another
-- key gives what it gave before.
pub cache_get-put :
    (t now ttl : ℕ) (k j val : Bytes) (items : Items)
    → (cache_get now j (cache_put t k val ttl items)).0 ≡ (
        if bytes_eq k j
        then (if ltb 0 ttl && ltb (t + ttl) now then none else some val)
        else (cache_get now j items).0)
unfolding cache_put
cache_get-put t now ttl k j val items =
    cache_get-read now j (cache_put t k val ttl items) ∙ elim (Bool-cases (bytes_eq k j)) [
      | inl here ↦ rw (find_item-put, here) (read_fresh t now ttl val)
      | inr there ↦ rw (find_item-put, there) (sym (cache_get-read now j items))
    ]

abbrev pub ColonFree : Bytes → Type 0
ColonFree s = All (λ c. c ≢ colon) s

-- Two texts with a colon in them are cut at the first.
cut_colon :
    (a b x y : Bytes)
    → All (λ c. c ≢ colon) a
    → All (λ c. c ≢ colon) b
    → a ++ (colon ∷ x) ≡ b ++ (colon ∷ y)
    → (a ≡ b) × (x ≡ y)
cut_colon [] [] x y f g e = (refl, cc)
cut_colon [] (d ∷ b) x y f g e = absurd (g.0 (cc))
cut_colon (c ∷ a) [] x y f g e = absurd (f.0 (cc))
cut_colon (c ∷ a) (d ∷ b) x y f g e = let (p, q) = cut_colon a b x y f.1 g.1 (cc) in (cc, q)

same_codes : (a b : Bytes) → codes "plugin:" ++ a ≡ codes "plugin:" ++ b → a ≡ b
same_codes a b e = cc

-- Full keys of two grants are equal only if the plugin, the manifest digest, the instance and the
-- key are, as long as no colon stands in the identifiers.
full_key-cache_namespace :
    (g h : Grant) (k j : Bytes)
    → ColonFree (codes g.plugin_id)
    → ColonFree (codes h.plugin_id)
    → ColonFree (codes g.manifest_digest)
    → ColonFree (codes h.manifest_digest)
    → ColonFree (codes g.instance_id)
    → ColonFree (codes h.instance_id)
    → full_key (cache_namespace g) k ≡ full_key (cache_namespace h) j
    → (codes g.plugin_id ≡ codes h.plugin_id)
      × (codes g.manifest_digest ≡ codes h.manifest_digest)
      × (codes g.instance_id ≡ codes h.instance_id)
      × (k ≡ j)
unfolding cache_namespace
full_key-cache_namespace g h k j a b c d e f q =
    let q' : codes g.plugin_id
          ++ (colon ∷ (codes g.manifest_digest ++ (colon ∷ (codes g.instance_id ++ (colon ∷ k)))))
        ≡ codes h.plugin_id
          ++ (colon ∷ (codes h.manifest_digest ++ (colon ∷ (codes h.instance_id ++ (colon ∷ j))))) =
      regroup (codes g.plugin_id) (codes g.manifest_digest) (codes g.instance_id) k
      ∙ same_codes _ _ q
      ∙ sym (regroup (codes h.plugin_id) (codes h.manifest_digest) (codes h.instance_id) j) in
    let (p1, r1) = cut_colon _ _ _ _ a b q' in
    let (p2, r2) = cut_colon _ _ _ _ c d r1 in
    let (p3, r3) = cut_colon _ _ _ _ e f r2 in (p1, p2, p3, r3)
  where
    regroup :
        (x y z w : Bytes)
        → x ++ (colon ∷ (y ++ (colon ∷ (z ++ (colon ∷ w)))))
          ≡ (x ++ (colon ∷ (y ++ (colon ∷ z)))) ++ (colon ∷ w)
    regroup x y z w = simp append_assoc
