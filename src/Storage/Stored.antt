-- ===== src/Storage/Stored.antt =====
-- storage/assetcache/cache.go: what is put is got back.
use veduta.Prelude.{
  ℕ, zero, suc, ◌+◌, ◌≤◌, ◌≡◌, refl, sym, ap, ◌∙◌, inl, inr, Bool, true, false, Option, some, List,
  [], ◌∷◌, ◌++◌, arith, Bytes, length, length-append, drop, take, bytes_eq_refl, Result, ok, err,
  ◌>>=◌, leb, ltb, ◌==◌, Bool-cases, Option-cases, String, str_eq, eq_iff, lookup, insert, erase,
  lookup-insert, lookup-erase,
}
use mathlib.Core.Path.{subst}
use veduta.Storage.AssetCache.{
  Row, Cache, Asset, CacheError, remove, total, selected, evict, get, put, hash_size, new_row,
  with_asset,
}
use veduta.Storage.Rows.{Distinct, In, In-lookup, erase-Distinct, insert-Distinct, length-erase}
use veduta.Storage.Evict.{Entry, Orders, selected_first, selected-none, entry_eq}

-- Every other row was used before the one under `k`.
abbrev pub Newest : (Entry → Entry → Bool) → Entry → List Entry → Type 0
Newest before x rows = (y : Entry) → In y rows → str_eq y.0 x.0 ≡ false → before y x ≡ true

In-erase : (y : Entry) (k : String) (rows : List Entry) → In y (erase k rows) → In y rows
unfolding erase
In-erase y k [] m = absurd m
In-erase y k ((j, q) ∷ rows) m = elim (Bool-cases (str_eq j k)) [
  | inl e ↦ inr (In-erase y k rows (rw e at m))
  | inr e ↦ elim (rw e at m) as (λ _. In y ((j, q) ∷ rows)) [
    | inl here ↦ inl here
    | inr t ↦ inr (In-erase y k rows t)
  ]
]

-- When all rows have one hash, they weigh what its row does.
total_one :
    (x : Entry) (rows : List Entry)
    → Distinct rows
    → lookup x.0 rows ≡ some x.1
    → ((y : Entry) → In y rows → str_eq y.0 x.0 ≡ true)
    → total rows ≤ x.1.bytes
unfolding lookup
total_one x [] d f h = cc
total_one x (y ∷ []) d f h = let e : y.1 ≡ x.1 = cc (rw (h y (inl refl)) at f) in rw e (omega arith)
total_one x (y ∷ z ∷ rows) d f h =
    let a : y.0 ≡ x.0 = (eq_iff y.0 x.0).0 (h y (inl refl)) in
    let b : z.0 ≡ x.0 = (eq_iff z.0 x.0).0 (h z (inr (inl refl))) in
    let c : str_eq z.0 y.0 ≡ true = (eq_iff z.0 y.0).1 (b ∙ sym a) in cc (rw c at d.0)

-- The row that was used last outlives every eviction, if it fits the budget on its own.
abbrev Keeps : Entry → List (String × Bytes) → Result CacheError Cache → Type 0
Keeps x files (err e) = ⊥
Keeps x files (ok d) = (lookup x.0 d.rows ≡ some x.1) × (lookup x.0 d.files ≡ lookup x.0 files)

Keeps-step :
    (x : Entry) (k : String) (files : List (String × Bytes)) (out : Result CacheError Cache)
    → str_eq k x.0 ≡ false
    → Keeps x (erase k files) out
    → Keeps x files out
Keeps-step x k files (err e) h p = p
Keeps-step x k files (ok d) h p = (p.0, p.1 ∙ rw (lookup-erase k x.0 files, h) refl)

-- Where the row that is selected is the newest, there is no other.
only_row :
    (before : Entry → Entry → Bool) (x o : Entry) (rows : List Entry)
    → Newest before x rows
    → ((y : Entry) → In y rows → before y o ≡ false)
    → o ≡ x
    → (y : Entry) → In y rows
    → str_eq y.0 x.0 ≡ true
only_row before x o rows newest first e y m = elim (Bool-cases (str_eq y.0 x.0)) [
  | inl t ↦ t
  | inr f ↦ cc (newest y m f, subst (λ s. before y s ≡ false) e (first y m))
]

evict-Keeps :
    (before : Entry → Entry → Bool)
    → Orders before
    → (x : Entry) (c : Cache) (n : ℕ) → Distinct c.rows
    → suc (length c.rows) ≤ n
    → lookup x.0 c.rows ≡ some x.1
    → Newest before x c.rows
    → x.1.bytes ≤ c.budget
    → Keeps x c.files (evict before n c)
unfolding evict remove
evict-Keeps before o x c zero d h p newest fits = absurd (omega (arith, h))
evict-Keeps before o x c (suc n) d h p newest fits =
    go (λ r. evict-Keeps before o x (remove r.0 c) n (erase-Distinct r.0 c.rows d))
      (leb (total c.rows) c.budget) refl
  where
    go :
        ((r : Entry)
          → suc (length (erase r.0 c.rows)) ≤ n
          → lookup x.0 (erase r.0 c.rows) ≡ some x.1
          → Newest before x (erase r.0 c.rows)
          → x.1.bytes ≤ c.budget
          → Keeps x (erase r.0 c.files) (evict before n (remove r.0 c)))
        → (q : Bool) → leb (total c.rows) c.budget ≡ q
        → Keeps x c.files (evict before (suc n) c)
    go f true e = rw e (p, refl)
    go f false e = rw e (elim (Option-cases (selected before c.rows)) [
      | inl none_left ↦ absurd (ground (arith, selected-none before c.rows none_left))
      | inr (r, found) ↦
          let (m, first) = selected_first before o c.rows r found in
          elim (Bool-cases (str_eq r.0 x.0)) [
            | inl t ↦
                let name : r.0 ≡ x.0 = (eq_iff r.0 x.0).0 t in
                let there = In-lookup r c.rows d m in
                let row : r.1 ≡ x.1 = cc (rw name at there, p) in
                let few : total c.rows ≤ x.1.bytes =
                  total_one x c.rows d p
                    (only_row before x r c.rows newest first (entry_eq r x.0 x.1 name row)) in
                absurd (ground (arith, few, fits))
            | inr t ↦ rw found (
                Keeps-step x r.0 c.files (evict before n (remove r.0 c)) t (
                  f r (omega (arith, length-erase r c.rows m, h))
                    (rw (lookup-erase r.0 x.0 c.rows, t) p)
                    (λ y k. newest y (In-erase y r.0 c.rows k)) fits))
          ]
    ])

take-append : (n : ℕ) (xs ys : Bytes) → length xs ≡ n → take n (xs ++ ys) ≡ xs
take-append zero [] ys h = refl
take-append zero (x ∷ xs) ys h = cc
take-append (suc n) [] ys h = cc
take-append (suc n) (x ∷ xs) ys h = ap (λ t. x ∷ t) (take-append n xs ys (omega (arith, h)))

drop-append : (n : ℕ) (xs ys : Bytes) → length xs ≡ n → drop n (xs ++ ys) ≡ ys
drop-append zero [] ys h = refl
drop-append zero (x ∷ xs) ys h = cc
drop-append (suc n) [] ys h = cc
drop-append (suc n) (x ∷ xs) ys h = drop-append n xs ys (omega (arith, h))

-- A row and its file are found.
get-found :
    (sha : Bytes → Bytes)
    → ((b : Bytes) → length (sha b) ≡ hash_size)
    → (later : ℕ) (key : String) (row : Row) (body : Bytes) (d : Cache) → row.bytes ≡ length body
    → lookup key d.rows ≡ some row
    → lookup key d.files ≡ some (sha body ++ body)
    → (get sha later true key d).0
      ≡ ok (some (record { body = body; content_type = row.content_type }))
unfolding get
get-found sha h later key row body d size p q =
    let weight : (length (sha body ++ body) == row.bytes + hash_size) ≡ true =
      ground (arith, length-append (sha body) body, h body, size) in
    rw
      (
        get,
        p,
        q,
        weight,
        take-append 32 (sha body) body (h body),
        drop-append 32 (sha body) body (h body),
        bytes_eq_refl (sha body),
      )
      refl

-- The row that is put is newer than every other.
insert-Newest :
    (before : Entry → Entry → Bool) (x : Entry) (rows : List Entry)
    → Newest before x rows
    → Newest before x (insert x.0 x.1 rows)
unfolding insert
insert-Newest before x [] n y (inl e) f =
    cc (ap (λ s. str_eq s.0 x.0) e, f, (eq_iff x.0 x.0).1 refl)
insert-Newest before x [] n y (inr m) f = absurd m
insert-Newest before x ((j, q) ∷ rows) n y m f = elim (Bool-cases (str_eq j x.0)) [
  | inl e ↦ elim (rw e at m) as (λ _. before y x ≡ true) [
    | inl here ↦ cc (ap (λ s. str_eq s.0 x.0) here, (eq_iff x.0 x.0).1 refl, f)
    | inr t ↦ n y (inr t) f
  ]
  | inr e ↦ elim (rw e at m) as (λ _. before y x ≡ true) [
    | inl here ↦ n y (inl here) f
    | inr t ↦ insert-Newest before x rows (λ z k. n z (inr k)) y t f
  ]
]

-- What a get finds, after a put that may fail.
abbrev pub got : (Bytes → Bytes) → ℕ → String → Cache → Result CacheError (Option Asset)
got sha later key d = (get sha later true key d).0

-- An asset within the budget whose file is written, and which is newer than every other row, is put
-- without an error, and a get of its key, whatever that evicted, finds its body and its content type.
pub get-put :
    (before : Entry → Entry → Bool)
    → Orders before
    → (sha : Bytes → Bytes) → ((b : Bytes) → length (sha b) ≡ hash_size)
    → (now later : ℕ) (key connection : String) (a : Asset) (c : Cache) → Distinct c.rows
    → length a.body ≤ c.budget
    → Newest before (key, new_row now key connection a c) c.rows
    → (put before sha now true key connection a c >>= got sha later key) ≡ ok (some a)
unfolding put
get-put before o sha h now later key connection a c distinct fits newest =
    let d = with_asset sha now key connection a c in
    let x : Entry = (key, new_row now key connection a c) in
    let small : ltb c.budget (length a.body) ≡ false = ground arith in
    let self : str_eq key key ≡ true = (eq_iff key key).1 refl in
    rw small (
      found (evict before (suc (length d.rows)) d) (
        evict-Keeps before o x d (suc (length d.rows)) (insert-Distinct key x.1 c.rows distinct)
          (omega arith) (rw (lookup-insert key key x.1 c.rows, self) refl)
          (insert-Newest before x c.rows newest) fits))
  where
    found :
        (out : Result CacheError Cache)
        → Keeps
            (key, new_row now key connection a c)
            (insert key (sha a.body ++ a.body) c.files)
            out
        → (out >>= got sha later key) ≡ ok (some a)
    found (err e) k = absurd k
    found (ok d) k =
        let self : str_eq key key ≡ true = (eq_iff key key).1 refl in
        let file : lookup key d.files ≡ some (sha a.body ++ a.body) =
          k.1 ∙ rw (lookup-insert key key (sha a.body ++ a.body) c.files, self) refl in
        get-found sha h later key (new_row now key connection a c) a.body d refl k.0 file
