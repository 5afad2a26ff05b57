-- ===== src/Storage/AssetCache.antt =====
-- storage/assetcache/cache.go: the cache's rows and files, and its operations.
use veduta.Prelude.{
  ℕ, zero, suc, ◌+◌, ◌*◌, Bool, true, false, not, Option, none, some, List, [], ◌∷◌, ◌++◌, Bytes,
  length, drop, take, bytes_eq, Result, ok, err, leb, ltb, ◌==◌, if◌then◌else◌, String, lookup,
  insert, erase,
}

-- A time in nanoseconds.
abbrev Time : Type 0
Time = ℕ

-- `Result`.
pub record Asset : Type 0 where
  pub body : Bytes
  pub content_type : String

-- A row of the table asset_cache, under its hash.
pub record Row : Type 0 where
  pub connection_id : String
  pub content_type : String
  pub bytes : ℕ
  pub created_at : Time
  pub last_access_at : Time

-- `Cache`: its rows, the files of its directory and its budget.
pub record Cache : Type 0 where
  pub rows : List (String × Row)
  pub files : List (String × Bytes)
  pub budget : ℕ

pub data CacheError : Type 0 where
  invalid_key nil_fetch read_failed fetch_failed write_failed no_rows out_of_fuel : CacheError

-- `New`.
unfoldable pub new_cache : ℕ → Cache
new_cache budget = record {
  rows = [];
  files = [];
  budget = if budget == 0 then 512 * 1_048_576 else budget;
}

-- `sha256.Size`.
abbrev pub hash_size : ℕ
hash_size = 32

-- `remove`.
unfoldable pub remove : String → Cache → Cache
remove key c = record c { files = erase key c.files; rows = erase key c.rows }

abbrev pub touch : Time → Row → Row
touch now r = record r { last_access_at = now }

-- `get`, with the time and the hash: what it finds, and what is left of the cache. `readable` is false
-- where reading the file fails for another reason than that there is no file.
unfoldable pub get :
    (Bytes → Bytes) → Time → Bool → String → Cache → Result CacheError (Option Asset) × Cache
unfolding remove
get sha now readable key c = elim (lookup key c.rows) [
  | none ↦ (ok none, c)
  | some row ↦ if not readable then (err read_failed, c) else elim (lookup key c.files) [
    | none ↦ (ok none, remove key c)
    | some bytes ↦
        if not (length bytes == row.bytes + hash_size)
        then (ok none, remove key c)
        else if not (bytes_eq (take hash_size bytes) (sha (drop hash_size bytes)))
        then (ok none, remove key c)
        else (
          ok (some (record { body = drop hash_size bytes; content_type = row.content_type })),
          record c { rows = insert key (touch now row) c.rows },
        )
  ]
]

-- `SELECT coalesce(sum(bytes),0)`.
abbrev pub total : List (String × Row) → ℕ
total [] = 0
total ((k, r) ∷ rows) = r.bytes + total rows

-- The least row by `before`, the order of the rows in the store.
abbrev pub oldest :
    (String × Row → String × Row → Bool) → String × Row → List (String × Row) → String × Row
oldest before r [] = r
oldest before r (x ∷ rows) = oldest before (if before x r then x else r) rows

-- `SELECT hash FROM asset_cache ORDER BY last_access_at,hash LIMIT 1`.
abbrev pub selected :
    (String × Row → String × Row → Bool) → List (String × Row) → Option (String × Row)
selected before [] = none
selected before (r ∷ rows) = some (oldest before r rows)

-- `evict`, by rounds.
unfoldable pub evict : (String × Row → String × Row → Bool) → ℕ → Cache → Result CacheError Cache
unfolding remove
evict before zero c = err out_of_fuel
evict before (suc n) c =
    if leb (total c.rows) c.budget then ok c else elim (selected before c.rows) [
      | none ↦ err no_rows
      | some o ↦ evict before n (remove o.0 c)
    ]

-- The time of creation that `ON CONFLICT` keeps.
abbrev pub created : Time → Option Row → Time
created now none = now
created now (some r) = r.created_at

abbrev pub new_row : Time → String → String → Asset → Cache → Row
new_row now key connection a c = record {
  connection_id = connection;
  content_type = a.content_type;
  bytes = length a.body;
  created_at = created now (lookup key c.rows);
  last_access_at = now;
}

abbrev pub with_asset : (Bytes → Bytes) → Time → String → String → Asset → Cache → Cache
with_asset sha now key connection a c = record c {
  files = insert key (sha a.body ++ a.body) c.files;
  rows = insert key (new_row now key connection a c) c.rows;
}

-- `put`, with whether the file is written.
unfoldable pub put :
    (String × Row → String × Row → Bool)
    → (Bytes → Bytes)
    → Time
    → Bool
    → String
    → String
    → Asset
    → Cache
    → Result CacheError Cache
unfolding evict
put before sha now written key connection a c =
    if ltb c.budget (length a.body)
    then ok c
    else if not written
    then err write_failed
    else let d = with_asset sha now key connection a c in evict before (suc (length d.rows)) d

abbrev pub put_result : Asset → Cache → Result CacheError Cache → Result CacheError Asset × Cache
put_result a left (err e) = (err e, left)
put_result a left (ok d) = (ok a, d)

-- `FetchFunc` by what a call of it gives; `no_function` is the nil function.
pub data Fetch : Type 0 where
  no_function fails : Fetch
  gives : Asset → Fetch

abbrev pub is_nil : Fetch → Bool
is_nil no_function = true
is_nil fails = false
is_nil (gives a) = false

-- What follows the look into the cache: nothing on a hit or an error, the fetch and the put on a miss.
abbrev pub after_get :
    (Cache → Asset → Result CacheError Cache)
    → Fetch
    → Result CacheError (Option Asset) × Cache
    → Result CacheError Asset × Cache
after_get store fetch (err e, left) = (err e, left)
after_get store fetch (ok (some a), left) = (ok a, left)
after_get store (gives a) (ok none, left) = put_result a left (store left a)
after_get store fails (ok none, left) = (err fetch_failed, left)
after_get store no_function (ok none, left) = (err nil_fetch, left)

-- What the disk does: whether reading ends in the content of a file or in there being none, and
-- whether a file can be written.
pub record Disk : Type 0 where
  pub readable : Bool
  pub writable : Bool

-- `GetOrFetch` by a caller that finds no other on its way.
unfoldable pub get_or_fetch :
    (String × Row → String × Row → Bool)
    → (Bytes → Bytes)
    → Time
    → Disk
    → (String → Bool)
    → String
    → String
    → Fetch
    → Cache
    → Result CacheError Asset × Cache
unfolding get put
get_or_fetch before sha now disk valid key connection fetch c =
    if is_nil fetch
    then (err nil_fetch, c)
    else if not (valid key)
    then (err invalid_key, c)
    else after_get (λ left a. put before sha now disk.writable key connection a left) fetch
        (get sha now disk.readable key c)
