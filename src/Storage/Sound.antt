-- ===== src/Storage/Sound.antt =====
-- storage/assetcache/cache.go: the cache stays within its budget.
use veduta.Prelude.{
  ℕ, suc, ◌+◌, ◌≤◌, ◌≡◌, refl, ap, ◌⊎◌, inl, inr, Bool, true, false, not, Option, none, some, List,
  [], ◌∷◌, arith, Bytes, length, drop, take, bytes_eq, bytes_eq→≡, Result, ok, err, ltb, ◌==◌,
  if◌then◌else◌, Bool-cases, String, str_eq, lookup, insert, erase,
}
use veduta.Storage.AssetCache.{
  Row, Cache, Asset, CacheError, nil_fetch, read_failed, Fetch, no_function, fails, gives, is_nil,
  Disk, invalid_key, fetch_failed, write_failed, no_rows, out_of_fuel, remove, total, evict, get,
  put, get_or_fetch, put_result, after_get, hash_size, new_row, with_asset, touch,
}
use veduta.Storage.Rows.{Distinct, erase-Distinct, insert-Distinct}
use veduta.Storage.Evict.{Entry, Orders, Evicted, evict-Evicted}

-- A cache with one row for each hash, within its budget.
abbrev pub Sound : Cache → Type 0
Sound c = Distinct c.rows × (total c.rows ≤ c.budget)

total-erase : (k : String) (rows : List Entry) → total (erase k rows) ≤ total rows
unfolding erase
total-erase k [] = omega arith
total-erase k ((j, q) ∷ rows) = ground (arith, total-erase k rows)

-- A row that is written again with its size leaves the total as it was.
total-insert :
    (k : String) (r q : Row) (rows : List Entry)
    → lookup k rows ≡ some r
    → q.bytes ≡ r.bytes
    → total (insert k q rows) ≡ total rows
unfolding lookup insert
total-insert k r q [] h e = cc
total-insert k r q ((j, s) ∷ rows) h e = elim (Bool-cases (str_eq j k)) [
  | inl t ↦ let same : s ≡ r = cc (rw t at h) in rw t (omega (arith, e, ap (λ x. x.bytes) same))
  | inr t ↦ rw t (omega (arith, total-insert k r q rows (rw t at h) e))
]

remove-Sound : (k : String) (c : Cache) → Sound c → Sound (remove k c)
unfolding remove
remove-Sound k c h = (erase-Distinct k c.rows h.0, omega (arith, total-erase k c.rows, h.1))

touch-Sound :
    (now : ℕ) (k : String) (row : Row) (c : Cache)
    → lookup k c.rows ≡ some row
    → Sound c
    → Sound (record c { rows = insert k (touch now row) c.rows })
touch-Sound now k row c p h = (
  insert-Distinct k (touch now row) c.rows h.0,
  omega (arith, total-insert k row (touch now row) c.rows p refl, h.1),
)

-- An asset whose file holds its bytes behind their hash.
abbrev pub Kept : (Bytes → Bytes) → String → Cache → Asset → Type 0
Kept sha key c a =
    (bytes : Bytes) × (lookup key c.files ≡ some bytes)
    × (a.body ≡ drop hash_size bytes)
    × (take hash_size bytes ≡ sha a.body)

-- What a get finds is kept, and where it fails, the disk did.
abbrev pub Got : (Asset → Type 0) → Bool → Result CacheError (Option Asset) → Type 0
Got hit readable (ok none) = Unit
Got hit readable (ok (some a)) = hit a
Got hit readable (err e) = (e ≡ read_failed) × (readable ≡ false)

get-Sound :
    (sha : Bytes → Bytes) (now : ℕ) (readable : Bool) (key : String) (c : Cache)
    → Sound c
    → Got (Kept sha key c) readable (get sha now readable key c).0
      × Sound (get sha now readable key c).1
unfolding get
get-Sound sha now readable key c h = by_row (lookup key c.rows) refl
  where
    Done : Bool → Type 0
    Done r = Got (Kept sha key c) r (get sha now r key c).0 × Sound (get sha now r key c).1

    by_row : (o : Option Row) → lookup key c.rows ≡ o → Done readable
    by_row none p = rw (Got, Sound, get, p) (tt, h)
    by_row (some row) p = by_disk readable
      where
        by_file : (f : Option Bytes) → lookup key c.files ≡ f → Done true
        by_file none q = rw (Got, Sound, get, p, q) (tt, remove-Sound key c h)
        by_file (some bytes) q = elim (Bool-cases (length bytes == row.bytes + hash_size)) [
          | inr e ↦ rw (Got, Sound, get, p, q, e) (tt, remove-Sound key c h)
          | inl e ↦
              elim (Bool-cases (bytes_eq (take hash_size bytes) (sha (drop hash_size bytes)))) [
                | inr f ↦ rw (Got, Sound, get, p, q, e, f) (tt, remove-Sound key c h)
                | inl f ↦
                    rw (Got, Sound, get, p, q, e, f)
                      (
                        (
                          bytes,
                          q,
                          refl,
                          bytes_eq→≡ (take hash_size bytes) (sha (drop hash_size bytes)) f,
                        ),
                        touch-Sound now key row c p h,
                      )
              ]
        ]

        by_disk : (r : Bool) → Done r
        by_disk false = rw (Got, Sound, get, p) ((refl, refl), h)
        by_disk true = by_file (lookup key c.files) refl

-- What a put returns: a sound cache, or that the file was not written, as none can be.
abbrev pub Put : Bool → Result CacheError Cache → Type 0
Put written (err e) = (e ≡ write_failed) × (written ≡ false)
Put written (ok d) = Sound d

put-Sound :
    (before : Entry → Entry → Bool)
    → Orders before
    → (sha : Bytes → Bytes) (now : ℕ) (written : Bool) (key connection : String) (a : Asset)
      (c : Cache)
    → Sound c
    → Put written (put before sha now written key connection a c)
unfolding put
put-Sound before o sha now written key connection a c h =
    elim (Bool-cases (ltb c.budget (length a.body))) [
      | inl e ↦ rw e h
      | inr e ↦ rw e (by_write written)
    ]
  where
    d : Cache
    d = with_asset sha now key connection a c

    evicted : (out : Result CacheError Cache) → Evicted before d out → Put true out
    evicted (err e) k = absurd k
    evicted (ok f) k = (k.3, omega (arith, k.0, k.4))

    by_write :
        (w : Bool)
        → Put w (if not w then err write_failed else evict before (suc (length d.rows)) d)
    by_write false = (refl, refl)
    by_write true = evicted (evict before (suc (length d.rows)) d) (
        evict-Evicted before o d (suc (length d.rows))
          (insert-Distinct key (new_row now key connection a c) c.rows h.0) (omega arith))

-- An answer is a hit or what the fetch gave; each error has its cause in the call, the upstream or the
-- disk.
abbrev pub Answered : (Asset → Type 0) → Disk → Bool → Fetch → Result CacheError Asset → Type 0
Answered hit disk valid fetch (ok a) = hit a ⊎ (fetch ≡ gives a)
Answered hit disk valid fetch (err nil_fetch) = fetch ≡ no_function
Answered hit disk valid fetch (err invalid_key) = valid ≡ false
Answered hit disk valid fetch (err read_failed) = disk.readable ≡ false
Answered hit disk valid fetch (err fetch_failed) = fetch ≡ fails
Answered hit disk valid fetch (err write_failed) = disk.writable ≡ false
Answered hit disk valid fetch (err no_rows) = ⊥
Answered hit disk valid fetch (err out_of_fuel) = ⊥

module _ (hit : Asset → Type 0) (disk : Disk) (valid : Bool) where
  put_result-Sound :
      (a : Asset) (left : Cache) (out : Result CacheError Cache)
      → Sound left
      → Put disk.writable out
      → Answered hit disk valid (gives a) (put_result a left out).0
        × Sound (put_result a left out).1
  put_result-Sound a left (err e) h p = (rw p.0 p.1, h)
  put_result-Sound a left (ok d) h p = (inr refl, p)

  after_get-Sound :
      (store : Cache → Asset → Result CacheError Cache)
      → ((a : Asset) (c : Cache) → Sound c → Put disk.writable (store c a))
      → (fetch : Fetch) (g : Result CacheError (Option Asset) × Cache)
      → Got hit disk.readable g.0 × Sound g.1
      → Answered hit disk valid fetch (after_get store fetch g).0
        × Sound (after_get store fetch g).1
  after_get-Sound store f fetch (err e, left) (q, h) = (rw q.0 q.1, h)
  after_get-Sound store f fetch (ok (some a), left) (q, h) = (inl q, h)
  after_get-Sound store f (gives a) (ok none, left) (q, h) =
      put_result-Sound a left (store left a) h (f a left h)
  after_get-Sound store f fails (ok none, left) (q, h) = (refl, h)
  after_get-Sound store f no_function (ok none, left) (q, h) = (refl, h)

nil_no_function : (fetch : Fetch) → is_nil fetch ≡ true → fetch ≡ no_function
nil_no_function no_function h = refl
nil_no_function fails h = cc
nil_no_function (gives a) h = cc

-- With a database that does not fail, whatever the fetch gives, whether or not files can be read or
-- written, and whatever weak order the store has on the rows, a get or fetch ends. It leaves a
-- cache with one row for each hash whose sizes sum up to no more than the budget, when it starts
-- from one. What it returns is either the content of the key's file, which the hash in front of it
-- confirms, or what the fetch gave. It fails only for a nil function, an invalid key, a file that
-- cannot be read, a failed fetch or a file that cannot be written.
pub get_or_fetch-Sound :
    (before : Entry → Entry → Bool)
    → Orders before
    → (sha : Bytes → Bytes) (now : ℕ) (disk : Disk) (valid : String → Bool)
      (key connection : String) (fetch : Fetch) (c : Cache)
    → Sound c
    → Answered
        (Kept sha key c)
        disk
        (valid key)
        fetch
        (get_or_fetch before sha now disk valid key connection fetch c).0
      × Sound (get_or_fetch before sha now disk valid key connection fetch c).1
unfolding get_or_fetch
get_or_fetch-Sound before o sha now disk valid key connection fetch c h =
    elim (Bool-cases (is_nil fetch)) [
      | inl e ↦ rw e (nil_no_function fetch e, h)
      | inr e ↦ elim (Bool-cases (valid key)) [
        | inr f ↦ rw (e, f) (refl, h)
        | inl f ↦
            rw (e, f)
              (after_get-Sound (Kept sha key c) disk true
                (λ left a. put before sha now disk.writable key connection a left)
                (put-Sound before o sha now disk.writable key connection) fetch
                (get sha now disk.readable key c) (get-Sound sha now disk.readable key c h))
      ]
    ]
