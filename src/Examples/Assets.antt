-- ===== src/Examples/Assets.antt =====
-- Runs of the asset cache.
use veduta.Prelude.{
  ℕ, zero, suc, ◌+◌, ◌≡◌, refl, inl, inr, Bool, true, false, some, List, [], ◌∷◌, ◌++◌, map, arith,
  Bytes, length, Result, ok, err, ◌>>=◌, ltb, String, lookup, erase,
}
use veduta.Storage.AssetCache.{
  Row, Cache, Asset, CacheError, read_failed, gives, Disk, evict, put, get_or_fetch, hash_size,
  new_row,
}
use veduta.Storage.Rows.{Distinct}
use veduta.Storage.Evict.{Entry, Orders, Evicted, evict-Evicted}
use veduta.Storage.Stored.{Newest, got, get-put}
use veduta.Storage.Sound.{Sound, Kept, Answered, get_or_fetch-Sound}

-- The order by the last access.
abbrev by_access : Entry → Entry → Bool
by_access a b = ltb a.1.last_access_at b.1.last_access_at

by_access-Orders : Orders by_access
by_access-Orders = (λ a b h. ground arith, λ a b c h k. ground arith)

-- A hash of 32 bytes that begins with the sum of the bytes.
abbrev sum : Bytes → ℕ
sum [] = 0
sum (x ∷ xs) = x + sum xs

abbrev blank_bytes : ℕ → Bytes
blank_bytes zero = []
blank_bytes (suc n) = 0 ∷ blank_bytes n

abbrev hash : Bytes → Bytes
hash b = sum b ∷ blank_bytes 31

hash-length : (b : Bytes) → length (hash b) ≡ hash_size
hash-length b = refl

abbrev row : ℕ → ℕ → Row
row size at = record {
  connection_id = "nas";
  content_type = "image/png";
  bytes = size;
  created_at = at;
  last_access_at = at;
}

-- Three images in a budget of 10 bytes.
abbrev cache : Cache
cache = record {
  rows = ("a", row 4 30) ∷ ("b", row 3 10) ∷ ("c", row 2 20) ∷ [];
  files = ("a", hash (1 ∷ 2 ∷ 3 ∷ 4 ∷ []) ++ (1 ∷ 2 ∷ 3 ∷ 4 ∷ [])) ∷ [];
  budget = 10;
}

abbrev image : Asset
image = record { body = 7 ∷ 8 ∷ 9 ∷ 7 ∷ 8 ∷ 9 ∷ []; content_type = "image/png" }

abbrev overfull : Cache
overfull = record cache { budget = 5 }

distinct : Distinct (cache.rows)
unfolding lookup
distinct = (refl, (refl, (refl, tt)))

abbrev sizes : Result CacheError Cache → List (String × ℕ)
sizes (err e) = []
sizes (ok d) = map (λ e. (e.0, e.1.bytes)) d.rows

-- The two that were used least recently go.
evicts : sizes (evict by_access 4 overfull) ≡ ("a", 4) ∷ []
unfolding evict erase
evicts = refl

evict-Evicted_example : Evicted by_access overfull (evict by_access 4 overfull)
evict-Evicted_example = evict-Evicted by_access by_access-Orders overfull 4 distinct (omega arith)

newest : Newest by_access ("d", new_row 40 "d" "nas" image cache) cache.rows
newest y (inl e) f = rw (← e) refl
newest y (inr (inl e)) f = rw (← e) refl
newest y (inr (inr (inl e))) f = rw (← e) refl
newest y (inr (inr (inr e))) f = absurd e

get-put_example :
    (put by_access hash 40 true "d" "nas" image cache >>= got hash 50 "d") ≡ ok (some image)
get-put_example =
    get-put by_access by_access-Orders hash hash-length 40 50 "d" "nas" image cache distinct
      (omega arith) newest

abbrev disk : Disk
disk = record { readable = true; writable = true }

get_or_fetch-Sound_example :
    Answered
      (Kept hash "d" cache)
      disk
      true
      (gives image)
      (get_or_fetch by_access hash 40 disk (λ k. true) "d" "nas" (gives image) cache).0
    × Sound (get_or_fetch by_access hash 40 disk (λ k. true) "d" "nas" (gives image) cache).1
get_or_fetch-Sound_example =
    get_or_fetch-Sound by_access by_access-Orders hash 40 disk (λ k. true) "d" "nas" (gives image)
      cache (distinct, omega arith)

-- A row whose file cannot be read is an error, and stays.
unreadable :
    (get_or_fetch by_access hash 40
      (record { readable = false; writable = true })
      (λ k. true)
      "a"
      "nas"
      (gives image)
      cache).0
    ≡ err read_failed
unfolding get_or_fetch lookup
unreadable = refl
