-- ===== src/Capabilities/Headers.antt =====
-- capabilities/headers.go: which headers and query keys of a plugin reach the upstream.
use veduta.Prelude.{
  ℕ, ◌+◌, Bool, true, false, ◌&&◌, List, [], ◌∷◌, Bytes, codes, bytes_eq, leb, if◌then◌else◌,
}

-- `strings.ToLower` on the ASCII names of headers.
abbrev pub lower_byte : ℕ → ℕ
lower_byte c = if leb b'A' c && leb c b'Z' then c + 32 else c

unfoldable pub to_lower : Bytes → Bytes
to_lower [] = []
to_lower (c ∷ s) = lower_byte c ∷ to_lower s

unfoldable pub mem_name : Bytes → List Bytes → Bool
mem_name n [] = false
mem_name n (m ∷ ms) = if bytes_eq m n then true else mem_name n ms

-- `pluginHeaderAllowlist` and `alwaysStrippedHeaders` behind `canonicalHeaderCase`, which maps each
-- lower-case name below to the key that the two tables use and any other name to no key.
unfoldable pub plugin_header_allowlist : List Bytes
plugin_header_allowlist =
    codes "accept"
    ∷ codes "accept-language"
    ∷ codes "content-type"
    ∷ codes "if-none-match"
    ∷ codes "if-modified-since"
    ∷ codes "range"
    ∷ []

unfoldable pub always_stripped_headers : List Bytes
always_stripped_headers =
    codes "host"
    ∷ codes "content-length"
    ∷ codes "transfer-encoding"
    ∷ codes "connection"
    ∷ codes "upgrade"
    ∷ []

-- `connectionOwnership`: lower-case header names and exact query keys.
pub record Ownership : Type 0 where
  pub headers : List Bytes
  pub query_keys : List Bytes

pub data AuthType : Type 0 where
  auth_none auth_bearer auth_basic auth_header auth_query : AuthType

abbrev pub lower_all : List Bytes → List Bytes
lower_all [] = []
lower_all (n ∷ ns) = to_lower n ∷ lower_all ns

-- `newConnectionOwnership`.
unfoldable pub new_connection_ownership : AuthType → Bytes → List Bytes → Ownership
new_connection_ownership auth_header (c ∷ name) static_names = record {
  headers = to_lower (c ∷ name) ∷ lower_all static_names;
  query_keys = [];
}
new_connection_ownership auth_query (c ∷ name) static_names = record {
  headers = lower_all static_names;
  query_keys = (c ∷ name) ∷ [];
}
new_connection_ownership _ _ static_names = record {
  headers = lower_all static_names;
  query_keys = [];
}

abbrev pub Headers : Type 0
Headers = List (Bytes × Bytes)

-- The three tests of one header in `filterHeaders`.
unfoldable pub keeps_header : Ownership → Bytes → Bool
keeps_header owned name =
    if mem_name (to_lower name) always_stripped_headers
    then false
    else if mem_name (to_lower name) owned.headers
    then false
    else mem_name (to_lower name) plugin_header_allowlist

-- `filterHeaders`.
unfoldable pub filter_headers : Ownership → Headers → Headers
unfolding keeps_header
filter_headers owned [] = []
filter_headers owned ((name, value) ∷ hs) =
    let rest = filter_headers owned hs in
    if keeps_header owned name then (name, value) ∷ rest else rest

-- `filterQuery`.
unfoldable pub filter_query : Ownership → Headers → Headers
filter_query owned [] = []
filter_query owned ((k, v) ∷ q) =
    let rest = filter_query owned q in if mem_name k owned.query_keys then rest else (k, v) ∷ rest
