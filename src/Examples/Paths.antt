-- ===== src/Examples/Paths.antt =====
-- Runs of connections/routepath: paths that are accepted and refused, globs and templates.
use veduta.Prelude.{
  ◌≡◌, refl, true, false, Option, none, some, Bytes, codes, bytes_eq, ok, err, ◌≢◌, ◌↔◌,
  if◌then◌else◌,
}
use veduta.Routepath.Escape.{dot_segment, encoded_separator, empty_segment, malformed_escape, panic}
use veduta.Routepath.Canonicalise.{canonicalise}
use veduta.Routepath.Canonical.{
  unescape, canonicalise-canonicalise, unescape-canonicalise, IsSafe, canonicalise-IsSafe,
}
use veduta.Routepath.Panics.{canonicalise-ne-panic}
use veduta.Routepath.Glob.{match, match_segment, has_path_prefix}
use veduta.Routepath.Matching.{Globs, match_segment_iff}
use veduta.Routepath.Template.{Template, literal, placeholder, parse_template, covered_by, expand}
use veduta.Routepath.Covered.{covered_by-match}
use mathlib.Core.List.{[], ◌∷◌}

abbrev mixed : Bytes
mixed = codes "/a%2d%5b/x"

abbrev plain : Bytes
plain = codes "/a-%5b/x"

mixed_path : canonicalise mixed ≡ ok plain
unfolding canonicalise
mixed_path = refl

hidden_dots : canonicalise (codes "/a/%2e%2E/b") ≡ err dot_segment
unfolding canonicalise
hidden_dots = refl

hidden_slash : canonicalise (codes "/a%2Fb") ≡ err encoded_separator
unfolding canonicalise
hidden_slash = refl

last_slash : canonicalise (codes "/a/") ≡ err empty_segment
unfolding canonicalise
last_slash = refl

short_escape : canonicalise (codes "/a%4") ≡ err malformed_escape
unfolding canonicalise
short_escape = refl

canonicalise-canonicalise_example : canonicalise plain ≡ ok plain
canonicalise-canonicalise_example = canonicalise-canonicalise mixed plain mixed_path

canonicalise-IsSafe_example : IsSafe plain
canonicalise-IsSafe_example = canonicalise-IsSafe mixed plain mixed_path

unescape-canonicalise_example : unescape plain ≡ unescape mixed
unescape-canonicalise_example = unescape-canonicalise mixed plain mixed_path

canonicalise-ne-panic_example : canonicalise (codes "/a%4") ≢ err panic
canonicalise-ne-panic_example = canonicalise-ne-panic (codes "/a%4")

greedy : match_segment (codes "a*bc*c") (codes "abcbcxc") ≡ true
unfolding match_segment
greedy = refl

match_segment_iff_example :
    (match_segment (codes "v*.json") (codes "v2.json") ≡ true)
    ↔ Globs (codes "v*.json") (codes "v2.json")
match_segment_iff_example = match_segment_iff (codes "v*.json") (codes "v2.json")

one_segment : match (codes "/api/*") (codes "/api/a/b") ≡ false
unfolding match
one_segment = refl

sibling : has_path_prefix (codes "/apix") (codes "/api") ≡ false
unfolding has_path_prefix
sibling = refl

abbrev by_name : Bytes → Option Bytes
by_name n = if bytes_eq n (codes "id") then some (codes "42") else none

abbrev item : Template
item = record {
  raw = codes "/items/{id}";
  segments = literal (codes "items") ∷ placeholder (codes "id") ∷ [];
}

item_parsed : parse_template (codes "/items/{id}") ≡ ok item
unfolding parse_template
item_parsed = refl

item_covered : covered_by item (codes "/item*/*") ≡ true
unfolding covered_by
item_covered = refl

item_not_covered : covered_by item (codes "/items/4*") ≡ false
unfolding covered_by
item_not_covered = refl

item_expanded : expand by_name item ≡ ok (codes "/items/42")
unfolding expand
item_expanded = refl

covered_by-match_example :
    (canonical : Bytes) × (canonicalise (codes "/item*/*") ≡ ok canonical)
    × (match canonical (codes "/items/42") ≡ true)
covered_by-match_example =
    covered_by-match (codes "/items/{id}") (codes "/item*/*") (codes "/items/42") by_name item
      item_parsed item_covered item_expanded
