-- ===== src/Examples/Digests.antt =====
-- Runs of internal/canonical: one manifest written in two ways, one with a date, and a YAML graph with a cycle.
use veduta.Prelude.{
  ◌≡◌, refl, ◌↔◌, inl, inr, true, none, [], ◌∷◌, arith, Bytes, codes, ok, err, sort, dedupe, Member,
  String,
}
use veduta.Digest.Value.{Value, number, other, arr, obj, end, field, panicked, texts, key}
use veduta.Digest.Normal.{normalise, as_set, is_set_like, read_int}
use veduta.Digest.Keys.{IsText}
use veduta.Digest.Text.{serialise, sort_rows, render_row, format_int, render_items, escape, digest}
use veduta.Digest.Same.{
  Same, same_map, same_field, same_end, same_swap, same_chain, same_set, same_refl,
}
use veduta.Digest.Forgets.{digest-Same}
use veduta.Digest.Faithful.{text_of, digest_iff}
use veduta.Digest.Written.{IsValid}
use veduta.Digest.Runes.{runes, encode}
use veduta.Digest.Panics.{has_other, digest-panics_iff}
use veduta.Digest.Yaml.{Graph, alias, yaml_to_any}
use veduta.Digest.Ends.{Ends, yaml_to_any-Ends}

-- A manifest in one order, and the same with another order and a repeat.
abbrev one_way : Value
one_way = obj (
    field (codes "version") (number (codes "-12")) (
      field (codes "spec")
        (obj (field (codes "capabilities") (arr (texts (codes "log" ∷ codes "http" ∷ []))) end))
        end))

abbrev other_way : Value
other_way = obj (
    field (codes "spec")
      (obj (
        field (codes "capabilities") (arr (texts (codes "http" ∷ codes "log" ∷ codes "http" ∷ [])))
          end))
      (field (codes "version") (number (codes "-12")) end))

abbrev one_text : Bytes
one_text = codes "{\"spec\":{\"capabilities\":[\"http\",\"log\"]},\"version\":-12}"

-- A hash that keeps nothing.
abbrev constant_hash : Bytes → String
constant_hash t = "0"

one_way-digest : digest constant_hash one_way ≡ ok "0"
unfolding digest normalise as_set is_set_like read_int serialise dedupe sort runes
one_way-digest = refl

members :
    (s : Bytes)
    → Member s (codes "log" ∷ codes "http" ∷ [])
      ↔ Member s (codes "http" ∷ codes "log" ∷ codes "http" ∷ [])
members s = (to, from)
  where
    to :
        Member s (codes "log" ∷ codes "http" ∷ [])
        → Member s (codes "http" ∷ codes "log" ∷ codes "http" ∷ [])
    to (inl e) = inr (inl e)
    to (inr (inl e)) = inl e
    to (inr (inr m)) = absurd m

    from :
        Member s (codes "http" ∷ codes "log" ∷ codes "http" ∷ [])
        → Member s (codes "log" ∷ codes "http" ∷ [])
    from (inl e) = inr (inl e)
    from (inr (inl e)) = inl e
    from (inr (inr (inl e))) = inr (inl e)
    from (inr (inr (inr m))) = absurd m

set_path : is_set_like (key (codes "spec") ∷ key (codes "capabilities") ∷ []) ≡ true
unfolding is_set_like
set_path = refl

version-IsText : IsText (codes "version")
unfolding runes encode
version-IsText = (ground arith, refl)

spec-IsText : IsText (codes "spec")
unfolding runes encode
spec-IsText = (ground arith, refl)

capabilities-IsText : IsText (codes "capabilities")
unfolding runes encode
capabilities-IsText = (ground arith, refl)

log-IsText : IsText (codes "log")
unfolding runes encode
log-IsText = (ground arith, refl)

http-IsText : IsText (codes "http")
unfolding runes encode
http-IsText = (ground arith, refl)

reordered : Same [] one_way other_way
reordered = same_map [] _ _ (
    same_chain [] _ _ _
      (same_swap [] (codes "version") (codes "spec") _ _ end version-IsText spec-IsText (λ e. cc))
      (same_field [] (codes "spec") _ _ _ _
        (same_map _ _ _ (
          same_field _ (codes "capabilities") _ _ end end
            (same_set _ (codes "log" ∷ codes "http" ∷ [])
              (codes "http" ∷ codes "log" ∷ codes "http" ∷ []) set_path members)
            (same_end _)))
        (same_field [] (codes "version") _ _ end end (same_refl _ _) (same_end _))))

digest-Same_example : digest constant_hash other_way ≡ ok "0"
digest-Same_example = digest-Same constant_hash one_way other_way "0" reordered one_way-digest

one_way-IsValid : IsValid one_way
unfolding IsValid
one_way-IsValid = (
  version-IsText,
  (λ e. cc, tt),
  tt,
  (spec-IsText, tt, (capabilities-IsText, tt, (log-IsText, (http-IsText, tt)), tt), tt),
)

other_way-IsValid : IsValid other_way
unfolding IsValid
other_way-IsValid = (
  spec-IsText,
  (λ e. cc, tt),
  (capabilities-IsText, tt, (http-IsText, (log-IsText, (http-IsText, tt))), tt),
  (version-IsText, tt, tt, tt),
)

one_way-text_of : text_of one_way ≡ ok (ok one_text)
unfolding normalise as_set is_set_like read_int serialise sort_rows render_row format_int
    render_items escape sort dedupe runes
one_way-text_of = refl

other_way-text_of : text_of other_way ≡ ok (ok one_text)
unfolding normalise as_set is_set_like read_int serialise sort_rows render_row format_int
    render_items escape sort dedupe runes
other_way-text_of = refl

digest_iff_example :
    (digest constant_hash one_way ≡ digest constant_hash other_way) ↔ Same [] one_way other_way
digest_iff_example =
    digest_iff constant_hash one_way other_way one_text one_text one_way-IsValid other_way-IsValid
      one_way-text_of other_way-text_of (λ e. refl)

-- A manifest with a date that is not quoted: the decoder makes a time of it.
abbrev dated : Value
dated = obj (field (codes "released") other end)

dated-normalise : normalise [] dated ≡ ok dated
unfolding normalise
dated-normalise = refl

digest-panics_iff_example : (digest constant_hash dated ≡ err panicked) ↔ (has_other dated ≡ true)
digest-panics_iff_example = digest-panics_iff constant_hash dated dated dated-normalise

-- A node that is an alias of itself.
abbrev knot : Graph
knot n = record { kind = alias; value = []; content = []; target = 0; decoded = none }

yaml_to_any-Ends_example : Ends 0 (yaml_to_any knot 0)
yaml_to_any-Ends_example = yaml_to_any-Ends knot 0
