-- ===== src/Digest/Load.antt =====
-- canonical/canonical.go: one document from its bytes, and its digest.
use veduta.Prelude.{
  ℕ, Bool, not, ◌||◌, Option, none, some, Bytes, Result, ok, err, ◌>>=◌, if◌then◌else◌, String,
  str_eq,
}
use veduta.Digest.Value.{Value, DigestError}
use veduta.Digest.Text.{digest}
use veduta.Digest.Yaml.{Graph, YamlError, yaml_to_any}

-- What the decoders of `yaml` and `encoding/json` make of the bytes: the first document, and whether anything follows it.
pub record Decoders : Type 0 where
  pub yaml_document : Bytes → Option (Graph × ℕ)
  pub yaml_ends : Bytes → Bool
  pub json_document : Bytes → Option Value
  pub json_ends : Bytes → Bool

pub data LoadError : Type 0 where
  bad_document more_than_one_document trailing_content : LoadError
  bad_yaml : YamlError → LoadError
  no_digest : DigestError → LoadError

abbrev pub converted : Result YamlError Value → Result LoadError Value
converted (err e) = err (bad_yaml e)
converted (ok v) = ok v

-- `LoadBytes`.
unfoldable pub load_bytes : Decoders → Bytes → String → Result LoadError Value
load_bytes d raw ext =
    if str_eq ext ".yaml" || str_eq ext ".yml"
    then elim (d.yaml_document raw) [
      | none ↦ err bad_document
      | some (g, n) ↦
          if not (d.yaml_ends raw)
          then err more_than_one_document
          else converted (yaml_to_any g n).0
    ]
    else elim (d.json_document raw) [
      | none ↦ err bad_document
      | some v ↦ if not (d.json_ends raw) then err trailing_content else ok v
    ]

abbrev pub digested : Result DigestError String → Result LoadError String
digested (err e) = err (no_digest e)
digested (ok s) = ok s

-- `DigestBytes`.
unfoldable pub digest_bytes : Decoders → (Bytes → String) → Bytes → String → Result LoadError String
digest_bytes d sha raw ext = load_bytes d raw ext >>= λ v. digested (digest sha v)
