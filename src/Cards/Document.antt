-- ===== src/Cards/Document.antt =====
-- widgets/document.go and blocks.go: the document of a card, as the core reads it.
use veduta.Prelude.{
  ℕ, ◌*◌, Bool, Option, some, List, [], ◌∷◌, if◌then◌else◌, String, str_eq, insert,
}

-- A scalar of a signal; a number is the bit pattern of its float64.
pub data Scalar : Type 0 where
  number : ℕ → Scalar
  text : String → Scalar
  boolean : Bool → Scalar
  null : Scalar

-- `SeriesHistory`: a window name and the signals of its lines.
pub record SeriesHistory : Type 0 where
  pub window : String
  pub lines : List String

-- The blocks, as far as history is concerned: a series with or without bindings, or any other.
pub data Block : Type 0 where
  series : Option SeriesHistory → Block
  other : Block

-- The parts of `Document` that the core reads; `ttl_seconds` is 0 where there are no hints.
pub record Document : Type 0 where
  pub blocks : List Block
  pub signals : List (String × Scalar)
  pub ttl_seconds : ℕ

abbrev pub second : ℕ
second = 1_000_000_000

abbrev pub hour : ℕ
hour = 3_600_000_000_000

-- `HistoryWindows`, where a name that is not there gives 0, and the default of the loop.
unfoldable pub window_of : String → ℕ
window_of name =
    if str_eq name "1h"
    then hour
    else if str_eq name "6h"
    then 6 * hour
    else if str_eq name "24h"
    then 24 * hour
    else if str_eq name "7d"
    then 168 * hour
    else 24 * hour

unfoldable pub bind_lines : ℕ → List String → List (String × ℕ) → List (String × ℕ)
bind_lines window [] out = out
bind_lines window (signal ∷ rest) out = bind_lines window rest (insert signal window out)

-- `HistoryBindings`.
unfoldable pub history_bindings : List Block → List (String × ℕ) → List (String × ℕ)
unfolding bind_lines window_of insert
history_bindings [] out = out
history_bindings (series (some h) ∷ blocks) out =
    history_bindings blocks (bind_lines (window_of h.window) h.lines out)
history_bindings (_ ∷ blocks) out = history_bindings blocks out
