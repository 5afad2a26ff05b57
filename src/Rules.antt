-- ===== src/Rules.antt =====
-- internal/rules: predicates over card states, and the debounced transitions of their rules.
pub mod Evaluator
pub mod Signals
pub mod Fresh
pub mod Transition
pub mod Held
pub mod Debounce
