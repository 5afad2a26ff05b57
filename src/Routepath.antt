-- ===== src/Routepath.antt =====
-- internal/connections/routepath: canonical request paths and the globs that approve them.
pub mod Escape
pub mod Canonicalise
pub mod Hex
pub mod Units
pub mod Split
pub mod Reading
pub mod Segments
pub mod Inversion
pub mod Canonical
pub mod Panics
pub mod Glob
pub mod Cuts
pub mod Matching
pub mod Template
pub mod Coverage
pub mod Covered
