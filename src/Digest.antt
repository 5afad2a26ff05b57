-- ===== src/Digest.antt =====
-- internal/canonical: the canonical form of a manifest and its digest.
pub mod Value
pub mod Normal
pub mod Runes
pub mod Text
pub mod Keys
pub mod Same
pub mod Like
pub mod Forgets
pub mod Doc
pub mod Numbers
pub mod Strings
pub mod Shown
pub mod Written
pub mod Parts
pub mod Read
pub mod Meaning
pub mod Faithful
pub mod Yaml
pub mod Ends
pub mod Panics
pub mod Load
