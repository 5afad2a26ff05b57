-- ===== src/Config.antt =====
-- internal/config: how the files of the configuration are merged.
pub mod Merge
pub mod Lookup
pub mod Layers
