-- ===== src/Integrations.antt =====
-- internal/integrations and the part of internal/app that turns an approval into a grant.
pub mod Limits
pub mod Ceilings
pub mod Route
pub mod Keys
pub mod Manifest
pub mod Diff
pub mod Missing
pub mod Approve
pub mod InFull
