-- ===== src/App.antt =====
-- internal/app: how an approved integration becomes the authority of a card.
pub mod Grant
pub mod Parts
pub mod Authority
pub mod Subset
pub mod Approved
