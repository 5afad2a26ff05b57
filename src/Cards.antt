-- ===== src/Cards.antt =====
-- internal/state and the parts of internal/widgets that the scheduler reads: documents, card states and histories.
pub mod Document
pub mod CardState
pub mod Valid
pub mod History
pub mod Window
pub mod Series
pub mod Stamps
pub mod Median
pub mod Drawn
pub mod Kept
