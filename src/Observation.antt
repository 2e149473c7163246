-- ===== src/Observation.antt =====
-- src/mosemo/observation: activity records and the timeline that is projected from them.
pub mod Activities
pub mod Segments
pub mod Projected
pub mod Projection
pub mod Observed
pub mod Focus
pub mod Records
pub mod Merge
pub mod Replacing
pub mod Receipts
pub mod Updating
pub mod Batches
pub mod Recording
pub mod Days
