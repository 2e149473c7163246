-- ===== src/Labeling.antt =====
-- src/mosemo/labeling: AI proposals, confirmations and the label timeline.
pub mod Proposals
pub mod Confirmations
pub mod States
pub mod Confirming
pub mod Timeline
pub mod Attempts
pub mod Retrieval
pub mod Proposing
pub mod Scanning
