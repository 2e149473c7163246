-- ===== src/Shared.antt =====
-- What the contexts share: instants, spans of time and identifiers.
pub mod Time
pub mod Windows
