-- ===== src/Hooks.antt =====
-- src/.codex/hooks: the hooks that run when a coding agent works on the repository.
pub mod StopGate
