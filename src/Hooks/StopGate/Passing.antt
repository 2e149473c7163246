-- ===== src/Hooks/StopGate/Passing.antt =====
-- Why the hook lets an agent stop (`gate` of .codex/hooks/stop_gate.py).
use mosemo.Prelude.{
  ◌≤◌, ◌≡◌, ◌⊎◌, String, true, none, some, List, [], string_eq, option_eq, ◌==◌, All, if◌then◌else◌,
}
use mosemo.Hooks.StopGate.{
  Failure, SessionRecord, max_blocks, style_checks, Stop, change_of, failure_fingerprint,
}

-- Every check of the stop passed.
abbrev pub AllPass : Stop → Type 0
AllPass stop =
    (stop.some_exist ≡ true → stop.run_check "ruff format" ≡ none)
    × All (λ name. stop.run_check name ≡ none) style_checks
    × (stop.run_check "pytest" ≡ none)

module _ (digest : List (String × List String) → String) where
  -- Three stops in a row were blocked for these failures.
  abbrev pub IsCapped : SessionRecord → List Failure → Type 0
  IsCapped r failures = max_blocks ≤ (elim r.blocked [
    | none ↦ 0
    | some b ↦ if b.failure == failure_fingerprint digest failures then b.count else 0
  ])

  -- Why a stop may pass.
  abbrev pub Passes : SessionRecord → Stop → List Failure → Type 0
  Passes r stop failures =
      (stop.python_paths ≡ [])
      ⊎ ((r.passed ≡ some stop.formatted) ⊎ (change_of r.blocked ≡ some stop.formatted))
      ⊎ AllPass stop
      ⊎ IsCapped r failures
