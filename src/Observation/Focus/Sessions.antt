-- ===== src/Observation/Focus/Sessions.antt =====
-- Completing a focus session (observation/domain/focus_sessions.py).
use mosemo.Prelude.{
  ◌≡◌, ◌⊎◌, inl, inr, refl, sym, subst, Bool, true, false, Option, none, some, int_eq, nat_eq,
  string_eq, option_eq, ==_refl, is_some, arith, ok, err, ◌>>◌, guard, if◌then◌else◌,
}
use mosemo.Shared.Time.{Instant}
use mosemo.Observation.Focus.{
  FocusSession, FocusSessionCompletion, focus_session_conflict, focus_session_invalid_time,
  complete, is_completed_as, has_invalid_time, over_target, satisfies_checks,
}

-- The completion that the session records.
abbrev pub completed : FocusSessionCompletion → FocusSession → FocusSession
completed c s = record s {
  ended_at = some c.ended_at;
  work_seconds = some c.work_seconds;
  label_id = some c.label_id;
  description = c.description;
}

-- Completing succeeds on an open session, whose times the completion respects, and on one that is
-- completed as the completion says.
pub complete-ok :
    (c : FocusSessionCompletion) (last : Option Instant) (s t : FocusSession)
    → complete c last s ≡ ok t
    → ((s.ended_at ≡ none)
        × (t ≡ completed c s)
        × (has_invalid_time c last s ≡ false)
        × (over_target s.target_seconds c.work_seconds ≡ false))
      ⊎ ((t ≡ s) × (is_some s.ended_at ≡ true) × (is_completed_as c s ≡ true))
unfolding complete
complete-ok c last s t h =
    by_tests s.ended_at (is_completed_as c s) (has_invalid_time c last s)
      (over_target s.target_seconds c.work_seconds) refl refl refl refl h
  where
    by_tests :
        (e : Option Instant) (same invalid over : Bool)
        → s.ended_at ≡ e
        → is_completed_as c s ≡ same
        → has_invalid_time c last s ≡ invalid
        → over_target s.target_seconds c.work_seconds ≡ over
        → (if is_some e
            then guard same focus_session_conflict >> ok s
            else if invalid
            then err focus_session_invalid_time
            else if over
            then err focus_session_invalid_time
            else ok (completed c s))
          ≡ ok t
        → ((s.ended_at ≡ none)
            × (t ≡ completed c s)
            × (has_invalid_time c last s ≡ false)
            × (over_target s.target_seconds c.work_seconds ≡ false))
          ⊎ ((t ≡ s) × (is_some s.ended_at ≡ true) × (is_completed_as c s ≡ true))
    by_tests none same true over e1 e2 e3 e4 h = absurd (cc)
    by_tests none same false true e1 e2 e3 e4 h = absurd (cc)
    by_tests none same false false e1 e2 e3 e4 h = inl (e1, cc, e3, e4)
    by_tests (some x) true invalid over e1 e2 e3 e4 h = inr (cc, rw e1 refl, e2)
    by_tests (some x) false invalid over e1 e2 e3 e4 h = absurd (cc)

-- A completion keeps the CHECK constraints of the table, so that no commit fails on them.
pub complete-satisfies_checks :
    (c : FocusSessionCompletion) (last : Option Instant) (s t : FocusSession)
    → satisfies_checks s ≡ true
    → complete c last s ≡ ok t
    → satisfies_checks t ≡ true
unfolding satisfies_checks
complete-satisfies_checks c last s t k h = elim (complete-ok c last s t h) [
  | inl (unended, made, valid, within) ↦
      subst (λ r. satisfies_checks r ≡ true) (sym made) (ground arith)
  | inr (same, ended, as_said) ↦ subst (λ r. satisfies_checks r ≡ true) (sym same) k
]

-- A completed session is final: the same completion succeeds again and changes nothing, whatever was
-- observed since, and any other one is a conflict.
complete-final :
    (c d : FocusSessionCompletion) (last since : Option Instant) (s t : FocusSession)
    → complete c last s ≡ ok t
    → (complete c since t ≡ ok t)
      × (is_completed_as d t ≡ false → complete d since t ≡ err focus_session_conflict)
unfolding complete
complete-final c d last since s t h = elim (complete-ok c last s t h) [
  | inl (unended, made, valid, within) ↦
      subst (λ r. IsFinal r) (sym made)
        (is_final (completed c s) refl (
          rw (==_refl c.ended_at, ==_refl c.work_seconds, ==_refl c.label_id, ==_refl c.description)
            refl))
  | inr (same, ended, as_said) ↦ subst (λ r. IsFinal r) (sym same) (is_final s ended as_said)
]
  where
    IsFinal : FocusSession → Type 0
    IsFinal r =
        (complete c since r ≡ ok r)
        × (is_completed_as d r ≡ false → complete d since r ≡ err focus_session_conflict)

    is_final :
        (r : FocusSession) → is_some r.ended_at ≡ true → is_completed_as c r ≡ true → IsFinal r
    is_final r ended as_said =
        (rw (complete, ended, as_said) refl, λ other. rw (complete, ended, other) refl)
