-- ===== src/Observation/Focus/Links.antt =====
-- Completing a stored focus session, and the records that link to it
-- (observation/application/focus_sessions.py).
use mosemo.Prelude.{
  ◌≤◌, ◌≡◌, inl, inr, refl, ap, ◌∙◌, subst, true, false, ◌||◌, Bool-cases, Option, none, some, List,
  [], ◌∷◌, int_eq, nat_eq, string_eq, option_eq, ◌==◌, ==_iff, is_some, arith, All, Result, ok, err,
  guard, require, >>=-ok, guard-ok, require-ok, ok-injective, unit_of_work,
}
use mosemo.Shared.Time.{Instant, Uuid}
use mosemo.Labels.{is_active}
use mosemo.Observation.Activities.{ActivityRecord}
use mosemo.Observation.Focus.{
  FocusSession, FocusSessionCompletion, FocusStore, FocusError, focus_session_not_found,
  label_not_available, complete, is_completed_as, is_before, later, find_last_observed_at,
  find_owned, update, complete_session, complete_focus_session,
}
use mosemo.Observation.Focus.Sessions.{completed, complete-ok}

-- The session's records, observed by then.
abbrev pub Covers : Uuid → Instant → List ActivityRecord → Type 0
Covers focus ended records =
    All (λ r. (r.focus_session_id == some focus) ≡ true → r.observed_at ≤ ended) records

find_last_observed_at-Covers :
    (focus : Uuid) (ended : Instant) (records : List ActivityRecord)
    → is_before ended (find_last_observed_at records focus) ≡ false
    → Covers focus ended records
unfolding find_last_observed_at
find_last_observed_at-Covers focus ended [] h = tt
find_last_observed_at-Covers focus ended (r ∷ records) h =
    elim (Bool-cases (r.focus_session_id == some focus)) [
      | inl linked ↦
          let parts = by_rest (find_last_observed_at records focus) (rw linked at h) in
          ((λ e. parts.0), find_last_observed_at-Covers focus ended records parts.1)
      | inr other ↦
          ((λ e. absurd (cc)), find_last_observed_at-Covers focus ended records (rw other at h))
    ]
  where
    by_rest :
        (rest : Option Instant)
        → is_before ended (later r.observed_at rest) ≡ false
        → (r.observed_at ≤ ended) × (is_before ended rest ≡ false)
    by_rest none h = ground arith
    by_rest (some u) h = ground arith

is_completed_as-eq :
    (c : FocusSessionCompletion) (s : FocusSession) → is_completed_as c s ≡ true → s ≡ completed c s
is_completed_as-eq c s h = ground (
  arith,
  ==_iff s.ended_at (some c.ended_at),
  ==_iff s.work_seconds (some c.work_seconds),
  ==_iff s.label_id (some c.label_id),
  ==_iff s.description c.description,
)

module _ (account focus : Uuid) (c : FocusSessionCompletion) (store : FocusStore) where
  -- What a completion did, by how it ended.
  abbrev pub Completes : Result FocusError FocusSession × FocusStore → Type 0
  Completes (ok s, t) =
      (stored : FocusSession) × (find_owned store.sessions account focus ≡ some stored)
      × (s ≡ completed c stored)
      × (t ≡ record store { sessions = update s store.sessions })
      × (stored.ended_at ≡ none
          → (is_active store.labels account c.label_id ≡ true)
            × Covers focus c.ended_at store.records)
  Completes (err e, t) = t ≡ store

  done-Completes :
      (stored s : FocusSession) (last : Option Instant)
      → find_owned store.sessions account focus ≡ some stored
      → (is_some stored.ended_at || is_active store.labels account c.label_id) ≡ true
      → find_last_observed_at store.records focus ≡ last
      → complete c last stored ≡ ok s
      → Completes (ok s, record store { sessions = update s store.sessions })
  done-Completes stored s last found allowed latest h = elim (complete-ok c last stored s h) [
    | inl (unended, made, valid, within) ↦ (
      stored,
      found,
      made,
      refl,
      (λ e. (
        ground arith,
        find_last_observed_at-Covers focus c.ended_at store.records
            (ap (is_before c.ended_at) latest ∙ ground arith),
      )),
    )
    | inr (same, ended, as_said) ↦ (
      stored,
      found,
      same ∙ is_completed_as-eq c stored as_said,
      refl,
      (λ e. absurd (ground arith)),
    )
  ]

  -- A completion that succeeds was of a session that the account owns, which is then completed as the
  -- completion says; if it had not ended before, the label was active and no record that links to it
  -- was observed after its end. No other table changes, and one that fails changes nothing.
  pub complete_focus_session-Completes : Completes (complete_focus_session account focus c store)
  unfolding complete_focus_session
  complete_focus_session-Completes = by_result (complete_session account focus c store) refl
    where
      by_result :
          (r : Result FocusError (FocusSession × FocusStore))
          → complete_session account focus c store ≡ r
          → Completes (unit_of_work (λ t. r) store)
      by_result (ok (s, t)) h =
          let (stored, found, h1) =
            >>=-ok (require (find_owned store.sessions account focus) focus_session_not_found) _
              h in
          let (_, allowed, h2) =
            >>=-ok
              (guard (is_some stored.ended_at || is_active store.labels account c.label_id)
                label_not_available)
              _ h1 in
          let (done, completes, h3) =
            >>=-ok (complete c (find_last_observed_at store.records focus) stored) _ h2 in
          subst (λ r. Completes (ok r.0, r.1)) (ok-injective h3)
            (done-Completes stored done (find_last_observed_at store.records focus)
              (require-ok (find_owned store.sessions account focus) focus_session_not_found found)
              (guard-ok _ label_not_available allowed) refl completes)
      by_result (err e) h = refl
