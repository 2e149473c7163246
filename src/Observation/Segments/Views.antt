-- ===== src/Observation/Segments/Views.antt =====
-- What the two ways of reading a stored segment have in common: the WHERE clauses of
-- observation/infrastructure/timeline_segments.py and the methods of the entity.
use mosemo.Prelude.{
  ◌≡◌, ◌≢◌, refl, inl, inr, Option-cases, ◌==◌, nat_eq, ◌↔◌, true, false, Option, none, some, arith,
  ==_iff, string_eq, option_eq, String,
}
use mosemo.Shared.Time.{Instant}
use mosemo.Observation.Segments.{
  Segment, closed_detailed_activity, effective_ended_at, overlaps_window, timeline_kind_at,
  satisfies_checks, in_date_range, is_closed_detailed_row,
}

-- A row that satisfies the table's constraints never fails an assertion of the time methods.
pub views_total :
    (s : Segment) (start end now : Instant)
    → satisfies_checks s ≡ true
    → (effective_ended_at s now ≢ none) × (overlaps_window s start end now ≢ none)
unfolding effective_ended_at satisfies_checks overlaps_window
views_total s start end now h = ground arith

detailed-opaque : (k : Option String) → (k == some "detailed") ≡ true → (k == some "opaque") ≡ false
detailed-opaque k h = rw ((==_iff k (some "detailed")).0 h) refl

-- The database filter of a window drops no segment that overlaps the window: whatever a row that
-- satisfies the constraints looks like, if `overlaps_window` holds at some `now`, the row is read.
pub overlaps_window-in_date_range :
    (s : Segment) (start end now : Instant)
    → satisfies_checks s ≡ true
    → overlaps_window s start end now ≡ some true
    → in_date_range s start end ≡ true
unfolding overlaps_window satisfies_checks in_date_range
overlaps_window-in_date_range s start end now c h = ground arith

-- The database filter for closed detailed segments picks exactly the rows that the entity calls
-- closed detailed at the same time.
pub is_closed_detailed_row_iff :
    (s : Segment) (now : Instant)
    → satisfies_checks s ≡ true
    → (is_closed_detailed_row s now ≡ true)
      ↔ (timeline_kind_at s now ≡ some closed_detailed_activity)
unfolding is_closed_detailed_row satisfies_checks timeline_kind_at
is_closed_detailed_row_iff s now c = elim (Option-cases s.context) [
  | inl e ↦ (λ h. ground arith, λ h. ground arith)
  | inr (k, e) ↦
      (λ h. ground (arith, detailed-opaque k.kind), λ h. ground (arith, detailed-opaque k.kind))
]
