-- ===== src/Observation/Projected/Rows.antt =====
-- Computed segments against stored ones (observation/domain/timeline.py, and `segment_seed` of
-- observation/application/batches.py).
use mosemo.Prelude.{
  ◌≡◌, ◌↔◌, refl, subst, ==_refl, true, none, some, arith, ==_iff, nat_eq, string_eq, option_eq,
}
use mosemo.Shared.Time.{Uuid}
use mosemo.Observation.Activities.{context_eq}
use mosemo.Observation.Segments.{Segment, satisfies_checks}
use mosemo.Observation.Projected.{
  ProjectedSegment, activity, gap, same_as, to_segment, segment_seed,
}

-- The same segment, with no end.
abbrev pub reopen : ProjectedSegment → ProjectedSegment
reopen (activity a) = activity (record a { ended_at = none })
reopen (gap g) = gap (record g { ended_at = none })

-- Storing a segment and seeding a projection with the row gives the segment back, open again, for
-- either kind and any identifiers.
pub segment_seed-to_segment :
    (account id : Uuid) (s : ProjectedSegment)
    → segment_seed (to_segment account id s) ≡ some (reopen s)
unfolding segment_seed to_segment
segment_seed-to_segment account id (activity a) = refl
segment_seed-to_segment account id (gap g) = refl

same_as-to_segment :
    (account id : Uuid) (s : ProjectedSegment) → same_as s (to_segment account id s) ≡ true
unfolding same_as to_segment
same_as-to_segment account id (activity a) = simp (
  ==_refl a.started_at,
  ==_refl a.ended_at,
  ==_refl a.first_event_id,
  ==_refl a.last_event_id,
  ==_refl a.last_observed_at,
  ==_refl a.context,
)
same_as-to_segment account id (gap g) =
    simp (==_refl g.started_at, ==_refl g.ended_at, ==_refl g.first_event_id, ==_refl g.reason)

-- A computed segment is the same as a stored row exactly when storing it under that row's account
-- and identifier would give the row back, for rows that satisfy the table's constraints.
pub same_as_iff :
    (s : ProjectedSegment) (stored : Segment)
    → satisfies_checks stored ≡ true
    → (same_as s stored ≡ true) ↔ (to_segment stored.account_id stored.id s ≡ stored)
unfolding same_as to_segment satisfies_checks
same_as_iff (activity a) stored c = (
  λ h. ground (
    arith,
    ==_iff stored.started_at a.started_at,
    ==_iff stored.ended_at a.ended_at,
    ==_iff stored.first_event_id a.first_event_id,
    ==_iff stored.last_event_id (some a.last_event_id),
    ==_iff stored.last_observed_at (some a.last_observed_at),
    ==_iff stored.context (some a.context),
  ),
  λ h.
      subst (λ t. same_as (activity a) t ≡ true) h
        (same_as-to_segment stored.account_id stored.id (activity a)),
)
same_as_iff (gap g) stored c = (
  λ h. ground (
    arith,
    ==_iff stored.started_at g.started_at,
    ==_iff stored.ended_at g.ended_at,
    ==_iff stored.first_event_id g.first_event_id,
    ==_iff stored.reason (some g.reason),
  ),
  λ h.
      subst (λ t. same_as (gap g) t ≡ true) h
        (same_as-to_segment stored.account_id stored.id (gap g)),
)
