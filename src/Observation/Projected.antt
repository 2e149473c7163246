-- ===== src/Observation/Projected.antt =====
-- src/mosemo/observation/domain/timeline.py: a segment as the projection computes it, before it is
-- stored, and how it compares with stored ones.
pub mod Rows
use mosemo.Prelude.{
  ℕ, zero, suc, ◌-◌, String, Bool, true, false, not, ◌&&◌, Option, none, some, List, [], ◌∷◌, Eq,
  nat_eq, string_eq, option_eq, ◌==◌, ltb, leb, Result, ok, err, if◌then◌else◌,
}
use mosemo.Shared.Time.{Instant, Uuid}
use mosemo.Observation.Activities.{Context, context_eq, max_observation_gap}
use mosemo.Observation.Segments.{SegmentType, Segment, is_activity}

pub record ProjectedActivity : Type 0 where
  pub started_at : Instant
  pub first_event_id : Uuid
  pub last_event_id : Uuid
  pub last_observed_at : Instant
  pub context : Context
  pub ended_at : Option Instant

pub record ProjectedGap : Type 0 where
  pub started_at : Instant
  pub first_event_id : Uuid
  pub reason : String
  pub ended_at : Option Instant

pub data ProjectedSegment : Type 0 where
  activity : ProjectedActivity → ProjectedSegment
  gap : ProjectedGap → ProjectedSegment

-- What a projection raises: `ProjectionError`, and Python's own errors on a payload without the
-- key that is read, or with an unknown state.
pub data ProjectionError : Type 0 where
  observation_time_regression key_error value_error : ProjectionError

abbrev pub started_at : ProjectedSegment → Instant
started_at (activity a) = a.started_at
started_at (gap g) = g.started_at

abbrev pub ended_at : ProjectedSegment → Option Instant
ended_at (activity a) = a.ended_at
ended_at (gap g) = g.ended_at

abbrev pub first_event_id : ProjectedSegment → Uuid
first_event_id (activity a) = a.first_event_id
first_event_id (gap g) = g.first_event_id

-- `ProjectedActivity.close_at`
unfoldable pub close_at : Instant → ProjectedActivity → Result ProjectionError ProjectedActivity
close_at observed a =
    if ltb observed a.last_observed_at
    then err observation_time_regression
    else ok (record a {
      ended_at = some (
          if leb (observed - a.last_observed_at) max_observation_gap
          then observed
          else a.last_observed_at);
    })

-- `ProjectedActivity.same_as`
abbrev pub same_activity : ProjectedActivity → Segment → Bool
same_activity a stored =
    is_activity stored.segment_type
    && (stored.started_at == a.started_at)
    && (stored.ended_at == a.ended_at)
    && (stored.first_event_id == a.first_event_id)
    && (stored.last_event_id == some a.last_event_id)
    && (stored.last_observed_at == some a.last_observed_at)
    && (stored.context == some a.context)

-- `ProjectedGap.same_as`
abbrev pub same_gap : ProjectedGap → Segment → Bool
same_gap g stored =
    not (is_activity stored.segment_type)
    && (stored.started_at == g.started_at)
    && (stored.ended_at == g.ended_at)
    && (stored.first_event_id == g.first_event_id)
    && (stored.reason == some g.reason)

unfoldable pub same_as : ProjectedSegment → Segment → Bool
same_as (activity a) stored = same_activity a stored
same_as (gap g) stored = same_gap g stored

unfoldable pub reaches : ProjectedSegment → Instant → Bool
reaches s observed =
    if ltb observed (started_at s)
    then true
    else elim (ended_at s) [ none ↦ leb (started_at s) observed | some ended ↦ ltb observed ended ]

-- The first stored segment that equals `s`, by position.
abbrev pub index_of_same : ProjectedSegment → List Segment → Option ℕ
index_of_same s [] = none
index_of_same s (stored ∷ rest) =
    let later = index_of_same s rest in
    if same_as s stored then some 0 else elim later [ none ↦ none | some n ↦ some (suc n) ]

unfoldable pub converged_index : ProjectedSegment → List Segment → Instant → Option ℕ
unfolding reaches same_as
converged_index s existing observed =
    if not (reaches s observed) then none else index_of_same s existing

abbrev pub starts_within : ProjectedSegment → Segment → Bool
starts_within s stored =
    leb (started_at s) stored.started_at
    && (elim (ended_at s) [ none ↦ true | some ended ↦ leb stored.started_at ended ])

unfoldable pub can_inherit : ProjectedSegment → Segment → Bool
can_inherit (activity a) stored = is_activity stored.segment_type
can_inherit (gap g) stored = not (is_activity stored.segment_type)

unfoldable pub continues : ProjectedSegment → Segment → Bool
unfolding can_inherit
continues (activity a) stored =
    can_inherit (activity a) stored
    && (stored.context == some a.context)
    && starts_within (activity a) stored
continues (gap g) stored = can_inherit (gap g) stored && starts_within (gap g) stored

-- `ProjectedActivity.to_segment`; `segment_id` is the reused one, or the identifier that the
-- constructor generates.
abbrev pub activity_row : Uuid → Uuid → ProjectedActivity → Segment
activity_row account segment_id a = record {
  id = segment_id;
  account_id = account;
  segment_type = SegmentType.activity;
  started_at = a.started_at;
  ended_at = a.ended_at;
  first_event_id = a.first_event_id;
  last_event_id = some a.last_event_id;
  last_observed_at = some a.last_observed_at;
  context = some a.context;
  reason = none;
}

-- `ProjectedGap.to_segment`
abbrev pub gap_row : Uuid → Uuid → ProjectedGap → Segment
gap_row account segment_id g = record {
  id = segment_id;
  account_id = account;
  segment_type = SegmentType.capture_gap;
  started_at = g.started_at;
  ended_at = g.ended_at;
  first_event_id = g.first_event_id;
  last_event_id = none;
  last_observed_at = none;
  context = none;
  reason = some g.reason;
}

unfoldable pub to_segment : Uuid → Uuid → ProjectedSegment → Segment
to_segment account segment_id (activity a) = activity_row account segment_id a
to_segment account segment_id (gap g) = gap_row account segment_id g

abbrev seed_activity : Segment → Option ProjectedSegment
seed_activity s = elim s.last_event_id [
  | none ↦ none
  | some last_event ↦ elim s.last_observed_at [
    | none ↦ none
    | some last ↦ elim s.context [
      | none ↦ none
      | some context ↦ some (
          activity (record {
            started_at = s.started_at;
            first_event_id = s.first_event_id;
            last_event_id = last_event;
            last_observed_at = last;
            context = context;
            ended_at = none;
          }))
    ]
  ]
]

-- observation/application/batches.py, `segment_seed`: a stored segment, open again. A failed
-- assertion is `none`.
unfoldable pub segment_seed : Segment → Option ProjectedSegment
segment_seed s = if is_activity s.segment_type then seed_activity s else elim s.reason [
  | none ↦ none
  | some reason ↦ some (
      gap (record {
        started_at = s.started_at;
        first_event_id = s.first_event_id;
        reason = reason;
        ended_at = none;
      }))
]
