-- ===== src/Observation/Segments.antt =====
-- src/mosemo/observation/domain/timeline.py: a stored segment, as seen at a time `now`.
-- A failed `assert` and a raised `ValueError` are the outer `none` of a result.
pub mod Views
mod Examples
use mosemo.Prelude.{
  ℕ, ◌-◌, String, Bool, true, false, not, ◌&&◌, ◌||◌, Option, none, some, Eq, nat_eq, string_eq,
  option_eq, ◌==◌, ltb, leb, is_some, if◌then◌else◌,
}
use mosemo.Shared.Time.{Instant, Uuid}
use mosemo.Observation.Activities.{Context, max_observation_gap}

pub data SegmentType : Type 0 where
  activity capture_gap : SegmentType

pub data TimelineKind : Type 0 where
  capture_gap opaque_activity in_progress_activity closed_detailed_activity : TimelineKind

pub record Segment : Type 0 where
  pub id : Uuid
  pub account_id : Uuid
  pub segment_type : SegmentType
  pub started_at : Instant
  pub ended_at : Option Instant
  pub first_event_id : Uuid
  pub last_event_id : Option Uuid
  pub last_observed_at : Option Instant
  pub context : Option Context
  pub reason : Option String

abbrev pub is_activity : SegmentType → Bool
is_activity SegmentType.activity = true
is_activity SegmentType.capture_gap = false

-- `now - last_observed_at > MAX_OBSERVATION_GAP`; a negative difference is not greater either.
abbrev pub is_silent : Instant → Instant → Bool
is_silent now last = ltb max_observation_gap (now - last)

unfoldable pub effective_ended_at : Segment → Instant → Option (Option Instant)
effective_ended_at s now =
    if not (is_activity s.segment_type) || is_some s.ended_at
    then some s.ended_at
    else elim s.last_observed_at [
      | none ↦ none
      | some last ↦ some (if is_silent now last then some last else none)
    ]

-- `start <= self.started_at < end` for an empty segment, and an overlap of two intervals otherwise.
abbrev pub closed_overlaps : Instant → Instant → Instant → Instant → Bool
closed_overlaps started ended start end =
    if ended == started
    then leb start started && ltb started end
    else ltb started end && ltb start ended

abbrev pub open_overlaps : Segment → Instant → Instant → Option Bool
open_overlaps s start end =
    if is_activity s.segment_type
    then (elim s.last_observed_at [
      | none ↦ none
      | some last ↦ some (ltb s.started_at end && leb start last)
    ])
    else some (ltb s.started_at end)

unfoldable pub overlaps_window : Segment → Instant → Instant → Instant → Option Bool
unfolding effective_ended_at
overlaps_window s start end now = elim (effective_ended_at s now) [
  | none ↦ none
  | some none ↦ open_overlaps s start end
  | some (some ended) ↦ some (closed_overlaps s.started_at ended start end)
]

abbrev pub detailed_kind : Option (Option Instant) → Option TimelineKind
detailed_kind none = none
detailed_kind (some none) = some in_progress_activity
detailed_kind (some (some ended)) = some closed_detailed_activity

unfoldable pub timeline_kind_at : Segment → Instant → Option TimelineKind
unfolding effective_ended_at
timeline_kind_at s now =
    if not (is_activity s.segment_type) then some TimelineKind.capture_gap else elim s.context [
      | none ↦ none
      | some context ↦
          if context.kind == some "opaque"
          then some opaque_activity
          else if context.kind == some "detailed"
          then detailed_kind (effective_ended_at s now)
          else none
    ]

-- The columns of each kind of segment: the CHECK constraint `kind_fields`.
abbrev pub kind_fields : Segment → Bool
kind_fields s =
    if is_activity s.segment_type
    then is_some s.last_event_id
      && is_some s.last_observed_at
      && is_some s.context
      && not (is_some s.reason)
    else not (is_some s.last_event_id)
      && not (is_some s.last_observed_at)
      && not (is_some s.context)
      && is_some s.reason

-- The CHECK constraint `time_order`.
abbrev pub time_order : Segment → Bool
time_order s = elim s.ended_at [ none ↦ true | some ended ↦ leb s.started_at ended ]

-- The CHECK constraint `last_observed_order`.
abbrev pub last_observed_order : Segment → Bool
last_observed_order s = elim s.last_observed_at [
  | none ↦ true
  | some last ↦
      leb s.started_at last && (elim s.ended_at [ none ↦ true | some ended ↦ leb last ended ])
]

-- The CHECK constraints of the table `activity_timeline_segments`.
unfoldable pub satisfies_checks : Segment → Bool
satisfies_checks s = kind_fields s && time_order s && last_observed_order s

abbrev pub ends_after : Segment → Instant → Bool
ends_after s start = elim s.ended_at [ none ↦ false | some ended ↦ ltb start ended ]

abbrev pub ends_at_start : Segment → Bool
ends_at_start s = elim s.ended_at [ none ↦ false | some ended ↦ ended == s.started_at ]

abbrev pub observed_from : Segment → Instant → Bool
observed_from s start = elim s.last_observed_at [ none ↦ false | some last ↦ leb start last ]

-- The WHERE clause of `list_date_segments`. A comparison with NULL does not hold.
unfoldable pub in_date_range : Segment → Instant → Instant → Bool
in_date_range s start end =
    (ltb s.started_at end && ends_after s start)
    || (ends_at_start s && leb start s.started_at && ltb s.started_at end)
    || (is_activity s.segment_type
        && not (is_some s.ended_at)
        && ltb s.started_at end
        && observed_from s start)
    || (not (is_activity s.segment_type) && not (is_some s.ended_at) && ltb s.started_at end)

-- The WHERE clause of `list_closed_detailed_segments`, without its cursor. `now - gap` does not go
-- below `datetime.min`, where Python raises.
unfoldable pub is_closed_detailed_row : Segment → Instant → Bool
is_closed_detailed_row s now =
    is_activity s.segment_type
    && (elim s.context [ none ↦ false | some c ↦ c.kind == some "detailed" ])
    && (is_some s.ended_at || (elim s.last_observed_at [
      | none ↦ false
      | some last ↦ ltb last (now - max_observation_gap)
    ]))
