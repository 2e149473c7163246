-- ===== src/Observation/Observed.antt =====
-- src/mosemo/observation/application/timeline.py: segments as other contexts see them, and
-- `segment_version` of observation/domain/timeline.py.
-- A failed assertion and a raised `ValueError` are `none`.
pub mod Windows
pub mod Total
mod Examples
use mosemo.Prelude.{
  ℕ, String, Bool, true, false, not, ◌&&◌, Option, none, some, List, [], ◌∷◌, Eq, nat_eq, ◌==◌,
  find, keep, map, and_then, ltb, is_some, take, contains, if◌then◌else◌,
}
use mosemo.Shared.Time.{Instant, Uuid}
use mosemo.Observation.Activities.{ActivityRecord, Context}
use mosemo.Observation.Merge.{join, segment_key, sort}
use mosemo.Observation.Segments.{
  Segment, TimelineKind, effective_ended_at, overlaps_window, timeline_kind_at, in_date_range,
  is_closed_detailed_row,
}

-- The object that `segment_version` serialises and hashes.
pub record VersionFields : Type 0 where
  pub context : Context
  pub ended_at : Instant
  pub first_event_id : Uuid
  pub last_event_id : Uuid
  pub last_observed_at : Instant
  pub started_at : Instant

pub record ObservedSegment : Type 0 where
  pub id : Uuid
  pub account_id : Uuid
  pub first_event_id : Uuid
  pub started_at : Instant
  pub last_observed_at : Option Instant
  pub reason : Option String
  pub context : Option Context
  pub ended_at : Option Instant
  pub kind : TimelineKind
  pub version : Option String

abbrev pub is_gap : TimelineKind → Bool
is_gap TimelineKind.capture_gap = true
is_gap _ = false

abbrev pub is_past : Option Uuid → Uuid → Bool
is_past none id = true
is_past (some cursor) id = ltb cursor id

-- `_ordered_account_segments` with a further condition: the account's rows are joined with the records
-- that start them, and come in the order of the records' keys at the segments' starts.
abbrev pub ordered_segments :
    List ActivityRecord → List Segment → Uuid → (Segment → Bool) → List Segment
ordered_segments records rows account condition =
    map (λ row. row.0)
      (sort segment_key (join records (keep (λ s. (s.account_id == account) && condition s) rows)))

-- `list_date_segments`
unfoldable pub list_date_segments :
    List ActivityRecord → List Segment → Uuid → Instant → Instant → List Segment
unfolding in_date_range
list_date_segments records rows account start end =
    ordered_segments records rows account (λ s. in_date_range s start end)

-- `digest` is SHA-256 of canonical JSON (`hashlib`, `json`), on the object's fields.
module _ (digest : VersionFields → String) where
  unfoldable pub segment_version : Segment → Instant → Option String
  segment_version s ended = and_then s.last_event_id λ last_event.
      and_then s.last_observed_at λ last. and_then s.context λ context. some (
        digest (record {
          context = context;
          ended_at = ended;
          first_event_id = s.first_event_id;
          last_event_id = last_event;
          last_observed_at = last;
          started_at = s.started_at;
        }))

  -- The version of a segment whose end is known and that is no gap; `none` outside is an assertion.
  abbrev pub version_of : Segment → Option Instant → TimelineKind → Option (Option String)
  version_of s none kind = some none
  version_of s (some ended) kind =
      if is_gap kind then some none else and_then (segment_version s ended) (λ v. some (some v))

  unfoldable pub observed : Segment → Instant → Option ObservedSegment
  unfolding segment_version
  observed s now = and_then (effective_ended_at s now) λ ended.
      and_then (timeline_kind_at s now) λ kind. and_then (version_of s ended kind) λ version.
        some (record {
          id = s.id;
          account_id = s.account_id;
          first_event_id = s.first_event_id;
          started_at = s.started_at;
          last_observed_at = s.last_observed_at;
          reason = s.reason;
          context = s.context;
          ended_at = ended;
          kind = kind;
          version = version;
        })

  -- `find_segment`; the outer `none` is a raise.
  unfoldable pub find_segment :
      List Segment → Uuid → Uuid → Instant → Option (Option ObservedSegment)
  find_segment rows account id now =
      elim (find (λ s. (s.account_id == account) && (s.id == id)) rows) [
        | none ↦ some none
        | some s ↦ and_then (observed s now) (λ o. some (some o))
      ]

  -- `find_by_first_event`
  unfoldable pub find_by_first_event :
      List Segment → Uuid → Uuid → Instant → Option (Option ObservedSegment)
  find_by_first_event rows account event now =
      elim (find (λ s. (s.account_id == account) && (s.first_event_id == event)) rows) [
        | none ↦ some none
        | some s ↦ and_then (observed s now) (λ o. some (some o))
      ]

  -- `[_observed(segment, now=now) for segment in segments if segment.overlaps_window(…)]`
  unfoldable pub observed_overlapping :
      Instant → Instant → Instant → List Segment → Option (List ObservedSegment)
  observed_overlapping start end now [] = some []
  observed_overlapping start end now (s ∷ rows) =
      let rest = observed_overlapping start end now rows in
      and_then (overlaps_window s start end now) λ overlaps.
        if overlaps
        then and_then (observed s now) (λ o. and_then rest (λ os. some (o ∷ os)))
        else rest

  -- `list_window`
  unfoldable pub list_window :
      List ActivityRecord
      → List Segment
      → Uuid
      → Instant
      → Instant
      → Instant
      → Option (List ObservedSegment)
  unfolding observed_overlapping list_date_segments
  list_window records rows account start end now =
      observed_overlapping start end now (list_date_segments records rows account start end)

  unfoldable pub observed_all : Instant → List Segment → Option (List ObservedSegment)
  observed_all now [] = some []
  observed_all now (s ∷ rows) =
      let rest = observed_all now rows in
      and_then (observed s now) (λ o. and_then rest (λ os. some (o ∷ os)))

  -- `list_closed_page`, over rows in the order of their identifiers.
  unfoldable pub list_closed_page :
      List Segment → Option Uuid → Instant → ℕ → Option (List ObservedSegment)
  unfolding observed_all
  list_closed_page rows cursor now limit =
      observed_all now
        (take limit (keep (λ s. is_closed_detailed_row s now && is_past cursor s.id) rows))

  -- `find_by_first_events`, without the keys of its dict; `get_by_first_event` is its lookup.
  unfoldable pub find_by_first_events :
      List Segment → Uuid → List Uuid → Instant → Option (List ObservedSegment)
  unfolding observed_all
  find_by_first_events rows account events now =
      observed_all now
        (keep (λ s. (s.account_id == account) && contains events s.first_event_id) rows)

abbrev pub later_or : Option ObservedSegment → Bool → ObservedSegment → Option ObservedSegment
later_or (some later) found o = some later
later_or none true o = some o
later_or none false o = none

-- Of equal keys in a dict the later value stays.
abbrev pub get_by_first_event : List ObservedSegment → Uuid → Option ObservedSegment
get_by_first_event [] event = none
get_by_first_event (o ∷ rest) event =
    later_or (get_by_first_event rest event) (o.first_event_id == event) o
