-- ===== src/Labeling/Timeline/Examples.antt =====
-- The groups of a concrete timeline: two adjacent segments without a label, and a gap.
use mosemo.Prelude.{pos, ℕ, ◌≡◌, refl, String, none, some, List, [], ◌∷◌, All}
use mosemo.Observation.Segments.{
  Segment, SegmentType, satisfies_checks, TimelineKind, closed_detailed_activity,
}
use mosemo.Observation.Observed.{VersionFields, ObservedSegment}
use mosemo.Labeling.Timeline.{
  LabelTimelineEntry, LabelTimelineItem, group, alone, group_items, joins, get_label_timeline,
}
use mosemo.Labeling.Timeline.Reading.{Reads, get_label_timeline-Reads}
use mosemo.Shared.Time.{asia_seoul, utc, minutes}
use mosemo.Shared.Windows.Examples.{fixed_zones, fixed_zones-AreZones}
use mosemo.Observation.Activities.{ActivityRecord, RecordType}
use mosemo.Identity.{Account, kakao}
use mosemo.Labeling.States.{Store}
use mosemo.Observation.Observed.Total.{IsReadable}
use mosemo.Labeling.Timeline.Items.{IsGroup, Separated}
use mosemo.Labeling.Timeline.Groups.{group_items-groups}

abbrev closed : ℕ → ℕ → ℕ → ObservedSegment
closed id start end = record {
  id = id;
  account_id = 1;
  first_event_id = id;
  started_at = start;
  last_observed_at = some start;
  reason = none;
  context = none;
  ended_at = some end;
  kind = closed_detailed_activity;
  version = some "v";
}

abbrev gap : ObservedSegment
gap = record {
  id = 3;
  account_id = 1;
  first_event_id = 3;
  started_at = 20;
  last_observed_at = none;
  reason = some "locked";
  context = none;
  ended_at = none;
  kind = TimelineKind.capture_gap;
  version = none;
}

abbrev day : List ObservedSegment
day = closed 1 0 10 ∷ closed 2 10 20 ∷ gap ∷ []

abbrev entry : ObservedSegment → ℕ → LabelTimelineEntry
entry s end = record {
  segment = s;
  version = "v";
  ended_at = end;
  confirmation = none;
  display_name = none;
}

abbrev items : List LabelTimelineItem
items = group (entry (closed 1 0 10) 10 ∷ entry (closed 2 10 20) 20 ∷ []) ∷ alone gap ∷ []

run-group_items : group_items [] [] day ≡ some items
unfolding group_items
run-group_items = refl

group_items-groups_example : All IsGroup items × Separated items
unfolding joins
group_items-groups_example = group_items-groups [] [] day items run-group_items

abbrev locked : Segment
locked = record {
  id = 3;
  account_id = 1;
  segment_type = SegmentType.capture_gap;
  started_at = 20;
  ended_at = none;
  first_event_id = 3;
  last_event_id = none;
  last_observed_at = none;
  context = none;
  reason = some "locked";
}

abbrev locked_record : ActivityRecord
locked_record = record {
  event_id = 3;
  device_id = 1;
  focus_session_id = none;
  sequence = 1;
  record_type = RecordType.collection_state_changed;
  observed_at = 20;
  timezone_id = utc;
  utc_offset_minutes = pos 0;
  payload = record { context = none; state = some "suspended"; reason = some "locked" };
}

abbrev body : VersionFields → String
body f = f.context.body

abbrev account : Account
account = record {
  id = 1;
  provider = kakao;
  provider_subject = "s";
  timezone = asia_seoul;
  last_authenticated_at = 0;
}

abbrev store : Store
store = record { segments = locked ∷ []; confirmations = []; proposals = []; labels = [] }

readable : All IsReadable store.segments
unfolding satisfies_checks
readable = ((refl, refl), tt)

-- The gap that was open on Seoul's first date.
get_label_timeline-Reads_example :
    Reads body
      (locked_record ∷ [])
      store
      1
      (minutes 600)
      fixed_zones
      fixed_zones-AreZones
      (account ∷ [])
      (some 0)
      (some asia_seoul)
      (get_label_timeline body fixed_zones
        (account ∷ [])
        (locked_record ∷ [])
        store
        1
        (some 0)
        (minutes 600))
get_label_timeline-Reads_example =
    get_label_timeline-Reads body (locked_record ∷ []) store 1 (minutes 600) fixed_zones
      fixed_zones-AreZones (account ∷ []) (some 0) readable
