-- ===== src/Observation/Observed/Examples.antt =====
-- The reads of the timeline at a concrete row.
use mosemo.Prelude.{List, pos, ◌≡◌, refl, true, none, some, [], ◌∷◌, String}
use mosemo.Shared.Time.{seconds, utc}
use mosemo.Observation.Activities.{ActivityRecord, RecordType}
use mosemo.Observation.Segments.{Segment, SegmentType, satisfies_checks}
use mosemo.Observation.Observed.{VersionFields, list_window, observed_overlapping}
use mosemo.Observation.Observed.Windows.{Lists, list_window-overlapping}

abbrev stopped : Segment
stopped = record {
  id = 1;
  account_id = 2;
  segment_type = SegmentType.capture_gap;
  started_at = seconds 10;
  ended_at = some (seconds 40);
  first_event_id = 3;
  last_event_id = none;
  last_observed_at = none;
  context = none;
  reason = some "stopped";
}

abbrev stopping : ActivityRecord
stopping = record {
  event_id = 3;
  device_id = 2;
  focus_session_id = none;
  sequence = 1;
  record_type = RecordType.collection_state_changed;
  observed_at = seconds 10;
  timezone_id = utc;
  utc_offset_minutes = pos 0;
  payload = record { context = none; state = some "suspended"; reason = some "stopped" };
}

-- A segment of the same account that another device starts at the same instant.
abbrev of_lower : Segment
of_lower = record stopped { id = 9; first_event_id = 4 }

abbrev starting : ActivityRecord
starting = record stopping { event_id = 4; device_id = 1 }

abbrev body : VersionFields → String
body f = f.context.body

stopped-satisfies_checks : satisfies_checks stopped ≡ true
unfolding satisfies_checks
stopped-satisfies_checks = refl

of_lower-satisfies_checks : satisfies_checks of_lower ≡ true
unfolding satisfies_checks
of_lower-satisfies_checks = refl

abbrev rows : List Segment
rows = stopped ∷ of_lower ∷ []

-- Of two segments that start at once, the one of the lower device comes first.
runs-list_window :
    list_window body (stopping ∷ starting ∷ []) rows 2 (seconds 20) (seconds 30) (seconds 90)
    ≡ observed_overlapping body (seconds 20) (seconds 30) (seconds 90) (of_lower ∷ stopped ∷ [])
unfolding list_window
runs-list_window = refl

list_window-overlapping_example :
    Lists body
      (stopping ∷ starting ∷ [])
      2
      (seconds 20)
      (seconds 30)
      (seconds 90)
      rows
      (list_window body (stopping ∷ starting ∷ []) rows 2 (seconds 20) (seconds 30) (seconds 90))
list_window-overlapping_example =
    list_window-overlapping body (stopping ∷ starting ∷ []) 2 (seconds 20) (seconds 30) (seconds 90)
      rows (stopped-satisfies_checks, (of_lower-satisfies_checks, tt))
