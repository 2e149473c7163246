-- ===== src/Observation/Merge/Examples.antt =====
-- Reading concrete rows by pages.
use mathlib.Core.List.{Perm}
use mosemo.Prelude.{ℕ, ◌≡◌, refl, none, some, List, [], ◌∷◌, ◌++◌, nat_eq, ◌==◌, map, ok, pos}
use mosemo.Shared.Time.{utc}
use mosemo.Observation.Activities.{ActivityRecord, RecordType}
use mosemo.Observation.Segments.{SegmentType, Segment}
use mosemo.Observation.Merge.{
  observation_key, Visit, visit, visit_pages, Joined, segment_key, list_segment_range,
}
use mosemo.Observation.Merge.Pages.{IsStrict, visited, visit_pages-visit}
use mosemo.Observation.Merge.Ranges.{in_range, list_segment_range-IsComplete}

abbrev seen : ℕ → ActivityRecord
seen n = record {
  event_id = n;
  device_id = 1;
  focus_session_id = none;
  sequence = n;
  record_type = RecordType.activity_observation;
  observed_at = 7;
  timezone_id = utc;
  utc_offset_minutes = pos 0;
  payload = record { context = none; state = none; reason = none };
}

abbrev rows : List ActivityRecord
rows = seen 1 ∷ seen 2 ∷ seen 3 ∷ seen 4 ∷ []

-- Collects events, and stops at the third.
abbrev step : Visit ⊥ ActivityRecord (List ℕ)
step r found = ok (found ++ r.event_id ∷ [], r.event_id == 3)

visit_pages-visit_example :
    visit_pages observation_key step 2 rows 5 none [] ≡ visited (visit step rows [])
visit_pages-visit_example =
    visit_pages-visit observation_key step 1 rows []
      ((refl, (refl, (refl, tt))), ((refl, (refl, tt)), ((refl, tt), (tt, tt))))

run-visit_pages : visit_pages observation_key step 2 rows 5 none [] ≡ ok (1 ∷ 2 ∷ 3 ∷ [])
unfolding visit_pages visit
run-visit_pages = refl

abbrev gap_at : ℕ → Segment
gap_at n = record {
  id = n;
  account_id = 5;
  segment_type = SegmentType.capture_gap;
  started_at = 7;
  ended_at = some 7;
  first_event_id = n;
  last_event_id = none;
  last_observed_at = none;
  context = none;
  reason = some "sleep";
}

list_segment_range-IsComplete_example :
    (found : List Joined) × (list_segment_range {E = ⊥} rows (gap_at 2 ∷ gap_at 1 ∷ []) 5 0 none
      ≡ ok (map (λ row. row.0) found))
    × IsStrict segment_key found
    × Perm found (in_range rows (gap_at 2 ∷ gap_at 1 ∷ []) 5 0 none)
list_segment_range-IsComplete_example =
    list_segment_range-IsComplete rows (gap_at 2 ∷ gap_at 1 ∷ []) 5 0 none ((refl, tt), (tt, tt))
