-- ===== src/Observation/Segments/Examples.antt =====
-- The theorems on stored segments at concrete rows.
use mosemo.Prelude.{◌≡◌, refl, true, none, some}
use mosemo.Shared.Time.{seconds}
use mosemo.Observation.Segments.{
  Segment, SegmentType, overlaps_window, in_date_range, satisfies_checks,
}
use mosemo.Observation.Segments.Views.{overlaps_window-in_date_range}

-- An activity that went silent after 40 s.
abbrev silent : Segment
silent = record {
  id = 1;
  account_id = 2;
  segment_type = SegmentType.activity;
  started_at = seconds 10;
  ended_at = none;
  first_event_id = 3;
  last_event_id = some 4;
  last_observed_at = some (seconds 40);
  context = some (record { kind = some "detailed"; body = "editor" });
  reason = none;
}

silent-satisfies_checks : satisfies_checks silent ≡ true
unfolding satisfies_checks
silent-satisfies_checks = refl

silent-overlaps : overlaps_window silent (seconds 20) (seconds 30) (seconds 200) ≡ some true
unfolding overlaps_window
silent-overlaps = refl

overlaps_window-in_date_range_example : in_date_range silent (seconds 20) (seconds 30) ≡ true
overlaps_window-in_date_range_example =
    overlaps_window-in_date_range silent (seconds 20) (seconds 30) (seconds 200)
      silent-satisfies_checks silent-overlaps
