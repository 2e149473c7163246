-- ===== src/Observation/Recording/Examples.antt =====
-- Recording concrete activities of two devices.
use mosemo.Prelude.{
  true, false, ℕ, ◌+◌, String, ◌≡◌, refl, none, some, [], ◌∷◌, pos, ok, err, arith,
}
use mosemo.Shared.Time.{Uuid, utc, seconds}
use mosemo.Observation.Activities.{ActivityRecord, RecordType}
use mosemo.Observation.Segments.{SegmentType}
use mosemo.Observation.Projection.{feed, finish}
use mosemo.Observation.Receipts.{Database}
use mosemo.Observation.Recording.{
  activity_timeline_busy, activity_device_not_found, activity_sequence_conflict,
  activity_event_id_conflict, record_activity,
}
use mosemo.Observation.Recording.Outcomes.{Records, record_activity-Records}
use mosemo.Observation.Recording.Again.{record_activity-again}
use mosemo.Observation.Recording.Keeping.{Leaves, record_activity-Leaves}

-- What `device` saw at a second.
abbrev saw : Uuid → Uuid → ℕ → ℕ → String → ActivityRecord
saw event device sequence second kind = record {
  event_id = event;
  device_id = device;
  focus_session_id = none;
  sequence = sequence;
  record_type = RecordType.activity_observation;
  observed_at = seconds second;
  timezone_id = utc;
  utc_offset_minutes = pos 0;
  payload = record {
    context = some (record { kind = some kind; body = "" });
    state = none;
    reason = none;
  };
}

abbrev new_ids : ℕ → Uuid
new_ids n = 1000 + n

abbrev empty : Database
empty = record {
  devices =
      record { id = 1; account_id = 5; idempotency_key = 0 }
      ∷ record { id = 2; account_id = 5; idempotency_key = 1 }
      ∷ [];
  sessions = [];
  receipts = [];
  records = [];
  timeline = record { rows = []; generated = 0 };
}

abbrev first : ActivityRecord
first = saw 101 1 1 1 "x"

abbrev after_first : Database
after_first = record empty {
  records = first ∷ [];
  timeline = record {
    rows =
        record {
          id = 1000;
          account_id = 5;
          segment_type = SegmentType.activity;
          started_at = seconds 1;
          ended_at = none;
          first_event_id = 101;
          last_event_id = some 101;
          last_observed_at = some (seconds 1);
          context = some (record { kind = some "x"; body = "" });
          reason = none;
        }
        ∷ [];
    generated = 1;
  };
}

run-first : record_activity new_ids (seconds 6) 5 true first empty ≡ (ok first, after_first)
unfolding record_activity feed finish
run-first = refl

-- The timeline's lock held by another, the device's sequence again with another event, the event again with other content, and a device of
-- another account.
runs-refused :
    (record_activity new_ids (seconds 6) 5 false (saw 102 1 2 2 "x") after_first
      ≡ (err activity_timeline_busy, after_first))
    × (record_activity new_ids (seconds 6) 5 true (saw 102 1 1 2 "x") after_first
        ≡ (err activity_sequence_conflict, after_first))
    × (record_activity new_ids (seconds 6) 5 true (saw 101 1 1 1 "y") after_first
        ≡ (err activity_event_id_conflict, after_first))
    × (record_activity new_ids (seconds 6) 6 true (saw 102 1 2 2 "x") after_first
        ≡ (err activity_device_not_found, after_first))
unfolding record_activity
runs-refused = (refl, refl, refl, refl)

injective : (j k : ℕ) → new_ids j ≡ new_ids k → j ≡ k
injective j k h = omega arith

record_activity-Records_example :
    Records new_ids
      (seconds 6)
      5
      (saw 101 1 1 1 "y")
      after_first
      true
      (record_activity new_ids (seconds 6) 5 true (saw 101 1 1 1 "y") after_first)
record_activity-Records_example =
    record_activity-Records new_ids (seconds 6) 5 (saw 101 1 1 1 "y") after_first true

record_activity-again_example :
    record_activity new_ids (seconds 3600) 5 true first after_first ≡ (ok first, after_first)
record_activity-again_example =
    record_activity-again new_ids new_ids (seconds 6) (seconds 3600) 5 true true first first empty
      after_first run-first

record_activity-Leaves_example : Leaves new_ids injective (seconds 6) 5 empty after_first
record_activity-Leaves_example =
    record_activity-Leaves new_ids injective (seconds 6) 5 true first first empty after_first
      run-first tt (tt, λ k late. refl)
