-- ===== src/Observation/Batches/Examples.antt =====
-- Processing concrete batches of two devices.
use mosemo.Prelude.{
  ℕ, ◌*◌, ◌+◌, String, ◌≡◌, refl, Option, none, some, List, [], ◌∷◌, ◌++◌, map, pos, ok, arith,
  Result, ◌>>=◌,
}
use mosemo.Shared.Time.{Uuid, utc, seconds}
use mosemo.Observation.Activities.{ActivityRecord, RecordType}
use mosemo.Observation.Segments.{SegmentType, Segment}
use mosemo.Observation.Records.{stored}
use mosemo.Observation.Replacing.Accounts.{of_others}
use mosemo.Observation.Receipts.{ActivityBatch, Database, BatchError}
use mosemo.Observation.Batches.{process}
use mosemo.Observation.Batches.Redelivery.{process-again}
use mosemo.Observation.Batches.Consistency.{IsConsistent, receipts_of_others, process-IsConsistent}

-- What `device` saw at a second.
abbrev saw : Uuid → ℕ → ℕ → String → ActivityRecord
saw device sequence second kind = record {
  event_id = device * 100 + sequence;
  device_id = device;
  focus_session_id = none;
  sequence = sequence;
  record_type = RecordType.activity_observation;
  observed_at = seconds second;
  timezone_id = utc;
  utc_offset_minutes = pos 0;
  payload = record {
    context = some (record { kind = some kind; body = "" });
    state = none;
    reason = none;
  };
}

abbrev new_ids : ℕ → Uuid
new_ids n = 1000 + n

abbrev empty : Database
empty = record {
  devices =
      record { id = 1; account_id = 5; idempotency_key = 0 }
      ∷ record { id = 2; account_id = 5; idempotency_key = 1 }
      ∷ [];
  sessions = [];
  receipts = [];
  records = [];
  timeline = record { rows = []; generated = 0 };
}

abbrev batch_of : Uuid → Uuid → List ActivityRecord → ActivityBatch
batch_of batch device records = record {
  batch_id = batch;
  device_id = device;
  fingerprint = "f";
  records = records;
}

abbrev first : ActivityBatch
first = batch_of 1 1 (saw 1 1 1 "x" ∷ saw 1 2 5 "x" ∷ [])

abbrev second : ActivityBatch
second = batch_of 2 2 (saw 2 1 5 "y" ∷ [])

abbrev third : ActivityBatch
third = batch_of 3 1 (saw 1 3 20 "z" ∷ [])

abbrev late : ActivityBatch
late = batch_of 4 2 (saw 2 2 10 "w" ∷ [])

abbrev brief : Segment → ℕ × ℕ × Option ℕ
brief s = (s.id, s.started_at, s.ended_at)

-- The segments' identifiers, starts and ends after each of the four batches was processed.
abbrev run : List ActivityBatch → Database → Result BatchError (List (ℕ × ℕ × Option ℕ))
run [] db = ok (map brief db.timeline.rows)
run (b ∷ batches) db = do (results, after) ← process new_ids (seconds 21) 5 b db; run batches after

runs-process :
    run (first ∷ second ∷ third ∷ []) empty
    ≡ ok (
        (1000, seconds 1, some (seconds 5))
        ∷ (1002, seconds 5, some (seconds 20))
        ∷ (1004, seconds 20, none)
        ∷ [])
unfolding process
runs-process = refl

-- A late record whose replay starts where two devices were observed at once: the replay begins
-- with the record that belongs to the segment before, and stores one more segment for it, at second 5.
runs-late :
    run (first ∷ second ∷ third ∷ late ∷ []) empty
    ≡ ok (
        (1000, seconds 1, some (seconds 5))
        ∷ (1004, seconds 20, none)
        ∷ (1005, seconds 5, some (seconds 5))
        ∷ (1002, seconds 5, some (seconds 10))
        ∷ (1007, seconds 10, some (seconds 20))
        ∷ [])
unfolding process
runs-late = refl

abbrev after_first : Database
after_first = record empty {
  receipts =
      record {
        account_id = 5;
        device_id = 1;
        batch_id = 1;
        fingerprint = "f";
        results = (101, stored) ∷ (102, stored) ∷ [];
      }
      ∷ [];
  records = first.records;
  timeline = record {
    rows =
        record {
          id = 1000;
          account_id = 5;
          segment_type = SegmentType.activity;
          started_at = seconds 1;
          ended_at = none;
          first_event_id = 101;
          last_event_id = some 102;
          last_observed_at = some (seconds 5);
          context = some (record { kind = some "x"; body = "" });
          reason = none;
        }
        ∷ [];
    generated = 1;
  };
}

run-first :
    process new_ids (seconds 6) 5 first empty ≡ ok ((101, stored) ∷ (102, stored) ∷ [], after_first)
unfolding process
run-first = refl

injective : (j k : ℕ) → new_ids j ≡ new_ids k → j ≡ k
injective j k h = omega arith

-- The same batch again, an hour later.
process-again_example :
    process new_ids (seconds 3600) 5 first after_first
    ≡ ok ((101, stored) ∷ (102, stored) ∷ [], after_first)
process-again_example =
    process-again new_ids new_ids (seconds 6) (seconds 3600) 5 first first empty
      ((101, stored) ∷ (102, stored) ∷ []) after_first run-first refl refl

empty-IsConsistent : IsConsistent new_ids empty
empty-IsConsistent = record {
  keys = tt;
  clocks = λ a b i j. absurd i;
  identified = (tt, λ k late. refl);
}

process-IsConsistent_example :
    IsConsistent new_ids after_first
    × ((adopted : List ActivityRecord) × (after_first.records ≡ empty.records ++ adopted))
    × (of_others 5 after_first.timeline.rows ≡ of_others 5 empty.timeline.rows)
    × (receipts_of_others 5 after_first.receipts ≡ receipts_of_others 5 empty.receipts)
process-IsConsistent_example =
    process-IsConsistent new_ids injective (seconds 6) 5 first empty
      ((101, stored) ∷ (102, stored) ∷ []) after_first run-first empty-IsConsistent
