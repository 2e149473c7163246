-- ===== src/Observation/Records/Examples.antt =====
-- Storing a concrete batch: a new record, the same one again, and one whose sequence is taken.
use mosemo.Prelude.{ℕ, ◌≡◌, inl, inr, refl, arith, none, List, [], ◌∷◌, pos, ok}
use mosemo.Shared.Time.{utc}
use mosemo.Observation.Activities.{ActivityRecord, RecordType}
use mosemo.Observation.Records.{
  stored, duplicate, sequence_rejected, BatchStoring, store_records, ensure_device_order,
}
use mosemo.Observation.Records.Order.{IsClockMonotone, ensure_device_order-IsClockMonotone}

abbrev seen : ℕ → ℕ → ActivityRecord
seen event sequence = record {
  event_id = event;
  device_id = 1;
  focus_session_id = none;
  sequence = sequence;
  record_type = RecordType.activity_observation;
  observed_at = sequence;
  timezone_id = utc;
  utc_offset_minutes = pos 0;
  payload = record { context = none; state = none; reason = none };
}

abbrev batch : List ActivityRecord
batch = seen 10 1 ∷ seen 10 1 ∷ seen 11 1 ∷ []

abbrev storing : BatchStoring
storing = record {
  adopted = seen 10 1 ∷ [];
  results = (10, stored) ∷ (10, duplicate) ∷ (11, sequence_rejected) ∷ [];
  records = seen 10 1 ∷ [];
}

run-store_records : store_records 5 [] [] batch ≡ ok storing
unfolding store_records
run-store_records = refl

-- Two late records of one device, out of order in the batch.
abbrev late : List ActivityRecord
late = seen 13 5 ∷ seen 12 3 ∷ []

run-ensure_device_order : ensure_device_order (seen 10 1 ∷ late) late ≡ ok tt
unfolding ensure_device_order
run-ensure_device_order = refl

one-IsClockMonotone : IsClockMonotone (seen 10 1 ∷ [])
one-IsClockMonotone a b (inl e) (inl e') k = absurd (ground arith)
one-IsClockMonotone a b (inl e) (inr j) k = absurd j
one-IsClockMonotone a b (inr i) j k = absurd i

ensure_device_order-IsClockMonotone_example : IsClockMonotone (seen 10 1 ∷ late)
ensure_device_order-IsClockMonotone_example =
    ensure_device_order-IsClockMonotone (seen 10 1 ∷ []) late
      ((refl, (refl, tt)), ((refl, tt), (tt, tt))) one-IsClockMonotone run-ensure_device_order
