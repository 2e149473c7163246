-- ===== src/Observation/Batches.antt =====
-- src/mosemo/observation/application/batches.py: a batch of one device, processed inside one
-- transaction. `new_id` stands for `uuid7`, and the advisory lock of the direct path is an argument:
-- whether it was taken in time.
pub mod Stages
pub mod Redelivery
pub mod Consistency
mod Examples
use mosemo.Prelude.{
  ℕ, Bool, true, false, ◌||◌, Option, none, some, List, [], ◌∷◌, ◌++◌, nat_eq, ◌==◌, guard, Result,
  ok, err, ◌>>=◌, ◌>>◌, if◌then◌else◌, unit_of_work,
}
use mosemo.Shared.Time.{Instant, Uuid}
use mosemo.Identity.{find_owned_device}
use mosemo.Observation.Activities.{ActivityRecord}
use mosemo.Observation.Projected.{ProjectionError, observation_time_regression}
use mosemo.Observation.Records.{
  device_not_owned, projection_time_regression, RecordStatus, BatchStoring, store_records,
  ensure_device_order,
}
use mosemo.Observation.Merge.{find_latest_account_record}
use mosemo.Observation.Replacing.{Timeline}
use mosemo.Observation.Receipts.{
  Receipt, ActivityBatch, BatchError, terminal, projection, Database, terminally, has_for_account,
  claim_receipt, set_results, ensure_device_owned, winner_results, list_device_ids,
  is_account_clock_monotone,
}
use mosemo.Observation.Updating.{
  AccountScope, rebuild_legacy_projection, project, regression_as_terminal,
}

abbrev pub Results : Type 0
Results = List (Uuid × RecordStatus)

-- What `_initialize_account` gives: the latest record, and the timeline.
abbrev pub Initialized : Type 0
Initialized = Option ActivityRecord × Timeline

-- What the direct path raises: `ActivityTimelineBusyError`, or what processing raises.
pub data LegacyError : Type 0 where
  activity_timeline_busy : LegacyError
  batch_error : BatchError → LegacyError

abbrev pub as_legacy {ℓ} : {A : Type ℓ} → Result BatchError A → Result LegacyError A
as_legacy (ok a) = ok a
as_legacy (err e) = err (batch_error e)

module _ (new_id : ℕ → Uuid) where
  abbrev pub rebuilt_unless :
      Bool
      → AccountScope
      → List ActivityRecord
      → Option ActivityRecord
      → Timeline
      → Result BatchError Initialized
  rebuilt_unless true scope records latest t = ok (latest, t)
  rebuilt_unless false scope records none t = ok (none, t)
  rebuilt_unless false scope records (some latest) t =
      rebuild_legacy_projection new_id scope records latest t >>= λ rebuilt.
      ok (some latest, rebuilt)

  -- `_initialize_account`
  unfoldable pub initialize_account :
      AccountScope → Bool → List ActivityRecord → Timeline → Result BatchError Initialized
  unfolding rebuild_legacy_projection is_account_clock_monotone find_latest_account_record
  initialize_account scope initialized records t =
      guard (initialized || is_account_clock_monotone records scope.device_ids)
        (terminal projection_time_regression)
      >> rebuilt_unless initialized scope records
          (find_latest_account_record records scope.device_ids) t

  abbrev pub projected_if_adopted :
      AccountScope
      → BatchStoring
      → List ActivityRecord
      → Option ActivityRecord
      → Timeline
      → Result BatchError Timeline
  projected_if_adopted scope storing [] latest t = ok t
  projected_if_adopted scope storing (r ∷ adopted) latest t =
      regression_as_terminal (project new_id scope storing.records (r ∷ adopted) latest t)

  -- `process` after the receipt was claimed; `receipts` is the table with it.
  unfoldable pub process_claimed :
      Instant
      → Uuid
      → ActivityBatch
      → Bool
      → List Receipt
      → Database
      → Result BatchError (Results × Database)
  unfolding initialize_account store_records ensure_device_order project
  process_claimed now account batch initialized receipts db = do
    let scope : AccountScope = record {
      account_id = account;
      device_ids = list_device_ids db.devices account;
      now = now;
    }
    (latest, timeline) ← initialize_account scope initialized db.records db.timeline
    storing ← terminally (store_records account db.sessions db.records batch.records)
    ordered ← terminally (ensure_device_order storing.records storing.adopted)
    timeline' ← projected_if_adopted scope storing storing.adopted latest timeline
    ok (
      storing.results,
      record db {
        receipts = set_results receipts account batch storing.results;
        records = storing.records;
        timeline = timeline';
      },
    )

  abbrev pub redelivered :
      List Receipt → Uuid → ActivityBatch → Database → Result BatchError (Results × Database)
  redelivered receipts account batch db =
      winner_results receipts account batch >>= λ results. ok (results, db)

  abbrev pub process_as :
      Option (List Receipt)
      → Instant
      → Uuid
      → ActivityBatch
      → Database
      → Result BatchError (Results × Database)
  process_as none now account batch db = redelivered db.receipts account batch db
  process_as (some receipts) now account batch db =
      process_claimed now account batch (has_for_account db.receipts account) receipts db

  -- `ActivityBatchProcessor.process`
  unfoldable pub process :
      Instant → Uuid → ActivityBatch → Database → Result BatchError (Results × Database)
  unfolding process_claimed claim_receipt winner_results find_owned_device
  process now account batch db = ensure_device_owned db.devices account batch.device_id >>= λ owned.
      process_as (claim_receipt db.receipts account batch) now account batch db

  -- `ProcessActivityBatch.execute`
  unfoldable pub process_activity_batch :
      Instant → Uuid → ActivityBatch → Database → Result BatchError Results × Database
  unfolding process
  process_activity_batch now account batch db = unit_of_work (process now account batch) db

  -- `ProcessLegacyActivityBatch.execute`
  unfoldable pub process_legacy_activity_batch :
      Bool → Instant → Uuid → ActivityBatch → Database → Result LegacyError Results × Database
  unfolding process
  process_legacy_activity_batch locked now account batch db =
      unit_of_work
        (λ d. guard locked activity_timeline_busy >> as_legacy (process now account batch d)) db
