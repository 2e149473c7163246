-- ===== src/Observation/Receipts.antt =====
-- The receipts of batches (observation/infrastructure/batch_receipts.py), and the tables and errors of
-- the batch processor of observation/application/batches.py. The tables are read and written by one
-- transaction alone.
use mosemo.Prelude.{
  ◌-◌, String, ltb, contains, Bool, false, not, ◌&&◌, Option, none, some, List, [], ◌∷◌, ◌++◌,
  nat_eq, string_eq, ◌==◌, find, keep, replace, map, any, guard, require, Result, ok, err, ◌>>=◌,
  ◌>>◌,
}
use mosemo.Shared.Time.{Uuid}
use mosemo.Identity.{Device, find_owned_device}
use mosemo.Observation.Activities.{ActivityRecord}
use mosemo.Observation.Focus.{FocusSession}
use mosemo.Observation.Projected.{ProjectionError}
use mosemo.Observation.Records.{
  TerminalBatchError, device_not_owned, batch_content_conflict, RecordStatus, nearest, is_before,
}
use mosemo.Observation.Replacing.{Timeline}

-- `ActivityBatchReceipt`
pub record Receipt : Type 0 where
  pub account_id : Uuid
  pub device_id : Uuid
  pub batch_id : Uuid
  pub fingerprint : String
  pub results : List (Uuid × RecordStatus)

pub record ActivityBatch : Type 0 where
  pub batch_id : Uuid
  pub device_id : Uuid
  pub fingerprint : String
  pub records : List ActivityRecord

-- What processing raises: `TerminalBatchError`, a `ProjectionError` or an error of a payload's
-- keys that the processor does not catch, a failed assertion, and `RuntimeError`.
pub data BatchError : Type 0 where
  terminal : TerminalBatchError → BatchError
  projection : ProjectionError → BatchError
  assertion_error receipt_winner_missing : BatchError

pub record Database : Type 0 where
  pub devices : List Device
  pub sessions : List FocusSession
  pub receipts : List Receipt
  pub records : List ActivityRecord
  pub timeline : Timeline

abbrev pub terminally {ℓ} : {A : Type ℓ} → Result TerminalBatchError A → Result BatchError A
terminally (ok a) = ok a
terminally (err e) = err (terminal e)

abbrev pub projecting {ℓ} : {A : Type ℓ} → Result ProjectionError A → Result BatchError A
projecting (ok a) = ok a
projecting (err e) = err (projection e)

abbrev pub is_receipt : Uuid → Uuid → Uuid → Receipt → Bool
is_receipt account device batch r =
    (r.account_id == account) && (r.device_id == device) && (r.batch_id == batch)

-- `BatchReceiptRepository.has_for_account`
abbrev pub has_for_account : List Receipt → Uuid → Bool
has_for_account receipts account = any (λ r. r.account_id == account) receipts

-- `BatchReceiptRepository.find`
abbrev pub find_receipt : List Receipt → Uuid → Uuid → Uuid → Option Receipt
find_receipt receipts account device batch = find (is_receipt account device batch) receipts

abbrev pub claim_unless : Option Receipt → Receipt → List Receipt → Option (List Receipt)
claim_unless none new receipts = some (receipts ++ new ∷ [])
claim_unless (some other) new receipts = none

abbrev pub new_receipt : Uuid → ActivityBatch → Receipt
new_receipt account batch = record {
  account_id = account;
  device_id = batch.device_id;
  batch_id = batch.batch_id;
  fingerprint = batch.fingerprint;
  results = [];
}

-- `BatchReceiptRepository.claim`: the table with the new receipt, if its key was free.
unfoldable pub claim_receipt : List Receipt → Uuid → ActivityBatch → Option (List Receipt)
claim_receipt receipts account batch =
    claim_unless (find_receipt receipts account batch.device_id batch.batch_id)
      (new_receipt account batch) receipts

-- `claimed.results = results`, flushed.
abbrev pub set_results :
    List Receipt → Uuid → ActivityBatch → List (Uuid × RecordStatus) → List Receipt
set_results receipts account batch results =
    replace (is_receipt account batch.device_id batch.batch_id)
      (λ r. record r { results = results }) receipts

-- `_ensure_device_owned`
abbrev pub ensure_device_owned : List Device → Uuid → Uuid → Result BatchError Uuid
ensure_device_owned devices account device =
    require (find_owned_device devices account device) (terminal device_not_owned)

-- `_winner_results`
unfoldable pub winner_results :
    List Receipt → Uuid → ActivityBatch → Result BatchError (List (Uuid × RecordStatus))
winner_results receipts account batch = do
  winner ←
      require (find_receipt receipts account batch.device_id batch.batch_id) receipt_winner_missing
  guard (winner.fingerprint == batch.fingerprint) (terminal batch_content_conflict)
  ok winner.results

-- `list_device_ids`
abbrev pub list_device_ids : List Device → Uuid → List Uuid
list_device_ids devices account = map (λ d. d.id) (keep (λ d. d.account_id == account) devices)

-- `is_account_clock_monotone`: `lag(observed_at)` over a device's records by sequence is the time of
-- the one with the greatest smaller sequence.
abbrev pub lags : List ActivityRecord → ActivityRecord → Bool
lags records r = elim (nearest (λ d. is_before d r) (λ d. r.sequence - d.sequence) records) [
  | none ↦ false
  | some previous ↦ ltb r.observed_at previous.observed_at
]

unfoldable pub is_account_clock_monotone : List ActivityRecord → List Uuid → Bool
is_account_clock_monotone records devices =
    let rows = keep (λ r. contains devices r.device_id) records in not (any (lags rows) rows)
