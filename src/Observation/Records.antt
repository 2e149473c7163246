-- ===== src/Observation/Records.antt =====
-- Storing a batch's records: `_store_records` of observation/application/batches.py and the keys of
-- observation/infrastructure/activity_records.py. A table is read and written by one transaction, so
-- that no concurrent insert comes between.
pub mod Keys
pub mod Replays
pub mod Nearest
pub mod Order
mod Examples
use mosemo.Prelude.{
  ℕ, ◌-◌, Bool, true, false, ◌&&◌, ◌||◌, Option, none, some, List, [], ◌∷◌, ◌++◌, nat_eq, option_eq,
  ◌==◌, ltb, guard, find, Result, ok, err, ◌>>=◌, ◌>>◌, if◌then◌else◌,
}
use mosemo.Shared.Time.{Instant, Uuid}
use mosemo.Observation.Activities.{ActivityRecord, is_in_device_order}
use mosemo.Observation.Focus.{FocusSession, FocusError, validate_link}

-- `TerminalBatchError`, with its diagnostic code.
pub data TerminalBatchError : Type 0 where
  focus_session : FocusError → TerminalBatchError
  device_not_owned batch_content_conflict projection_time_regression : TerminalBatchError

-- What a batch answers for a record.
pub data RecordStatus : Type 0 where
  stored duplicate sequence_rejected event_id_rejected : RecordStatus

abbrev pub find_by_event_id : List ActivityRecord → Uuid → Option ActivityRecord
find_by_event_id records event = find (λ r. r.event_id == event) records

abbrev pub find_by_device_sequence : List ActivityRecord → Uuid → ℕ → Option ActivityRecord
find_by_device_sequence records device sequence =
    find (λ r. (r.device_id == device) && (r.sequence == sequence)) records

-- The record that holds one of the two unique keys, looked up by event ID first.
abbrev pub by_sequence : Option ActivityRecord → Option ActivityRecord → Option ActivityRecord
by_sequence none other = other
by_sequence (some event) other = some event

unfoldable pub find_taken : List ActivityRecord → ActivityRecord → Option ActivityRecord
find_taken records r =
    by_sequence (find_by_event_id records r.event_id)
      (find_by_device_sequence records r.device_id r.sequence)

-- `_conflict_status`
unfoldable pub conflict_status : ActivityRecord → ActivityRecord → RecordStatus
conflict_status r other =
    if other.event_id == r.event_id
    then (if other.device_id == r.device_id then duplicate else event_id_rejected)
    else sequence_rejected

abbrev pub status_of : ActivityRecord → Option ActivityRecord → Option RecordStatus
status_of r none = none
status_of r (some other) = some (conflict_status r other)

-- `_rejection_status`
abbrev pub rejection_status : List ActivityRecord → ActivityRecord → Option RecordStatus
rejection_status records r = status_of r (find_taken records r)

-- `ActivityRecordRepository.get_or_create`: the stored record, whether this call created it, and the
-- table. An insert conflicts when a key is taken.
abbrev pub insert_unless :
    Option ActivityRecord
    → ActivityRecord
    → List ActivityRecord
    → ActivityRecord × Bool × List ActivityRecord
insert_unless none r records = (r, true, records ++ r ∷ [])
insert_unless (some other) r records = (other, false, records)

abbrev pub get_or_create_record :
    List ActivityRecord → ActivityRecord → ActivityRecord × Bool × List ActivityRecord
get_or_create_record records r = insert_unless (find_taken records r) r records

abbrev pub as_terminal : Result FocusError (Unit {0}) → Result TerminalBatchError (Unit {0})
as_terminal (ok u) = ok u
as_terminal (err e) = err (focus_session e)

-- What storing a record gives: the record, if it was adopted, its status and the table.
pub record Storing : Type 0 where
  pub adopted : Option ActivityRecord
  pub status : RecordStatus
  pub records : List ActivityRecord

abbrev pub created_status : ActivityRecord → ActivityRecord × Bool × List ActivityRecord → Storing
created_status r (other, created, records) =
    if created
    then record { adopted = some other; status = stored; records = records }
    else record { adopted = none; status = conflict_status r other; records = records }

abbrev pub store_unless :
    Option RecordStatus
    → Result TerminalBatchError (Unit {0})
    → ActivityRecord
    → ActivityRecord × Bool × List ActivityRecord
    → List ActivityRecord
    → Result TerminalBatchError Storing
store_unless (some status) valid r inserted records =
    ok (record { adopted = none; status = status; records = records })
store_unless none valid r inserted records = valid >> ok (created_status r inserted)

-- `_store_record`
unfoldable pub store_record :
    Uuid
    → List FocusSession
    → List ActivityRecord
    → ActivityRecord
    → Result TerminalBatchError Storing
unfolding find_taken conflict_status validate_link
store_record account sessions records r =
    store_unless (rejection_status records r) (as_terminal (validate_link account r sessions)) r
      (get_or_create_record records r) records

-- What storing a batch gives: the adopted records, the results by event ID, and the table.
pub record BatchStoring : Type 0 where
  pub adopted : List ActivityRecord
  pub results : List (Uuid × RecordStatus)
  pub records : List ActivityRecord

abbrev pub adopt : Option ActivityRecord → List ActivityRecord → List ActivityRecord
adopt none rest = rest
adopt (some r) rest = r ∷ rest

-- `_store_records`
unfoldable pub store_records :
    Uuid
    → List FocusSession
    → List ActivityRecord
    → List ActivityRecord
    → Result TerminalBatchError BatchStoring
unfolding store_record
store_records account sessions records [] =
    ok (record { adopted = []; results = []; records = records })
store_records account sessions records (r ∷ batch) = do
  one ← store_record account sessions records r
  rest ← store_records account sessions one.records batch
  ok (record {
    adopted = adopt one.adopted rest.adopted;
    results = (r.event_id, one.status) ∷ rest.results;
    records = rest.records;
  })

-- `ORDER BY distance LIMIT 1` of the records that a test picks.
abbrev pub nearer_of :
    (ActivityRecord → ℕ) → ActivityRecord → Option ActivityRecord → Option ActivityRecord
nearer_of distance r none = some r
nearer_of distance r (some other) = if ltb (distance other) (distance r) then some other else some r

abbrev pub nearest :
    (ActivityRecord → Bool) → (ActivityRecord → ℕ) → List ActivityRecord → Option ActivityRecord
nearest picks distance [] = none
nearest picks distance (d ∷ records) =
    let rest = nearest picks distance records in if picks d then nearer_of distance d rest else rest

abbrev pub is_before : ActivityRecord → ActivityRecord → Bool
is_before a b = (a.device_id == b.device_id) && ltb a.sequence b.sequence

-- The device's record with the greatest smaller sequence, and the one with the smallest greater.
abbrev pub previous_record : List ActivityRecord → ActivityRecord → Option ActivityRecord
previous_record records r = nearest (λ d. is_before d r) (λ d. r.sequence - d.sequence) records

abbrev pub next_record : List ActivityRecord → ActivityRecord → Option ActivityRecord
next_record records r = nearest (λ d. is_before r d) (λ d. d.sequence - r.sequence) records

abbrev pub observed_of : Option ActivityRecord → Option Instant
observed_of none = none
observed_of (some r) = some r.observed_at

-- `find_previous_device_observed_at`
abbrev pub find_previous_device_observed_at : List ActivityRecord → ActivityRecord → Option Instant
find_previous_device_observed_at records r = observed_of (previous_record records r)

-- `find_next_device_observed_at`
abbrev pub find_next_device_observed_at : List ActivityRecord → ActivityRecord → Option Instant
find_next_device_observed_at records r = observed_of (next_record records r)

-- `_ensure_device_order`
unfoldable pub ensure_device_order :
    List ActivityRecord → List ActivityRecord → Result TerminalBatchError (Unit {0})
unfolding is_in_device_order
ensure_device_order records [] = ok tt
ensure_device_order records (r ∷ adopted) =
    guard
      (is_in_device_order r (find_previous_device_observed_at records r)
        (find_next_device_observed_at records r))
      projection_time_regression
    >> ensure_device_order records adopted
