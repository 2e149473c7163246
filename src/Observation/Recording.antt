-- ===== src/Observation/Recording.antt =====
-- src/mosemo/observation/application/activities.py: recording one activity. `new_id` stands for
-- `uuid7`, and `locked` is whether the advisory lock of the timeline was taken in time. The tables are read and written by one transaction alone.

pub mod Outcomes
pub mod Again
pub mod Keeping
mod Examples
use mosemo.Prelude.{
  ℕ, Bool, true, false, none, some, List, nat_eq, ◌==◌, map, is_some, guard, require, Result, ok,
  err, ◌>>=◌, ◌>>◌, unit_of_work,
}
use mosemo.Shared.Time.{Instant, Uuid}
use mosemo.Identity.{find_owned_device}
use mosemo.Observation.Activities.{ActivityRecord, has_same_content}
use mosemo.Observation.Segments.{Segment}
use mosemo.Observation.Focus.{FocusError, validate_link}
use mosemo.Observation.Projected.{ProjectionError, converged_index}
use mosemo.Observation.Projection.{project_events}
use mosemo.Observation.Records.{find_taken, get_or_create_record}
use mosemo.Observation.Merge.{segment_rows, merged, find_replay_start}
use mosemo.Observation.Replacing.{Timeline, replace_account_segments}
use mosemo.Observation.Receipts.{Database, list_device_ids}

-- What recording raises: `ActivityTimelineBusyError`, `ActivityDeviceNotFoundError`, an error of the focus session,
-- `ActivitySequenceConflictError`, `ActivityEventIdConflictError`, or an error of the projection.
pub data RecordError : Type 0 where
  activity_timeline_busy activity_device_not_found : RecordError
  focus_session_error : FocusError → RecordError
  activity_sequence_conflict activity_event_id_conflict : RecordError
  projection_error : ProjectionError → RecordError

abbrev pub linking {ℓ} : {A : Type ℓ} → Result FocusError A → Result RecordError A
linking (ok a) = ok a
linking (err e) = err (focus_session_error e)

abbrev pub as_projection {ℓ} : {A : Type ℓ} → Result ProjectionError A → Result RecordError A
as_projection (ok a) = ok a
as_projection (err e) = err (projection_error e)

-- `list_account_segments` from a start.
unfoldable pub list_account_segments :
    List ActivityRecord → List Segment → Uuid → Instant → List Segment
unfolding segment_rows
list_account_segments records segments account start =
    map (λ row. row.0) (segment_rows records segments account start none)

-- `if not created:`, for the record that holds a key.
unfoldable pub answered :
    ActivityRecord → ActivityRecord → Database → Result RecordError (ActivityRecord × Database)
unfolding has_same_content
answered stored r db =
    guard (stored.event_id == r.event_id) activity_sequence_conflict
    >> guard (has_same_content stored r) activity_event_id_conflict
    >> ok (stored, db)

module _ (new_id : ℕ → Uuid) (now : Instant) (account : Uuid) where
  -- `_project`, where `records` is the table with the new record.
  unfoldable pub project_stored :
      List Uuid → List ActivityRecord → ActivityRecord → Timeline → Result ProjectionError Timeline
  unfolding find_replay_start list_account_segments merged project_events converged_index
      replace_account_segments
  project_stored devices records stored t =
      let start = find_replay_start t.rows account stored.observed_at in
      let existing = list_account_segments records t.rows account start in
      project_events (merged records devices start) (some now) (some stored.event_id)
        (λ s. is_some (converged_index s existing stored.observed_at))
      >>= λ projected.
          ok (replace_account_segments new_id t account projected existing stored.observed_at)

  abbrev pub recorded :
      ActivityRecord
      → ActivityRecord × Bool × List ActivityRecord
      → Database
      → Result RecordError (ActivityRecord × Database)
  recorded r (stored, false, records) db = answered stored r db
  recorded r (stored, true, records) db =
      as_projection (project_stored (list_device_ids db.devices account) records stored db.timeline)
      >>= λ t. ok (stored, record db { records = records; timeline = t })

  -- The transaction of `RecordActivity.execute` once it holds the lock.
  abbrev pub record_locked :
      ActivityRecord → Database → Result RecordError (ActivityRecord × Database)
  record_locked r db =
      require (find_owned_device db.devices account r.device_id) activity_device_not_found
      >>= λ owned.
          linking (validate_link account r db.sessions)
          >> recorded r (get_or_create_record db.records r) db

  -- The transaction of `RecordActivity.execute`.
  abbrev pub record_once :
      Bool → ActivityRecord → Database → Result RecordError (ActivityRecord × Database)
  record_once locked r db = guard locked activity_timeline_busy >> record_locked r db

  -- `RecordActivity.execute`
  unfoldable pub record_activity :
      Bool → ActivityRecord → Database → Result RecordError ActivityRecord × Database
  unfolding find_owned_device validate_link find_taken answered project_stored
  record_activity locked r db = unit_of_work (record_once locked r) db
