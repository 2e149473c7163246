-- ===== src/Observation/Recording/Again.antt =====
-- Recording an activity again (`RecordActivity.execute` of
-- observation/application/activities.py).
use mosemo.Prelude.{
  Result, err, ℕ, ◌≡◌, Bool, false, inl, inr, refl, ap, sym, ◌∙◌, true, Option, none, some, List,
  [], ◌∷◌, ◌++◌, nat_eq, int_eq, string_eq, option_eq, ◌==◌, ==_refl, find-append_one, ok, ◌>>=◌,
  ◌>>◌, require, guard, unit_of_work,
}
use mosemo.Shared.Time.{Instant, Uuid, timezone_eq}
use mosemo.Identity.{find_owned_device}
use mosemo.Observation.Activities.{
  ActivityRecord, RecordType, activity_observation, collection_state_changed, record_type_beq,
  context_eq, has_same_content,
}
use mosemo.Observation.Focus.{validate_link}
use mosemo.Observation.Records.{
  find_by_event_id, find_by_device_sequence, by_sequence, find_taken, insert_unless,
}
use mosemo.Observation.Receipts.{Database}
use mosemo.Observation.Recording.{
  RecordError, activity_timeline_busy, activity_device_not_found, activity_sequence_conflict,
  activity_event_id_conflict, linking, answered, recorded, record_activity,
}
use mosemo.Observation.Recording.Outcomes.{Concludes, same_content, record_activity-ok}

has_same_content_refl : (r : ActivityRecord) → has_same_content r r ≡ true
unfolding has_same_content
has_same_content_refl r =
    rw
      (
        ==_refl r.event_id,
        ==_refl r.device_id,
        ==_refl r.focus_session_id,
        ==_refl r.sequence,
        same_type r.record_type,
        ==_refl r.observed_at,
        ==_refl r.timezone_id,
        ==_refl r.utc_offset_minutes,
        ==_refl r.payload.context,
        ==_refl r.payload.state,
        ==_refl r.payload.reason,
      )
      refl
  where
    same_type : (t : RecordType) → record_type_beq t t ≡ true
    same_type activity_observation = refl
    same_type collection_state_changed = refl

find_taken-new :
    (records : List ActivityRecord) (r : ActivityRecord)
    → find_taken records r ≡ none
    → find_by_event_id (records ++ r ∷ []) r.event_id ≡ some r
unfolding find_taken
find_taken-new records r h =
    find-append_one (λ d. d.event_id == r.event_id) records r
      (by_event (find_by_event_id records r.event_id) h) (==_refl r.event_id)
  where
    by_event :
        (o : Option ActivityRecord)
        → by_sequence o (find_by_device_sequence records r.device_id r.sequence) ≡ none
        → o ≡ none
    by_event none k = refl
    by_event (some event) k = absurd (cc)

module _ (new_id : ℕ → Uuid) (now : Instant) (account : Uuid) (r stored : ActivityRecord)
    (db : Database) where
  record_activity-known :
      (device : Uuid)
      → find_owned_device db.devices account r.device_id ≡ some device
      → validate_link account r db.sessions ≡ ok tt
      → find_by_event_id db.records r.event_id ≡ some stored
      → has_same_content stored r ≡ true
      → record_activity new_id now account true r db ≡ (ok stored, db)
  unfolding record_activity find_taken answered
  record_activity-known device owned linked found equal =
      ap
        (λ o.
          unit_of_work
            (λ d. require o activity_device_not_found >>= λ owned.
              linking (validate_link account r db.sessions)
              >> recorded new_id now account r
                  (insert_unless
                    (by_sequence (find_by_event_id db.records r.event_id)
                      (find_by_device_sequence db.records r.device_id r.sequence))
                    r db.records)
                  db)
            db)
        owned
      ∙ ap
          (λ link.
            unit_of_work
              (λ d.
                linking link
                >> recorded new_id now account r
                    (insert_unless
                      (by_sequence (find_by_event_id db.records r.event_id)
                        (find_by_device_sequence db.records r.device_id r.sequence))
                      r db.records)
                    db)
              db)
          linked
      ∙ ap
          (λ o.
            unit_of_work
              (λ d.
                recorded new_id now account r
                  (insert_unless
                    (by_sequence o (find_by_device_sequence db.records r.device_id r.sequence)) r
                    db.records)
                  db)
              db)
          found
      ∙ ap
          (λ b.
            unit_of_work
              (λ d.
                guard b activity_sequence_conflict
                >> guard (has_same_content stored r) activity_event_id_conflict
                >> ok (stored, db))
              db)
          (same_content new_id now account r db stored equal)
      ∙ ap (λ b. unit_of_work (λ d. guard b activity_event_id_conflict >> ok (stored, db)) db) equal

-- The answer to a record that was stored before, by whether the lock was taken.
abbrev pub answer_again : Bool → ActivityRecord → Result RecordError ActivityRecord
answer_again true stored = ok stored
answer_again false stored = err activity_timeline_busy

-- Recording is idempotent: after an activity was recorded, recording the same one again in the state
-- that this left, at any time and with any identifiers generated, changes nothing. It returns the
-- record that was stored, or fails as busy while another transaction holds the lock of the account's
-- timeline.
pub record_activity-again :
    (new_id new_id' : ℕ → Uuid) (now now' : Instant) (account : Uuid) (locked locked' : Bool)
    (r stored : ActivityRecord) (db db' : Database)
    → record_activity new_id now account locked r db ≡ (ok stored, db')
    → record_activity new_id' now' account locked' r db' ≡ (answer_again locked' stored, db')
record_activity-again new_id new_id' now now' account locked locked' r stored db db' h =
    by_lock locked' (record_activity-ok new_id now account r db stored db' locked h)
  where
    again :
        Concludes new_id now account r db (ok stored, db')
        → record_activity new_id' now' account true r db' ≡ (ok stored, db')
    again ((device, owned), linked, inl (free, same, (t, projected, made))) =
        record_activity-known new_id' now' account r stored db' device
          (ap (λ d. find_owned_device d.devices account r.device_id) made ∙ owned)
          (ap (λ d. validate_link account r d.sessions) made ∙ linked)
          (ap (λ d. find_by_event_id d.records r.event_id) made
            ∙ find_taken-new db.records r free
            ∙ ap (λ x. some x) (sym same))
          (ap (λ x. has_same_content x r) same ∙ has_same_content_refl r)
    again ((device, owned), linked, inr (found, equal, kept)) =
        record_activity-known new_id' now' account r stored db' device
          (ap (λ d. find_owned_device d.devices account r.device_id) kept ∙ owned)
          (ap (λ d. validate_link account r d.sessions) kept ∙ linked)
          (ap (λ d. find_by_event_id d.records r.event_id) kept ∙ found) equal

    by_lock :
        (b : Bool)
        → Concludes new_id now account r db (ok stored, db')
        → record_activity new_id' now' account b r db' ≡ (answer_again b stored, db')
    by_lock true c = again c
    by_lock false c = unfold record_activity in refl
