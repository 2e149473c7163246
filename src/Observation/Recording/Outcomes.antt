-- ===== src/Observation/Recording/Outcomes.antt =====
-- How recording an activity ends (`RecordActivity.execute` of
-- observation/application/activities.py).
use mosemo.Prelude.{
  subst, ℕ, ◌≡◌, ◌⊎◌, inl, inr, refl, ◌∙◌, Bool, true, false, ◌&&◌, Option, none, some, [], ◌∷◌,
  ◌++◌, nat_eq, ◌==◌, arith, find-holds, find-none, guard, require, Result, ok, err, ◌>>=◌, ◌>>◌,
  unit_of_work,
}
use mosemo.Shared.Time.{Instant, Uuid}
use mosemo.Identity.{find_owned_device}
use mosemo.Observation.Activities.{ActivityRecord, has_same_content}
use mosemo.Observation.Focus.{FocusError, validate_link}
use mosemo.Observation.Projected.{ProjectionError}
use mosemo.Observation.Records.{
  find_by_event_id, find_by_device_sequence, by_sequence, find_taken, insert_unless,
}
use mosemo.Observation.Replacing.{Timeline}
use mosemo.Observation.Receipts.{Database, list_device_ids}
use mosemo.Observation.Recording.{
  RecordError, activity_timeline_busy, record_locked, activity_device_not_found,
  focus_session_error, activity_sequence_conflict, activity_event_id_conflict, projection_error,
  linking, as_projection, answered, project_stored, recorded, record_activity,
}

module _ (new_id : ℕ → Uuid) (now : Instant) (account : Uuid) (r : ActivityRecord)
    (db : Database) where
  -- The timeline was projected from the records with the new one.
  abbrev pub Projects : Result ProjectionError Timeline → Type 0
  Projects outcome =
      project_stored new_id now account (list_device_ids db.devices account) (db.records ++ r ∷ [])
        r db.timeline
      ≡ outcome

  -- The record is new, and was stored and projected; or the same one was stored before.
  abbrev pub Stores : ActivityRecord → Database → Type 0
  Stores stored db' =
      ((find_taken db.records r ≡ none)
        × (stored ≡ r)
        × ((t : Timeline) × Projects (ok t)
            × (db' ≡ record db { records = db.records ++ r ∷ []; timeline = t })))
      ⊎ ((find_by_event_id db.records r.event_id ≡ some stored)
          × (has_same_content stored r ≡ true)
          × (db' ≡ db))

  -- Why recording failed.
  abbrev pub Fails : RecordError → Type 0
  Fails activity_timeline_busy = ⊥
  Fails activity_device_not_found = find_owned_device db.devices account r.device_id ≡ none
  Fails (focus_session_error e) = validate_link account r db.sessions ≡ err e
  Fails activity_sequence_conflict =
      (other : ActivityRecord) × (find_by_event_id db.records r.event_id ≡ none)
      × (find_by_device_sequence db.records r.device_id r.sequence ≡ some other)
  Fails activity_event_id_conflict =
      (other : ActivityRecord) × (find_by_event_id db.records r.event_id ≡ some other)
      × (has_same_content other r ≡ false)
  Fails (projection_error e) = (find_taken db.records r ≡ none) × Projects (err e)

  abbrev pub Concludes : Result RecordError ActivityRecord × Database → Type 0
  Concludes (ok stored, db') =
      ((device : Uuid) × (find_owned_device db.devices account r.device_id ≡ some device))
      × (validate_link account r db.sessions ≡ ok tt)
      × Stores stored db'
  Concludes (err e, db') = (db' ≡ db) × Fails e

  -- Without the lock, recording is refused and changes nothing.
  abbrev pub Records : Bool → Result RecordError ActivityRecord × Database → Type 0
  Records true answer = Concludes answer
  Records false answer = answer ≡ (err activity_timeline_busy, db)

  -- A record that holds a key of the new one holds its event ID, or no record does and it holds the
  -- sequence.
  taken_by :
      (other : ActivityRecord)
      → find_taken db.records r ≡ some other
      → ((find_by_event_id db.records r.event_id ≡ some other)
          × ((other.event_id == r.event_id) ≡ true))
        ⊎ ((find_by_event_id db.records r.event_id ≡ none)
            × (find_by_device_sequence db.records r.device_id r.sequence ≡ some other))
  unfolding find_taken
  taken_by other h = by_event (find_by_event_id db.records r.event_id) refl h
    where
      by_event :
          (o : Option ActivityRecord)
          → find_by_event_id db.records r.event_id ≡ o
          → by_sequence o (find_by_device_sequence db.records r.device_id r.sequence) ≡ some other
          → ((find_by_event_id db.records r.event_id ≡ some other)
              × ((other.event_id == r.event_id) ≡ true))
            ⊎ ((find_by_event_id db.records r.event_id ≡ none)
                × (find_by_device_sequence db.records r.device_id r.sequence ≡ some other))
      by_event none e k = inr (e, k)
      by_event (some event) e k =
          let found = e ∙ k in
          inl (found, find-holds (λ d. d.event_id == r.event_id) db.records other found)

  -- A record that is answered for its own event ID.
  pub same_content :
      (other : ActivityRecord)
      → has_same_content other r ≡ true
      → (other.event_id == r.event_id) ≡ true
  unfolding has_same_content
  same_content other h = ground arith

  module _
      (owned : (device : Uuid) × (find_owned_device db.devices account r.device_id ≡ some device))
      (linked : validate_link account r db.sessions ≡ ok tt) where
    answered-Concludes :
        (other : ActivityRecord)
        → find_taken db.records r ≡ some other
        → Concludes (unit_of_work (λ d. answered other r db) db)
    unfolding answered
    answered-Concludes other taken = by_tests _ refl _ refl (taken_by other taken)
      where
        by_tests :
            (same : Bool)
            → (other.event_id == r.event_id) ≡ same
            → (equal : Bool) → has_same_content other r ≡ equal
            → ((find_by_event_id db.records r.event_id ≡ some other)
                × ((other.event_id == r.event_id) ≡ true))
              ⊎ ((find_by_event_id db.records r.event_id ≡ none)
                  × (find_by_device_sequence db.records r.device_id r.sequence ≡ some other))
            → Concludes (
                unit_of_work
                  (λ d.
                    guard same activity_sequence_conflict
                    >> guard equal activity_event_id_conflict
                    >> ok (other, db))
                  db)
        by_tests true e true f (inl (found, same)) = (owned, linked, inr (found, f, refl))
        by_tests true e false f (inl (found, same)) = (refl, (other, found, f))
        by_tests false e equal f (inl (found, same)) = absurd (cc)
        by_tests true e equal f (inr (free, sequence)) = absurd (
            let differs =
              find-none (λ d. d.event_id == r.event_id)
                (λ d. (d.device_id == r.device_id) && (d.sequence == r.sequence)) db.records other
                free sequence in
            cc)
        by_tests false e equal f (inr (free, sequence)) = (refl, (other, free, sequence))

    projected-Concludes :
        find_taken db.records r ≡ none
        → (p : Result ProjectionError Timeline) → Projects p
        → Concludes (
            unit_of_work
              (λ d. as_projection p >>= λ t.
                ok (r, record db { records = db.records ++ r ∷ []; timeline = t }))
              db)
    projected-Concludes free (ok t) e = (owned, linked, inl (free, refl, (t, e, refl)))
    projected-Concludes free (err p) e = (refl, (free, e))

    recorded-Concludes :
        (o : Option ActivityRecord)
        → find_taken db.records r ≡ o
        → Concludes
            (unit_of_work (λ d. recorded new_id now account r (insert_unless o r db.records) db) db)
    recorded-Concludes none e = projected-Concludes e _ refl
    recorded-Concludes (some other) e = answered-Concludes other e

  record_locked-Concludes : Concludes (unit_of_work (record_locked new_id now account r) db)
  unfolding find_taken
  record_locked-Concludes = by_owned (find_owned_device db.devices account r.device_id) refl
    where
      by_link :
          (device : Uuid)
          → find_owned_device db.devices account r.device_id ≡ some device
          → (link : Result FocusError (Unit {0})) → validate_link account r db.sessions ≡ link
          → Concludes (
              unit_of_work
                (λ d.
                  linking link
                  >> recorded new_id now account r
                      (insert_unless (find_taken db.records r) r db.records)
                      db)
                db)
      by_link device e (ok u) f = recorded-Concludes (device, e) f (find_taken db.records r) refl
      by_link device e (err refused) f = (refl, f)

      by_owned :
          (o : Option Uuid)
          → find_owned_device db.devices account r.device_id ≡ o
          → Concludes (
              unit_of_work
                (λ d. require o activity_device_not_found >>= λ owned.
                  linking (validate_link account r db.sessions)
                  >> recorded new_id now account r
                      (insert_unless (find_taken db.records r) r db.records)
                      db)
                db)
      by_owned none e = (refl, e)
      by_owned (some device) e = by_link device e (validate_link account r db.sessions) refl

  -- While another transaction holds the lock of the account's timeline, recording fails as busy and
  -- changes nothing. With the lock, it succeeds only for a device that the account owns and a valid
  -- link. It then stores a record whose keys were free and projects the timeline from the records
  -- with it, or, where the record was stored before with the same content, returns that one and
  -- changes nothing. When it fails, nothing changes, and the error tells why: the account does not
  -- own the device; the link is refused; the event ID is free and another record has the device's
  -- sequence; a record with the event ID has other content; or the keys are free and the projection
  -- fails.
  pub record_activity-Records :
      (locked : Bool) → Records locked (record_activity new_id now account locked r db)
  unfolding record_activity
  record_activity-Records true = record_locked-Concludes
  record_activity-Records false = refl

  -- A recording that succeeds held the lock.
  pub record_activity-ok :
      (stored : ActivityRecord) (db' : Database) (locked : Bool)
      → record_activity new_id now account locked r db ≡ (ok stored, db')
      → Concludes (ok stored, db')
  record_activity-ok stored db' locked h =
      by_lock locked (subst (Records locked) h (record_activity-Records locked))
    where
      by_lock : (b : Bool) → Records b (ok stored, db') → Concludes (ok stored, db')
      by_lock true c = c
      by_lock false c = absurd (cc)
