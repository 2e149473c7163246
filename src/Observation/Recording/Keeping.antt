-- ===== src/Observation/Recording/Keeping.antt =====
-- What recording an activity keeps (`RecordActivity.execute` and `_project` of
-- observation/application/activities.py).
use mosemo.Prelude.{
  ℕ, ◌≡◌, Bool, inl, inr, refl, sym, subst, none, some, List, [], ◌∷◌, ◌++◌, append-nil, All,
  is_some, ok, >>=-ok, ok-injective,
}
use mosemo.Shared.Time.{Instant, Uuid}
use mosemo.Observation.Activities.{ActivityRecord}
use mosemo.Observation.Segments.{Segment}
use mosemo.Observation.Projected.{converged_index}
use mosemo.Observation.Projection.{project_events}
use mosemo.Observation.Records.Keys.{UniqueKeys, find_taken-none, UniqueKeys-append_one}
use mosemo.Observation.Merge.{segment_rows, merged, find_replay_start}
use mosemo.Observation.Merge.Reading.{IsOwn, segment_rows-IsOwn, firsts-All}
use mosemo.Observation.Replacing.{Timeline}
use mosemo.Observation.Replacing.Ids.{IsIdentified}
use mosemo.Observation.Replacing.Accounts.{of_others}
use mosemo.Observation.Updating.Rows.{Keeps, replaced-Keeps}
use mosemo.Observation.Receipts.{Database}
use mosemo.Observation.Recording.{list_account_segments, project_stored, record_activity}
use mosemo.Observation.Recording.Outcomes.{Concludes, record_activity-ok}

list_account_segments-IsOwn :
    (records : List ActivityRecord) (rows : List Segment) (account : Uuid) (start : Instant)
    → All (IsOwn rows account) (list_account_segments records rows account start)
unfolding list_account_segments
list_account_segments-IsOwn records rows account start =
    firsts-All (IsOwn rows account) (segment_rows records rows account start none)
      (segment_rows-IsOwn records rows account start none)

module _ (new_id : ℕ → Uuid) (injective : (j k : ℕ) → new_id j ≡ new_id k → j ≡ k) (now : Instant)
    (account : Uuid) where
  project_stored-Keeps :
      (devices : List Uuid) (records : List ActivityRecord) (stored : ActivityRecord)
      (t t' : Timeline)
      → project_stored new_id now account devices records stored t ≡ ok t'
      → Keeps new_id injective account t t'
  unfolding project_stored
  project_stored-Keeps devices records stored t t' h =
      let start = find_replay_start t.rows account stored.observed_at in
      let existing = list_account_segments records t.rows account start in
      let (projected, h0, h1) =
        >>=-ok
          (project_events (merged records devices start) (some now) (some stored.event_id)
            (λ s. is_some (converged_index s existing stored.observed_at)))
          _ h in
      subst (Keeps new_id injective account t) (ok-injective h1) (
        replaced-Keeps new_id injective account t projected existing stored.observed_at
          (list_account_segments-IsOwn records t.rows account start))

  -- What recording one activity leaves, where the keys and the identifiers were unique.
  abbrev pub Leaves : Database → Database → Type 0
  Leaves db db' =
      ((adopted : List ActivityRecord) × (db'.records ≡ db.records ++ adopted))
      × UniqueKeys db'.records
      × IsIdentified new_id db'.timeline
      × (of_others account db'.timeline.rows ≡ of_others account db.timeline.rows)

  -- Recording an activity only appends to the records. If generated identifiers differ, no two records
  -- shared a key and the segments' identifiers were distinct and not generated again, all this still
  -- holds afterwards, and the segments of other accounts are the same.
  pub record_activity-Leaves :
      (locked : Bool) (r stored : ActivityRecord) (db db' : Database)
      → record_activity new_id now account locked r db ≡ (ok stored, db')
      → UniqueKeys db.records
      → IsIdentified new_id db.timeline
      → Leaves db db'
  record_activity-Leaves locked r stored db db' h keys identified =
      by_outcome (record_activity-ok new_id now account r db stored db' locked h)
    where
      by_outcome : Concludes new_id now account r db (ok stored, db') → Leaves db db'
      by_outcome (owned, linked, inl (free, same, (t, projected, made))) =
          let kept =
            project_stored-Keeps _ (db.records ++ r ∷ []) r db.timeline t projected identified in
          subst (Leaves db) (sym made) (
            (r ∷ [], refl),
            UniqueKeys-append_one db.records r keys (find_taken-none db.records r free),
            kept.0,
            kept.1,
          )
      by_outcome (owned, linked, inr (found, equal, kept)) =
          subst (Leaves db) (sym kept) (([], sym (append-nil db.records)), keys, identified, refl)
