-- ===== src/Labeling/Confirming/Single.antt =====
-- Confirming one segment (labeling/application/confirmations.py, `ConfirmSegmentLabel`).
use mosemo.Prelude.{
  ◌≡◌, refl, ◌∙◌, ap, sym, String, Bool, true, false, ◌&&◌, some, nat_eq, string_eq, option_eq,
  ◌==◌, ==_iff, arith, Result, ok, err, guard, require, >>=-ok, guard-ok, require-ok, unit_of_work,
}
use mosemo.Shared.Time.{Instant, Uuid}
use mosemo.Observation.Observed.{VersionFields, ObservedSegment}
use mosemo.Labeling.Confirmations.{
  Confirmation, LabelError, timeline_busy, segment_changed, label_unavailable, assertion_failed,
  matches_batch_selection,
}
use mosemo.Labeling.States.{
  Store, proposal_state, find_proposal, SegmentLabelState, find_confirmation,
  find_labelable_segment,
}
use mosemo.Labeling.Confirming.{
  LabelSelection, Target, save, save_row, saved_confirmation, confirm_label, confirm_segment_label,
  label_is_active,
}
use mosemo.Labeling.Confirming.Saving.{
  UniqueIds, IsSaved, saved_confirmation-IsSaved, find_confirmation-save_row,
  find_confirmation-save_row_ne,
}

module _ (digest : VersionFields → String) (account : Uuid) (choice : LabelSelection)
    (now : Instant) (s : Store) where
  -- The segment that a selection names can be labeled, in the version that the selection was made
  -- for, with an active label or none.
  abbrev pub IsConfirmable : ObservedSegment → Type 0
  IsConfirmable segment =
      (find_labelable_segment digest s.segments account choice.segment_id now ≡ ok segment)
      × (segment.version ≡ some choice.segment_version)
      × (label_is_active s.labels account choice.label_id ≡ true)

  -- The confirmation of the segment, and only that one, is what the selection says.
  abbrev pub IsConfirmed : ObservedSegment → SegmentLabelState → Store → Type 0
  IsConfirmed segment state t =
      (state.segment_id ≡ segment.id)
      × (state.segment_version ≡ choice.segment_version)
      × ((c : Confirmation) × (state.confirmation ≡ some c)
          × (matches_batch_selection c choice.segment_version choice.label_id ≡ true)
          × (find_confirmation t.confirmations account segment.first_event_id ≡ some c))
      × ((account' event' : Uuid)
          → ((account == account') && (segment.first_event_id == event')) ≡ false
          → find_confirmation t.confirmations account' event'
            ≡ find_confirmation s.confirmations account' event')
      × (t.segments ≡ s.segments)
      × (t.proposals ≡ s.proposals)
      × (t.labels ≡ s.labels)

  -- What a call did, by how it ended.
  abbrev pub Confirms : Result LabelError SegmentLabelState × Store → Type 0
  Confirms (ok state, t) =
      (segment : ObservedSegment) × IsConfirmable segment × IsConfirmed segment state t
  Confirms (err e, t) = t ≡ s

-- What `save` returns, if it does.
pub save_lem :
    (id account : Uuid) (target : Target) (now : Instant) (s t : Store) (state : SegmentLabelState)
    → save id account target now s ≡ ok (state, t)
    → let found = find_confirmation s.confirmations account target.segment.first_event_id in
      let saved = saved_confirmation id account target now found in
      (state.segment_id ≡ target.segment.id)
      × (state.segment_version ≡ target.version)
      × (state.confirmation ≡ some saved)
      × (t ≡ record s { confirmations = save_row saved found s.confirmations })
unfolding save
save_lem id account target now s t state h =
    let (p, known, done) =
      >>=-ok
        (require
          (proposal_state
            (find_proposal s.proposals account target.segment.first_event_id target.version) now)
          assertion_failed)
        _ h in
    ground arith

module _ (digest : VersionFields → String) (account : Uuid) (choice : LabelSelection)
    (now : Instant) (s t : Store) (state : SegmentLabelState) (segment : ObservedSegment)
    (u : UniqueIds s.confirmations) where
  -- A saved confirmation is the one of the segment, and the only one to have changed.
  save-IsConfirmed :
      (saved : Confirmation)
      → IsSaved account
          (record {
            segment = segment;
            version = choice.segment_version;
            label_id = choice.label_id;
          })
          saved
      → (state.segment_id ≡ segment.id)
        × (state.segment_version ≡ choice.segment_version)
        × (state.confirmation ≡ some saved)
        × (t ≡ record s {
          confirmations =
              save_row saved
                (find_confirmation s.confirmations account segment.first_event_id)
                s.confirmations;
        })
      → IsConfirmed digest account choice now s segment state t
  save-IsConfirmed saved k (e1, e2, e3, e4) = (
    e1,
    e2,
    (
      saved,
      e3,
      k.1,
      rw (e4) (find_confirmation-save_row account segment.first_event_id saved s.confirmations k.0),
    ),
    (λ account' event' ne. rw (e4) (
        find_confirmation-save_row_ne account segment.first_event_id account' event' saved
          s.confirmations u k.0 ne)),
    ap (λ r. r.segments) e4,
    ap (λ r. r.proposals) e4,
    ap (λ r. r.labels) e4,
  )

  -- The last step of the transaction.
  confirmed :
      (id : Uuid) (version : String)
      → version ≡ choice.segment_version
      → save id account
          (record { segment = segment; version = version; label_id = choice.label_id })
          now
          s
        ≡ ok (state, t)
      → IsConfirmed digest account choice now s segment state t
  confirmed id version same h =
      let target : Target = record {
        segment = segment;
        version = choice.segment_version;
        label_id = choice.label_id;
      } in
      save-IsConfirmed
        (saved_confirmation id account target now
          (find_confirmation s.confirmations account segment.first_event_id))
        (saved_confirmation-IsSaved id account target now s.confirmations)
        (save_lem id account target now s t state (rw same at h))

confirm_label-Confirms :
    (digest : VersionFields → String) (free : Bool) (id account : Uuid) (choice : LabelSelection)
    (now : Instant) (s t : Store) (state : SegmentLabelState)
    → UniqueIds s.confirmations
    → confirm_label digest free id account choice now s ≡ ok (state, t)
    → Confirms digest account choice now s (ok state, t)
unfolding confirm_label
confirm_label-Confirms digest free id account choice now s t state u h =
    let (_, locked, h1) = >>=-ok (guard free timeline_busy) _ h in
    let (segment, found, h2) =
      >>=-ok (find_labelable_segment digest s.segments account choice.segment_id now) _ h1 in
    let (version, known, h3) = >>=-ok (require segment.version assertion_failed) _ h2 in
    let (_, same, h4) = >>=-ok (guard (choice.segment_version == version) segment_changed) _ h3 in
    let (_, active, h5) =
      >>=-ok (guard (label_is_active s.labels account choice.label_id) label_unavailable) _ h4 in
    let names = (==_iff choice.segment_version version).0 (guard-ok _ segment_changed same) in
    (
      segment,
      (
        found,
        require-ok segment.version assertion_failed known ∙ ap some (sym names),
        guard-ok _ label_unavailable active,
      ),
      confirmed digest account choice now s t state segment u id version (sym names) h5,
    )

-- A confirmation that succeeds was for a segment that can be labeled, in its current version, with
-- an active label or none, and afterwards the confirmation of that segment, and no other, says what
-- the selection says; one that fails leaves the store as it was.
pub confirm_segment_label-Confirms :
    (digest : VersionFields → String) (free : Bool) (id account : Uuid) (choice : LabelSelection)
    (now : Instant) (s : Store)
    → UniqueIds s.confirmations
    → Confirms digest account choice now s
        (confirm_segment_label digest free id account choice now s)
unfolding confirm_segment_label
confirm_segment_label-Confirms digest free id account choice now s u =
    by_result (confirm_label digest free id account choice now s) refl
  where
    by_result :
        (r : Result LabelError (SegmentLabelState × Store))
        → confirm_label digest free id account choice now s ≡ r
        → Confirms digest account choice now s (unit_of_work (λ t. r) s)
    by_result (ok (state, t)) h =
        confirm_label-Confirms digest free id account choice now s t state u h
    by_result (err e) h = refl
