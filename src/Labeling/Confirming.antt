-- ===== src/Labeling/Confirming.antt =====
-- src/mosemo/labeling/application/confirmations.py: confirming one segment's label, or a batch.
mod Saving
pub mod Single
pub mod Targets
mod Persisting
mod Stored
pub mod Batches
pub mod Succeeds
mod Examples
use mosemo.Prelude.{
  ℕ, suc, ◌+◌, String, Bool, true, false, not, ◌&&◌, ◌||◌, Option, none, some, List, [], ◌∷◌, ◌++◌,
  Eq, nat_eq, string_eq, option_eq, ◌==◌, contains, replace, is_some, Result, ok, err, ◌>>=◌, ◌>>◌,
  guard, require, unit_of_work, if◌then◌else◌,
}
use mosemo.Shared.Time.{Instant, Uuid}
use mosemo.Labels.{Label, is_active}
use mosemo.Observation.Observed.{VersionFields, ObservedSegment}
use mosemo.Labeling.Confirmations.{
  Confirmation, LabelError, segment_changed, label_unavailable, confirmation_conflict,
  segment_duplicate, timeline_busy, assertion_failed, segment_not_found, segment_not_labelable,
  applies_to, accepts_batch_selection, matches_batch_selection, apply_selection,
}
use mosemo.Labeling.States.{
  Store, SegmentLabelState, proposal_state, find_confirmation, find_proposal,
  find_labelable_segment,
}

pub record LabelSelection : Type 0 where
  pub segment_id : Uuid
  pub segment_version : String
  pub label_id : Option Uuid

pub data SelectionField : Type 0 where
  segment_id segment_version selection : SelectionField

-- `BatchLabelConfirmationError`, and the errors of a batch that name no item.
pub data BatchError : Type 0 where
  item : ℕ → LabelError → SelectionField → BatchError
  whole : LabelError → BatchError

pub record Target : Type 0 where
  pub segment : ObservedSegment
  pub version : String
  pub label_id : Option Uuid

abbrev pub new_confirmation : Uuid → Uuid → Target → Instant → Confirmation
new_confirmation id account target now = record {
  id = id;
  account_id = account;
  first_event_id = target.segment.first_event_id;
  segment_version = target.version;
  label_id = target.label_id;
  confirmed_at = now;
  updated_at = now;
}

-- The confirmation that `save` leaves for a target: a new one, or the stored one after the
-- selection.
abbrev pub saved_confirmation : Uuid → Uuid → Target → Instant → Option Confirmation → Confirmation
saved_confirmation id account target now none = new_confirmation id account target now
saved_confirmation id account target now (some c) =
    apply_selection target.version target.label_id now c

-- The table with that confirmation in it.
abbrev pub save_row : Confirmation → Option Confirmation → List Confirmation → List Confirmation
save_row saved none rows = rows ++ saved ∷ []
save_row saved (some c) rows = replace (λ r. r.id == c.id) (λ r. saved) rows

-- `SegmentConfirmations.save`; `id` is what the constructor generates for a new confirmation.
unfoldable pub save :
    Uuid → Uuid → Target → Instant → Store → Result LabelError (SegmentLabelState × Store)
unfolding proposal_state
save id account target now s =
    let event = target.segment.first_event_id in
    let found = find_confirmation s.confirmations account event in
    let saved = saved_confirmation id account target now found in
    do
      state ←
          require (proposal_state (find_proposal s.proposals account event target.version) now)
            assertion_failed
      ok (
        record {
          segment_id = target.segment.id;
          segment_version = target.version;
          confirmation = some saved;
          proposal = state;
        },
        record s { confirmations = save_row saved found s.confirmations },
      )

abbrev pub label_is_active : List Label → Uuid → Option Uuid → Bool
label_is_active labels account none = true
label_is_active labels account (some label) = is_active labels account label

abbrev pub at_item {ℓ} :
    {A : Type ℓ} → ℕ → SelectionField → Result LabelError A → Result BatchError A
at_item index field (ok a) = ok a
at_item index field (err segment_not_found) = err (item index segment_not_found field)
at_item index field (err segment_not_labelable) = err (item index segment_not_labelable field)
at_item index field (err e) = err (whole e)

-- `_validate_selection`: whether the selection repeats the stored one, or a conflict.
abbrev pub validate_selection :
    ℕ → Option Uuid → String → Option Confirmation → Result BatchError Bool
validate_selection index label version none = ok false
validate_selection index label version (some c) =
    if not (accepts_batch_selection c version label)
    then err (item index confirmation_conflict selection)
    else ok (matches_batch_selection c version label)

module _ (digest : VersionFields → String) where
  -- The body of `ConfirmSegmentLabel.execute`; `free` is whether the timeline lock is acquired.
  unfoldable pub confirm_label :
      Bool
      → Uuid
      → Uuid
      → LabelSelection
      → Instant
      → Store
      → Result LabelError (SegmentLabelState × Store)
  unfolding find_labelable_segment save
  confirm_label free id account choice now s = do
    guard free timeline_busy
    segment ← find_labelable_segment digest s.segments account choice.segment_id now
    version ← require segment.version assertion_failed
    guard (choice.segment_version == version) segment_changed
    guard (label_is_active s.labels account choice.label_id) label_unavailable
    save id account (record { segment = segment; version = version; label_id = choice.label_id })
        now s

  -- `ConfirmSegmentLabel.execute`
  unfoldable pub confirm_segment_label :
      Bool
      → Uuid
      → Uuid
      → LabelSelection
      → Instant
      → Store
      → Result LabelError SegmentLabelState × Store
  unfolding confirm_label
  confirm_segment_label free id account choice now =
      unit_of_work (confirm_label free id account choice now)

  -- `ConfirmSegmentLabels._validate`
  unfoldable pub validate : ℕ → Uuid → LabelSelection → Instant → Store → Result BatchError Target
  unfolding find_labelable_segment accepts_batch_selection matches_batch_selection
  validate index account choice now s = do
    segment ←
        at_item index segment_id
          (find_labelable_segment digest s.segments account choice.segment_id now)
    version ← require segment.version (whole assertion_failed)
    guard (choice.segment_version == version) (item index segment_changed segment_version)
    repeats ←
        validate_selection index choice.label_id version
          (find_confirmation s.confirmations account segment.first_event_id)
    guard (repeats || label_is_active s.labels account choice.label_id)
        (item index label_unavailable selection)
    ok (record { segment = segment; version = version; label_id = choice.label_id })

  -- The list comprehension over `_validate`, from an index on.
  unfoldable pub validate_all :
      ℕ → Uuid → List LabelSelection → Instant → Store → Result BatchError (List Target)
  unfolding validate
  validate_all index account [] now s = ok []
  validate_all index account (choice ∷ choices) now s =
      let rest = validate_all (index + 1) account choices now s in
      do target ← validate index account choice now s; targets ← rest; ok (target ∷ targets)

-- The list comprehension over `save`; `uuid7 n` is the identifier generated for the n-th.
unfoldable pub save_all :
    (ℕ → Uuid)
    → Uuid
    → List Target
    → Instant
    → Store
    → Result LabelError (List SegmentLabelState × Store)
unfolding save
save_all uuid7 account [] now s = ok ([], s)
save_all uuid7 account (target ∷ targets) now s = do
  (state, s') ← save (uuid7 0) account target now s
  (states, s'') ← save_all (λ n. uuid7 (n + 1)) account targets now s'
  ok (state ∷ states, s'')

-- `_reject_duplicate_segments`, from an index on.
unfoldable pub reject_duplicate_segments :
    ℕ → List Uuid → List LabelSelection → Result BatchError (Unit {0})
reject_duplicate_segments index seen [] = ok tt
reject_duplicate_segments index seen (choice ∷ choices) =
    let rest = reject_duplicate_segments (index + 1) (choice.segment_id ∷ seen) choices in
    if contains seen choice.segment_id then err (item index segment_duplicate segment_id) else rest

abbrev pub as_whole {ℓ} : {A : Type ℓ} → Result LabelError A → Result BatchError A
as_whole (ok a) = ok a
as_whole (err e) = err (whole e)

module _ (digest : VersionFields → String) where
  -- The transaction of `ConfirmSegmentLabels.execute`.
  unfoldable pub confirm_labels :
      Bool
      → (ℕ → Uuid)
      → Uuid
      → List LabelSelection
      → Instant
      → Store
      → Result BatchError (List SegmentLabelState × Store)
  unfolding validate_all save_all
  confirm_labels free uuid7 account choices now s = do
    guard free (whole timeline_busy)
    targets ← validate_all digest 0 account choices now s
    as_whole (save_all uuid7 account targets now s)

  -- `ConfirmSegmentLabels.execute`
  unfoldable pub confirm_segment_labels :
      Bool
      → (ℕ → Uuid)
      → Uuid
      → List LabelSelection
      → Instant
      → Store
      → Result BatchError (List SegmentLabelState) × Store
  unfolding confirm_labels reject_duplicate_segments
  confirm_segment_labels free uuid7 account choices now s =
      unit_of_work
        (λ t.
          reject_duplicate_segments 0 [] choices >> confirm_labels free uuid7 account choices now t)
        s
