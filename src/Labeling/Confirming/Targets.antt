-- ===== src/Labeling/Confirming/Targets.antt =====
-- What a batch validates its selections to (labeling/application/confirmations.py, `_validate`).
use mosemo.Prelude.{
  ℕ, ◌+◌, ◌≡◌, refl, ◌∙◌, ap, sym, subst, String, Bool, true, ◌&&◌, ◌||◌, Option, none, some, List,
  [], ◌∷◌, nat_eq, string_eq, option_eq, ◌==◌, ==_iff, arith, Result, ok, err, guard, require,
  >>=-ok, guard-ok, require-ok, ok-injective, find, find-holds, find-In, In, and_then,
}
use mosemo.Shared.Time.{Instant, Uuid}
use mosemo.Observation.Segments.{Segment}
use mosemo.Observation.Observed.{VersionFields, ObservedSegment, observed, find_segment}
use mosemo.Labeling.Confirmations.{
  Confirmation, LabelError, segment_changed, segment_not_found, segment_not_labelable,
  label_unavailable, assertion_failed, matches_batch_selection,
}
use mosemo.Labeling.States.{
  Store, SegmentLabelState, find_confirmation, find_labelable_segment, is_labelable,
}
use mosemo.Labeling.Confirming.{
  LabelSelection, SelectionField, Target, item, whole, at_item, validate_selection, validate,
  validate_all, label_is_active,
}

-- The state that answers a selection: its segment, in its version, confirmed as selected.
abbrev pub IsAnswer : LabelSelection → SegmentLabelState → Type 0
IsAnswer choice state =
    (state.segment_id ≡ choice.segment_id)
    × (state.segment_version ≡ choice.segment_version)
    × ((c : Confirmation) × (state.confirmation ≡ some c)
        × (matches_batch_selection c choice.segment_version choice.label_id ≡ true))

-- One state for each selection, in the order of the request.
abbrev pub Answers : List LabelSelection → List SegmentLabelState → Type 0
Answers [] [] = Unit
Answers (choice ∷ choices) (state ∷ states) = IsAnswer choice state × Answers choices states
Answers [] (state ∷ states) = ⊥
Answers (choice ∷ choices) [] = ⊥

pub at_item-ok :
    (index : ℕ) (field : SelectionField) (r : Result LabelError ObservedSegment)
    (o : ObservedSegment)
    → at_item index field r ≡ ok o
    → r ≡ ok o
at_item-ok index field (ok a) o h = cc
at_item-ok index field (err e) o h = by_error e h
  where
    by_error : (e : LabelError) → at_item index field (err e) ≡ ok o → err e ≡ ok o
    by_error e h = ground arith

module _ (digest : VersionFields → String) (now : Instant) where
  -- A target that selects what the selection says, for the segment that it names.
  abbrev pub IsTarget : List Segment → Uuid → LabelSelection → Target → Type 0
  IsTarget rows account choice target =
      (target.segment.id ≡ choice.segment_id)
      × (target.version ≡ choice.segment_version)
      × (target.label_id ≡ choice.label_id)
      × (find_labelable_segment digest rows account choice.segment_id now ≡ ok target.segment)

  abbrev pub AreTargets : List Segment → Uuid → List LabelSelection → List Target → Type 0
  AreTargets rows account [] [] = Unit
  AreTargets rows account (choice ∷ choices) (target ∷ targets) =
      IsTarget rows account choice target × AreTargets rows account choices targets
  AreTargets rows account [] (target ∷ targets) = ⊥
  AreTargets rows account (choice ∷ choices) [] = ⊥

  -- The row of a segment as it is observed.
  abbrev pub IsRowOf : List Segment → Uuid → Uuid → ObservedSegment → Type 0
  IsRowOf rows account id o =
      (row : Segment) × In row rows
      × (row.account_id ≡ account)
      × (row.id ≡ id)
      × (o.first_event_id ≡ row.first_event_id)

  observed-first_event :
      (row : Segment) (o : ObservedSegment)
      → observed digest row now ≡ some o
      → o.first_event_id ≡ row.first_event_id
  unfolding observed
  observed-first_event row o h = ground arith

  pub observed-id :
      (row : Segment) (o : ObservedSegment) → observed digest row now ≡ some o → o.id ≡ row.id
  unfolding observed
  observed-id row o h = ground arith

  pub find_segment-id :
      (rows : List Segment) (account id : Uuid) (o : ObservedSegment)
      → find_segment digest rows account id now ≡ some (some o)
      → o.id ≡ id
  unfolding find_segment
  find_segment-id rows account id o h = by_row (find is_row rows) refl h
    where
      is_row : Segment → Bool
      is_row s = (s.account_id == account) && (s.id == id)

      by_row :
          (r : Option Segment)
          → find is_row rows ≡ r
          → (elim r [
            | none ↦ some none
            | some s ↦ and_then (observed digest s now) (λ o. some (some o))
          ])
            ≡ some (some o)
          → o.id ≡ id
      by_row none e h = absurd (cc)
      by_row (some row) e h =
          ground (arith, observed-id row o, find-holds is_row rows row e, ==_iff row.id id)

  -- A labelable segment is the one that was asked for.
  pub find_labelable_segment-id :
      (rows : List Segment) (account id : Uuid) (o : ObservedSegment)
      → find_labelable_segment digest rows account id now ≡ ok o
      → o.id ≡ id
  unfolding find_labelable_segment find_segment
  find_labelable_segment-id rows account id o h =
      let (r, total, h1) =
        >>=-ok (require (find_segment digest rows account id now) assertion_failed) _ h in
      let (o', there, h2) = >>=-ok (require r segment_not_found) _ h1 in
      let (_, _, h3) = >>=-ok (guard (is_labelable o'.kind) segment_not_labelable) _ h2 in
      ground (
        arith,
        find_segment-id rows account id o',
        require-ok r segment_not_found there,
        require-ok (find_segment digest rows account id now) assertion_failed total,
      )

  pub find_labelable_segment-IsRowOf :
      (rows : List Segment) (account id : Uuid) (o : ObservedSegment)
      → find_labelable_segment digest rows account id now ≡ ok o
      → IsRowOf rows account id o
  unfolding find_labelable_segment find_segment
  find_labelable_segment-IsRowOf rows account id o h =
      let (r, total, h1) =
        >>=-ok (require (find_segment digest rows account id now) assertion_failed) _ h in
      let (o', there, h2) = >>=-ok (require r segment_not_found) _ h1 in
      let (_, _, h3) = >>=-ok (guard (is_labelable o'.kind) segment_not_labelable) _ h2 in
      by_row (find is_row rows) refl (
        require-ok (find_segment digest rows account id now) assertion_failed total
        ∙ ap some (require-ok r segment_not_found there ∙ ap some (ok-injective h3)))
    where
      is_row : Segment → Bool
      is_row s = (s.account_id == account) && (s.id == id)

      by_row :
          (r : Option Segment)
          → find is_row rows ≡ r
          → (elim r [
            | none ↦ some none
            | some s ↦ and_then (observed digest s now) (λ o. some (some o))
          ])
            ≡ some (some o)
          → IsRowOf rows account id o
      by_row none e h = absurd (cc)
      by_row (some row) e h =
          let picked = find-holds is_row rows row e in
          (
            row,
            find-In is_row rows row e,
            ground (arith, ==_iff row.account_id account),
            ground (arith, ==_iff row.id id),
            ground (arith, observed-first_event row o),
          )

  -- What a valid selection is turned into.
  pub validate-IsTarget :
      (index : ℕ) (account : Uuid) (choice : LabelSelection) (s : Store) (target : Target)
      → validate digest index account choice now s ≡ ok target
      → IsTarget s.segments account choice target
  unfolding validate
  validate-IsTarget index account choice s target h =
      let (segment, found, h1) =
        >>=-ok
          (at_item index SelectionField.segment_id
            (find_labelable_segment digest s.segments account choice.segment_id now))
          _ h in
      let (version, known, h2) = >>=-ok (require segment.version (whole assertion_failed)) _ h1 in
      let (_, same, h3) =
        >>=-ok
          (guard (choice.segment_version == version)
            (item index segment_changed SelectionField.segment_version))
          _ h2 in
      let (repeats, accepted, h4) =
        >>=-ok
          (validate_selection index choice.label_id version
            (find_confirmation s.confirmations account segment.first_event_id))
          _ h3 in
      let (_, active, h5) =
        >>=-ok
          (guard (repeats || label_is_active s.labels account choice.label_id)
            (item index label_unavailable SelectionField.selection))
          _ h4 in
      let made = ok-injective h5 in
      (
        ap (λ t. t.segment.id) (sym made)
            ∙ find_labelable_segment-id s.segments account choice.segment_id segment
                (at_item-ok index SelectionField.segment_id _ segment found),
        ap (λ t. t.version) (sym made)
            ∙ sym ((==_iff choice.segment_version version).0 (guard-ok _ _ same)),
        ap (λ t. t.label_id) (sym made),
        subst
            (λ t.
              find_labelable_segment digest s.segments account choice.segment_id now ≡ ok t.segment)
            made (at_item-ok index SelectionField.segment_id _ segment found),
      )

  pub validate_all-AreTargets :
      (index : ℕ) (account : Uuid) (choices : List LabelSelection) (s : Store)
      (targets : List Target)
      → validate_all digest index account choices now s ≡ ok targets
      → AreTargets s.segments account choices targets
  unfolding validate_all
  validate_all-AreTargets index account [] s [] h = tt
  validate_all-AreTargets index account [] s (target ∷ targets) h = absurd (cc)
  validate_all-AreTargets index account (choice ∷ choices) s targets h =
      let (first, valid, h1) = >>=-ok (validate digest index account choice now s) _ h in
      let (rest, all, h2) = >>=-ok (validate_all digest (index + 1) account choices now s) _ h1 in
      subst (λ l. AreTargets s.segments account (choice ∷ choices) l) (ok-injective h2)
        (
          validate-IsTarget index account choice s first valid,
          validate_all-AreTargets (index + 1) account choices s rest all,
        )
