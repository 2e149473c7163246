-- ===== src/Labeling/Confirming/Stored.antt =====
-- What the confirmations of a batch are in the store (labeling/application/confirmations.py,
-- `ConfirmSegmentLabels`).
use mosemo.Prelude.{
  In, some, sym, ==_iff, ◌&&◌, ℕ, ◌+◌, ◌≡◌, ◌∙◌, subst, String, true, false, List, [], ◌∷◌, nat_eq,
  string_eq, option_eq, ◌==◌, arith, ok, inl, inr, All, Bool-cases, contains,
}
use mosemo.Shared.Time.{Instant, Uuid}
use mosemo.Observation.Observed.{VersionFields, ObservedSegment}
use mosemo.Labeling.Confirmations.{Confirmation, matches_batch_selection}
use mosemo.Labeling.States.{Store, SegmentLabelState, find_confirmation, find_labelable_segment}
use mosemo.Labeling.Confirming.{LabelSelection, Target, reject_duplicate_segments}
use mosemo.Labeling.Confirming.Targets.{IsTarget, AreTargets, find_labelable_segment-IsRowOf}
use mosemo.Labeling.Confirming.Persisting.{AreApart, IsApart, ArePersisted}
use mosemo.Observation.Segments.{Segment}

-- No segment is selected twice.
abbrev pub Distinct : List LabelSelection → Type 0
Distinct [] = Unit
Distinct (choice ∷ choices) =
    All (λ c. (choice.segment_id == c.segment_id) ≡ false) choices × Distinct choices

All-unseen :
    (id : Uuid) (seen : List Uuid) (choices : List LabelSelection)
    → All (λ c. contains (id ∷ seen) c.segment_id ≡ false) choices
    → All (λ c. (id == c.segment_id) ≡ false) choices
      × All (λ c. contains seen c.segment_id ≡ false) choices
All-unseen id seen [] h = (tt, tt)
All-unseen id seen (choice ∷ choices) h = ground (arith, All-unseen id seen choices)

pub reject_duplicate_segments-Distinct :
    (index : ℕ) (seen : List Uuid) (choices : List LabelSelection) (u : Unit {0})
    → reject_duplicate_segments index seen choices ≡ ok u
    → Distinct choices × All (λ c. contains seen c.segment_id ≡ false) choices
unfolding reject_duplicate_segments
reject_duplicate_segments-Distinct index seen [] u h = (tt, tt)
reject_duplicate_segments-Distinct index seen (choice ∷ choices) u h =
    elim (Bool-cases (contains seen choice.segment_id)) [
      | inl repeated ↦ absurd (ground arith)
      | inr new ↦
          let ih =
            reject_duplicate_segments-Distinct (index + 1) (choice.segment_id ∷ seen) choices u
              (rw new at h) in
          let parts = All-unseen choice.segment_id seen choices ih.1 in
          ((parts.0, ih.0), (new, parts.1))
    ]

module _ (digest : VersionFields → String) (account : Uuid) (now : Instant) (s : Store) where
  -- The table has the confirmation that the state shows, for the segment that the selection names.
  abbrev pub IsStored : Store → LabelSelection → SegmentLabelState → Type 0
  IsStored t choice state =
      (segment : ObservedSegment) × (find_labelable_segment digest s.segments account
          choice.segment_id now
        ≡ ok segment)
      × ((c : Confirmation) × (state.confirmation ≡ some c)
          × (matches_batch_selection c choice.segment_version choice.label_id ≡ true)
          × (find_confirmation t.confirmations account segment.first_event_id ≡ some c))

  abbrev pub AreStored : Store → List LabelSelection → List SegmentLabelState → Type 0
  AreStored t [] [] = Unit
  AreStored t (choice ∷ choices) (state ∷ states) =
      IsStored t choice state × AreStored t choices states
  AreStored t [] (state ∷ states) = ⊥
  AreStored t (choice ∷ choices) [] = ⊥

  -- The selection names no segment that starts with the event.
  abbrev pub NamesOther : Uuid → Uuid → LabelSelection → Type 0
  NamesOther account' event' choice =
      (segment : ObservedSegment)
      → find_labelable_segment digest s.segments account choice.segment_id now ≡ ok segment
      → ((account == account') && (segment.first_event_id == event')) ≡ false

  -- Every other confirmation is the same.
  abbrev pub KeepsOthers : List LabelSelection → Store → Type 0
  KeepsOthers choices t =
      (account' event' : Uuid)
      → All (NamesOther account' event') choices
      → find_confirmation t.confirmations account' event'
        ≡ find_confirmation s.confirmations account' event'

  -- No two segments of the account start with the same event.
  abbrev pub StartApart : Type 0
  StartApart =
      (a b : Segment)
      → In a s.segments
      → In b s.segments
      → a.account_id ≡ account
      → b.account_id ≡ account
      → a.first_event_id ≡ b.first_event_id
      → a.id ≡ b.id

  pub targets-AreApart :
      StartApart
      → (choices : List LabelSelection) (targets : List Target) → Distinct choices
      → AreTargets digest now s.segments account choices targets
      → AreApart account targets
  targets-AreApart start [] [] d k = tt
  targets-AreApart start [] (target ∷ targets) d k = absurd k
  targets-AreApart start (choice ∷ choices) [] d k = absurd k
  targets-AreApart start (choice ∷ choices) (target ∷ targets) d k =
      (rest choices targets d.0 k.1, targets-AreApart start choices targets d.1 k.1)
    where
      differ :
          (other : LabelSelection) (u : Target)
          → (choice.segment_id == other.segment_id) ≡ false
          → IsTarget digest now s.segments account other u
          → (u.segment.first_event_id == target.segment.first_event_id) ≡ false
      differ other u ne l =
          let (a, ia, oa, na, fa) =
            find_labelable_segment-IsRowOf digest now s.segments account choice.segment_id
              target.segment k.0.3 in
          let (b, ib, ob, nb, fb) =
            find_labelable_segment-IsRowOf digest now s.segments account other.segment_id u.segment
              l.3 in
          elim (Bool-cases (u.segment.first_event_id == target.segment.first_event_id)) [
            | inl e ↦ absurd (
                let same = (==_iff u.segment.first_event_id target.segment.first_event_id).0 e in
                let ids = start a b ia ib oa ob (sym fa ∙ sym same ∙ fb) in
                let equal = (==_iff choice.segment_id other.segment_id).1 (sym na ∙ ids ∙ nb) in cc)
            | inr e ↦ e
          ]

      rest :
          (others : List LabelSelection) (us : List Target)
          → All (λ c. (choice.segment_id == c.segment_id) ≡ false) others
          → AreTargets digest now s.segments account others us
          → All (λ u. (u.segment.first_event_id == target.segment.first_event_id) ≡ false) us
      rest [] [] n l = tt
      rest [] (u ∷ us) n l = absurd l
      rest (other ∷ others) [] n l = absurd l
      rest (other ∷ others) (u ∷ us) n l = (differ other u n.0 l.0, rest others us n.1 l.1)

  pub ArePersisted-AreStored :
      (t : Store) (choices : List LabelSelection) (targets : List Target)
      (states : List SegmentLabelState)
      → AreTargets digest now s.segments account choices targets
      → ArePersisted account t.confirmations targets states
      → AreStored t choices states
  ArePersisted-AreStored t [] [] [] k p = tt
  ArePersisted-AreStored t [] [] (state ∷ states) k p = absurd p
  ArePersisted-AreStored t [] (target ∷ targets) states k p = absurd k
  ArePersisted-AreStored t (choice ∷ choices) [] states k p = absurd k
  ArePersisted-AreStored t (choice ∷ choices) (target ∷ targets) [] k p = absurd p
  ArePersisted-AreStored t (choice ∷ choices) (target ∷ targets) (state ∷ states) k p =
      let ((i, version, label, found), rest) = k in
      let ((c, shown, matches, there), others) = p in
      (
        (
          target.segment,
          found,
          (
            c,
            shown,
            subst (λ l. matches_batch_selection c choice.segment_version l ≡ true) label
                (subst (λ v. matches_batch_selection c v target.label_id ≡ true) version matches),
            there,
          ),
        ),
        ArePersisted-AreStored t choices targets states rest others,
      )

  pub NamesOther-IsApart :
      (account' event' : Uuid) (choices : List LabelSelection) (targets : List Target)
      → AreTargets digest now s.segments account choices targets
      → All (NamesOther account' event') choices
      → All (IsApart account account' event') targets
  NamesOther-IsApart account' event' [] [] k h = tt
  NamesOther-IsApart account' event' [] (target ∷ targets) k h = absurd k
  NamesOther-IsApart account' event' (choice ∷ choices) [] k h = absurd k
  NamesOther-IsApart account' event' (choice ∷ choices) (target ∷ targets) k h =
      (h.0 target.segment k.0.3, NamesOther-IsApart account' event' choices targets k.1 h.1)
