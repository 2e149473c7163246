-- ===== src/Labeling/Confirming/Succeeds.antt =====
-- When confirming one segment succeeds (labeling/application/confirmations.py, `ConfirmSegmentLabel`).
use mosemo.Prelude.{
  ◌≡◌, refl, ap, ◌∙◌, String, true, Option, none, some, nat_eq, string_eq, ◌==◌, ==_refl, Result,
  ok, ◌>>=◌, ◌>>◌, guard, require, unit_of_work,
}
use mosemo.Shared.Time.{Instant, Uuid}
use mosemo.Observation.Observed.{VersionFields, ObservedSegment}
use mosemo.Labeling.Proposals.{Proposal}
use mosemo.Labeling.Proposals.Invariant.{IsValid}
use mosemo.Labeling.Confirmations.{
  LabelError, timeline_busy, segment_changed, label_unavailable, assertion_failed,
}
use mosemo.Labeling.States.{
  Store, ProposalState, SegmentLabelState, proposal_state, find_proposal, find_labelable_segment,
}
use mosemo.Labeling.States.Progress.{proposal_state-total}
use mosemo.Labeling.Confirming.{
  LabelSelection, Target, save, confirm_label, confirm_segment_label, label_is_active,
}
use mosemo.Labeling.Confirming.Single.{IsConfirmable}

abbrev Succeeds {ℓ κ} : {E : Type ℓ} {A : Type κ} → Result E A → Type (ℓ ⊔ κ)
Succeeds {A = A} r = (a : A) × (r ≡ ok a)

>>=-Succeeds {ℓ κ μ} :
    {E : Type ℓ} {A : Type κ} {B : Type μ} (m : Result E A) (f : A → Result E B) (a : A)
    → m ≡ ok a
    → Succeeds (f a)
    → Succeeds (m >>= f)
>>=-Succeeds m f a e h = (h.0, ap (λ x. x >>= f) e ∙ h.1)

module _ (account : Uuid) (now : Instant) (s : Store) where
  -- The state of the proposal is defined, since every stored proposal is valid.
  known_state :
      (event : Uuid) (version : String)
      → ((p : Proposal) → find_proposal s.proposals account event version ≡ some p → IsValid p)
      → Succeeds (
          require
            (proposal_state (find_proposal s.proposals account event version) now)
            assertion_failed)
  unfolding proposal_state
  known_state event version valid =
      by_proposal (find_proposal s.proposals account event version) valid
    where
      by_state : (o : Option ProposalState) → (o ≡ none → ⊥) → Succeeds (require o assertion_failed)
      by_state none h = absurd (h refl)
      by_state (some p) h = (p, refl)

      by_proposal :
          (o : Option Proposal)
          → ((p : Proposal) → o ≡ some p → IsValid p)
          → Succeeds (require (proposal_state o now) assertion_failed)
      by_proposal none h = (_, refl)
      by_proposal (some p) h =
          by_state (proposal_state (some p) now) (proposal_state-total p now (h p refl))

  save-Succeeds :
      (id : Uuid) (target : Target)
      → ((p : Proposal)
          → find_proposal s.proposals account target.segment.first_event_id target.version ≡ some p
          → IsValid p)
      → Succeeds (save id account target now s)
  unfolding save
  save-Succeeds id target valid =
      let (state, e) = known_state target.segment.first_event_id target.version valid in
      >>=-Succeeds _ _ state e (_, refl)

confirm_label-Succeeds :
    (digest : VersionFields → String) (id account : Uuid) (choice : LabelSelection) (now : Instant)
    (s : Store) (segment : ObservedSegment)
    → IsConfirmable digest account choice now s segment
    → ((p : Proposal)
        → find_proposal s.proposals account segment.first_event_id choice.segment_version ≡ some p
        → IsValid p)
    → Succeeds (confirm_label digest true id account choice now s)
unfolding confirm_label
confirm_label-Succeeds digest id account choice now s segment (found, current, active) valid =
    >>=-Succeeds (guard true timeline_busy) (λ u. locate) tt refl
      (>>=-Succeeds (find_labelable_segment digest s.segments account choice.segment_id now) check
        segment found
        (>>=-Succeeds (require segment.version assertion_failed) (compare segment)
          choice.segment_version (ap (λ o. require o assertion_failed) current)
          (>>=-Succeeds (guard (choice.segment_version == choice.segment_version) segment_changed)
            (λ u. ask segment choice.segment_version) tt
            (ap (λ b. guard b segment_changed) (==_refl choice.segment_version))
            (>>=-Succeeds
              (guard (label_is_active s.labels account choice.label_id) label_unavailable)
              (λ u. write segment choice.segment_version) tt
              (ap (λ b. guard b label_unavailable) active)
              (save-Succeeds account now s id
                (record {
                  segment = segment;
                  version = choice.segment_version;
                  label_id = choice.label_id;
                })
                valid)))))
  where
    write : ObservedSegment → String → Result LabelError (SegmentLabelState × Store)
    write o version =
        save id account (record { segment = o; version = version; label_id = choice.label_id }) now
          s

    ask : ObservedSegment → String → Result LabelError (SegmentLabelState × Store)
    ask o version =
        guard (label_is_active s.labels account choice.label_id) label_unavailable
        >> write o version

    compare : ObservedSegment → String → Result LabelError (SegmentLabelState × Store)
    compare o version = guard (choice.segment_version == version) segment_changed >> ask o version

    check : ObservedSegment → Result LabelError (SegmentLabelState × Store)
    check o = require o.version assertion_failed >>= compare o

    locate : Result LabelError (SegmentLabelState × Store)
    locate = find_labelable_segment digest s.segments account choice.segment_id now >>= check

-- A selection of a segment that can be labeled, in its current version, with an active label or none,
-- succeeds when the timeline lock is free, if the stored proposal of that version is a valid one.
pub confirm_segment_label-succeeds :
    (digest : VersionFields → String) (id account : Uuid) (choice : LabelSelection) (now : Instant)
    (s : Store) (segment : ObservedSegment)
    → IsConfirmable digest account choice now s segment
    → ((p : Proposal)
        → find_proposal s.proposals account segment.first_event_id choice.segment_version ≡ some p
        → IsValid p)
    → (state : SegmentLabelState) × ((confirm_segment_label digest true id account choice now s).0
        ≡ ok state)
unfolding confirm_segment_label
confirm_segment_label-succeeds digest id account choice now s segment ready valid =
    let (done, e) = confirm_label-Succeeds digest id account choice now s segment ready valid in
    (done.0, ap (λ r. (unit_of_work (λ t. r) s).0) e)
