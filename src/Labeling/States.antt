-- ===== src/Labeling/States.antt =====
-- src/mosemo/labeling/application/states.py: the label state of a segment as a user sees it, and
-- the store that the labeling use cases read and write.
pub mod Progress
use mosemo.Prelude.{
  ℕ, String, Bool, true, false, not, ◌&&◌, Option, none, some, List, [], ◌∷◌, Eq, nat_eq, string_eq,
  ◌==◌, find, is_some, Result, ok, err, ◌>>=◌, ◌>>◌, guard, require, if◌then◌else◌,
}
use mosemo.Shared.Time.{Instant, Uuid}
use mosemo.Labels.{Label}
use mosemo.Observation.Segments.{Segment, TimelineKind, closed_detailed_activity}
use mosemo.Observation.Observed.{VersionFields, ObservedSegment, find_segment}
use mosemo.Labeling.Proposals.{Proposal, Status, has_expired_lease}
use mosemo.Labeling.Confirmations.{
  Confirmation, LabelError, segment_not_found, segment_not_labelable, assertion_failed, applies_to,
}

-- The tables that labeling reads: the timeline's, its own two and the labels.
pub record Store : Type 0 where
  pub segments : List Segment
  pub confirmations : List Confirmation
  pub proposals : List Proposal
  pub labels : List Label

pub data ProposalProgress : Type 0 where
  waiting processing failed ready : ProposalProgress

pub record ProposalState : Type 0 where
  pub progress : ProposalProgress
  pub label_id : Option Uuid
  pub suggested_at : Option Instant

pub record SegmentLabelState : Type 0 where
  pub segment_id : Uuid
  pub segment_version : String
  pub confirmation : Option Confirmation
  pub proposal : ProposalState

abbrev pub in_progress : ProposalProgress → ProposalState
in_progress p = record { progress = p; label_id = none; suggested_at = none }

abbrev pub state_in : Status → Proposal → Instant → Option ProposalState
state_in Status.superseded p now = some (in_progress ProposalProgress.waiting)
state_in Status.processing p now = some (
    in_progress
      (if has_expired_lease p now then ProposalProgress.failed else ProposalProgress.processing))
state_in Status.failed p now = some (in_progress ProposalProgress.failed)
state_in Status.ready p now = elim p.suggested_at [
  | none ↦ none
  | some at ↦ some (record {
    progress = ProposalProgress.ready;
    label_id = p.suggested_label_id;
    suggested_at = some at;
  })
]

-- A failed assertion is `none`.
unfoldable pub proposal_state : Option Proposal → Instant → Option ProposalState
proposal_state none now = some (in_progress ProposalProgress.waiting)
proposal_state (some p) now = state_in p.status p now

abbrev pub is_labelable : TimelineKind → Bool
is_labelable closed_detailed_activity = true
is_labelable _ = false

-- `ConfirmationRepository.find`
abbrev pub find_confirmation : List Confirmation → Uuid → Uuid → Option Confirmation
find_confirmation rows account event =
    find (λ c. (c.account_id == account) && (c.first_event_id == event)) rows

-- `ProposalRepository.find`
abbrev pub find_proposal : List Proposal → Uuid → Uuid → String → Option Proposal
find_proposal rows account event version =
    find
      (λ p.
        (p.account_id == account) && (p.first_event_id == event) && (p.segment_version == version))
      rows

-- `confirmation if confirmation is not None and confirmation.applies_to(version) else None`
abbrev pub applicable : Option Confirmation → String → Option Confirmation
applicable none version = none
applicable (some c) version = if applies_to c version then some c else none

module _ (digest : VersionFields → String) where
  unfoldable pub find_labelable_segment :
      List Segment → Uuid → Uuid → Instant → Result LabelError ObservedSegment
  find_labelable_segment rows account id now = do
    found ← require (find_segment digest rows account id now) assertion_failed
    segment ← require found segment_not_found
    guard (is_labelable segment.kind) segment_not_labelable
    ok segment

  -- `GetSegmentLabelState.execute`, in a read-only transaction.
  unfoldable pub get_segment_label_state :
      Store → Uuid → Uuid → Instant → Result LabelError SegmentLabelState
  unfolding find_labelable_segment proposal_state
  get_segment_label_state s account id now = do
    segment ← find_labelable_segment s.segments account id now
    version ← require segment.version assertion_failed
    let confirmation = find_confirmation s.confirmations account segment.first_event_id
    let proposal = find_proposal s.proposals account segment.first_event_id version
    state ← require (proposal_state proposal now) assertion_failed
    ok (record {
      segment_id = segment.id;
      segment_version = version;
      confirmation = applicable confirmation version;
      proposal = state;
    })
