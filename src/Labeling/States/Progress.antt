-- ===== src/Labeling/States/Progress.antt =====
-- What a user sees of a proposal (labeling/application/states.py) against its state machine.
use mosemo.Prelude.{◌≡◌, ◌≢◌, none, some, true, arith}
use mosemo.Shared.Time.{Instant, Uuid}
use mosemo.Labeling.Proposals.{
  Proposal, Completion, complete_attempt, fail_attempt, supersede_attempt, has_expired_lease,
  has_active_lease, is_owned_by,
}
use mosemo.Labeling.Proposals.Invariant.{IsValid}
use mosemo.Labeling.States.{ProposalProgress, in_progress, proposal_state}

-- The state of a valid proposal is always defined: no assertion fails.
pub proposal_state-total :
    (p : Proposal) (now : Instant) → IsValid p → proposal_state (some p) now ≢ none
unfolding proposal_state
proposal_state-total p now v = ground arith

-- What the user sees follows the attempt: `processing` while its lease runs, `failed` when it is
-- given up, `waiting` when it is superseded and `ready`, with the suggested label, when it is
-- completed.
pub proposal_state-attempt :
    (p : Proposal) (token : Uuid) (now at : Instant) (completion : Completion)
    → is_owned_by p token ≡ true
    → (has_active_lease p at ≡ true
        → proposal_state (some p) at ≡ some (in_progress ProposalProgress.processing))
      × (proposal_state (some (fail_attempt token now p).0) at
          ≡ some (in_progress ProposalProgress.failed))
      × (proposal_state (some (supersede_attempt token p).0) at
          ≡ some (in_progress ProposalProgress.waiting))
      × (proposal_state (some (complete_attempt token completion now p).0) at
          ≡ some (record {
            progress = ProposalProgress.ready;
            label_id = completion.label_id;
            suggested_at = some now;
          }))
unfolding proposal_state fail_attempt supersede_attempt complete_attempt has_active_lease
    has_expired_lease
proposal_state-attempt p token now at completion owned =
    (λ h. ground arith, ground arith, ground arith, ground arith)
