-- ===== src/Labeling/Proposals/Leases.antt =====
-- The lease of an attempt (labeling/domain/proposals.py): one owner at a time.
use mosemo.Prelude.{◌+◌, ◌<◌, ◌≡◌, ◌≢◌, ◌↔◌, false, arith, nat_eq, option_eq}
use mosemo.Shared.Time.{Instant, Uuid}
use mosemo.Labeling.Proposals.{
  Proposal, Completion, claimed, waiting, proposal_lease_duration, try_start_attempt, fail_attempt,
  supersede_attempt, complete_attempt, needs_worker_attention,
}
use mosemo.Labeling.Proposals.Invariant.{IsValid}

-- While the lease of a claim runs, every other claim waits and changes nothing.
pub claim_exclusive :
    (now later : Instant) (token other : Uuid) (p : Proposal)
    → (try_start_attempt now token p).1 ≡ claimed
    → later < now + proposal_lease_duration
    → try_start_attempt later other (try_start_attempt now token p).0
      ≡ ((try_start_attempt now token p).0, waiting)
unfolding try_start_attempt
claim_exclusive now later token other p h l = ground arith

-- After a claim only its own token can end the attempt: with another one, failing, superseding and
-- completing all report false and leave the proposal as it was.
pub stale_owner :
    (now at : Instant) (token other : Uuid) (completion : Completion) (p : Proposal)
    → (try_start_attempt now token p).1 ≡ claimed
    → other ≢ token
    → let q = (try_start_attempt now token p).0 in
      (fail_attempt other at q ≡ (q, false))
      × (supersede_attempt other q ≡ (q, false))
      × (complete_attempt other completion at q ≡ (q, false))
unfolding try_start_attempt fail_attempt supersede_attempt complete_attempt
stale_owner now at token other completion p h ne = ground arith

-- The worker is sent to a valid proposal exactly when a claim there would change it.
pub needs_worker_attention_iff :
    (now : Instant) (token : Uuid) (p : Proposal)
    → IsValid p
    → (needs_worker_attention p now ≡ false) ↔ ((try_start_attempt now token p).0 ≡ p)
unfolding needs_worker_attention try_start_attempt
needs_worker_attention_iff now token p v = (λ h. ground arith, λ h. ground arith)
