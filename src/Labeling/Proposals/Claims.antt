-- ===== src/Labeling/Proposals/Claims.antt =====
-- How many attempts a proposal gets (labeling/domain/proposals.py), over any sequence of calls.
use mosemo.Prelude.{ℕ, ◌+◌, ◌≤◌, ◌≡◌, refl, Bool, true, false, List, [], ◌∷◌, arith, if◌then◌else◌}
use mosemo.Shared.Time.{Instant, Uuid}
use mosemo.Labeling.Proposals.{
  Proposal, Completion, ClaimResult, claimed, max_proposal_attempts, is_finished, try_start_attempt,
  fail_attempt, supersede_attempt, complete_attempt,
}

pub data Call : Type 0 where
  start : Instant → Uuid → Call
  fail : Uuid → Instant → Call
  supersede : Uuid → Call
  complete : Uuid → Completion → Instant → Call

abbrev is_claimed : ClaimResult → Bool
is_claimed claimed = true
is_claimed _ = false

-- The proposal after a call, and whether the call claimed an attempt.
unfoldable pub run_call : Call → Proposal → Proposal × Bool
unfolding try_start_attempt fail_attempt supersede_attempt complete_attempt
run_call (start now token) p =
    let (q, result) = try_start_attempt now token p in (q, is_claimed result)
run_call (fail token now) p = ((fail_attempt token now p).0, false)
run_call (supersede token) p = ((supersede_attempt token p).0, false)
run_call (complete token completion now) p = ((complete_attempt token completion now p).0, false)

unfoldable pub run_calls : List Call → Proposal → Proposal
run_calls [] p = p
run_calls (c ∷ cs) p = run_calls cs (run_call c p).0

unfoldable pub claims_made : List Call → Proposal → ℕ
claims_made [] p = 0
claims_made (c ∷ cs) p = (if (run_call c p).1 then 1 else 0) + claims_made cs (run_call c p).0

run_call-attempts :
    (c : Call) (p : Proposal)
    → (run_call c p).0.attempt_count ≡ p.attempt_count + (if (run_call c p).1 then 1 else 0)
unfolding run_call
run_call-attempts (start now token) p = ground arith
run_call-attempts (fail token now) p = ground arith
run_call-attempts (supersede token) p = ground arith
run_call-attempts (complete token completion now) p = ground arith

run_call-bounded :
    (c : Call) (p : Proposal)
    → p.attempt_count ≤ max_proposal_attempts
    → (run_call c p).0.attempt_count ≤ max_proposal_attempts
unfolding run_call
run_call-bounded (start now token) p h = ground arith
run_call-bounded (fail token now) p h = ground arith
run_call-bounded (supersede token) p h = ground arith
run_call-bounded (complete token completion now) p h = ground arith

-- Over any sequence of calls the attempt counter grows by one with each successful claim and in no
-- other way, and it never passes the maximum: at most three attempts are made for a new proposal.
pub claims_made-bounded :
    (cs : List Call) (p : Proposal)
    → p.attempt_count ≤ max_proposal_attempts
    → ((run_calls cs p).attempt_count ≡ p.attempt_count + claims_made cs p)
      × (p.attempt_count + claims_made cs p ≤ max_proposal_attempts)
unfolding run_calls claims_made
claims_made-bounded [] p h = omega arith
claims_made-bounded (c ∷ cs) p h =
    omega (
      arith,
      claims_made-bounded cs (run_call c p).0 (run_call-bounded c p h),
      run_call-attempts c p,
    )

run_call-finished :
    (c : Call) (p : Proposal) → is_finished p.status ≡ true → run_call c p ≡ (p, false)
unfolding run_call
run_call-finished (start now token) p h = ground arith
run_call-finished (fail token now) p h = ground arith
run_call-finished (supersede token) p h = ground arith
run_call-finished (complete token completion now) p h = ground arith

-- Once ready or superseded, a proposal is never changed again.
pub run_calls-finished :
    (cs : List Call) (p : Proposal) → is_finished p.status ≡ true → run_calls cs p ≡ p
unfolding run_calls
run_calls-finished [] p h = refl
run_calls-finished (c ∷ cs) p h = rw (run_call-finished c p h) (run_calls-finished cs p h)
