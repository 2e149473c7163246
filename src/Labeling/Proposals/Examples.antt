-- ===== src/Labeling/Proposals/Examples.antt =====
-- The theorems on proposals at concrete inputs.
use mosemo.Prelude.{◌⊎◌, ◌≤◌, ◌<◌, ◌≡◌, ◌↔◌, ◌+◌, refl, none, some, List, [], ◌∷◌, arith}
use mosemo.Shared.Time.{minutes}
use mosemo.Labeling.Proposals.{
  Proposal, Completion, claimed, waiting, terminal, failed, fresh, try_start_attempt, fail_attempt,
  complete_attempt, max_proposal_attempts,
}
use mosemo.Labeling.Proposals.Invariant.{
  IsValid, here, next, Step, history-IsValid, try_start_attempt-fresh,
}
use mosemo.Labeling.Proposals.Leases.{claim_exclusive}
use mosemo.Labeling.Proposals.Retries.{retry_after_delay, abandoned_attempt}
use mosemo.Labeling.Proposals.Claims
use mosemo.Labeling.Proposals.Claims.{
  Call, run_calls, claims_made, claims_made-bounded, run_calls-finished,
}

abbrev new : Proposal
new = fresh 1 2 3 "v"

abbrev completion : Completion
completion = record {
  label_id = some 9;
  provider = "p";
  model = "m";
  prompt_version = "v1";
  retrieved_example_ids = [];
  latency_ms = 12;
  input_tokens = none;
  output_tokens = none;
}

abbrev first_claim : Proposal
first_claim = (try_start_attempt 0 77 new).0

first_claim-IsValid : IsValid first_claim
first_claim-IsValid = (try_start_attempt-fresh 1 2 3 "v" 0 77).1

history-IsValid_example : IsValid (fail_attempt 77 5 first_claim).0
history-IsValid_example = history-IsValid 1 2 3 "v" 0 77 (next here (Step.fail 77 5))

claim_exclusive_example : try_start_attempt (minutes 1) 78 first_claim ≡ (first_claim, waiting)
claim_exclusive_example =
    claim_exclusive 0 (minutes 1) 77 78 new (try_start_attempt-fresh 1 2 3 "v" 0 77).0 (omega arith)

retry_after_delay_example :
    let q = (fail_attempt 77 5 first_claim).0 in
    ((try_start_attempt 60000005 78 q).1 ≡ claimed) ↔ (
      ((first_claim.attempt_count ≡ 1) × (5 + minutes 1 ≤ 60000005))
      ⊎ ((first_claim.attempt_count ≡ 2) × (5 + minutes 5 ≤ 60000005)))
unfolding try_start_attempt fail_attempt
retry_after_delay_example = retry_after_delay 77 78 5 60000005 first_claim first_claim-IsValid refl

abandoned_attempt_example :
    let (r, result) = try_start_attempt (minutes 2) 78 first_claim in
    (first_claim.attempt_count < max_proposal_attempts
      → (result ≡ claimed) × (r.lease_token ≡ some 78))
    × (max_proposal_attempts ≤ first_claim.attempt_count
        → (result ≡ terminal)
          × (r.status ≡ failed)
          × (r.lease_token ≡ none)
          × (r.next_attempt_at ≡ none))
abandoned_attempt_example =
    abandoned_attempt 0 (minutes 2) 77 78 new (try_start_attempt-fresh 1 2 3 "v" 0 77).0
      (omega arith)

abbrev calls : List Call
calls =
    Call.start 0 77
    ∷ Call.fail 77 1
    ∷ Call.start (minutes 2) 78
    ∷ Call.complete 78 completion 9
    ∷ []

claims_made-bounded_example :
    ((run_calls calls new).attempt_count ≡ new.attempt_count + claims_made calls new)
    × (new.attempt_count + claims_made calls new ≤ max_proposal_attempts)
claims_made-bounded_example = claims_made-bounded calls new (omega arith)

-- A run through two attempts ends ready.
two_attempts : claims_made calls new ≡ 2
unfolding claims_made Claims.run_call try_start_attempt fail_attempt complete_attempt
two_attempts = refl
