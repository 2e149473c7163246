-- ===== src/Labeling/Proposals/Retries.antt =====
-- Retries and the end of a proposal (labeling/domain/proposals.py).
use mosemo.Prelude.{
  ℕ, zero, suc, refl, ◌⊎◌, inl, inr, ◌+◌, ◌≤◌, ◌<◌, ◌≡◌, ◌↔◌, true, none, some, arith,
}
use mosemo.Shared.Time.{Instant, Uuid, minutes}
use mosemo.Labeling.Proposals.{
  failed, Proposal, claimed, terminal, max_proposal_attempts, proposal_lease_duration,
  try_start_attempt, fail_attempt,
}
use mosemo.Labeling.Proposals.Invariant.{IsValid}

one_to_three : (n : ℕ) → 1 ≤ n → n ≤ 3 → (n ≡ 1) ⊎ ((n ≡ 2) ⊎ (n ≡ 3))
one_to_three zero a b = absurd (omega arith)
one_to_three (suc zero) a b = inl refl
one_to_three (suc (suc zero)) a b = inr (inl refl)
one_to_three (suc (suc (suc n))) a b = inr (inr (omega arith))

-- A failed attempt is claimed again by a later call exactly if it was the first and a minute has
-- passed since it failed, or the second and five minutes have; after the third it never is.
pub retry_after_delay :
    (token other : Uuid) (now later : Instant) (p : Proposal)
    → IsValid p
    → (fail_attempt token now p).1 ≡ true
    → let q = (fail_attempt token now p).0 in
      ((try_start_attempt later other q).1 ≡ claimed) ↔ (
        ((p.attempt_count ≡ 1) × (now + minutes 1 ≤ later))
        ⊎ ((p.attempt_count ≡ 2) × (now + minutes 5 ≤ later)))
unfolding fail_attempt try_start_attempt
retry_after_delay token other now later p v h =
    elim (one_to_three p.attempt_count v.started v.bounded) [
      | inl e ↦ (λ c. inl (e, ground arith), λ c. ground arith)
      | inr (inl e) ↦ (λ c. inr (e, ground arith), λ c. ground arith)
      | inr (inr e) ↦ (λ c. absurd (ground arith), λ c. absurd (ground arith))
    ]

-- An attempt whose worker never came back is taken over once its lease has run out: the next claim
-- succeeds if attempts are left, and otherwise records the failure for good, with no lease and no
-- further attempt.
pub abandoned_attempt :
    (now later : Instant) (token other : Uuid) (p : Proposal)
    → (try_start_attempt now token p).1 ≡ claimed
    → now + proposal_lease_duration ≤ later
    → let q = (try_start_attempt now token p).0 in
      let (r, result) = try_start_attempt later other q in
      (q.attempt_count < max_proposal_attempts → (result ≡ claimed) × (r.lease_token ≡ some other))
      × (max_proposal_attempts ≤ q.attempt_count
          → (result ≡ terminal)
            × (r.status ≡ failed)
            × (r.lease_token ≡ none)
            × (r.next_attempt_at ≡ none))
unfolding try_start_attempt
abandoned_attempt now later token other p h l = (λ c. ground arith, λ c. ground arith)
