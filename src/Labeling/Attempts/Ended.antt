-- ===== src/Labeling/Attempts/Ended.antt =====
-- How an attempt ends (labeling/application/proposals.py, `ProposalAttempts.finish`).
use mosemo.Prelude.{
  ◌≡◌, ◌⊎◌, inl, inr, refl, ap, sym, subst, String, Bool, true, false, Option, none, some, nat_eq,
  string_eq, option_eq, ==_iff, arith, ok, guard, require, >>=-ok, require-ok, ok-injective,
  if◌then◌else◌,
}
use mosemo.Shared.Time.{Instant, Uuid}
use mosemo.Observation.Observed.{VersionFields, ObservedSegment, find_by_first_event}
use mosemo.Labeling.Proposals.{
  Proposal, Status, Completion, owns_attempt, is_owned_by, fail_attempt, record_failure,
  complete_attempt, supersede_attempt,
}
use mosemo.Labeling.Confirmations.{timeline_busy, assertion_failed}
use mosemo.Labeling.States.{Store, find_confirmation}
use mosemo.Labeling.Attempts.{
  ProposalClaim, Outcome, current_version, is_confirmed, is_stale, suggests_a_candidate, concluded,
  ended, find_by_id, put, finish_as, finish_owned, finish,
}

-- What each way to end an attempt leaves of it.
supersede_attempt-over :
    (token : Uuid) (p : Proposal)
    → owns_attempt p token ≡ true
    → let q = (supersede_attempt token p).0 in
      (owns_attempt q token ≡ false) × (q.status ≡ Status.ready → ⊥)
unfolding is_owned_by supersede_attempt
supersede_attempt-over token p h = (ground arith, λ e. ground arith)

fail_attempt-over :
    (token : Uuid) (now : Instant) (p : Proposal)
    → owns_attempt p token ≡ true
    → let q = (fail_attempt token now p).0 in
      (owns_attempt q token ≡ false) × (q.status ≡ Status.ready → ⊥)
unfolding is_owned_by fail_attempt record_failure
fail_attempt-over token now p h = (ground arith, λ e. ground arith)

complete_attempt-over :
    (token : Uuid) (completion : Completion) (now : Instant) (p : Proposal)
    → owns_attempt p token ≡ true
    → let q = (complete_attempt token completion now p).0 in
      (owns_attempt q token ≡ false) × (q.suggested_label_id ≡ completion.label_id)
unfolding is_owned_by complete_attempt
complete_attempt-over token completion now p h = (ground arith, ground arith)

module _ (s : Store) (c : ProposalClaim) (outcome : Option Outcome) (now : Instant) where
  -- A suggestion that may be shown: of the current version, which nobody confirmed, and with a label
  -- that the model was offered and that is active, or with none.
  abbrev pub IsSuggestion : Option String → Proposal → Type 0
  IsSuggestion current q =
      (current ≡ some c.segment_version)
      × (is_confirmed (find_confirmation s.confirmations c.account_id c.first_event_id)
            c.segment_version
          ≡ false)
      × ((o : Outcome) × (outcome ≡ some o)
          × (q.suggested_label_id ≡ o.completion.label_id)
          × (suggests_a_candidate s.labels c.account_id o.offered o.completion.label_id ≡ true))

  -- The attempt is over, and if it is ready it has a suggestion that may be shown.
  abbrev pub Ends : Option String → Proposal → Type 0
  Ends current q =
      (owns_attempt q c.lease_token ≡ false) × (q.status ≡ Status.ready → IsSuggestion current q)

  pub ended-Ends :
      (current : Option String) (p : Proposal)
      → owns_attempt p c.lease_token ≡ true
      → Ends current (ended current s c outcome now p)
  ended-Ends current p owned =
      by_stale
        (is_stale current (find_confirmation s.confirmations c.account_id c.first_event_id)
          c.segment_version)
        refl
    where
      fresh_parts :
          is_stale current
              (find_confirmation s.confirmations c.account_id c.first_event_id)
              c.segment_version
            ≡ false
          → (current ≡ some c.segment_version)
            × (is_confirmed
                  (find_confirmation s.confirmations c.account_id c.first_event_id)
                  c.segment_version
                ≡ false)
      fresh_parts e = ground (arith, ==_iff current (some c.segment_version))

      suggested :
          (o : Outcome) (b : Bool)
          → outcome ≡ some o
          → suggests_a_candidate s.labels c.account_id o.offered o.completion.label_id ≡ b
          → is_stale current
              (find_confirmation s.confirmations c.account_id c.first_event_id)
              c.segment_version
            ≡ false
          → Ends current (
              if b
              then (complete_attempt c.lease_token o.completion now p).0
              else (fail_attempt c.lease_token now p).0)
      suggested o true same e fresh =
          let over = complete_attempt-over c.lease_token o.completion now p owned in
          let parts = fresh_parts fresh in
          (over.0, λ ready. (parts.0, parts.1, (o, same, over.1, e)))
      suggested o false same e fresh =
          let over = fail_attempt-over c.lease_token now p owned in
          (over.0, λ ready. absurd (over.1 ready))

      by_outcome :
          (x : Option Outcome)
          → outcome ≡ x
          → is_stale current
              (find_confirmation s.confirmations c.account_id c.first_event_id)
              c.segment_version
            ≡ false
          → Ends current (concluded s.labels c x now p)
      by_outcome none same fresh =
          let over = fail_attempt-over c.lease_token now p owned in
          (over.0, λ ready. absurd (over.1 ready))
      by_outcome (some o) same fresh =
          suggested o (suggests_a_candidate s.labels c.account_id o.offered o.completion.label_id)
            same refl fresh

      by_stale :
          (b : Bool)
          → is_stale current
              (find_confirmation s.confirmations c.account_id c.first_event_id)
              c.segment_version
            ≡ b
          → Ends current (
              if b
              then (supersede_attempt c.lease_token p).0
              else concluded s.labels c outcome now p)
      by_stale true e =
          let over = supersede_attempt-over c.lease_token p owned in
          (over.0, λ ready. absurd (over.1 ready))
      by_stale false e = by_outcome outcome refl e

  -- What finishing did to the store.
  abbrev pub Finishes : (VersionFields → String) → Store → Type 0
  Finishes digest t =
      ((t ≡ s)
        × ((p : Proposal)
            → find_by_id s.proposals c.proposal_id ≡ some p
            → owns_attempt p c.lease_token ≡ false))
      ⊎ ((p q : Proposal) × (find_by_id s.proposals c.proposal_id ≡ some p)
          × (owns_attempt p c.lease_token ≡ true)
          × (t ≡ record s { proposals = put q (some p) s.proposals })
          × ((o : Option ObservedSegment) × (find_by_first_event digest s.segments c.account_id
                  c.first_event_id now
                ≡ some o)
              × Ends (current_version o) q))

  finish_owned-Finishes :
      (digest : VersionFields → String) (found : Option Proposal) (t : Store)
      → find_by_id s.proposals c.proposal_id ≡ found
      → finish_owned digest c outcome now s found ≡ ok (tt, t)
      → Finishes digest t
  finish_owned-Finishes digest none t e h =
      inl (sym (ap (λ r. r.1) (ok-injective h)), λ p found. absurd (cc))
  finish_owned-Finishes digest (some p) t e h = by_owner (owns_attempt p c.lease_token) refl h
    where
      by_owner :
          (b : Bool)
          → owns_attempt p c.lease_token ≡ b
          → finish_as digest b c outcome now s p ≡ ok (tt, t)
          → Finishes digest t
      by_owner false owner h = inl (
        sym (ap (λ r. r.1) (ok-injective h)),
        λ q found.
            let same : p ≡ q = cc in subst (λ x. owns_attempt x c.lease_token ≡ false) same owner,
      )
      by_owner true owner h =
          let (o, seen, made) =
            >>=-ok
              (require (find_by_first_event digest s.segments c.account_id c.first_event_id now)
                assertion_failed)
              _ h in
          inr (
            p,
            ended (current_version o) s c outcome now p,
            e,
            owner,
            sym (ap (λ r. r.1) (ok-injective made)),
            (
              o,
              require-ok (find_by_first_event digest s.segments c.account_id c.first_event_id now)
                  assertion_failed seen,
              ended-Ends (current_version o) p owner,
            ),
          )

  -- Finishing that raises nothing changes nothing if there is no stored proposal with the claim's
  -- identifier or the claim does not own its attempt. Otherwise the attempt is over, only that proposal
  -- is replaced, and it is ready only with a suggestion for the current version of the segment, which
  -- no confirmation applies to, of a label that was offered and is active, or of none.
  pub finish-Finishes :
      (digest : VersionFields → String) (free : Bool) (t : Store)
      → finish digest free c outcome now s ≡ ok (tt, t)
      → Finishes digest t
  unfolding finish
  finish-Finishes digest free t h =
      let (_, locked, h1) = >>=-ok (guard free timeline_busy) _ h in
      finish_owned-Finishes digest (find_by_id s.proposals c.proposal_id) t refl h1
