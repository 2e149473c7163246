-- ===== src/Labeling/Proposing/Concluded.antt =====
-- An execution of `ProposeLabel` leaves no attempt behind (labeling/application/proposals.py).
use mosemo.Prelude.{
  ◌≡◌, refl, ap, sym, ◌∙◌, String, Bool, true, false, Option, none, some, nat_eq, string_eq,
  option_eq, ◌==◌, ==_refl, arith, find-holds, find-replace, Result, ok, err, ◌>>=◌, guard, require,
  >>=-ok, require-ok, ok-injective, unit_of_work, if◌then◌else◌,
}
use mosemo.Shared.Time.{Instant, Uuid}
use mosemo.Observation.Activities.{Context}
use mosemo.Observation.Observed.{VersionFields, ObservedSegment, find_by_first_event}
use mosemo.Labeling.Proposals.{
  Proposal, owns_attempt, is_owned_by, fail_attempt, record_failure, complete_attempt,
  supersede_attempt,
}
use mosemo.Labeling.Confirmations.{LabelError, timeline_busy, assertion_failed}
use mosemo.Labeling.States.{Store, find_confirmation}
use mosemo.Labeling.Attempts.{
  ProposalClaim, Outcome, current_version, is_stale, suggests_a_candidate, concluded, ended,
  find_by_id, claim, finish_as, finish_owned, finish,
}
use mosemo.Labeling.Attempts.Ended.{Ends, ended-Ends}
use mosemo.Labeling.Retrieval.{SuggestionInput}
use mosemo.Labeling.Proposing.{
  Round, SuggestionResult, claimed_activity, with_activity, claim_round, outcome_of, answered,
  conclude, propose_label,
}

fail_attempt-id :
    (token : Uuid) (now : Instant) (p : Proposal) → (fail_attempt token now p).0.id ≡ p.id
unfolding fail_attempt record_failure is_owned_by
fail_attempt-id token now p = ground arith

supersede_attempt-id : (token : Uuid) (p : Proposal) → (supersede_attempt token p).0.id ≡ p.id
unfolding supersede_attempt is_owned_by
supersede_attempt-id token p = ground arith

complete_attempt-id :
    (token : Uuid) (o : Outcome) (now : Instant) (p : Proposal)
    → (complete_attempt token o.completion now p).0.id ≡ p.id
unfolding complete_attempt is_owned_by
complete_attempt-id token o now p = ground arith

module _ (s : Store) (c : ProposalClaim) (outcome : Option Outcome) (now : Instant) where
  ended-id : (current : Option String) (p : Proposal) → (ended current s c outcome now p).id ≡ p.id
  ended-id current p = by_stale (
      is_stale current (find_confirmation s.confirmations c.account_id c.first_event_id)
        c.segment_version)
    where
      by_label :
          (o : Outcome) (b : Bool)
          → (if b
              then (complete_attempt c.lease_token o.completion now p).0
              else (fail_attempt c.lease_token now p).0).id
            ≡ p.id
      by_label o true = complete_attempt-id c.lease_token o now p
      by_label o false = fail_attempt-id c.lease_token now p

      by_outcome : (o : Option Outcome) → (concluded s.labels c o now p).id ≡ p.id
      by_outcome none = fail_attempt-id c.lease_token now p
      by_outcome (some o) =
          by_label o (suggests_a_candidate s.labels c.account_id o.offered o.completion.label_id)

      by_stale :
          (b : Bool)
          → (if b
              then (supersede_attempt c.lease_token p).0
              else concluded s.labels c outcome now p).id
            ≡ p.id
      by_stale true = supersede_attempt-id c.lease_token p
      by_stale false = by_outcome outcome

  -- The claimed proposal, with its attempt over.
  abbrev pub IsOver : (VersionFields → String) → Store → Type 0
  IsOver digest t =
      (q : Proposal) × (find_by_id t.proposals c.proposal_id ≡ some q)
      × ((o : Option ObservedSegment) × (find_by_first_event digest s.segments c.account_id
              c.first_event_id now
            ≡ some o)
          × Ends s c outcome now (current_version o) q)

  finish-IsOver :
      (digest : VersionFields → String) (free : Bool) (p : Proposal) (u : Unit {0}) (t : Store)
      → find_by_id s.proposals c.proposal_id ≡ some p
      → owns_attempt p c.lease_token ≡ true
      → finish digest free c outcome now s ≡ ok (u, t)
      → IsOver digest t
  unfolding finish
  finish-IsOver digest free p u t there owned h =
      let (_, locked, h1) = >>=-ok (guard free timeline_busy) _ h in
      let h2 : finish_as digest (owns_attempt p c.lease_token) c outcome now s p ≡ ok (u, t) =
        sym (ap (finish_owned digest c outcome now s) there) ∙ h1 in
      let h3 : finish_as digest true c outcome now s p ≡ ok (u, t) =
        sym (ap (λ b. finish_as digest b c outcome now s p) owned) ∙ h2 in
      let (o, seen, made) =
        >>=-ok
          (require (find_by_first_event digest s.segments c.account_id c.first_event_id now)
            assertion_failed)
          _ h3 in
      let q = ended (current_version o) s c outcome now p in
      let named : (p.id == c.proposal_id) ≡ true =
        find-holds (λ r. r.id == c.proposal_id) s.proposals p there in
      let same = ended-id (current_version o) p in
      (
        q,
        ap (λ r. find_by_id r.1.proposals c.proposal_id) (sym (ok-injective made))
            ∙ find-replace (λ r. r.id == c.proposal_id) (λ r. r.id == p.id) s.proposals p q there
                (==_refl p.id) (rw same named),
        (
          o,
          require-ok (find_by_first_event digest s.segments c.account_id c.first_event_id now)
              assertion_failed seen,
          ended-Ends s c outcome now (current_version o) p owned,
        ),
      )

module _ (digest : VersionFields → String) (summarize : Context → Option String)
    (suggest : SuggestionInput → Option SuggestionResult) (uuid_text : Uuid → String) (r : Round)
    (account event : Uuid) (s s1 t : Store) (c : ProposalClaim) where
  -- What the execution read for its request, and what it finished on.
  abbrev pub read_store : Store
  read_store = r.meanwhile s1

  abbrev pub finish_store : Store
  finish_store = r.afterwards read_store

  -- An execution that claimed an attempt and returned has ended it, whatever the model did: if the claim
  -- still owns the attempt in the tables that other transactions left, then its proposal is owned no
  -- longer, and it is ready only with a suggestion for the current version of the segment, which no
  -- confirmation applies to, of a label that the request offered and that is still active, or of none.
  -- The request was built on the tables as they were after the claim and other transactions.
  pub propose_label-IsOver :
      (p : Proposal)
      → claim digest r.claims_free r.proposal_id r.token account event r.claimed_at s
        ≡ ok (some c, s1)
      → find_by_id finish_store.proposals c.proposal_id ≡ some p
      → owns_attempt p c.lease_token ≡ true
      → propose_label digest summarize suggest uuid_text r account event s ≡ (ok true, t)
      → (activity : String) × (claimed_activity digest summarize s account event r.claimed_at
          ≡ some activity)
        × IsOver finish_store c
            (outcome_of digest summarize suggest uuid_text r c activity read_store)
            r.finished_at
            digest
            t
  unfolding propose_label claim_round
  propose_label-IsOver p claimed there owned h =
      by_activity (claimed_activity digest summarize s account event r.claimed_at) refl (
        sym (
          ap
            (λ x. conclude digest summarize suggest uuid_text r (
              unit_of_work
                (λ (d : Store).
                  x
                  >>= with_activity
                      (claimed_activity digest summarize s account event r.claimed_at))
                s))
            claimed)
        ∙ h)
    where
      finished :
          (activity : String) (f : Result LabelError (Unit {0} × Store))
          → finish digest r.finishes_free c
              (outcome_of digest summarize suggest uuid_text r c activity read_store)
              r.finished_at
              finish_store
            ≡ f
          → answered (unit_of_work (λ (d : Store). f) finish_store) ≡ (ok true, t)
          → IsOver finish_store c
              (outcome_of digest summarize suggest uuid_text r c activity read_store)
              r.finished_at
              digest
              t
      finished activity (err e) k l = absurd (cc)
      finished activity (ok (u, v)) k l =
          finish-IsOver finish_store c
            (outcome_of digest summarize suggest uuid_text r c activity read_store) r.finished_at
            digest r.finishes_free p u t there owned (k ∙ ap (λ x. ok (u, x)) (ap (λ x. x.1) l))

      by_activity :
          (o : Option String)
          → claimed_activity digest summarize s account event r.claimed_at ≡ o
          → conclude digest summarize suggest uuid_text r
              (unit_of_work (λ (d : Store). with_activity o (some c, s1)) s)
            ≡ (ok true, t)
          → (activity : String) × (claimed_activity digest summarize s account event r.claimed_at
              ≡ some activity)
            × IsOver finish_store c
                (outcome_of digest summarize suggest uuid_text r c activity read_store)
                r.finished_at
                digest
                t
      by_activity none e k = absurd (cc)
      by_activity (some activity) e k = (
        activity,
        e,
        finished activity
            (finish digest r.finishes_free c
              (outcome_of digest summarize suggest uuid_text r c activity read_store) r.finished_at
              finish_store)
            refl k,
      )
