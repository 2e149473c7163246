-- ===== src/Labeling/Proposing/Rows.antt =====
-- Claiming and finishing change no segment (labeling/application/proposals.py).
use mosemo.Prelude.{
  ◌≡◌, refl, ap, sym, ◌∙◌, String, Bool, true, false, Option, none, some, nat_eq, Result, ok, err,
  ◌>>=◌, guard, require, >>=-ok, ok-injective, unit_of_work, if◌then◌else◌,
}
use mosemo.Shared.Time.{Instant, Uuid}
use mosemo.Observation.Activities.{Context}
use mosemo.Observation.Observed.{VersionFields, find_by_first_event}
use mosemo.Labeling.Proposals.{Proposal, owns_attempt}
use mosemo.Labeling.Confirmations.{LabelError, assertion_failed, timeline_busy}
use mosemo.Labeling.States.{Store, find_confirmation, find_proposal}
use mosemo.Labeling.Retrieval.{SuggestionInput}
use mosemo.Labeling.Attempts.{
  ProposalClaim, Outcome, current_version, is_confirmed, claim_version, attempt, claim, find_by_id,
  finish_as, finish_owned, finish,
}
use mosemo.Labeling.Proposing.{
  Round, SuggestionResult, claimed_activity, with_activity, claim_round, outcome_of, answered,
  conclude, propose_label,
}

claim_version-segments :
    (id token account event : Uuid) (now : Instant) (s : Store) (version : Option String)
    → (claim_version id token account event now s version).1.segments ≡ s.segments
claim_version-segments id token account event now s none = refl
claim_version-segments id token account event now s (some version) =
    by_confirmed (is_confirmed (find_confirmation s.confirmations account event) version)
  where
    by_confirmed :
        (b : Bool)
        → (if b
            then (none, s)
            else attempt id token account event version now s
                (find_proposal s.proposals account event version)).1.segments
          ≡ s.segments
    by_confirmed true = refl
    by_confirmed false = refl

module _ (digest : VersionFields → String) where
  claim-segments :
      (free : Bool) (id token account event : Uuid) (now : Instant) (s t : Store)
      (c : Option ProposalClaim)
      → claim digest free id token account event now s ≡ ok (c, t)
      → t.segments ≡ s.segments
  unfolding claim
  claim-segments free id token account event now s t c h =
      let (_, locked, h1) = >>=-ok (guard free timeline_busy) _ h in
      let (o, found, h2) =
        >>=-ok (require (find_by_first_event digest s.segments account event now) assertion_failed)
          _ h1 in
      ap (λ r. r.1.segments) (sym (ok-injective h2))
      ∙ claim_version-segments id token account event now s (current_version o)

  finish-segments :
      (free : Bool) (c : ProposalClaim) (outcome : Option Outcome) (now : Instant) (s t : Store)
      (u : Unit {0})
      → finish digest free c outcome now s ≡ ok (u, t)
      → t.segments ≡ s.segments
  unfolding finish
  finish-segments free c outcome now s t u h =
      let (_, locked, h1) = >>=-ok (guard free timeline_busy) _ h in
      by_found (find_by_id s.proposals c.proposal_id) h1
    where
      by_owner :
          (b : Bool) (p : Proposal)
          → finish_as digest b c outcome now s p ≡ ok (u, t)
          → t.segments ≡ s.segments
      by_owner false p e = ap (λ r. r.1.segments) (sym (ok-injective e))
      by_owner true p e =
          let (o, found, made) =
            >>=-ok
              (require (find_by_first_event digest s.segments c.account_id c.first_event_id now)
                assertion_failed)
              _ e in
          ap (λ r. r.1.segments) (sym (ok-injective made))

      by_found :
          (o : Option Proposal)
          → finish_owned digest c outcome now s o ≡ ok (u, t)
          → t.segments ≡ s.segments
      by_found none e = ap (λ r. r.1.segments) (sym (ok-injective e))
      by_found (some p) e = by_owner (owns_attempt p c.lease_token) p e

module _ (digest : VersionFields → String) (summarize : Context → Option String)
    (suggest : SuggestionInput → Option SuggestionResult) (uuid_text : Uuid → String) (r : Round)
    (meanwhile : (d : Store) → (r.meanwhile d).segments ≡ d.segments)
    (afterwards : (d : Store) → (r.afterwards d).segments ≡ d.segments) where
  -- An execution keeps the segments when other transactions do.
  pub propose_label-segments :
      (account event : Uuid) (s : Store)
      → (propose_label digest summarize suggest uuid_text r account event s).1.segments ≡ s.segments
  unfolding propose_label claim_round
  propose_label-segments account event s =
      by_claim (claim digest r.claims_free r.proposal_id r.token account event r.claimed_at s)
        (claimed_activity digest summarize s account event r.claimed_at)
        (λ c t e.
          claim-segments digest r.claims_free r.proposal_id r.token account event r.claimed_at s t c
            e)
    where
      finished :
          (d : Store) (f : Result LabelError (Unit {0} × Store))
          → ((u : Unit {0}) (t : Store) → f ≡ ok (u, t) → t.segments ≡ d.segments)
          → (answered (unit_of_work (λ (x : Store). f) d)).1.segments ≡ d.segments
      finished d (ok (u, t)) k = k u t refl
      finished d (err e) k = refl

      by_claim :
          (x : Result LabelError (Option ProposalClaim × Store)) (activity : Option String)
          → ((c : Option ProposalClaim) (t : Store) → x ≡ ok (c, t) → t.segments ≡ s.segments)
          → (conclude digest summarize suggest uuid_text r
              (unit_of_work (λ (d : Store). x >>= with_activity activity) s)).1.segments
            ≡ s.segments
      by_claim (err e) activity k = refl
      by_claim (ok (none, t)) activity k = k none t refl
      by_claim (ok (some c, t)) none k = refl
      by_claim (ok (some c, t)) (some text) k =
          let read = r.meanwhile t in
          finished (r.afterwards read)
            (finish digest r.finishes_free c
              (outcome_of digest summarize suggest uuid_text r c text read) r.finished_at
              (r.afterwards read))
            (λ u d e.
              finish-segments digest r.finishes_free c
                (outcome_of digest summarize suggest uuid_text r c text read) r.finished_at
                (r.afterwards read) d u e)
          ∙ afterwards read
          ∙ meanwhile t
          ∙ k (some c) t refl
