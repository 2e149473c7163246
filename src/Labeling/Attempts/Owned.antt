-- ===== src/Labeling/Attempts/Owned.antt =====
-- What a claim owns (labeling/application/proposals.py, `ProposalAttempts.claim`).
use mosemo.Prelude.{
  ◌≡◌, refl, ap, sym, subst, String, Bool, true, false, ◌&&◌, Option, none, some, List, nat_eq,
  string_eq, ◌==◌, ==_refl, find-holds, find-append_one, find-replace, arith, ok, guard, require,
  >>=-ok, require-ok, ok-injective, if◌then◌else◌,
}
use mosemo.Shared.Time.{Instant, Uuid}
use mosemo.Observation.Observed.{VersionFields, ObservedSegment, find_by_first_event}
use mosemo.Labeling.Proposals.{
  Proposal, ClaimResult, claimed, waiting, terminal, try_start_attempt, needs_worker_attention,
  owns_attempt, is_owned_by,
}
use mosemo.Labeling.Confirmations.{timeline_busy, assertion_failed}
use mosemo.Labeling.States.{Store, find_confirmation, find_proposal}
use mosemo.Labeling.Attempts.{
  ProposalClaim, current_version, is_confirmed, wants_attention, needs_processing, proposal_or_new,
  put, claim_of, attempt, claim_version, claim,
}

-- A successful start owns the attempt, of the same proposal, which needed attention.
try_start_attempt-claimed :
    (now : Instant) (token : Uuid) (p : Proposal)
    → (try_start_attempt now token p).1 ≡ claimed
    → let q = (try_start_attempt now token p).0 in
      (owns_attempt q token ≡ true)
      × (needs_worker_attention p now ≡ true)
      × (q.id ≡ p.id)
      × (q.account_id ≡ p.account_id)
      × (q.first_event_id ≡ p.first_event_id)
      × (q.segment_version ≡ p.segment_version)
unfolding try_start_attempt is_owned_by needs_worker_attention
try_start_attempt-claimed now token p h = ground (arith, ==_refl token)

abbrev is_for : Uuid → Uuid → String → Proposal → Bool
is_for account event version p =
    (p.account_id == account) && (p.first_event_id == event) && (p.segment_version == version)

-- The proposal that was put is found again.
find_proposal-put :
    (account event : Uuid) (version : String) (q : Proposal) (found : Option Proposal)
    (rows : List Proposal)
    → find_proposal rows account event version ≡ found
    → is_for account event version q ≡ true
    → find_proposal (put q found rows) account event version ≡ some q
find_proposal-put account event version q none rows e k =
    find-append_one (is_for account event version) rows q e k
find_proposal-put account event version q (some old) rows e k =
    find-replace (is_for account event version) (λ r. r.id == old.id) rows old q e (==_refl old.id)
      k

claim_of-some :
    (r : ClaimResult) (c d : ProposalClaim) → claim_of r c ≡ some d → (r ≡ claimed) × (c ≡ d)
claim_of-some claimed c d h = (refl, cc)
claim_of-some waiting c d h = absurd (cc)
claim_of-some terminal c d h = absurd (cc)

module _ (account event : Uuid) (now : Instant) (s : Store) where
  -- What a claim is of: the version, which needs processing, and the stored proposal that it owns.
  abbrev pub Owns : Option String → ProposalClaim → Store → Type 0
  Owns version c t =
      (version ≡ some c.segment_version)
      × (needs_processing (find_confirmation s.confirmations account event)
            (find_proposal s.proposals account event c.segment_version) c.segment_version now
          ≡ true)
      × ((p : Proposal) × (find_proposal t.proposals account event c.segment_version ≡ some p)
          × (p.id ≡ c.proposal_id)
          × (owns_attempt p c.lease_token ≡ true))
      × (t.segments ≡ s.segments)
      × (t.confirmations ≡ s.confirmations)
      × (t.labels ≡ s.labels)

  is_for-or_new :
      (id : Uuid) (version : String) (found : Option Proposal)
      → find_proposal s.proposals account event version ≡ found
      → is_for account event version (proposal_or_new id account event version found) ≡ true
  is_for-or_new id version none e = rw (==_refl account, ==_refl event, ==_refl version) refl
  is_for-or_new id version (some p) e = find-holds (is_for account event version) s.proposals p e

  wants-or_new :
      (id : Uuid) (version : String) (found : Option Proposal)
      → needs_worker_attention (proposal_or_new id account event version found) now ≡ true
      → wants_attention found now ≡ true
  wants-or_new id version none h = refl
  wants-or_new id version (some p) h = h

  needs_unconfirmed :
      (version : String) (found : Option Proposal)
      → find_proposal s.proposals account event version ≡ found
      → is_confirmed (find_confirmation s.confirmations account event) version ≡ false
      → wants_attention found now ≡ true
      → needs_processing
          (find_confirmation s.confirmations account event)
          (find_proposal s.proposals account event version)
          version
          now
        ≡ true
  unfolding needs_processing
  needs_unconfirmed version found e open_to wanted =
      rw open_to (subst (λ o. wants_attention o now ≡ true) (sym e) wanted)

  attempt-Owns :
      (id token : Uuid) (version : String) (found : Option Proposal) (c : ProposalClaim) (t : Store)
      → find_proposal s.proposals account event version ≡ found
      → is_confirmed (find_confirmation s.confirmations account event) version ≡ false
      → attempt id token account event version now s found ≡ (some c, t)
      → Owns (some version) c t
  attempt-Owns id token version found c t e open_to h =
      let p = proposal_or_new id account event version found in
      let (won, same) = claim_of-some (try_start_attempt now token p).1 _ c (ap (λ r. r.0) h) in
      let (owned, wanted, same_id, same_account, same_event, same_version) =
        try_start_attempt-claimed now token p won in
      let q = (try_start_attempt now token p).0 in
      subst (Owns (some version) c) (ap (λ r. r.1) h) (
        subst (λ d. Owns (some version) d (record s { proposals = put q found s.proposals })) same
          (
            refl,
            needs_unconfirmed version found e open_to (wants-or_new id version found wanted),
            (
              q,
              find_proposal-put account event version q found s.proposals e
                  (rw (same_account, same_event, same_version) (is_for-or_new id version found e)),
              refl,
              owned,
            ),
            refl,
            refl,
            refl,
          ))

  claim_version-Owns :
      (id token : Uuid) (version : Option String) (c : ProposalClaim) (t : Store)
      → claim_version id token account event now s version ≡ (some c, t)
      → Owns version c t
  claim_version-Owns id token none c t h = absurd (ground arith)
  claim_version-Owns id token (some version) c t h =
      by_confirmed (is_confirmed (find_confirmation s.confirmations account event) version) refl h
    where
      by_confirmed :
          (confirmed : Bool)
          → is_confirmed (find_confirmation s.confirmations account event) version ≡ confirmed
          → (if confirmed
              then (none, s)
              else attempt id token account event version now s
                  (find_proposal s.proposals account event version))
            ≡ (some c, t)
          → Owns (some version) c t
      by_confirmed true e h = absurd (ground arith)
      by_confirmed false e h =
          attempt-Owns id token version (find_proposal s.proposals account event version) c t refl e
            h

-- A worker that claims an attempt claims it for the current version of a segment that needs
-- processing, as the scan for work decides it; the stored proposal of that version is the one the
-- claim names, and the claim owns its attempt. No other table changes.
pub claim-Owns :
    (digest : VersionFields → String) (free : Bool) (id token account event : Uuid) (now : Instant)
    (s t : Store) (c : ProposalClaim)
    → claim digest free id token account event now s ≡ ok (some c, t)
    → (segment : Option ObservedSegment) × (find_by_first_event digest s.segments account event now
        ≡ some segment)
      × Owns account event now s (current_version segment) c t
unfolding claim
claim-Owns digest free id token account event now s t c h =
    let (_, locked, h1) = >>=-ok (guard free timeline_busy) _ h in
    let (segment, found, h2) =
      >>=-ok (require (find_by_first_event digest s.segments account event now) assertion_failed) _
        h1 in
    (
      segment,
      require-ok (find_by_first_event digest s.segments account event now) assertion_failed found,
      claim_version-Owns account event now s id token (current_version segment) c t
          (ok-injective h2),
    )
