-- ===== src/Labeling/Attempts.antt =====
-- src/mosemo/labeling/application/proposals.py: a worker's claim of a proposal attempt
-- (`ProposalAttempts.claim`) and the filter of the segments that need one. The text of the activity,
-- which a claim carries to the model, is left out.
pub mod Owned
pub mod Ended
mod Examples
use mosemo.Prelude.{
  ℕ, String, Bool, true, false, not, ◌&&◌, ◌||◌, Option, none, some, List, [], ◌∷◌, ◌++◌, nat_eq,
  string_eq, option_eq, ◌==◌, contains, find, replace, Result, ok, err, ◌>>=◌, ◌>>◌, guard, require,
  if◌then◌else◌,
}
use mosemo.Shared.Time.{Instant, Uuid}
use mosemo.Labels.{Label, is_active}
use mosemo.Observation.Observed.{VersionFields, ObservedSegment, find_by_first_event}
use mosemo.Labeling.Proposals.{
  Proposal, Completion, ClaimResult, claimed, try_start_attempt, needs_worker_attention, fresh,
  owns_attempt, fail_attempt, complete_attempt, supersede_attempt,
}
use mosemo.Labeling.Confirmations.{
  Confirmation, LabelError, timeline_busy, assertion_failed, applies_to,
}
use mosemo.Labeling.States.{Store, is_labelable, find_confirmation, find_proposal}

pub record ProposalClaim : Type 0 where
  pub account_id : Uuid
  pub first_event_id : Uuid
  pub proposal_id : Uuid
  pub lease_token : Uuid
  pub segment_version : String

-- `_current_version`
unfoldable pub current_version : Option ObservedSegment → Option String
current_version none = none
current_version (some o) = if is_labelable o.kind then o.version else none

-- `confirmation is not None and confirmation.applies_to(version)`
abbrev pub is_confirmed : Option Confirmation → String → Bool
is_confirmed none version = false
is_confirmed (some c) version = applies_to c version

abbrev pub wants_attention : Option Proposal → Instant → Bool
wants_attention none now = true
wants_attention (some p) now = needs_worker_attention p now

-- `_needs_processing`
unfoldable pub needs_processing : Option Confirmation → Option Proposal → String → Instant → Bool
unfolding applies_to needs_worker_attention
needs_processing confirmation proposal version now =
    if is_confirmed confirmation version then false else wants_attention proposal now

-- The proposal of a claim: the stored one, or a new one with the identifier given.
abbrev pub proposal_or_new : Uuid → Uuid → Uuid → String → Option Proposal → Proposal
proposal_or_new id account event version none = fresh id account event version
proposal_or_new id account event version (some p) = p

-- The table with the proposal after the attempt.
abbrev pub put : Proposal → Option Proposal → List Proposal → List Proposal
put p none rows = rows ++ p ∷ []
put p (some old) rows = replace (λ r. r.id == old.id) (λ r. p) rows

abbrev pub claim_of : ClaimResult → ProposalClaim → Option ProposalClaim
claim_of ClaimResult.claimed c = some c
claim_of _ c = none

-- The attempt on the proposal found for a version, and what it leaves of the store.
abbrev pub attempt :
    Uuid
    → Uuid
    → Uuid
    → Uuid
    → String
    → Instant
    → Store
    → Option Proposal
    → Option ProposalClaim × Store
attempt id token account event version now s found =
    let started = try_start_attempt now token (proposal_or_new id account event version found) in
    (
      claim_of started.1 (record {
        account_id = account;
        first_event_id = event;
        proposal_id = started.0.id;
        lease_token = token;
        segment_version = version;
      }),
      record s { proposals = put started.0 found s.proposals },
    )

abbrev pub claim_version :
    Uuid → Uuid → Uuid → Uuid → Instant → Store → Option String → Option ProposalClaim × Store
claim_version id token account event now s none = (none, s)
claim_version id token account event now s (some version) =
    if is_confirmed (find_confirmation s.confirmations account event) version
    then (none, s)
    else attempt id token account event version now s
        (find_proposal s.proposals account event version)

module _ (digest : VersionFields → String) where
  -- `claim`; `id` and `token` are generated, and `free` is whether the timeline lock is acquired.
  unfoldable pub claim :
      Bool
      → Uuid
      → Uuid
      → Uuid
      → Uuid
      → Instant
      → Store
      → Result LabelError (Option ProposalClaim × Store)
  unfolding current_version try_start_attempt find_by_first_event
  claim free id token account event now s = do
    guard free timeline_busy
    segment ← require (find_by_first_event digest s.segments account event now) assertion_failed
    ok (claim_version id token account event now s (current_version segment))

-- What the model answered: the labels that it was offered, and the completion made of its result.
pub record Outcome : Type 0 where
  pub offered : List Uuid
  pub completion : Completion

-- `_suggests_a_candidate`
unfoldable pub suggests_a_candidate : List Label → Uuid → List Uuid → Option Uuid → Bool
unfolding is_active
suggests_a_candidate labels account offered none = true
suggests_a_candidate labels account offered (some label) =
    contains offered label && is_active labels account label

-- The proposal after its attempt ended with an outcome, on the current version.
abbrev pub concluded : List Label → ProposalClaim → Option Outcome → Instant → Proposal → Proposal
concluded labels c none now p = (fail_attempt c.lease_token now p).0
concluded labels c (some o) now p =
    if suggests_a_candidate labels c.account_id o.offered o.completion.label_id
    then (complete_attempt c.lease_token o.completion now p).0
    else (fail_attempt c.lease_token now p).0

-- The claim's version is no longer the segment's, or it was confirmed meanwhile.
abbrev pub is_stale : Option String → Option Confirmation → String → Bool
is_stale current confirmation version =
    not (current == some version) || is_confirmed confirmation version

abbrev pub ended :
    Option String → Store → ProposalClaim → Option Outcome → Instant → Proposal → Proposal
ended current s c outcome now p =
    if is_stale current (find_confirmation s.confirmations c.account_id c.first_event_id)
      c.segment_version
    then (supersede_attempt c.lease_token p).0
    else concluded s.labels c outcome now p

abbrev pub find_by_id : List Proposal → Uuid → Option Proposal
find_by_id rows id = find (λ r. r.id == id) rows

module _ (digest : VersionFields → String) where
  -- `owner` is whether the claim owns the attempt.
  abbrev pub finish_as :
      Bool
      → ProposalClaim
      → Option Outcome
      → Instant
      → Store
      → Proposal
      → Result LabelError (Unit {0} × Store)
  finish_as false c outcome now s p = ok (tt, s)
  finish_as true c outcome now s p =
      require (find_by_first_event digest s.segments c.account_id c.first_event_id now)
        assertion_failed
      >>= λ o. ok (
        tt,
        record s {
          proposals = put (ended (current_version o) s c outcome now p) (some p) s.proposals;
        },
      )

  abbrev pub finish_owned :
      ProposalClaim
      → Option Outcome
      → Instant
      → Store
      → Option Proposal
      → Result LabelError (Unit {0} × Store)
  finish_owned c outcome now s none = ok (tt, s)
  finish_owned c outcome now s (some p) = finish_as (owns_attempt p c.lease_token) c outcome now s p

  -- `finish`
  unfoldable pub finish :
      Bool → ProposalClaim → Option Outcome → Instant → Store → Result LabelError (Unit {0} × Store)
  unfolding current_version suggests_a_candidate find_by_first_event fail_attempt complete_attempt
      supersede_attempt
  finish free c outcome now s = do
    guard free timeline_busy
    finish_owned c outcome now s (find_by_id s.proposals c.proposal_id)
