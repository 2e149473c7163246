-- ===== src/Labeling/Proposing.antt =====
-- src/mosemo/labeling/application/proposals.py: `ProposeLabel`, which claims an attempt, asks the model
-- outside any transaction and saves the outcome, and the page of segments that `ScanLabelProposals` reads.
-- `summarize` stands for `summarize_context`, `suggest` for the suggester port, `digest` for SHA-256 of JSON
-- and `uuid_text` for `str` of a UUID. What a validation raises is a failed assertion.
pub mod Concluded
pub mod Rows
pub mod Cursors
pub mod Paged
mod Examples
use mosemo.Prelude.{
  ℕ, suc, ◌+◌, String, Bool, true, false, ◌&&◌, Option, none, some, List, [], ◌∷◌, nat_eq,
  string_eq, ◌==◌, and_then, any, keep, map, Result, ok, err, ◌>>=◌, require, unit_of_work,
  if◌then◌else◌,
}
use mosemo.Shared.Time.{Instant, Uuid}
use mosemo.Observation.Activities.{Context}
use mosemo.Observation.Observed.{
  VersionFields, ObservedSegment, find_by_first_event, list_closed_page,
}
use mosemo.Labeling.Proposals.{Proposal}
use mosemo.Labeling.Confirmations.{Confirmation, LabelError, assertion_failed}
use mosemo.Labeling.States.{Store, find_proposal}
use mosemo.Labeling.Attempts.{
  ProposalClaim, Outcome, current_version, needs_processing, claim, finish,
}
use mosemo.Labeling.Retrieval.{SuggestionInput, build_suggestion_input}
use mosemo.Labeling.Scanning.{ScannedSegment, Segments}

-- `SuggestionResult`
pub record SuggestionResult : Type 0 where
  pub label_id : Option Uuid
  pub provider : String
  pub model : String
  pub prompt_version : String
  pub input_tokens : Option ℕ
  pub output_tokens : Option ℕ

-- What one execution meets: whether the timeline lock is acquired in its two transactions, the generated
-- identifiers, the clock, the latency, and what other transactions do while it holds none.
pub record Round : Type 0 where
  pub claims_free : Bool
  pub finishes_free : Bool
  pub proposal_id : Uuid
  pub token : Uuid
  pub claimed_at : Instant
  pub built_at : Instant
  pub finished_at : Instant
  pub latency_ms : ℕ
  pub meanwhile : Store → Store
  pub afterwards : Store → Store

abbrev pub with_activity :
    Option String
    → Option ProposalClaim × Store
    → Result LabelError (Option (ProposalClaim × String) × Store)
with_activity activity (none, t) = ok (none, t)
with_activity activity (some c, t) =
    require activity assertion_failed >>= λ text. ok (some (c, text), t)

module _ (digest : VersionFields → String) (summarize : Context → Option String) where
  -- The text of the claimed segment's activity.
  abbrev pub claimed_activity : Store → Uuid → Uuid → Instant → Option String
  claimed_activity s account event now =
      and_then (find_by_first_event digest s.segments account event now)
        λ found. and_then found λ segment. and_then segment.context summarize

  -- `_claim`, in its transaction.
  unfoldable pub claim_round :
      Round → Uuid → Uuid → Store → Result LabelError (Option (ProposalClaim × String) × Store)
  unfolding claim find_by_first_event
  claim_round r account event s =
      claim digest r.claims_free r.proposal_id r.token account event r.claimed_at s
      >>= with_activity (claimed_activity s account event r.claimed_at)

abbrev pub completed : (Uuid → String) → Round → SuggestionInput → SuggestionResult → Outcome
completed uuid_text r request result = record {
  offered = map (λ l. l.label_id) request.labels;
  completion = record {
    label_id = result.label_id;
    provider = result.provider;
    model = result.model;
    prompt_version = result.prompt_version;
    retrieved_example_ids = map (λ e. uuid_text e.confirmation_id) request.examples;
    latency_ms = r.latency_ms;
    input_tokens = result.input_tokens;
    output_tokens = result.output_tokens;
  };
}

abbrev pub answered : Result LabelError (Unit {0}) × Store → Result LabelError Bool × Store
answered (ok u, t) = (ok true, t)
answered (err e, t) = (err e, t)

module _ (digest : VersionFields → String) (summarize : Context → Option String)
    (suggest : SuggestionInput → Option SuggestionResult) (uuid_text : Uuid → String) where
  -- The outcome of asking the model; whatever is raised on the way is logged, and there is none.
  unfoldable pub outcome_of : Round → ProposalClaim → String → Store → Option Outcome
  unfolding build_suggestion_input
  outcome_of r c activity s =
      and_then
        (build_suggestion_input summarize digest s c.account_id c.first_event_id activity
          r.built_at)
        λ request. and_then (suggest request) λ result. some (completed uuid_text r request result)

  -- After the claim: the request is built on what other transactions left, and the outcome is saved on
  -- what they left after that.
  abbrev pub conclude :
      Round
      → Result LabelError (Option (ProposalClaim × String)) × Store
      → Result LabelError Bool × Store
  conclude r (err e, t) = (err e, t)
  conclude r (ok none, t) = (ok false, t)
  conclude r (ok (some (c, activity)), t) =
      let read = r.meanwhile t in
      answered (
        unit_of_work (finish digest r.finishes_free c (outcome_of r c activity read) r.finished_at)
          (r.afterwards read))

  -- `ProposeLabel.execute`
  unfoldable pub propose_label : Round → Uuid → Uuid → Store → Result LabelError Bool × Store
  unfolding claim_round outcome_of finish
  propose_label r account event s =
      conclude r (unit_of_work (claim_round digest summarize r account event) s)

-- The last of the rows that a test picks: of equal keys in a dict the later value stays.
abbrev pub later_or {ℓ} : {A : Type ℓ} → Option A → Bool → A → Option A
later_or (some later) found a = some later
later_or none true a = some a
later_or none false a = none

abbrev pub find_last {ℓ} : {A : Type ℓ} → (A → Bool) → List A → Option A
find_last p [] = none
find_last p (x ∷ xs) = later_or (find_last p xs) (p x) x

abbrev pub is_confirmation_of : ObservedSegment → Confirmation → Bool
is_confirmation_of o c = (c.account_id == o.account_id) && (c.first_event_id == o.first_event_id)

abbrev pub is_proposal_of : ObservedSegment → String → Proposal → Bool
is_proposal_of o version p =
    (p.account_id == o.account_id)
    && (p.first_event_id == o.first_event_id)
    && (p.segment_version == version)

-- `ConfirmationRepository.list_by_keys`
abbrev pub confirmations_by_keys : List ObservedSegment → List Confirmation → List Confirmation
confirmations_by_keys segments rows = keep (λ c. any (λ o. is_confirmation_of o c) segments) rows

abbrev pub is_proposal_of_current : Proposal → ObservedSegment → Bool
is_proposal_of_current p o = elim (current_version (some o)) [
  | none ↦ false
  | some version ↦ is_proposal_of o version p
]

-- `ProposalRepository.list_by_keys`
abbrev pub proposals_by_keys : List ObservedSegment → List Proposal → List Proposal
proposals_by_keys segments rows = keep (λ p. any (is_proposal_of_current p) segments) rows

abbrev pub is_current : ObservedSegment → Bool
is_current o = elim (current_version (some o)) [ none ↦ false | some version ↦ true ]

abbrev pub scanned_as :
    List Confirmation → List Proposal → Instant → ObservedSegment → Option String → ScannedSegment
scanned_as confirmations proposals now o none = record {
  segment_id = o.id;
  account_id = o.account_id;
  first_event_id = o.first_event_id;
  needs_processing = false;
}
scanned_as confirmations proposals now o (some version) = record {
  segment_id = o.id;
  account_id = o.account_id;
  first_event_id = o.first_event_id;
  needs_processing =
      needs_processing (find_last (is_confirmation_of o) confirmations)
        (find_last (is_proposal_of o version) proposals) version now;
}

abbrev pub scanned_all : Store → Instant → List ObservedSegment → List ScannedSegment
scanned_all s now segments =
    let current = keep is_current segments in
    map
      (λ o.
        scanned_as (confirmations_by_keys current s.confirmations)
          (proposals_by_keys current s.proposals) now o (current_version (some o)))
      segments

-- `ScanLabelProposals._find_page`, over segments in the order of their identifiers.
unfoldable pub find_page :
    (VersionFields → String)
    → Store
    → Option Uuid
    → Instant
    → ℕ
    → Result LabelError (List ScannedSegment)
unfolding current_version needs_processing list_closed_page
find_page digest s cursor now limit =
    require (list_closed_page digest s.segments cursor now limit) assertion_failed >>= λ segments.
    ok (scanned_all s now segments)

-- A scan's world: the tables, and how many pages were read and attempts begun.
pub record World : Type 0 where
  pub store : Store
  pub pages : ℕ
  pub attempts : ℕ

module _ (digest : VersionFields → String) (summarize : Context → Option String)
    (suggest : SuggestionInput → Option SuggestionResult) (uuid_text : Uuid → String)
    (clock : ℕ → Instant) (rounds : ℕ → Round) where
  abbrev pub proposed : World → Result LabelError Bool × Store → Result LabelError Bool × World
  proposed w (made, t) = (made, record w { store = t; attempts = w.attempts + 1 })

  -- What the scan is given: the n-th page is read at `clock n`, and the n-th attempt meets `rounds n`.
  abbrev pub scanned_segments : Segments World
  scanned_segments = record {
    find_page = λ w cursor limit. find_page digest w.store cursor (clock w.pages) limit >>= λ page.
        ok (page, record w { pages = w.pages + 1 });
    propose = λ w account event. proposed w (
        propose_label digest summarize suggest uuid_text (rounds w.attempts) account event w.store);
  }
