-- ===== src/Labeling/Proposing/Examples.antt =====
-- A sweep over one concrete segment, and the execution that it makes.
use mosemo.Prelude.{
  ℕ, ◌+◌, ◌≤◌, ◌≡◌, ◌⊎◌, refl, true, false, none, some, Option, [], ◌∷◌, String, ok,
}
use mosemo.Shared.Time.{Instant, Uuid, seconds}
use mosemo.Observation.Activities.{Context}
use mosemo.Observation.Segments.{
  Segment, SegmentType, effective_ended_at, timeline_kind_at, is_closed_detailed_row,
}
use mosemo.Observation.Observed.{VersionFields, observed}
use mosemo.Labeling.Proposals.{
  Proposal, Completion, fresh, try_start_attempt, complete_attempt, is_owned_by,
}
use mosemo.Labeling.States.{Store}
use mosemo.Labeling.Retrieval.{SuggestionInput}
use mosemo.Labeling.Attempts.{ProposalClaim, claim}
use mosemo.Labeling.Scanning.{ScanBatch, scan}
use mosemo.Labeling.Scanning.Bounds.{scan-IsBounded}
use mosemo.Labeling.Proposing.{
  Round, SuggestionResult, World, claimed_activity, outcome_of, propose_label, find_page,
}
use mosemo.Labeling.Proposing.Concluded.{IsOver, propose_label-IsOver}
use mosemo.Labeling.Proposing.Paged.{stored, stored-IsPaged}

abbrev editing : Segment
editing = record {
  id = 1;
  account_id = 2;
  segment_type = SegmentType.activity;
  started_at = seconds 10;
  ended_at = some (seconds 50);
  first_event_id = 3;
  last_event_id = some 4;
  last_observed_at = some (seconds 40);
  context = some (record { kind = some "detailed"; body = "editor" });
  reason = none;
}

abbrev store : Store
store = record { segments = editing ∷ []; confirmations = []; proposals = []; labels = [] }

abbrev body : VersionFields → String
body f = f.context.body

abbrev text : Context → Option String
text c = some c.body

-- The model finds no label that fits.
abbrev unclassified : SuggestionInput → Option SuggestionResult
unclassified request = some (record {
  label_id = none;
  provider = "test";
  model = "test:model";
  prompt_version = "v1";
  input_tokens = none;
  output_tokens = none;
})

abbrev uuid_text : Uuid → String
uuid_text id = ""

abbrev undisturbed : ℕ → Round
undisturbed n = record {
  claims_free = true;
  finishes_free = true;
  proposal_id = 20 + n;
  token = 77 + n;
  claimed_at = seconds 200;
  built_at = seconds 201;
  finished_at = seconds 205;
  latency_ms = 4000;
  meanwhile = λ d. d;
  afterwards = λ d. d;
}

abbrev claimed_proposal : Proposal
claimed_proposal = (try_start_attempt (seconds 200) 77 (fresh 20 2 3 "editor")).0

abbrev claimed_store : Store
claimed_store = record store { proposals = claimed_proposal ∷ [] }

abbrev completion : Completion
completion = record {
  label_id = none;
  provider = "test";
  model = "test:model";
  prompt_version = "v1";
  retrieved_example_ids = [];
  latency_ms = 4000;
  input_tokens = none;
  output_tokens = none;
}

abbrev ready_store : Store
ready_store = record store {
  proposals = (complete_attempt 77 completion (seconds 205) claimed_proposal).0 ∷ [];
}

abbrev first_claim : ProposalClaim
first_claim = record {
  account_id = 2;
  first_event_id = 3;
  proposal_id = 20;
  lease_token = 77;
  segment_version = "editor";
}

run-claim : claim body true 20 77 2 3 (seconds 200) store ≡ ok (some first_claim, claimed_store)
unfolding claim observed effective_ended_at timeline_kind_at
run-claim = refl

run-propose_label :
    propose_label body text unclassified uuid_text (undisturbed 0) 2 3 store
    ≡ (ok true, ready_store)
unfolding propose_label observed effective_ended_at timeline_kind_at
run-propose_label = refl

propose_label-IsOver_example :
    (activity : String) × (claimed_activity body text store 2 3 (seconds 200) ≡ some activity)
    × IsOver claimed_store first_claim
        (outcome_of body text unclassified uuid_text
          (undisturbed 0)
          first_claim
          activity
          claimed_store)
        (seconds 205)
        body
        ready_store
unfolding try_start_attempt is_owned_by
propose_label-IsOver_example =
    propose_label-IsOver body text unclassified uuid_text (undisturbed 0) 2 3 store claimed_store
      ready_store first_claim claimed_proposal run-claim refl refl run-propose_label

abbrev clock : ℕ → Instant
clock n = seconds 200

abbrev before : World
before = record { store = store; pages = 0; attempts = 0 }

abbrev after : World
after = record { store = ready_store; pages = 2; attempts = 1 }

abbrev batch : ScanBatch
batch = record { processed = 1; scanned = 1; sweep_complete = true; last_segment_id = none }

run-scan :
    scan (stored body text unclassified uuid_text clock undisturbed) 100 500 none before
    ≡ ok (batch, after)
unfolding scan find_page is_closed_detailed_row observed effective_ended_at timeline_kind_at
    propose_label
run-scan = refl

scan-IsBounded_example : (1 ≤ 100) × (1 ≤ 500) × (1 ≤ 1) × (true ≡ false → (100 ≤ 1) ⊎ (500 ≤ 1))
scan-IsBounded_example =
    scan-IsBounded (stored body text unclassified uuid_text clock undisturbed) 100 500 none before
      after batch (stored-IsPaged body text unclassified uuid_text clock undisturbed) run-scan
