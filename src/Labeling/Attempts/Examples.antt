-- ===== src/Labeling/Attempts/Examples.antt =====
-- A claim of the first attempt on a concrete segment.
use mosemo.Prelude.{◌≡◌, refl, true, none, some, Option, [], ◌∷◌, String, ok}
use mosemo.Shared.Time.{seconds}
use mosemo.Observation.Segments.{Segment, SegmentType, effective_ended_at, timeline_kind_at}
use mosemo.Observation.Observed.{VersionFields, ObservedSegment, observed, find_by_first_event}
use mosemo.Labeling.Proposals.{fresh, try_start_attempt, fail_attempt}
use mosemo.Labeling.Confirmations.{applies_to}
use mosemo.Labeling.States.{Store}
use mosemo.Labeling.Attempts.{ProposalClaim, current_version, claim, finish}
use mosemo.Labeling.Attempts.Ended.{Finishes, finish-Finishes}
use mosemo.Labeling.Attempts.Owned.{Owns, claim-Owns}

abbrev editing : Segment
editing = record {
  id = 1;
  account_id = 2;
  segment_type = SegmentType.activity;
  started_at = seconds 10;
  ended_at = some (seconds 50);
  first_event_id = 3;
  last_event_id = some 4;
  last_observed_at = some (seconds 40);
  context = some (record { kind = some "detailed"; body = "editor" });
  reason = none;
}

abbrev store : Store
store = record { segments = editing ∷ []; confirmations = []; proposals = []; labels = [] }

abbrev body : VersionFields → String
body f = f.context.body

abbrev first_claim : ProposalClaim
first_claim = record {
  account_id = 2;
  first_event_id = 3;
  proposal_id = 20;
  lease_token = 77;
  segment_version = "editor";
}

abbrev after : Store
after = record store {
  proposals = (try_start_attempt (seconds 60) 77 (fresh 20 2 3 "editor")).0 ∷ [];
}

run-claim : claim body true 20 77 2 3 (seconds 60) store ≡ ok (some first_claim, after)
unfolding claim observed effective_ended_at timeline_kind_at
run-claim = refl

claim-Owns_example :
    (segment : Option ObservedSegment) × (find_by_first_event body (editing ∷ []) 2 3 (seconds 60)
      ≡ some segment)
    × Owns 2 3 (seconds 60) store (current_version segment) first_claim after
claim-Owns_example = claim-Owns body true 20 77 2 3 (seconds 60) store after first_claim run-claim

-- The model failed.
abbrev failed_store : Store
failed_store = record store {
  proposals =
      (fail_attempt 77 (seconds 90) (try_start_attempt (seconds 60) 77 (fresh 20 2 3 "editor")).0).0
      ∷ [];
}

run-finish : finish body true first_claim none (seconds 90) after ≡ ok (tt, failed_store)
unfolding finish observed effective_ended_at timeline_kind_at try_start_attempt applies_to
run-finish = refl

finish-Finishes_example : Finishes after first_claim none (seconds 90) body failed_store
finish-Finishes_example =
    finish-Finishes after first_claim none (seconds 90) body true failed_store run-finish
