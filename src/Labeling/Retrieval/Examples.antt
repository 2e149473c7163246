-- ===== src/Labeling/Retrieval/Examples.antt =====
-- Retrieving a concrete example.
use mosemo.Prelude.{◌≡◌, refl, none, some, Option, [], ◌∷◌, String}
use mosemo.Shared.Time.{seconds}
use mosemo.Observation.Activities.{Context}
use mosemo.Observation.Segments.{Segment, SegmentType, effective_ended_at, timeline_kind_at}
use mosemo.Observation.Observed.{VersionFields, observed}
use mosemo.Labeling.Confirmations.{Confirmation}
use mosemo.Labeling.States.{Store}
use mosemo.Labeling.Retrieval.{ConfirmedExample, find_recent_examples}
use mosemo.Labeling.Retrieval.Recent.{AreExamples, find_recent_examples-AreExamples}

abbrev editing : Segment
editing = record {
  id = 1;
  account_id = 2;
  segment_type = SegmentType.activity;
  started_at = seconds 10;
  ended_at = some (seconds 50);
  first_event_id = 3;
  last_event_id = some 4;
  last_observed_at = some (seconds 40);
  context = some (record { kind = some "detailed"; body = "editor" });
  reason = none;
}

abbrev confirmed : String → Confirmation
confirmed version = record {
  id = 30;
  account_id = 2;
  first_event_id = 3;
  segment_version = version;
  label_id = some 9;
  confirmed_at = seconds 60;
  updated_at = seconds 60;
}

abbrev store : String → Store
store version = record {
  segments = editing ∷ [];
  confirmations = confirmed version ∷ [];
  proposals = [];
  labels = [];
}

abbrev body : VersionFields → String
body f = f.context.body

abbrev text : Context → Option String
text c = some c.body

abbrev example : ConfirmedExample
example = record { confirmation_id = 30; activity = "editor"; label_id = some 9 }

run-find_recent_examples :
    find_recent_examples text body (store "editor") 2 99 (9 ∷ []) (seconds 100)
    ≡ some (example ∷ [])
unfolding find_recent_examples observed effective_ended_at timeline_kind_at
run-find_recent_examples = refl

-- A confirmation of an earlier version is no example.
run-outdated : find_recent_examples text body (store "before") 2 99 (9 ∷ []) (seconds 100) ≡ some []
unfolding find_recent_examples observed effective_ended_at timeline_kind_at
run-outdated = refl

find_recent_examples-AreExamples_example :
    AreExamples body text (store "editor") 2 99 (9 ∷ []) (seconds 100) (example ∷ [])
find_recent_examples-AreExamples_example =
    find_recent_examples-AreExamples body text (store "editor") 2 99 (9 ∷ []) (seconds 100)
      (example ∷ []) run-find_recent_examples
