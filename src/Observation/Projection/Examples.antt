-- ===== src/Observation/Projection/Examples.antt =====
-- The theorems on the projection at concrete records, and a run of it.
use mosemo.Prelude.{
  ℕ, ◌≡◌, refl, true, false, none, some, List, [], ◌∷◌, ◌++◌, String, ok, All, pos,
}
use mosemo.Shared.Time.{Instant, Uuid, seconds, utc}
use mosemo.Observation.Activities.{
  ActivityRecord, RecordType, activity_observation, collection_state_changed, Context, Payload,
}
use mosemo.Observation.Projected.{ProjectedSegment, activity, gap, segment_seed, to_segment}
use mosemo.Observation.Projection.{Projection, init, feed, feed_all, finish, project_events}
use mosemo.Observation.Projection.Order.{
  IsComplete, is_monotone_from, Projects, project_events-Projects,
}
use mosemo.Observation.Projection.Observations.{IsObserved, project_events-IsObserved}
use mosemo.Observation.Projection.Append.{append-eq-replay}
use mosemo.Observation.Projection.Boundaries.{replay-eq-rebuild}

abbrev editor : Context
editor = record { kind = some "detailed"; body = "editor" }

abbrev browser : Context
browser = record { kind = some "detailed"; body = "browser" }

abbrev event : Uuid → Instant → RecordType → Payload → ActivityRecord
event id at type payload = record {
  event_id = id;
  device_id = 7;
  focus_session_id = none;
  sequence = id;
  record_type = type;
  observed_at = at;
  timezone_id = utc;
  utc_offset_minutes = pos 0;
  payload = payload;
}

abbrev observed : Uuid → ℕ → Context → ActivityRecord
observed id s context =
    event id (seconds s) activity_observation
      (record { context = some context; state = none; reason = none })

abbrev state_changed : Uuid → ℕ → String → ActivityRecord
state_changed id s state =
    event id (seconds s) collection_state_changed
      (record { context = none; state = some state; reason = some "sleep" })

-- Two observations of the editor, a pause longer than the limit, the browser, and a suspension.
abbrev morning : List ActivityRecord
morning = observed 1 10 editor ∷ observed 2 40 editor ∷ observed 3 400 browser ∷ []

abbrev noon : List ActivityRecord
noon = observed 4 420 browser ∷ state_changed 5 430 "suspended" ∷ []

morning-IsComplete : All IsComplete morning
morning-IsComplete = (refl, (refl, (refl, tt)))

abbrev editor_segment : ProjectedSegment
editor_segment = activity (record {
  started_at = seconds 10;
  first_event_id = 1;
  last_event_id = 2;
  last_observed_at = seconds 40;
  context = editor;
  ended_at = some (seconds 40);
})

abbrev browser_segment : ProjectedSegment
browser_segment = activity (record {
  started_at = seconds 400;
  first_event_id = 3;
  last_event_id = 3;
  last_observed_at = seconds 400;
  context = browser;
  ended_at = none;
})

abbrev browser_closed : ProjectedSegment
browser_closed = activity (record {
  started_at = seconds 400;
  first_event_id = 3;
  last_event_id = 4;
  last_observed_at = seconds 420;
  context = browser;
  ended_at = some (seconds 430);
})

abbrev sleep_segment : ProjectedSegment
sleep_segment =
    gap (record { started_at = seconds 430; first_event_id = 5; reason = "sleep"; ended_at = none })

project-morning :
    project_events morning none none (λ _. false) ≡ ok (editor_segment ∷ browser_segment ∷ [])
unfolding project_events feed finish
project-morning = refl

project-day :
    project_events (morning ++ noon) none none (λ _. false)
    ≡ ok (editor_segment ∷ browser_closed ∷ sleep_segment ∷ [])
unfolding project_events feed finish
project-day = refl

-- The loop stops at the first segment that closed after the new record, without the boundary.
project-stopped :
    project_events (morning ++ noon) none (some 3) (λ _. true) ≡ ok (editor_segment ∷ [])
unfolding project_events feed finish
project-stopped = refl

project_events-Projects_example :
    Projects (is_monotone_from none morning) (project_events morning none none (λ _. false))
project_events-Projects_example = project_events-Projects morning none morning-IsComplete

project_events-IsObserved_example : All (IsObserved (editor_segment ∷ browser_segment ∷ [])) morning
project_events-IsObserved_example =
    project_events-IsObserved morning none morning-IsComplete project-morning

append-eq-replay_example :
    (q : Projection) × (feed_all noon (init (segment_seed (to_segment 8 9 browser_segment))) ≡ ok q)
    × (editor_segment ∷ browser_closed ∷ sleep_segment ∷ [] ≡ editor_segment ∷ finish none q)
append-eq-replay_example =
    append-eq-replay 8 9 morning noon none none (editor_segment ∷ []) browser_segment
      morning-IsComplete project-morning project-day

abbrev editor_open : Projection
editor_open = record {
  earlier = [];
  current = some (
      activity (record {
        started_at = seconds 10;
        first_event_id = 1;
        last_event_id = 2;
        last_observed_at = seconds 40;
        context = editor;
        ended_at = none;
      }));
  previous_time = some (seconds 40);
}

abbrev browser_open : Projection
browser_open = record {
  earlier = editor_segment ∷ [];
  current = some browser_segment;
  previous_time = some (seconds 400);
}

run-early : feed_all (observed 1 10 editor ∷ observed 2 40 editor ∷ []) (init none) ≡ ok editor_open
unfolding feed_all feed
run-early = refl

run-boundary : feed (observed 3 400 browser) editor_open ≡ ok (browser_open, some editor_segment)
unfolding feed
run-boundary = refl

replay-eq-rebuild_example :
    (tail : List ProjectedSegment) × (project_events
        (observed 3 400 browser ∷ [])
        none
        none
        (λ _. false)
      ≡ ok tail)
    × (editor_segment ∷ browser_segment ∷ [] ≡ editor_segment ∷ tail)
replay-eq-rebuild_example =
    replay-eq-rebuild (observed 1 10 editor ∷ observed 2 40 editor ∷ []) [] (observed 3 400 browser)
      none editor_open browser_open editor_segment run-early run-boundary project-morning
