-- ===== src/Observation/Projection.antt =====
-- src/mosemo/observation/domain/timeline.py: `TimelineProjection`, the incremental fold of records
-- into segments, and `project_events`.
-- The list `self.segments` is kept as its last element, `current`, and those before it, `earlier`;
-- with no current segment there are no earlier ones. A method that mutates the projection returns
-- the new one; what a raise leaves behind is not modelled, since every caller drops the projection.
pub mod Feeding
pub mod Order
pub mod Rows
pub mod Coverage
pub mod Observations
pub mod Resume
pub mod Append
pub mod Boundaries
mod Examples
use mosemo.Prelude.{
  ◌-◌, String, Bool, true, false, ◌&&◌, ◌||◌, Option, none, some, List, [], ◌∷◌, ◌++◌, nat_eq, Eq,
  ◌==◌, ltb, leb, Result, ok, err, require, ◌>>=◌, if◌then◌else◌,
}
use mosemo.Shared.Time.{Instant, Uuid}
use mosemo.Observation.Activities.{
  ActivityRecord, activity_observation, collection_state_changed, RecordType, CollectionState,
  active, suspended, collection_state, Context, context_eq, max_observation_gap, Payload,
}
use mosemo.Observation.Segments.{is_silent}
use mosemo.Observation.Projected.{
  ProjectedActivity, ProjectedGap, ProjectedSegment, activity, gap, ProjectionError,
  observation_time_regression, key_error, value_error, close_at, started_at,
}

pub record Projection : Type 0 where
  pub earlier : List ProjectedSegment
  pub current : Option ProjectedSegment
  pub previous_time : Option Instant

abbrev pub current_list : Option ProjectedSegment → List ProjectedSegment
current_list none = []
current_list (some s) = s ∷ []

abbrev pub segments : Projection → List ProjectedSegment
segments p = p.earlier ++ current_list p.current

-- The time up to which a segment is known: what the constructor takes from `initial`.
abbrev pub known_until : ProjectedSegment → Instant
known_until (activity a) = a.last_observed_at
known_until (gap g) = g.started_at

-- `TimelineProjection(initial)`
abbrev pub init : Option ProjectedSegment → Projection
init none = record { earlier = []; current = none; previous_time = none }
init (some s) = record { earlier = []; current = some s; previous_time = some (known_until s) }

-- A call of `feed`: the projection after it, and the segment that it closed.
abbrev pub Fed : Type 0
Fed = Result ProjectionError (Projection × Option ProjectedSegment)

-- `self.segments.append(new)`, after the last segment became `closed`.
abbrev pub open_after :
    Projection → ProjectedSegment → ProjectedSegment → Projection × Option ProjectedSegment
open_after p closed new =
    (record p { earlier = p.earlier ++ closed ∷ []; current = some new }, some closed)

-- `self.segments.append(new)` on an empty list.
abbrev pub open_first : Projection → ProjectedSegment → Projection × Option ProjectedSegment
open_first p new = (record p { current = some new }, none)

abbrev pub new_activity : ActivityRecord → Context → ProjectedSegment
new_activity r context = activity (record {
  started_at = r.observed_at;
  first_event_id = r.event_id;
  last_event_id = r.event_id;
  last_observed_at = r.observed_at;
  context = context;
  ended_at = none;
})

-- The test of `_feed_observation`: the gap is no longer than the limit, not negative, and the
-- context is the same.
abbrev pub extends : ActivityRecord → Context → ProjectedActivity → Bool
extends r context a =
    leb a.last_observed_at r.observed_at
    && leb (r.observed_at - a.last_observed_at) max_observation_gap
    && (context == a.context)

unfoldable pub observe : ActivityRecord → Context → Projection → Option ProjectedSegment → Fed
unfolding close_at
observe r context p none = ok (open_first p (new_activity r context))
observe r context p (some (activity a)) =
    if extends r context a
    then ok (
      record p {
        current = some (
            activity (record a {
              last_observed_at = r.observed_at;
              last_event_id = r.event_id;
              ended_at = none;
            }));
      },
      none,
    )
    else do
      closed ← close_at r.observed_at a
      ok (open_after p (activity closed) (new_activity r context))
observe r context p (some (gap g)) =
    ok (open_after p (gap (record g { ended_at = some r.observed_at })) (new_activity r context))

unfoldable pub feed_observation : ActivityRecord → Projection → Fed
unfolding observe
feed_observation r p = do
  context ← require r.payload.context key_error
  observe r context p p.current

abbrev pub new_gap : ActivityRecord → String → ProjectedSegment
new_gap r reason = gap (record {
  started_at = r.observed_at;
  first_event_id = r.event_id;
  reason = reason;
  ended_at = none;
})

-- `suspended`: a gap opens, unless one is open.
unfoldable pub suspend : ActivityRecord → Projection → Option ProjectedSegment → Fed
unfolding close_at
suspend r p none = do
  reason ← require r.payload.reason key_error
  ok (open_first p (new_gap r reason))
suspend r p (some (activity a)) = do
  closed ← close_at r.observed_at a
  reason ← require r.payload.reason key_error
  ok (open_after p (activity closed) (new_gap r reason))
suspend r p (some (gap g)) = ok (p, none)

abbrev pub change_state : ActivityRecord → Projection → CollectionState → Fed
change_state r p active = ok (p, none)
change_state r p suspended = suspend r p p.current

unfoldable pub feed_collection_state : ActivityRecord → Projection → Fed
unfolding suspend
feed_collection_state r p = do
  text ← require r.payload.state key_error
  state ← require (collection_state text) value_error
  change_state r p state

abbrev pub is_before : Instant → Option Instant → Bool
is_before t none = false
is_before t (some previous) = ltb t previous

abbrev pub dispatch : RecordType → ActivityRecord → Projection → Fed
dispatch activity_observation r p = feed_observation r p
dispatch collection_state_changed r p = feed_collection_state r p

unfoldable pub feed : ActivityRecord → Projection → Fed
unfolding feed_observation feed_collection_state
feed r p =
    if is_before r.observed_at p.previous_time
    then err observation_time_regression
    else dispatch r.record_type r (record p { previous_time = some r.observed_at })

-- `for record in records: projection.feed(record)`
unfoldable pub feed_all : List ActivityRecord → Projection → Result ProjectionError Projection
feed_all [] p = ok p
feed_all (r ∷ rs) p = do fed ← feed r p; feed_all rs fed.0

-- Silence: an activity not observed for longer than the limit ends when it was last observed.
abbrev pub close_silent : Option Instant → ProjectedSegment → ProjectedSegment
close_silent (some now) (activity a) =
    if is_silent now a.last_observed_at
    then activity (record a { ended_at = some a.last_observed_at })
    else activity a
close_silent _ s = s

abbrev pub finish_current : Option Instant → Option ProjectedSegment → Option ProjectedSegment
finish_current now none = none
finish_current now (some s) = some (close_silent now s)

-- `finish(now)`: the list of segments that it returns.
unfoldable pub finish : Option Instant → Projection → List ProjectedSegment
finish now p = p.earlier ++ current_list (finish_current now p.current)

abbrev pub is_stop : Option Uuid → Uuid → Bool
is_stop none id = false
is_stop (some stop) id = id == stop

abbrev pub stops : (ProjectedSegment → Bool) → Bool → Option ProjectedSegment → Bool
stops stop_when_closed seen none = false
stops stop_when_closed seen (some closed) = seen && stop_when_closed closed

-- The loop of `project_events`; `stop_when_closed` left out is `λ _. false`. A fed projection has a
-- current segment where it closed one, so `segments[:-1]` is `earlier`.
unfoldable pub project_from :
    Option Instant
    → Option Uuid
    → (ProjectedSegment → Bool)
    → List ActivityRecord
    → Bool
    → Projection
    → Result ProjectionError (List ProjectedSegment)
project_from now stop_after stop_when_closed [] seen p = ok (finish now p)
project_from now stop_after stop_when_closed (r ∷ rs) seen p = do
  (p', closed) ← feed r p
  let seen' = seen || is_stop stop_after r.event_id
  let rest = project_from now stop_after stop_when_closed rs seen' p'
  if stops stop_when_closed seen' closed then ok p'.earlier else rest

unfoldable pub project_events :
    List ActivityRecord
    → Option Instant
    → Option Uuid
    → (ProjectedSegment → Bool)
    → Result ProjectionError (List ProjectedSegment)
unfolding project_from
project_events records now stop_after stop_when_closed =
    project_from now stop_after stop_when_closed records false (init none)
