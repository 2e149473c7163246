-- ===== src/Observation/Updating.antt =====
-- Updating an account's timeline after its records were stored: `_rebuild_legacy_projection`,
-- `_project`, `_append`, `_replay` and `_converged_segment` of
-- src/mosemo/observation/application/batches.py. `new_id` stands for `uuid7`.
pub mod Rows
use mosemo.Prelude.{
  ℕ, Bool, true, false, not, ◌&&◌, Option, none, some, List, [], ◌∷◌, ◌++◌, nat_eq, ◌==◌, last?,
  keep, map, is_some, require, Result, ok, err, ◌>>=◌, if◌then◌else◌,
}
use mosemo.Shared.Time.{Instant, Uuid}
use mosemo.Observation.Activities.{ActivityRecord}
use mosemo.Observation.Segments.{Segment}
use mosemo.Observation.Projected.{
  ProjectedSegment, ProjectionError, observation_time_regression, first_event_id, converged_index,
  segment_seed,
}
use mosemo.Observation.Projection.{Projection, init, feed, feed_all, finish}
use mosemo.Observation.Records.{projection_time_regression}
use mosemo.Observation.Merge.{
  Key, observation_key, key_before, sort, Visit, read_pages, visit_pages, merged,
  list_segment_range, find_last_account_segment, find_replay_start, find_by_first_event,
}
use mosemo.Observation.Replacing.{Timeline, replace_account_segments}
use mosemo.Observation.Receipts.{BatchError, terminal, projection, assertion_error, projecting}

-- `_AccountScope`
pub record AccountScope : Type 0 where
  pub account_id : Uuid
  pub device_ids : List Uuid
  pub now : Instant

-- The step of the loop of `_rebuild_legacy_projection`.
abbrev pub feed_step : Visit BatchError ActivityRecord Projection
feed_step r p = projecting (feed r p) >>= λ fed. ok (fed.0, false)

-- The state of the loop of `_replay`.
pub record Replay : Type 0 where
  pub projection : Projection
  pub remaining : List Uuid
  pub convergence : Option Segment

abbrev pub is_empty {ℓ} : {A : Type ℓ} → List A → Bool
is_empty [] = true
is_empty (x ∷ xs) = false

abbrev pub unless_new : ProjectedSegment → Instant → Option Segment → Option Segment
unless_new closed observed none = none
unless_new closed observed (some old) =
    if is_some (converged_index closed (old ∷ []) observed) then some old else none

-- `_converged_segment`
unfoldable pub converged_segment : List Segment → Uuid → ProjectedSegment → Instant → Option Segment
unfolding converged_index
converged_segment rows account closed observed =
    unless_new closed observed (find_by_first_event rows account (first_event_id closed))

abbrev pub convergence_at :
    List Segment → Uuid → Instant → Option ProjectedSegment → List Uuid → Option Segment
convergence_at rows account observed none remaining = none
convergence_at rows account observed (some closed) remaining =
    if is_empty remaining then converged_segment rows account closed observed else none

-- The step of the loop of `_replay`.
unfoldable pub replay_step : List Segment → Uuid → Instant → Visit BatchError ActivityRecord Replay
unfolding converged_segment
replay_step rows account observed r state =
    let remaining = keep (λ id. not (id == r.event_id)) state.remaining in
    projecting (feed r state.projection) >>= λ fed.
    let found = convergence_at rows account observed fed.1 remaining in
    ok (record { projection = fed.0; remaining = remaining; convergence = found }, is_some found)

abbrev pub start_of : Option Segment → Option Instant
start_of none = none
start_of (some s) = some s.started_at

-- `projection.segments[:-1]` after a convergence, where the projection has just closed a segment, and
-- the whole finished projection without one.
abbrev pub replayed : Instant → Replay → List ProjectedSegment
replayed now state = elim state.convergence [
  | none ↦ finish (some now) state.projection
  | some old ↦ state.projection.earlier
]

-- The oldest adopted record comes after the latest one that was stored before.
abbrev pub follows : ActivityRecord → Option ActivityRecord → Bool
follows r none = true
follows r (some latest) = key_before (observation_key latest) (observation_key r)

module _ (new_id : ℕ → Uuid) where
  -- `_rebuild_legacy_projection`; `datetime.min` is the instant 0.
  unfoldable pub rebuild_legacy_projection :
      AccountScope → List ActivityRecord → ActivityRecord → Timeline → Result BatchError Timeline
  unfolding visit_pages feed finish replace_account_segments list_segment_range merged
  rebuild_legacy_projection scope records latest t = do
    folded ← read_pages observation_key feed_step (merged records scope.device_ids 0) (init none)
    existing ← list_segment_range records t.rows scope.account_id 0 none
    ok (
        replace_account_segments new_id t scope.account_id (finish (some scope.now) folded) existing
          latest.observed_at)

  -- `_append`, of ordered records whose last one is `newest`.
  unfoldable pub append :
      AccountScope
      → List ActivityRecord
      → ActivityRecord
      → Segment
      → Timeline
      → Result BatchError Timeline
  unfolding feed_all finish segment_seed replace_account_segments
  append scope ordered newest last t = do
    seed ← require (segment_seed last) assertion_error
    folded ← projecting (feed_all ordered (init (some seed)))
    ok (
        replace_account_segments new_id t scope.account_id (finish (some scope.now) folded)
          (last ∷ []) newest.observed_at)

  -- `_replay`, of ordered records from `oldest` to `newest`.
  unfoldable pub replay :
      AccountScope
      → List ActivityRecord
      → List ActivityRecord
      → ActivityRecord
      → ActivityRecord
      → Timeline
      → Result BatchError Timeline
  unfolding visit_pages replay_step finish replace_account_segments list_segment_range merged
      find_replay_start
  replay scope records ordered oldest newest t = do
    let start = find_replay_start t.rows scope.account_id oldest.observed_at
    state ←
        read_pages observation_key (replay_step t.rows scope.account_id newest.observed_at)
          (merged records scope.device_ids start)
          (record {
            projection = init none;
            remaining = map (λ r. r.event_id) ordered;
            convergence = none;
          })
    existing ← list_segment_range records t.rows scope.account_id start (start_of state.convergence)
    ok (
        replace_account_segments new_id t scope.account_id (replayed scope.now state) existing
          newest.observed_at)

  abbrev pub append_or_replay :
      AccountScope
      → List ActivityRecord
      → List ActivityRecord
      → ActivityRecord
      → ActivityRecord
      → Option Segment
      → Timeline
      → Result BatchError Timeline
  append_or_replay scope records ordered oldest newest none t =
      replay scope records ordered oldest newest t
  append_or_replay scope records ordered oldest newest (some last) t =
      append scope ordered newest last t

  abbrev pub project_ordered :
      AccountScope
      → List ActivityRecord
      → Option ActivityRecord
      → List ActivityRecord
      → Option ActivityRecord
      → Timeline
      → Result BatchError Timeline
  project_ordered scope records latest [] newest t = ok t
  project_ordered scope records latest (oldest ∷ ordered) none t = ok t
  project_ordered scope records latest (oldest ∷ ordered) (some newest) t =
      append_or_replay scope records (oldest ∷ ordered) oldest newest
        (if follows oldest latest
          then find_last_account_segment records t.rows scope.account_id
          else none)
        t

  -- `_project`; with no adopted record it is not called.
  unfoldable pub project :
      AccountScope
      → List ActivityRecord
      → List ActivityRecord
      → Option ActivityRecord
      → Timeline
      → Result BatchError Timeline
  unfolding append replay find_last_account_segment
  project scope records adopted latest t =
      let ordered = sort observation_key adopted in
      project_ordered scope records latest ordered (last? ordered) t

-- `except ProjectionError: raise TerminalBatchError("projection_time_regression")`
abbrev pub regression_as_terminal {ℓ} : {A : Type ℓ} → Result BatchError A → Result BatchError A
regression_as_terminal (err (projection observation_time_regression)) =
    err (terminal projection_time_regression)
regression_as_terminal r = r
