-- ===== src/Observation/Updating/Rows.antt =====
-- What updating a timeline keeps (`_rebuild_legacy_projection`, `_append` and `_replay` of
-- observation/application/batches.py).
use mosemo.Prelude.{
  ℕ, ◌≡◌, refl, subst, Bool, true, false, Option, none, some, List, [], ◌∷◌, nat_eq, All, last?,
  map, require, ok, >>=-ok, ok-injective, if◌then◌else◌,
}
use mosemo.Shared.Time.{Instant, Uuid}
use mosemo.Observation.Activities.{ActivityRecord}
use mosemo.Observation.Segments.{Segment}
use mosemo.Observation.Projected.{ProjectedSegment, segment_seed}
use mosemo.Observation.Projection.{init, feed_all, finish}
use mosemo.Observation.Receipts.{assertion_error, projecting}
use mosemo.Observation.Merge.{
  observation_key, sort, read_pages, merged, list_segment_range, find_last_account_segment,
  find_replay_start,
}
use mosemo.Observation.Merge.Reading.{
  IsOwn, list_segment_range-IsOwn, find_last_account_segment-IsOwn,
}
use mosemo.Observation.Replacing.{Timeline, replace_account_segments}
use mosemo.Observation.Replacing.Origin.{Stored}
use mosemo.Observation.Replacing.Ids.{IsIdentified}
use mosemo.Observation.Replacing.Accounts.{
  of_others, replace_account_segments-IsIdentified, replace_account_segments-others,
}
use mosemo.Observation.Updating.{
  AccountScope, feed_step, replay_step, start_of, replayed, rebuild_legacy_projection, append,
  replay, append_or_replay, follows, project_ordered, project,
}

module _ (new_id : ℕ → Uuid) (injective : (j k : ℕ) → new_id j ≡ new_id k → j ≡ k)
    (account : Uuid) where
  -- Identifiers stay distinct and unused, and other accounts keep their rows.
  abbrev pub Keeps : Timeline → Timeline → Type 0
  Keeps t t' =
      IsIdentified new_id t
      → IsIdentified new_id t' × (of_others account t'.rows ≡ of_others account t.rows)

  pub replaced-Keeps :
      (t : Timeline) (projected : List ProjectedSegment) (existing : List Segment)
      (observed : Instant)
      → All (IsOwn t.rows account) existing
      → Keeps t (replace_account_segments new_id t account projected existing observed)
  replaced-Keeps t projected existing observed own u = (
    replace_account_segments-IsIdentified new_id injective t account projected existing observed
        (stored existing own) u,
    replace_account_segments-others new_id t account projected existing observed u.0
        (stored existing own) (of_account existing own),
  )
    where
      stored :
          (segments : List Segment) → All (IsOwn t.rows account) segments → Stored t.rows segments
      stored [] h = tt
      stored (s ∷ segments) h = (h.0.0, stored segments h.1)

      of_account :
          (segments : List Segment)
          → All (IsOwn t.rows account) segments
          → All (λ s. s.account_id ≡ account) segments
      of_account [] h = tt
      of_account (s ∷ segments) h = (h.0.1, of_account segments h.1)

  pub same-Keeps : (t t' : Timeline) → t ≡ t' → Keeps t t'
  same-Keeps t t' e = subst (Keeps t) e (λ u. (u, refl))

  module _ (devices : List Uuid) (now : Instant) where
    abbrev scope : AccountScope
    scope = record { account_id = account; device_ids = devices; now = now }

    pub rebuild_legacy_projection-Keeps :
        (records : List ActivityRecord) (latest : ActivityRecord) (t t' : Timeline)
        → rebuild_legacy_projection new_id scope records latest t ≡ ok t'
        → Keeps t t'
    unfolding rebuild_legacy_projection
    rebuild_legacy_projection-Keeps records latest t t' h =
        let (folded, h0, h1) =
          >>=-ok (read_pages observation_key feed_step (merged records devices 0) (init none)) _
            h in
        let (existing, h2, h3) = >>=-ok (list_segment_range records t.rows account 0 none) _ h1 in
        subst (Keeps t) (ok-injective h3) (
          replaced-Keeps t (finish (some now) folded) existing latest.observed_at
            (list_segment_range-IsOwn records t.rows account 0 none existing h2))

    append-Keeps :
        (ordered : List ActivityRecord) (newest : ActivityRecord) (last : Segment) (t t' : Timeline)
        → IsOwn t.rows account last
        → append new_id scope ordered newest last t ≡ ok t'
        → Keeps t t'
    unfolding append
    append-Keeps ordered newest last t t' own h =
        let (seed, h0, h1) = >>=-ok (require (segment_seed last) assertion_error) _ h in
        let (folded, h2, h3) = >>=-ok (projecting (feed_all ordered (init (some seed)))) _ h1 in
        subst (Keeps t) (ok-injective h3)
          (replaced-Keeps t (finish (some now) folded) (last ∷ []) newest.observed_at (own, tt))

    replay-Keeps :
        (records ordered : List ActivityRecord) (oldest newest : ActivityRecord) (t t' : Timeline)
        → replay new_id scope records ordered oldest newest t ≡ ok t'
        → Keeps t t'
    unfolding replay
    replay-Keeps records ordered oldest newest t t' h =
        let start = find_replay_start t.rows account oldest.observed_at in
        let (state, h0, h1) =
          >>=-ok
            (read_pages observation_key (replay_step t.rows account newest.observed_at)
              (merged records devices start)
              (record {
                projection = init none;
                remaining = map (λ r. r.event_id) ordered;
                convergence = none;
              }))
            _ h in
        let (existing, h2, h3) =
          >>=-ok (list_segment_range records t.rows account start (start_of state.convergence)) _
            h1 in
        subst (Keeps t) (ok-injective h3) (
          replaced-Keeps t (replayed now state) existing newest.observed_at (
            list_segment_range-IsOwn records t.rows account start (start_of state.convergence)
              existing h2))

    pub project-Keeps :
        (records adopted : List ActivityRecord) (latest : Option ActivityRecord) (t t' : Timeline)
        → project new_id scope records adopted latest t ≡ ok t'
        → Keeps t t'
    unfolding project
    project-Keeps records adopted latest t t' h =
        by_ordered (sort observation_key adopted) (last? (sort observation_key adopted)) h
      where
        by_last :
            (ordered : List ActivityRecord) (oldest newest : ActivityRecord) (o : Option Segment)
            → ((s : Segment) → o ≡ some s → IsOwn t.rows account s)
            → append_or_replay new_id scope records ordered oldest newest o t ≡ ok t'
            → Keeps t t'
        by_last ordered oldest newest none own e = replay-Keeps records ordered oldest newest t t' e
        by_last ordered oldest newest (some last) own e =
            append-Keeps ordered newest last t t' (own last refl) e

        by_ordered :
            (ordered : List ActivityRecord) (newest : Option ActivityRecord)
            → project_ordered new_id scope records latest ordered newest t ≡ ok t'
            → Keeps t t'
        by_ordered [] newest e = same-Keeps t t' (ok-injective e)
        by_ordered (oldest ∷ ordered) none e = same-Keeps t t' (ok-injective e)
        by_ordered (oldest ∷ ordered) (some newest) e =
            by_last (oldest ∷ ordered) oldest newest
              (if follows oldest latest
                then find_last_account_segment records t.rows account
                else none)
              (own (follows oldest latest)) e
          where
            own :
                (b : Bool) (s : Segment)
                → (if b then find_last_account_segment records t.rows account else none) ≡ some s
                → IsOwn t.rows account s
            own true s e = find_last_account_segment-IsOwn records t.rows account s e
            own false s e = absurd (cc)
