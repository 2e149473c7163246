-- ===== src/Observation/Projection/Boundaries.antt =====
-- Replaying from where a segment starts (observation/application/batches.py, `_replay`): a projection
-- that begins there computes the same segments as one that begins with the first record.
use mosemo.Prelude.{
  ◌≡◌, refl, Bool, true, false, Option, none, some, List, [], ◌∷◌, ◌++◌, append-nil, if◌then◌else◌,
  String, arith, Result, ok, err, require, ◌>>=◌, sym, ◌∙◌, subst, ok-injective, ap, >>=-ok,
}
use mosemo.Shared.Time.{Instant}
use mosemo.Observation.Activities.{
  ActivityRecord, Context, RecordType, activity_observation, collection_state_changed,
  collection_state, CollectionState, active, suspended, context_eq,
}
use mosemo.Observation.Projected.{
  ProjectedActivity, ProjectedSegment, ProjectionError, activity, gap, close_at,
  observation_time_regression, value_error, key_error,
}
use mosemo.Observation.Projection.{
  Projection, Fed, feed, feed_all, dispatch, feed_observation, feed_collection_state, observe,
  suspend, change_state, finish, is_before, init, project_events, open_after, open_first,
  new_activity, new_gap, extends,
}
use mosemo.Observation.Projection.Order.{project_events-feed_all}
use mosemo.Observation.Projection.Resume.{graft, feed_all-graft}
use mosemo.Observation.Projection.Append.{feed_all-append, finish-graft, graft_result-ok}

-- A fed record that closed a segment opened one, as it would in an empty projection.
abbrev Opens : Fed → Projection → Type 0
Opens alone q = (u : Projection) × (alone ≡ ok (u, none)) × (q ≡ graft q.earlier u)

-- The empty projection, at a time.
abbrev empty_at : Option Instant → Projection
empty_at t = record { earlier = []; current = none; previous_time = t }

opened :
    (t : Option Instant) (before : List ProjectedSegment) (new : ProjectedSegment) (q : Projection)
    (c closed : ProjectedSegment)
    → ◌≡◌ {A = Fed}
        (ok (record { earlier = before; current = some new; previous_time = t }, some c))
        (ok (q, some closed))
    → Opens (ok (record { earlier = []; current = some new; previous_time = t }, none)) q
opened t before new q c closed h =
    let u : Projection = record { earlier = []; current = some new; previous_time = t } in
    let made : ◌≡◌ {A = Projection}
        (record { earlier = before; current = some new; previous_time = t }) q =
      ap (λ x. x.0) (ok-injective h) in
    (u, refl, subst (λ x. x ≡ graft x.earlier u) made (grafted before))
  where
    grafted :
        (b : List ProjectedSegment)
        → ◌≡◌ {A = Projection}
            (record { earlier = b; current = some new; previous_time = t })
            (record { earlier = b ++ []; current = some new; previous_time = t })
    grafted b = ground (arith, append-nil b)

observe-Opens :
    (r : ActivityRecord) (context : Context) (p q : Projection) (c : Option ProjectedSegment)
    (closed : ProjectedSegment)
    → observe r context p c ≡ ok (q, some closed)
    → Opens (observe r context (empty_at p.previous_time) none) q
unfolding observe close_at
observe-Opens r context p q none closed h = absurd (cc)
observe-Opens r context p q (some (gap g)) closed h =
    opened p.previous_time (p.earlier ++ gap (record g { ended_at = some r.observed_at }) ∷ [])
      (new_activity r context) q (gap (record g { ended_at = some r.observed_at })) closed h
observe-Opens r context p q (some (activity a)) closed h =
    by_extension (extends r context a) (close_at r.observed_at a) h
  where
    by_extension :
        (b : Bool) (f : Result ProjectionError ProjectedActivity)
        → (if b
            then ok (
              record p {
                current = some (
                    activity (record a {
                      last_observed_at = r.observed_at;
                      last_event_id = r.event_id;
                      ended_at = none;
                    }));
              },
              none,
            )
            else (f >>= λ x. ok (open_after p (activity x) (new_activity r context))))
          ≡ ok (q, some closed)
        → Opens (observe r context (empty_at p.previous_time) none) q
    by_extension true f e = absurd (cc)
    by_extension false (err x) e = absurd (cc)
    by_extension false (ok x) e =
        opened p.previous_time (p.earlier ++ activity x ∷ []) (new_activity r context) q
          (activity x) closed e

suspend-Opens :
    (r : ActivityRecord) (p q : Projection) (c : Option ProjectedSegment)
    (closed : ProjectedSegment)
    → suspend r p c ≡ ok (q, some closed)
    → Opens (suspend r (empty_at p.previous_time) none) q
unfolding suspend close_at
suspend-Opens r p q none closed h = absurd (by_reason r.payload.reason h)
  where
    by_reason :
        (o : Option String)
        → (require o key_error >>= λ reason. ok (open_first p (new_gap r reason)))
          ≡ ok (q, some closed)
        → ⊥
    by_reason none e = cc
    by_reason (some reason) e = cc
suspend-Opens r p q (some (gap g)) closed h = absurd (cc)
suspend-Opens r p q (some (activity a)) closed h =
    by_close (close_at r.observed_at a) r.payload.reason h
  where
    by_close :
        (f : Result ProjectionError ProjectedActivity) (o : Option String)
        → (f >>= λ x.
            require o key_error >>= λ reason. ok (open_after p (activity x) (new_gap r reason)))
          ≡ ok (q, some closed)
        → Opens
            (require o key_error >>= λ reason.
              ok (open_first (empty_at p.previous_time) (new_gap r reason)))
            q
    by_close (err x) o e = absurd (cc)
    by_close (ok x) none e = absurd (cc)
    by_close (ok x) (some reason) e =
        opened p.previous_time (p.earlier ++ activity x ∷ []) (new_gap r reason) q (activity x)
          closed e

dispatch-Opens :
    (type : RecordType) (r : ActivityRecord) (p q : Projection) (closed : ProjectedSegment)
    → dispatch type r p ≡ ok (q, some closed)
    → Opens (dispatch type r (empty_at p.previous_time)) q
unfolding feed_observation feed_collection_state
dispatch-Opens activity_observation r p q closed h = by_context r.payload.context h
  where
    by_context :
        (o : Option Context)
        → (require o key_error >>= λ c. observe r c p p.current) ≡ ok (q, some closed)
        → Opens (require o key_error >>= λ c. observe r c (empty_at p.previous_time) none) q
    by_context none e = absurd (cc)
    by_context (some c) e = observe-Opens r c p q p.current closed e
dispatch-Opens collection_state_changed r p q closed h = by_text r.payload.state h
  where
    by_state :
        (o : Option CollectionState)
        → (require o value_error >>= change_state r p) ≡ ok (q, some closed)
        → Opens (require o value_error >>= change_state r (empty_at p.previous_time)) q
    by_state none e = absurd (cc)
    by_state (some active) e = absurd (cc)
    by_state (some suspended) e = suspend-Opens r p q p.current closed e

    by_text :
        (o : Option String)
        → (require o key_error >>= λ text.
            require (collection_state text) value_error >>= change_state r p)
          ≡ ok (q, some closed)
        → Opens
            (require o key_error >>= λ text.
              require (collection_state text) value_error
              >>= change_state r (empty_at p.previous_time))
            q
    by_text none e = absurd (cc)
    by_text (some text) e = by_state (collection_state text) e

feed-Opens :
    (r : ActivityRecord) (p q : Projection) (closed : ProjectedSegment)
    → feed r p ≡ ok (q, some closed)
    → Opens (feed r (init none)) q
unfolding feed
feed-Opens r p q closed h = by_time (is_before r.observed_at p.previous_time) h
  where
    by_time :
        (b : Bool)
        → (if b
            then err observation_time_regression
            else dispatch r.record_type r (record p { previous_time = some r.observed_at }))
          ≡ ok (q, some closed)
        → Opens (dispatch r.record_type r (empty_at (some r.observed_at))) q
    by_time true e = absurd (cc)
    by_time false e =
        dispatch-Opens r.record_type r (record p { previous_time = some r.observed_at }) q closed e

feed_all-fed :
    (y : ActivityRecord) (ys : List ActivityRecord) (p q : Projection)
    (closed : Option ProjectedSegment)
    → feed y p ≡ ok (q, closed)
    → feed_all (y ∷ ys) p ≡ feed_all ys q
unfolding feed_all
feed_all-fed y ys p q closed h = ap (λ f. f >>= λ x. feed_all ys x.0) h

-- Replaying from the record that starts a segment is as good as replaying all: when the projection of
-- some records succeeds, the next record closes a segment in it, and the projection of them all
-- succeeds at a time, then the projection of that record and the following ones alone succeeds, and
-- the timeline is the segments that were closed by then, followed by what it returns.
pub replay-eq-rebuild :
    (xs ys : List ActivityRecord) (y : ActivityRecord) (now : Option Instant) (p q : Projection)
    (closed : ProjectedSegment) {segments : List ProjectedSegment}
    → feed_all xs (init none) ≡ ok p
    → feed y p ≡ ok (q, some closed)
    → project_events (xs ++ y ∷ ys) now none (λ _. false) ≡ ok segments
    → (tail : List ProjectedSegment) × (project_events (y ∷ ys) now none (λ _. false) ≡ ok tail)
      × (segments ≡ q.earlier ++ tail)
replay-eq-rebuild xs ys y now p q closed {segments} before boundary whole =
    let (w, all, ended) =
      >>=-ok (feed_all (xs ++ y ∷ ys) (init none)) (λ r. ok (finish now r))
        (sym (project_events-feed_all now (xs ++ y ∷ ys)) ∙ whole) in
    let (u, opens, grafted) = feed-Opens y p q closed boundary in
    let rest : feed_all ys q ≡ ok w =
      sym (feed_all-fed y ys p q (some closed) boundary)
      ∙ sym (ap (λ f. f >>= feed_all (y ∷ ys)) before)
      ∙ sym (feed_all-append xs (y ∷ ys) (init none))
      ∙ all in
    let (v, ran, same) =
      graft_result-ok q.earlier (feed_all ys u)
        (sym (feed_all-graft q.earlier ys u) ∙ ap (feed_all ys) (sym grafted) ∙ rest) in
    (
      finish now v,
      project_events-feed_all now (y ∷ ys)
          ∙ ap (λ f. f >>= λ r. ok (finish now r))
              (feed_all-fed y ys (init none) u none opens ∙ ran),
      sym (ok-injective ended) ∙ ap (finish now) (sym same) ∙ finish-graft q.earlier now v,
    )
