-- ===== src/Observation/Projection/Resume.antt =====
-- Appending to a stored timeline (observation/application/batches.py, `_append`): a projection that
-- starts from the last stored segment continues as the whole fold would.
use mosemo.Prelude.{
  ◌≡◌, refl, false, inl, inr, Option-cases, Bool-cases, Option, none, some, List, [], ◌∷◌, ◌++◌,
  append_assoc, append-nil, arith, Result, ok, err, require, ◌>>=◌, ◌∙◌, ap,
}
use mosemo.Observation.Activities.{
  ActivityRecord, Context, RecordType, activity_observation, collection_state_changed,
  collection_state, CollectionState, active, suspended, context_eq,
}
use mosemo.Observation.Projected.{ProjectedSegment, ProjectionError, activity, gap, value_error}
use mosemo.Observation.Projection.{
  Projection, Fed, feed, dispatch, feed_observation, feed_collection_state, observe, suspend,
  change_state, feed_all, is_before, init, known_until,
}
use mosemo.Observation.Projection.Feeding.{closing_end}

-- The projection with these segments put before its own.
abbrev pub graft : List ProjectedSegment → Projection → Projection
graft before p = record p { earlier = before ++ p.earlier }

abbrev pub graft_fed : List ProjectedSegment → Fed → Fed
graft_fed before (ok (q, closed)) = ok (graft before q, closed)
graft_fed before (err e) = err e

module _ (before : List ProjectedSegment) where
  graft-append :
      (p : Projection) (s : ProjectedSegment)
      → (before ++ p.earlier) ++ s ∷ [] ≡ before ++ (p.earlier ++ s ∷ [])
  graft-append p s = append_assoc before p.earlier (s ∷ [])

  observe-graft :
      (r : ActivityRecord) (context : Context) (p : Projection) (c : Option ProjectedSegment)
      → observe r context (graft before p) c ≡ graft_fed before (observe r context p c)
  unfolding observe
  observe-graft r context p none = refl
  observe-graft r context p (some (activity a)) = ground (
    arith,
    graft-append p (activity (record a { ended_at = some (closing_end r.observed_at a) })),
  )
  observe-graft r context p (some (gap g)) =
      ground (arith, graft-append p (gap (record g { ended_at = some r.observed_at })))

  suspend-graft :
      (r : ActivityRecord) (p : Projection) (c : Option ProjectedSegment)
      → suspend r (graft before p) c ≡ graft_fed before (suspend r p c)
  unfolding suspend
  suspend-graft r p none = ground arith
  suspend-graft r p (some (activity a)) = ground (
    arith,
    graft-append p (activity (record a { ended_at = some (closing_end r.observed_at a) })),
  )
  suspend-graft r p (some (gap g)) = refl

  dispatch-graft :
      (type : RecordType) (r : ActivityRecord) (p : Projection)
      → dispatch type r (graft before p) ≡ graft_fed before (dispatch type r p)
  unfolding feed_observation feed_collection_state
  dispatch-graft activity_observation r p = elim (Option-cases r.payload.context) [
    | inl e ↦ rw e refl
    | inr (c, e) ↦ rw e (observe-graft r c p p.current)
  ]
  dispatch-graft collection_state_changed r p = elim (Option-cases r.payload.state) [
    | inl e ↦ rw e refl
    | inr (text, e) ↦ rw e (changed (collection_state text))
  ]
    where
      changed :
          (o : Option CollectionState)
          → (require o value_error >>= change_state r (graft before p))
            ≡ graft_fed before (require o value_error >>= change_state r p)
      changed none = refl
      changed (some active) = refl
      changed (some suspended) = suspend-graft r p p.current

  -- A record is fed alike whatever segments stand before.
  feed-graft :
      (r : ActivityRecord) (p : Projection) → feed r (graft before p) ≡ graft_fed before (feed r p)
  unfolding feed
  feed-graft r p = elim (Bool-cases (is_before r.observed_at p.previous_time)) [
    | inl e ↦ rw e refl
    | inr e ↦
        rw e (dispatch-graft r.record_type r (record p { previous_time = some r.observed_at }))
  ]

  abbrev pub graft_result : Result ProjectionError Projection → Result ProjectionError Projection
  graft_result (ok q) = ok (graft before q)
  graft_result (err e) = err e

  pub feed_all-graft :
      (rs : List ActivityRecord) (p : Projection)
      → feed_all rs (graft before p) ≡ graft_result (feed_all rs p)
  unfolding feed_all
  feed_all-graft [] p = refl
  feed_all-graft (r ∷ rs) p = rw (feed-graft r p) (next (feed r p) (λ q. feed_all-graft rs q))
    where
      next :
          (f : Fed)
          → ((q : Projection) → feed_all rs (graft before q) ≡ graft_result (feed_all rs q))
          → (graft_fed before f >>= λ x. feed_all rs x.0)
            ≡ graft_result (f >>= λ x. feed_all rs x.0)
      next (ok (q, closed)) ih = ih q
      next (err e) ih = refl

-- A fold that starts at the current segment alone goes as the whole
-- one, with the earlier segments put in front.
pub feed-resume :
    (r : ActivityRecord) (p : Projection) (s : ProjectedSegment)
    → p.current ≡ some s
    → is_before r.observed_at p.previous_time ≡ false
    → is_before r.observed_at (some (known_until s)) ≡ false
    → feed r p ≡ graft_fed p.earlier (feed r (init (some s)))
unfolding feed
feed-resume r p s c fine known =
    rw (fine, known)
      (ap (dispatch r.record_type r) same
        ∙ dispatch-graft p.earlier r.record_type r
            (record (init (some s)) { previous_time = some r.observed_at }))
  where
    same :
        ◌≡◌ {A = Projection}
          (record p { previous_time = some r.observed_at })
          (graft p.earlier (record (init (some s)) { previous_time = some r.observed_at }))
    same = ground (arith, append-nil p.earlier)
