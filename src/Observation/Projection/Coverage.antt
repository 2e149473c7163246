-- ===== src/Observation/Projection/Coverage.antt =====
-- What a projection covers stays covered (observation/domain/timeline.py).
use mosemo.Prelude.{
  ◌≡◌, refl, Bool, true, false, ◌&&◌, ◌||◌, inl, inr, Bool-cases, Option-cases, Option, none, some,
  List, [], ◌∷◌, ◌++◌, arith, ok, err, require, ◌>>=◌, nat_eq, ◌==◌, leb, any, any-append,
}
use mosemo.Shared.Time.{Instant}
use mosemo.Observation.Activities.{
  ActivityRecord, RecordType, Context, context_eq, activity_observation, collection_state_changed,
  collection_state, CollectionState, active, suspended,
}
use mosemo.Observation.Projected.{ProjectedSegment, activity, gap, value_error}
use mosemo.Observation.Projection.{
  Projection, Fed, feed, dispatch, feed_observation, feed_collection_state, observe, suspend,
  change_state, feed_all, finish, finish_current, current_list, is_before,
}
use mosemo.Observation.Projection.Feeding.{closing_end}

-- The segment is an activity of this context that was observed up to this time and began before.
abbrev pub covers : Instant → Context → ProjectedSegment → Bool
covers t context (activity a) =
    leb a.started_at t && leb t a.last_observed_at && (context == a.context)
covers t context (gap g) = false

module _ (t : Instant) (context : Context) where
  abbrev pub Covered : Projection → Type 0
  Covered p =
      (any (covers t context) p.earlier || any (covers t context) (current_list p.current)) ≡ true

  abbrev pub CoveredBy : Fed → Type 0
  CoveredBy (ok (q, closed)) = Covered q
  CoveredBy (err e) = Unit

  any-closed :
      (p : Projection) (s : ProjectedSegment)
      → any (covers t context) (p.earlier ++ s ∷ [])
        ≡ (any (covers t context) p.earlier || any (covers t context) (s ∷ []))
  any-closed p s = any-append (covers t context) p.earlier (s ∷ [])

  observe-CoveredBy :
      (r : ActivityRecord) (c : Context) (p : Projection) (s : Option ProjectedSegment)
      → p.current ≡ s
      → Covered p
      → CoveredBy (observe r c p s)
  unfolding observe
  observe-CoveredBy r c p none e h = ground arith
  observe-CoveredBy r c p (some (activity a)) e h =
      ground (
        arith,
        any-closed p (activity (record a { ended_at = some (closing_end r.observed_at a) })),
      )
  observe-CoveredBy r c p (some (gap g)) e h =
      ground (arith, any-closed p (gap (record g { ended_at = some r.observed_at })))

  suspend-CoveredBy :
      (r : ActivityRecord) (p : Projection) (s : Option ProjectedSegment)
      → p.current ≡ s
      → Covered p
      → CoveredBy (suspend r p s)
  unfolding suspend
  suspend-CoveredBy r p none e h = ground arith
  suspend-CoveredBy r p (some (activity a)) e h =
      ground (
        arith,
        any-closed p (activity (record a { ended_at = some (closing_end r.observed_at a) })),
      )
  suspend-CoveredBy r p (some (gap g)) e h = ground arith

  dispatch-CoveredBy :
      (type : RecordType) (r : ActivityRecord) (p : Projection)
      → Covered p
      → CoveredBy (dispatch type r p)
  unfolding feed_observation feed_collection_state
  dispatch-CoveredBy activity_observation r p h = elim (Option-cases r.payload.context) [
    | inl e ↦ rw e tt
    | inr (c, e) ↦ rw e (observe-CoveredBy r c p p.current refl h)
  ]
  dispatch-CoveredBy collection_state_changed r p h = elim (Option-cases r.payload.state) [
    | inl e ↦ rw e tt
    | inr (text, e) ↦ rw e (changed (collection_state text))
  ]
    where
      changed :
          (o : Option CollectionState) → CoveredBy (require o value_error >>= change_state r p)
      changed none = tt
      changed (some active) = h
      changed (some suspended) = suspend-CoveredBy r p p.current refl h

  -- What is covered stays covered.
  feed-CoveredBy : (r : ActivityRecord) (p : Projection) → Covered p → CoveredBy (feed r p)
  unfolding feed
  feed-CoveredBy r p h = elim (Bool-cases (is_before r.observed_at p.previous_time)) [
    | inl e ↦ rw e tt
    | inr e ↦
        rw e
          (dispatch-CoveredBy r.record_type r (record p { previous_time = some r.observed_at }) h)
  ]

  pub feed_all-Covered :
      (rs : List ActivityRecord) (p : Projection) {q : Projection}
      → Covered p
      → feed_all rs p ≡ ok q
      → Covered q
  unfolding feed_all
  feed_all-Covered [] p h e = ground arith
  feed_all-Covered (r ∷ rs) p {q} h e =
      next (feed r p) (feed-CoveredBy r p h) e (λ u. feed_all-Covered rs u)
    where
      next :
          (f : Fed)
          → CoveredBy f
          → (f >>= λ x. feed_all rs x.0) ≡ ok q
          → ((u : Projection) → Covered u → feed_all rs u ≡ ok q → Covered q)
          → Covered q
      next (ok (u, closed)) k e ih = ih u k e
      next (err x) k e ih = cc

  pub finish-covers :
      (now : Option Instant) (p : Projection)
      → Covered p
      → any (covers t context) (finish now p) ≡ true
  unfolding finish
  finish-covers now p h =
      rw (any-append (covers t context) p.earlier (current_list (finish_current now p.current)))
        (silent now p.current h)
    where
      silent :
          (n : Option Instant) (s : Option ProjectedSegment)
          → (any (covers t context) p.earlier || any (covers t context) (current_list s)) ≡ true
          → (any (covers t context) p.earlier
              || any (covers t context) (current_list (finish_current n s)))
            ≡ true
      silent n none k = k
      silent none (some (activity a)) k = k
      silent (some now) (some (activity a)) k = ground arith
      silent none (some (gap g)) k = k
      silent (some now) (some (gap g)) k = k
