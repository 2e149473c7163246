-- ===== src/Observation/Projection/Observations.antt =====
-- No observation is lost (observation/domain/timeline.py): each lies in a segment of its context.
use mosemo.Prelude.{
  ◌≡◌, ◌≤◌, refl, true, false, inl, inr, Bool-cases, Option, none, some, List, [], ◌∷◌, arith,
  Result, ok, err, ◌>>=◌, All, any, ==_refl, sym, ◌∙◌, ok-injective,
}
use mosemo.Shared.Time.{Instant}
use mosemo.Observation.Activities.{
  ActivityRecord, RecordType, Context, context_eq, activity_observation, collection_state_changed,
}
use mosemo.Observation.Projected.{ProjectedSegment, ProjectionError, activity, gap}
use mosemo.Observation.Projection.{
  Projection, Fed, feed, feed_observation, observe, feed_all, finish, is_before, init,
  project_events, dispatch,
}
use mosemo.Observation.Projection.Feeding.{IsOrdered, Before, Known, Ordered, feed-Ordered}
use mosemo.Observation.Projection.Order.{IsComplete, feed-regression, project_events-feed_all}
use mosemo.Observation.Projection.Coverage.{
  covers, Covered, CoveredBy, feed_all-Covered, finish-covers,
}

abbrev Started : Option ProjectedSegment → Type 0
Started (some (activity a)) = a.started_at ≤ a.last_observed_at
Started _ = Unit

Known-Started :
    (s : Option ProjectedSegment) (t : Instant) (earlier : List ProjectedSegment)
    → Known s t earlier
    → Started s
Known-Started none t earlier k = tt
Known-Started (some (activity a)) t earlier k = k.1
Known-Started (some (gap g)) t earlier k = tt

Before-Started : (prev : Option Instant) (p : Projection) → Before prev p → Started p.current
Before-Started none p b = rw (b.0) tt
Before-Started (some t) p b = Known-Started p.current t p.earlier b

-- Right after it was fed, an observation is covered by the current segment.
observe-covers :
    (r : ActivityRecord) (c : Context) (p : Projection) (s : Option ProjectedSegment)
    → Started s
    → CoveredBy r.observed_at c (observe r c p s)
unfolding observe
observe-covers r c p none o = ground (arith, ==_refl c)
observe-covers r c p (some (activity a)) o = ground (arith, ==_refl c)
observe-covers r c p (some (gap g)) o = ground (arith, ==_refl c)

-- What is to be kept of a record: that its context is observed, if it is an observation.
abbrev Observes : RecordType → Option Context → (Context → Type 0) → Type 0
Observes activity_observation (some c) P = P c
Observes _ _ P = Unit

abbrev KeptBy : RecordType → Option Context → Instant → Fed → Type 0
KeptBy type o t (ok (q, closed)) = Observes type o (λ c. Covered t c q)
KeptBy type o t (err e) = Unit

observation-KeptBy :
    (c : Context) (t : Instant) (f : Fed)
    → CoveredBy t c f
    → KeptBy activity_observation (some c) t f
observation-KeptBy c t (ok (q, closed)) k = k
observation-KeptBy c t (err e) k = tt

state-KeptBy : (o : Option Context) (t : Instant) (f : Fed) → KeptBy collection_state_changed o t f
state-KeptBy o t (ok (q, closed)) = tt
state-KeptBy o t (err e) = tt

dispatch-KeptBy :
    (type : RecordType) (o : Option Context) (r : ActivityRecord) (p : Projection)
    → r.payload.context ≡ o
    → Started p.current
    → KeptBy type o r.observed_at (dispatch type r p)
unfolding feed_observation
dispatch-KeptBy activity_observation none r p e s = rw e tt
dispatch-KeptBy activity_observation (some c) r p e s = rw e (
    observation-KeptBy c r.observed_at (observe r c p p.current) (observe-covers r c p p.current s))
dispatch-KeptBy collection_state_changed o r p e s =
    state-KeptBy o r.observed_at (dispatch collection_state_changed r p)

feed-KeptBy :
    (r : ActivityRecord) (p : Projection)
    → Started p.current
    → KeptBy r.record_type r.payload.context r.observed_at (feed r p)
unfolding feed
feed-KeptBy r p s = elim (Bool-cases (is_before r.observed_at p.previous_time)) [
  | inl e ↦ rw e tt
  | inr e ↦ rw e (
      dispatch-KeptBy r.record_type r.payload.context r
        (record p { previous_time = some r.observed_at }) refl s)
]

abbrev IsKept : Projection → ActivityRecord → Type 0
IsKept q r = Observes r.record_type r.payload.context (λ c. Covered r.observed_at c q)

Observes-map :
    (type : RecordType) (o : Option Context) (P Q : Context → Type 0)
    → ((c : Context) → P c → Q c)
    → Observes type o P
    → Observes type o Q
Observes-map activity_observation none P Q f h = h
Observes-map activity_observation (some c) P Q f h = f c h
Observes-map collection_state_changed o P Q f h = tt

feed_all-IsKept :
    (rs : List ActivityRecord) (p : Projection) {q : Projection}
    → All IsComplete rs
    → IsOrdered p
    → feed_all rs p ≡ ok q
    → All (IsKept q) rs
unfolding feed_all
feed_all-IsKept [] p c o e = tt
feed_all-IsKept (r ∷ rs) p {q} c o e = elim (Bool-cases (is_before r.observed_at p.previous_time)) [
  | inl late ↦ cc (feed-regression r p late)
  | inr fine ↦
      next (feed r p) (feed-Ordered r p c.0 o fine)
        (feed-KeptBy r p (Before-Started p.previous_time p o)) e (λ u. feed_all-IsKept rs u c.1)
]
  where
    next :
        (f : Fed)
        → Ordered r f
        → KeptBy r.record_type r.payload.context r.observed_at f
        → (f >>= λ x. feed_all rs x.0) ≡ ok q
        → ((u : Projection) → IsOrdered u → feed_all rs u ≡ ok q → All (IsKept q) rs)
        → IsKept q r × All (IsKept q) rs
    next (ok (u, closed)) w k e ih = (
      Observes-map r.record_type r.payload.context (λ x. Covered r.observed_at x u)
          (λ x. Covered r.observed_at x q) (λ x h. feed_all-Covered r.observed_at x rs u h e) k,
      ih u w.0 e,
    )
    next (err x) w k e ih = absurd w

-- The record's context at its time, if it is an observation, lies in an activity of the segments.
abbrev pub IsObserved : List ProjectedSegment → ActivityRecord → Type 0
IsObserved segments r =
    Observes r.record_type r.payload.context (λ c. any (covers r.observed_at c) segments ≡ true)

All-IsObserved :
    (now : Option Instant) (q : Projection) (rs : List ActivityRecord)
    → All (IsKept q) rs
    → All (IsObserved (finish now q)) rs
All-IsObserved now q [] h = tt
All-IsObserved now q (r ∷ rs) h = (
  Observes-map r.record_type r.payload.context (λ x. Covered r.observed_at x q)
      (λ x. any (covers r.observed_at x) (finish now q) ≡ true)
      (λ x k. finish-covers r.observed_at x now q k) h.0,
  All-IsObserved now q rs h.1,
)

-- No observation is lost: where a projection of complete records returns segments, each observation
-- among the records lies in one of them, an activity with the observation's context that began no
-- later and was last observed no earlier.
pub project_events-IsObserved :
    (rs : List ActivityRecord) (now : Option Instant) {segments : List ProjectedSegment}
    → All IsComplete rs
    → project_events rs now none (λ _. false) ≡ ok segments
    → All (IsObserved segments) rs
project_events-IsObserved rs now {segments} c e =
    done (feed_all rs (init none)) refl (sym (project_events-feed_all now rs) ∙ e)
  where
    done :
        (f : Result ProjectionError Projection)
        → feed_all rs (init none) ≡ f
        → (f >>= λ q. ok (finish now q)) ≡ ok segments
        → All (IsObserved segments) rs
    done (ok q) h k =
        rw (← ok-injective k)
          (All-IsObserved now q rs (feed_all-IsKept rs (init none) c (refl, refl) h))
    done (err x) h k = cc
