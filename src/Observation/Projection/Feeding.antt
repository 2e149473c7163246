-- ===== src/Observation/Projection/Feeding.antt =====
-- When `feed` succeeds, and what it keeps (observation/domain/timeline.py).
use mosemo.Prelude.{
  ◌-◌, String, inl, inr, Option-cases, if◌then◌else◌, ◌≡◌, ◌≤◌, refl, Bool, true, false, Option,
  none, some, require, ◌>>=◌, List, [], ◌∷◌, ◌++◌, arith, is_some, ok, err, leb, nat_eq, option_eq,
}
use mosemo.Shared.Time.{Instant}
use mosemo.Observation.Activities.{
  ActivityRecord, RecordType, Context, activity_observation, collection_state_changed,
  CollectionState, active, suspended, collection_state, Payload, max_observation_gap,
}
use mosemo.Observation.Projected.{
  ProjectedSegment, ProjectedActivity, activity, gap, started_at, ended_at, close_at, value_error,
}
use mosemo.Observation.Projection.{
  Projection, Fed, feed, dispatch, change_state, feed_observation, feed_collection_state, observe,
  suspend, is_before,
}

abbrev complete_state : Option CollectionState → Payload → Bool
complete_state none payload = false
complete_state (some active) payload = true
complete_state (some suspended) payload = is_some payload.reason

abbrev complete_payload : RecordType → Payload → Bool
complete_payload activity_observation payload = is_some payload.context
complete_payload collection_state_changed payload = elim payload.state [
  | none ↦ false
  | some text ↦ complete_state (collection_state text) payload
]

-- The payload has what the record's type needs, as the request schemas make it
-- (observation/presentation/activities/mappers.py).
abbrev pub is_complete : ActivityRecord → Bool
is_complete r = complete_payload r.record_type r.payload

abbrev pub Ended : Option Instant → (Instant → Type 0) → Type 0
Ended none k = ⊥
Ended (some e) k = k e

-- The segment lies before `e`, and an activity was last observed between its start and `e`.
abbrev pub Within : ProjectedSegment → Instant → Type 0
Within (activity a) e = (a.started_at ≤ a.last_observed_at) × (a.last_observed_at ≤ e)
Within (gap g) e = g.started_at ≤ e

-- Closed segments, one after the other without overlap, all between two instants.
abbrev pub Chain : Instant → List ProjectedSegment → Instant → Type 0
Chain lo [] hi = lo ≤ hi
Chain lo (s ∷ ss) hi = (lo ≤ started_at s) × Ended (ended_at s) (λ e. Within s e × Chain e ss hi)

Ended-map :
    (o : Option Instant) {k k' : Instant → Type 0}
    → ((t : Instant) → k t → k' t)
    → Ended o k
    → Ended o k'
Ended-map none f h = h
Ended-map (some t) f h = f t h

pub Chain-append :
    (lo hi e u : Instant) (ss : List ProjectedSegment) (s : ProjectedSegment)
    → Chain lo ss hi
    → hi ≤ started_at s
    → ended_at s ≡ some e
    → Within s e
    → e ≤ u
    → Chain lo (ss ++ s ∷ []) u
Chain-append lo hi e u [] s c h p q v = ground arith
Chain-append lo hi e u (x ∷ ss) s c h p q v =
    (c.0, Ended-map (ended_at x) (λ t m. (m.0, Chain-append t hi e u ss s m.1 h p q v)) c.1)

-- The current segment is open and known up to at most the last time seen, and the earlier ones
-- are a chain before it.
abbrev pub Known : Option ProjectedSegment → Instant → List ProjectedSegment → Type 0
Known none t earlier = earlier ≡ []
Known (some (activity a)) t earlier =
    (a.ended_at ≡ none)
    × (a.started_at ≤ a.last_observed_at)
    × (a.last_observed_at ≤ t)
    × Chain 0 earlier a.started_at
Known (some (gap g)) t earlier =
    (g.ended_at ≡ none) × (g.started_at ≤ t) × Chain 0 earlier g.started_at

abbrev pub Before : Option Instant → Projection → Type 0
Before none p = (p.current ≡ none) × (p.earlier ≡ [])
Before (some t) p = Known p.current t p.earlier

abbrev pub IsOrdered : Projection → Type 0
IsOrdered p = Before p.previous_time p

-- The fed projection is ordered again, and the record's time is the last one seen.
abbrev pub Ordered : ActivityRecord → Fed → Type 0
Ordered r (ok (q, closed)) = IsOrdered q × (q.previous_time ≡ some r.observed_at)
Ordered r (err e) = ⊥

Known-mono :
    (c : Option ProjectedSegment) (t u : Instant) (earlier : List ProjectedSegment)
    → t ≤ u
    → Known c t earlier
    → Known c u earlier
Known-mono none t u earlier h k = k
Known-mono (some (activity a)) t u earlier h k = (k.0, k.1, omega arith, k.3)
Known-mono (some (gap g)) t u earlier h k = (k.0, omega arith, k.2)

Before-Known :
    (prev : Option Instant) (p : Projection) (t : Instant)
    → Before prev p
    → is_before t prev ≡ false
    → Known p.current t p.earlier
Before-Known none p t o b = rw (o.0) (o.1)
Before-Known (some u) p t o b = Known-mono p.current u t p.earlier (ground arith) o

-- Where an activity that is closed at `t` ends.
abbrev pub closing_end : Instant → ProjectedActivity → Instant
closing_end t a = if leb (t - a.last_observed_at) max_observation_gap then t else a.last_observed_at

pub close_at-eq :
    (t : Instant) (a : ProjectedActivity)
    → a.last_observed_at ≤ t
    → close_at t a ≡ ok (record a { ended_at = some (closing_end t a) })
unfolding close_at
close_at-eq t a h = ground arith

-- The chain grows by the closed activity.
Chain-closed :
    (t : Instant) (a : ProjectedActivity) (earlier : List ProjectedSegment)
    → Known (some (activity a)) t earlier
    → Chain 0 (earlier ++ activity (record a { ended_at = some (closing_end t a) }) ∷ []) t
Chain-closed t a earlier k =
    Chain-append 0 a.started_at (closing_end t a) t earlier
      (activity (record a { ended_at = some (closing_end t a) })) k.3 (omega arith) refl
      (k.1, ground arith) (ground arith)

module _ (r : ActivityRecord) (p : Projection) (seen : p.previous_time ≡ some r.observed_at) where
  observe-Ordered :
      (context : Context) (c : Option ProjectedSegment)
      → Known c r.observed_at p.earlier
      → Ordered r (observe r context p c)
  unfolding observe
  observe-Ordered context none k = ground arith
  observe-Ordered context (some (activity a)) k =
      rw (close_at-eq r.observed_at a k.2)
        (ground (arith, Chain-closed r.observed_at a p.earlier k))
  observe-Ordered context (some (gap g)) k = ground (
    arith,
    Chain-append 0 g.started_at r.observed_at r.observed_at p.earlier
        (gap (record g { ended_at = some r.observed_at })),
  )

  suspend-Ordered :
      (reason : String) (c : Option ProjectedSegment)
      → p.current ≡ c
      → r.payload.reason ≡ some reason
      → Known c r.observed_at p.earlier
      → Ordered r (suspend r p c)
  unfolding suspend
  suspend-Ordered reason none same h k = ground arith
  suspend-Ordered reason (some (activity a)) same h k =
      rw (close_at-eq r.observed_at a k.2)
        (ground (arith, Chain-closed r.observed_at a p.earlier k))
  suspend-Ordered reason (some (gap g)) same h k = ground arith

  change_state-Ordered :
      (state : Option CollectionState)
      → complete_state state r.payload ≡ true
      → Known p.current r.observed_at p.earlier
      → Ordered r (require state value_error >>= change_state r p)
  change_state-Ordered none c k = ground arith
  change_state-Ordered (some active) c k = ground arith
  change_state-Ordered (some suspended) c k = elim (Option-cases r.payload.reason) [
    | inl e ↦ ground arith
    | inr (reason, e) ↦ suspend-Ordered reason p.current refl e k
  ]

  dispatch-Ordered :
      (t : RecordType)
      → complete_payload t r.payload ≡ true
      → Known p.current r.observed_at p.earlier
      → Ordered r (dispatch t r p)
  unfolding feed_observation feed_collection_state
  dispatch-Ordered activity_observation c k = elim (Option-cases r.payload.context) [
    | inl e ↦ ground arith
    | inr (context, e) ↦ rw e (observe-Ordered context p.current k)
  ]
  dispatch-Ordered collection_state_changed c k = elim (Option-cases r.payload.state) [
    | inl e ↦ ground arith
    | inr (text, e) ↦ rw e (change_state-Ordered (collection_state text) (ground arith) k)
  ]

-- A complete record that is not before the last one is never refused.
pub feed-Ordered :
    (r : ActivityRecord) (p : Projection)
    → is_complete r ≡ true
    → IsOrdered p
    → is_before r.observed_at p.previous_time ≡ false
    → Ordered r (feed r p)
unfolding feed
feed-Ordered r p c o b =
    let here = record p { previous_time = some r.observed_at } in
    rw (b) (
      dispatch-Ordered r here refl r.record_type c
        (Before-Known p.previous_time p r.observed_at o b))
