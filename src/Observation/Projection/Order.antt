-- ===== src/Observation/Projection/Order.antt =====
-- The fold over records in the order of their times (observation/domain/timeline.py): when it
-- succeeds, and that its segments form a timeline.
use mosemo.Prelude.{
  ◌≡◌, ◌≤◌, refl, Bool, true, false, not, ◌&&◌, ◌||◌, inl, inr, Bool-cases, Option, none, some,
  List, [], ◌∷◌, ◌++◌, arith, Result, ok, err, ◌>>=◌, All, if◌then◌else◌, nat_eq,
}
use mosemo.Shared.Time.{Instant, Uuid}
use mosemo.Observation.Activities.{ActivityRecord}
use mosemo.Observation.Projected.{
  ProjectedSegment, ProjectionError, activity, gap, started_at, ended_at,
  observation_time_regression,
}
use mosemo.Observation.Projection.{
  Projection, Fed, feed, feed_all, finish, finish_current, known_until, close_silent, current_list,
  is_before, init, project_from, project_events, stops, is_stop,
}
use mosemo.Observation.Projection.Feeding.{
  is_complete, IsOrdered, Known, Before, Ordered, Chain, Within, Ended, feed-Ordered,
}

-- No record is observed before the one before it.
abbrev pub is_monotone_from : Option Instant → List ActivityRecord → Bool
is_monotone_from previous [] = true
is_monotone_from previous (r ∷ rs) =
    not (is_before r.observed_at previous) && is_monotone_from (some r.observed_at) rs

abbrev pub IsComplete : ActivityRecord → Type 0
IsComplete r = is_complete r ≡ true

abbrev pub ByEnd : Option Instant → Type 0 → (Instant → Type 0) → Type 0
ByEnd none opened closed = opened
ByEnd (some e) opened closed = closed e

-- Segments in order and without overlap, of which only the last may be open.
abbrev pub Timeline : Instant → List ProjectedSegment → Type 0
Timeline lo [] = Unit
Timeline lo (s ∷ ss) =
    (lo ≤ started_at s)
    × ByEnd (ended_at s) (Within s (known_until s) × (ss ≡ [])) (λ e. Within s e × Timeline e ss)

Timeline-append :
    (lo hi : Instant) (ss : List ProjectedSegment) (s : ProjectedSegment)
    → Chain lo ss hi
    → hi ≤ started_at s
    → ByEnd (ended_at s) (Within s (known_until s)) (Within s)
    → Timeline lo (ss ++ s ∷ [])
Timeline-append lo hi [] s c h w = (omega arith, last (ended_at s) w)
  where
    last :
        (e : Option Instant)
        → ByEnd e (Within s (known_until s)) (Within s)
        → ByEnd e
            (Within s (known_until s) × ◌≡◌ {A = List ProjectedSegment} [] [])
            (λ t. Within s t × Unit {0})
    last none w = (w, refl)
    last (some t) w = (w, tt)
Timeline-append lo hi (x ∷ ss) s c h w =
    (c.0, next (ended_at x) (λ t m. Timeline-append t hi ss s m h w) c.1)
  where
    next :
        (e : Option Instant)
        → ((t : Instant) → Chain t ss hi → Timeline t (ss ++ s ∷ []))
        → Ended e (λ t. Within x t × Chain t ss hi)
        → ByEnd e
            (Within x (known_until x) × (ss ++ s ∷ [] ≡ []))
            (λ t. Within x t × Timeline t (ss ++ s ∷ []))
    next none ih a = absurd a
    next (some t) ih a = (a.0, ih t a.1)

-- What a projection returns after an ordered fold is a timeline, whatever `now` is.
Timeline-finish : (now : Option Instant) (p : Projection) → IsOrdered p → Timeline 0 (finish now p)
unfolding finish
Timeline-finish now p o = finish_known now p.current p.earlier (Before-current p.previous_time p o)
  where
    Before-current :
        (prev : Option Instant) (q : Projection)
        → Before prev q
        → (t : Instant) × Known q.current t q.earlier
    Before-current none q b = (0, rw (b.0) (b.1))
    Before-current (some t) q b = (t, b)

    finish_known :
        (n : Option Instant) (c : Option ProjectedSegment) (earlier : List ProjectedSegment)
        → (t : Instant) × Known c t earlier
        → Timeline 0 (earlier ++ current_list (finish_current n c))
    finish_known n none earlier k = rw (k.1) tt
    finish_known none (some (activity a)) earlier k =
        Timeline-append 0 a.started_at earlier (activity a) k.1.3 (omega arith) (ground arith)
    finish_known (some t) (some (activity a)) earlier k =
        Timeline-append 0 a.started_at earlier (close_silent (some t) (activity a)) k.1.3
          (ground arith) (ground arith)
    finish_known none (some (gap g)) earlier k =
        Timeline-append 0 g.started_at earlier (gap g) k.1.2 (omega arith) (ground arith)
    finish_known (some t) (some (gap g)) earlier k =
        Timeline-append 0 g.started_at earlier (gap g) k.1.2 (omega arith) (ground arith)

-- A record before the last one is refused.
pub feed-regression :
    (r : ActivityRecord) (p : Projection)
    → is_before r.observed_at p.previous_time ≡ true
    → feed r p ≡ err observation_time_regression
unfolding feed
feed-regression r p h = rw h refl

-- The outcome of a whole fold: an ordered projection, or the time regression.
abbrev pub Folded : Bool → Result ProjectionError Projection → Type 0
Folded true (ok q) = IsOrdered q
Folded true (err e) = ⊥
Folded false (ok q) = ⊥
Folded false (err e) = e ≡ observation_time_regression

pub feed_all-Folded :
    (rs : List ActivityRecord) (p : Projection)
    → All IsComplete rs
    → IsOrdered p
    → Folded (is_monotone_from p.previous_time rs) (feed_all rs p)
unfolding feed_all
feed_all-Folded [] p c o = o
feed_all-Folded (r ∷ rs) p c o = elim (Bool-cases (is_before r.observed_at p.previous_time)) [
  | inl late ↦ rw (late, feed-regression r p late) refl
  | inr fine ↦
      rw fine (fed (feed r p) (feed-Ordered r p c.0 o fine) (λ q. feed_all-Folded rs q c.1))
]
  where
    fed :
        (f : Fed)
        → Ordered r f
        → ((q : Projection)
            → IsOrdered q
            → Folded (is_monotone_from q.previous_time rs) (feed_all rs q))
        → Folded (is_monotone_from (some r.observed_at) rs) (f >>= λ x. feed_all rs x.0)
    fed (ok (q, closed)) k ih = rw (← k.1) (ih q k.0)
    fed (err e) k ih = absurd k

never-stops : (seen : Bool) (c : Option ProjectedSegment) → stops (λ _. false) seen c ≡ false
never-stops seen none = refl
never-stops true (some s) = refl
never-stops false (some s) = refl

-- Without a stop condition `project_events` is the fold and then `finish`.
project_from-feed_all :
    (now : Option Instant) (stop : Option Uuid) (rs : List ActivityRecord) (seen : Bool)
    (p : Projection)
    → project_from now stop (λ _. false) rs seen p ≡ (feed_all rs p >>= λ q. ok (finish now q))
unfolding project_from feed_all
project_from-feed_all now stop [] seen p = refl
project_from-feed_all now stop (r ∷ rs) seen p =
    go (seen || is_stop stop r.event_id) (feed r p)
      (project_from-feed_all now stop rs (seen || is_stop stop r.event_id))
  where
    go :
        (s : Bool) (f : Fed)
        → ((q : Projection)
            → project_from now stop (λ _. false) rs s q
              ≡ (feed_all rs q >>= λ u. ok (finish now u)))
        → (f >>= λ x.
            if stops (λ _. false) s x.1
            then ok x.0.earlier
            else project_from now stop (λ _. false) rs s x.0)
          ≡ (f >>= (λ x. feed_all rs x.0) >>= λ u. ok (finish now u))
    go s (ok (q, c)) ih = rw (never-stops s c) (ih q)
    go s (err e) ih = refl

pub project_events-feed_all :
    (now : Option Instant) (rs : List ActivityRecord)
    → project_events rs now none (λ _. false) ≡ (feed_all rs (init none) >>= λ q. ok (finish now q))
unfolding project_events
project_events-feed_all now rs = project_from-feed_all now none rs false (init none)

-- A projection of complete records, whenever it is finished, is a timeline if no record was
-- observed before the one ahead of it, and the time regression error otherwise.
abbrev pub Projects : Bool → Result ProjectionError (List ProjectedSegment) → Type 0
Projects true (ok segments) = Timeline 0 segments
Projects true (err e) = ⊥
Projects false (ok segments) = ⊥
Projects false (err e) = e ≡ observation_time_regression

-- A projection of complete records succeeds exactly if their times never fall, and then returns a
-- timeline: segments in order, without overlap, of which only the last may be open. Otherwise it
-- fails with the time regression error.
pub project_events-Projects :
    (rs : List ActivityRecord) (now : Option Instant)
    → All IsComplete rs
    → Projects (is_monotone_from none rs) (project_events rs now none (λ _. false))
project_events-Projects rs now c = rw (project_events-feed_all now rs) (
    done (is_monotone_from none rs) (feed_all rs (init none))
      (feed_all-Folded rs (init none) c (refl, refl)))
  where
    done :
        (b : Bool) (f : Result ProjectionError Projection)
        → Folded b f
        → Projects b (f >>= λ q. ok (finish now q))
    done true (ok q) k = Timeline-finish now q k
    done true (err e) k = k
    done false (ok q) k = k
    done false (err e) k = k
