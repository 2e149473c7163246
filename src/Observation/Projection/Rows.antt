-- ===== src/Observation/Projection/Rows.antt =====
-- Whatever a projection returns can be stored (observation/domain/timeline.py, `to_segment`, and the
-- constraints in observation/infrastructure/tables.py).
use mosemo.Prelude.{◌≡◌, true, false, Bool, Option, none, some, List, [], ◌∷◌, arith, ok, All}
use mosemo.Shared.Time.{Instant, Uuid}
use mosemo.Observation.Activities.{ActivityRecord}
use mosemo.Observation.Segments.{satisfies_checks}
use mosemo.Observation.Projected.{ProjectedSegment, activity, gap, ended_at, to_segment}
use mosemo.Observation.Projection.{known_until, project_events}
use mosemo.Observation.Projection.Feeding.{Within}
use mosemo.Observation.Projection.Order.{
  ByEnd, Timeline, IsComplete, Projects, is_monotone_from, project_events-Projects,
}

row-satisfies :
    (account id : Uuid) (s : ProjectedSegment)
    → ByEnd (ended_at s) (Within s (known_until s)) (Within s)
    → satisfies_checks (to_segment account id s) ≡ true
unfolding satisfies_checks to_segment
row-satisfies account id (activity a) w = ground arith
row-satisfies account id (gap g) w = ground arith

-- Each segment of a timeline lies within its end, and so do those after it.
Timeline-parts {ℓ} :
    (P : ProjectedSegment → Type ℓ) (s : ProjectedSegment) (ss : List ProjectedSegment)
    (e : Option Instant)
    → ByEnd e (Within s (known_until s) × (ss ≡ [])) (λ t. Within s t × Timeline t ss)
    → ((t : Instant) → Timeline t ss → All P ss)
    → ByEnd e (Within s (known_until s)) (Within s) × All P ss
Timeline-parts P s ss none w ih = (w.0, rw (w.1) tt)
Timeline-parts P s ss (some t) w ih = (w.0, ih t w.1)

abbrev pub IsRow : Uuid → Uuid → ProjectedSegment → Type 0
IsRow account id s = satisfies_checks (to_segment account id s) ≡ true

Timeline-rows :
    (account id : Uuid) (lo : Instant) (segments : List ProjectedSegment)
    → Timeline lo segments
    → All (IsRow account id) segments
Timeline-rows account id lo [] t = tt
Timeline-rows account id lo (s ∷ ss) t =
    let parts =
      Timeline-parts (IsRow account id) s ss (ended_at s) t.1
        (λ e. Timeline-rows account id e ss) in
    (row-satisfies account id s parts.0, parts.1)

-- Every segment that a projection of complete records returns satisfies, under any account and
-- identifier, the CHECK constraints of its table: storing it cannot fail on one of them.
pub project_events-rows :
    (rs : List ActivityRecord) (now : Option Instant) {segments : List ProjectedSegment}
    (account id : Uuid)
    → All IsComplete rs
    → project_events rs now none (λ _. false) ≡ ok segments
    → All (λ s. satisfies_checks (to_segment account id s) ≡ true) segments
project_events-rows rs now {segments} account id c e =
    Timeline-rows account id 0 segments
      (timeline (is_monotone_from none rs) (rw e at (project_events-Projects rs now c)))
  where
    timeline : (b : Bool) → Projects b (ok segments) → Timeline 0 segments
    timeline true k = k
    timeline false k = absurd k
