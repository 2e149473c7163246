-- ===== src/Observation/Projection/Append.antt =====
-- Appending to a stored timeline (observation/application/batches.py, `_append`): a projection that
-- starts from the last stored segment ends as the whole fold does.
use mosemo.Prelude.{
  ◌≡◌, refl, Bool, true, false, inl, inr, Bool-cases, Option, none, some, List, [], ◌∷◌, ◌++◌,
  append_assoc, arith, Result, ok, err, ◌>>=◌, All, sym, ◌∙◌, ok-injective, ap,
  append_one-injective, append_one-ne, >>=-ok,
}
use mosemo.Shared.Time.{Instant, Uuid}
use mosemo.Observation.Activities.{ActivityRecord}
use mosemo.Observation.Projected.{
  ProjectedSegment, ProjectionError, activity, gap, segment_seed, to_segment,
}
use mosemo.Observation.Projected.Rows.{reopen, segment_seed-to_segment}
use mosemo.Observation.Projection.{
  Projection, Fed, feed, feed_all, finish, finish_current, close_silent, current_list, is_before,
  init, known_until, project_events,
}
use mosemo.Observation.Projection.Feeding.{IsOrdered, Before, Known}
use mosemo.Observation.Projection.Order.{
  IsComplete, Folded, feed_all-Folded, is_monotone_from, feed-regression, project_events-feed_all,
}
use mosemo.Observation.Projection.Resume.{
  graft, graft_fed, graft_result, feed_all-graft, feed-resume,
}

-- Folding a list in two parts.
pub feed_all-append :
    (xs ys : List ActivityRecord) (p : Projection)
    → feed_all (xs ++ ys) p ≡ (feed_all xs p >>= feed_all ys)
unfolding feed_all
feed_all-append [] ys p = refl
feed_all-append (x ∷ xs) ys p = next (feed x p) (λ q. feed_all-append xs ys q)
  where
    next :
        (f : Fed)
        → ((q : Projection) → feed_all (xs ++ ys) q ≡ (feed_all xs q >>= feed_all ys))
        → (f >>= λ u. feed_all (xs ++ ys) u.0) ≡ (f >>= (λ u. feed_all xs u.0) >>= feed_all ys)
    next (ok u) ih = ih u.0
    next (err e) ih = refl

-- The current segment of an ordered projection is open, and known up to the last time at most.
Before-open :
    (prev : Option Instant) (p : Projection) (s : ProjectedSegment)
    → Before prev p
    → p.current ≡ some s
    → (reopen s ≡ s)
      × ((t : Instant) → is_before t prev ≡ false → is_before t (some (known_until s)) ≡ false)
Before-open none p s b e = absurd (cc)
Before-open (some t) p (activity a) b e =
    let k : Known (some (activity a)) t p.earlier = rw e at b in (ground arith, λ u h. ground arith)
Before-open (some t) p (gap g) b e =
    let k : Known (some (gap g)) t p.earlier = rw e at b in (ground arith, λ u h. ground arith)

reopen-close_silent :
    (now : Option Instant) (s : ProjectedSegment) → reopen (close_silent now s) ≡ reopen s
reopen-close_silent none (activity a) = refl
reopen-close_silent none (gap g) = refl
reopen-close_silent (some now) (activity a) = ground arith
reopen-close_silent (some now) (gap g) = refl

pub finish-graft :
    (before : List ProjectedSegment) (now : Option Instant) (q : Projection)
    → finish now (graft before q) ≡ before ++ finish now q
unfolding finish
finish-graft before now q =
    append_assoc before q.earlier (current_list (finish_current now q.current))

pub graft_result-ok :
    (before : List ProjectedSegment) (f : Result ProjectionError Projection) {q : Projection}
    → graft_result before f ≡ ok q
    → (u : Projection) × (f ≡ ok u) × (graft before u ≡ q)
graft_result-ok before (ok u) h = (u, refl, ok-injective h)
graft_result-ok before (err e) h = cc

-- The outcome of resuming at `s`: the same segments, after the earlier ones.
abbrev Resumes : Projection → ProjectedSegment → List ActivityRecord → Projection → Type 0
Resumes p s ys q =
    (u : Projection) × (feed_all ys (init (some s)) ≡ ok u)
    × ((now : Option Instant) → finish now q ≡ p.earlier ++ finish now u)

feed_all-resume :
    (ys : List ActivityRecord) (p : Projection) (s : ProjectedSegment) {q : Projection}
    → p.current ≡ some s
    → ((t : Instant)
        → is_before t p.previous_time ≡ false
        → is_before t (some (known_until s)) ≡ false)
    → feed_all ys p ≡ ok q
    → Resumes p s ys q
unfolding feed_all
feed_all-resume [] p s c known e =
    (init (some s), refl, λ now. unfold finish in ground (arith, ok-injective e))
feed_all-resume (y ∷ ys) p s {q} c known e =
    elim (Bool-cases (is_before y.observed_at p.previous_time)) [
      | inl late ↦ cc (feed-regression y p late)
      | inr fine ↦ next (feed y (init (some s))) (
          ap (λ f. f >>= λ x. feed_all ys x.0)
            (sym (feed-resume y p s c fine (known y.observed_at fine)))
          ∙ e)
    ]
  where
    next :
        (f : Fed)
        → (graft_fed p.earlier f >>= λ x. feed_all ys x.0) ≡ ok q
        → (u : Projection) × ((f >>= λ x. feed_all ys x.0) ≡ ok u)
          × ((now : Option Instant) → finish now q ≡ p.earlier ++ finish now u)
    next (ok (u, closed)) h =
        let (w, done, same) =
          graft_result-ok p.earlier (feed_all ys u) (sym (feed_all-graft p.earlier ys u) ∙ h) in
        (w, done, λ now. ap (finish now) (sym same) ∙ finish-graft p.earlier now w)
    next (err x) h = cc

Before-none :
    (prev : Option Instant) (p : Projection) → Before prev p → p.current ≡ none → p.earlier ≡ []
Before-none none p b h = b.1
Before-none (some t) p b h = rw h at b

-- The last segment that an ordered projection returns, for the projection that returned it.
last-current :
    (now : Option Instant) (p : Projection) (kept : List ProjectedSegment) (last : ProjectedSegment)
    → IsOrdered p
    → finish now p ≡ kept ++ last ∷ []
    → (s : ProjectedSegment) × (p.current ≡ some s)
      × (p.earlier ≡ kept)
      × (close_silent now s ≡ last)
unfolding finish
last-current now p kept last o e = by_current p.current refl
  where
    by_current :
        (c : Option ProjectedSegment)
        → p.current ≡ c
        → (s : ProjectedSegment) × (p.current ≡ some s)
          × (p.earlier ≡ kept)
          × (close_silent now s ≡ last)
    by_current none h =
        absurd (append_one-ne kept last (rw (h, Before-none p.previous_time p o h) at e))
    by_current (some s) h =
        let same =
          append_one-injective p.earlier kept {x = close_silent now s} {y = last} (rw h at e) in
        (s, h, same.0, same.1)

folded-IsOrdered :
    (xs : List ActivityRecord) (p : Projection)
    → All IsComplete xs
    → feed_all xs (init none) ≡ ok p
    → IsOrdered p
folded-IsOrdered xs p c e =
    either (is_monotone_from none xs) (rw e at (feed_all-Folded xs (init none) c (refl, refl)))
  where
    either : (b : Bool) → Folded b (ok p) → IsOrdered p
    either true k = k
    either false k = absurd k

-- The row of the last returned segment seeds the current segment.
seed-last :
    (account id : Uuid) (now : Option Instant) (s last : ProjectedSegment)
    → reopen s ≡ s
    → close_silent now s ≡ last
    → segment_seed (to_segment account id last) ≡ some s
seed-last account id now s last opened closed =
    ap (λ x. segment_seed (to_segment account id x)) (sym closed)
    ∙ segment_seed-to_segment account id (close_silent now s)
    ∙ ap some (reopen-close_silent now s ∙ opened)

-- Appending is as good as replaying. Let a timeline be what a projection of complete records
-- returned at any time, with its last segment stored as a row. If the projection of those records
-- and further ones succeeds, then so does the fold of the further ones alone from the segment that
-- the row seeds, and the new timeline is the old one without its last segment, followed by what
-- that fold returns.
pub append-eq-replay :
    (account id : Uuid) (xs ys : List ActivityRecord) (now now' : Option Instant)
    (kept : List ProjectedSegment) (last : ProjectedSegment) {segments : List ProjectedSegment}
    → All IsComplete xs
    → project_events xs now none (λ _. false) ≡ ok (kept ++ last ∷ [])
    → project_events (xs ++ ys) now' none (λ _. false) ≡ ok segments
    → (q : Projection) × (feed_all ys (init (segment_seed (to_segment account id last))) ≡ ok q)
      × (segments ≡ kept ++ finish now' q)
append-eq-replay account id xs ys now now' kept last {segments} c old new =
    let (p, folded, finished) =
      >>=-ok (feed_all xs (init none)) (λ q. ok (finish now q))
        (sym (project_events-feed_all now xs) ∙ old) in
    let (q, more, ended) =
      >>=-ok (feed_all (xs ++ ys) (init none)) (λ q. ok (finish now' q))
        (sym (project_events-feed_all now' (xs ++ ys)) ∙ new) in
    let o = folded-IsOrdered xs p c folded in
    let (s, cur, same, closed) = last-current now p kept last o (ok-injective finished) in
    let (opened, known) = Before-open p.previous_time p s o cur in
    let rest : feed_all ys p ≡ ok q =
      rw folded at (sym (feed_all-append xs ys (init none)) ∙ more) in
    let (u, ran, tail) = feed_all-resume ys p s cur known rest in
    (
      u,
      ap (λ c. feed_all ys (init c)) (seed-last account id now s last opened closed) ∙ ran,
      sym (ok-injective ended) ∙ tail now' ∙ ap (λ l. l ++ finish now' u) same,
    )
