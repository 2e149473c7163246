-- ===== src/Labeling/Timeline/Total.antt =====
-- Grouping the label timeline never fails an assertion (labeling/application/timeline.py).
use mosemo.Prelude.{
  ◌≡◌, subst, some-injective, and_then-some, inl, inr, refl, String, Bool, true, false, ◌&&◌,
  Bool-cases, Option, none, some, List, [], ◌∷◌, ◌++◌, arith, All, is_some, and_then, if◌then◌else◌,
}
use mosemo.Shared.Time.{Instant, Uuid}
use mosemo.Observation.Segments.{Segment, timeline_kind_at, overlaps_window}
use mosemo.Observation.Observed.{VersionFields, ObservedSegment, observed, observed_overlapping}
use mosemo.Labeling.Confirmations.{Confirmation}
use mosemo.Labeling.States.{is_labelable}
use mosemo.Labeling.Timeline.{
  LabelTimelineEntry, timeline_entry, flush, breaks, group_from, group_items,
}

-- A labelable segment has an end and a version.
abbrev pub IsReady : ObservedSegment → Type 0
IsReady o = is_labelable o.kind ≡ true → (is_some o.ended_at && is_some o.version) ≡ true

observed-IsReady :
    (digest : VersionFields → String) (s : Segment) (now : Instant) (o : ObservedSegment)
    → observed digest s now ≡ some o
    → IsReady o
unfolding observed timeline_kind_at
observed-IsReady digest s now o h k = ground arith

observed_overlapping-IsReady :
    (digest : VersionFields → String) (start end now : Instant) (rows : List Segment)
    (segments : List ObservedSegment)
    → observed_overlapping digest start end now rows ≡ some segments
    → All IsReady segments
unfolding observed_overlapping
observed_overlapping-IsReady digest start end now [] [] h = tt
observed_overlapping-IsReady digest start end now [] (o ∷ os) h = absurd (cc)
observed_overlapping-IsReady digest start end now (s ∷ rows) segments h =
    let (overlaps, e, next) = and_then-some (overlaps_window s start end now) _ h in
    by_overlap overlaps (observed_overlapping-IsReady digest start end now rows) next
  where
    by_overlap :
        (overlaps : Bool)
        → ((os : List ObservedSegment)
            → observed_overlapping digest start end now rows ≡ some os
            → All IsReady os)
        → (if overlaps
            then and_then (observed digest s now) (λ o.
              and_then (observed_overlapping digest start end now rows) (λ os. some (o ∷ os)))
            else observed_overlapping digest start end now rows)
          ≡ some segments
        → All IsReady segments
    by_overlap false ih next = ih segments next
    by_overlap true ih next =
        let (o, seen, more) = and_then-some (observed digest s now) _ next in
        let (os, rest, made) =
          and_then-some (observed_overlapping digest start end now rows) _ more in
        subst (All IsReady) (some-injective made) (observed-IsReady digest s now o seen, ih os rest)

and_then-is_some {ℓ κ} :
    {A : Type ℓ} {B : Type κ} (o : Option A) (f : A → Option B)
    → is_some o ≡ true
    → ((a : A) → is_some (f a) ≡ true)
    → is_some (and_then o f) ≡ true
and_then-is_some none f h k = cc
and_then-is_some (some a) f h k = k a

module _ (confirmations : List Confirmation) (names : List (Uuid × String)) where
  timeline_entry-total :
      (o : ObservedSegment)
      → (is_some o.ended_at && is_some o.version) ≡ true
      → is_some (timeline_entry confirmations names o) ≡ true
  unfolding timeline_entry
  timeline_entry-total o h = ground arith

  group_from-total :
      (es : List LabelTimelineEntry) (segments : List ObservedSegment)
      → All IsReady segments
      → is_some (group_from confirmations names es segments) ≡ true
  unfolding group_from
  group_from-total es [] r = refl
  group_from-total es (o ∷ segments) r = elim (Bool-cases (is_labelable o.kind)) [
    | inr other ↦ rw other (
        and_then-is_some (group_from confirmations names [] segments) _
          (group_from-total [] segments r.1) (λ items. refl))
    | inl closed ↦ rw closed (
        and_then-is_some (timeline_entry confirmations names o) _
          (timeline_entry-total o (r.0 closed))
          (λ entry.
            by_break entry (breaks entry es) (group_from-total (entry ∷ []) segments r.1)
              (group_from-total (es ++ entry ∷ []) segments r.1)))
  ]
    where
      by_break :
          (entry : LabelTimelineEntry) (b : Bool)
          → is_some (group_from confirmations names (entry ∷ []) segments) ≡ true
          → is_some (group_from confirmations names (es ++ entry ∷ []) segments) ≡ true
          → is_some (
              if b
              then and_then
                  (group_from confirmations names (entry ∷ []) segments)
                  (λ items. some (flush es ++ items))
              else group_from confirmations names (es ++ entry ∷ []) segments)
            ≡ true
      by_break entry true new same =
          and_then-is_some (group_from confirmations names (entry ∷ []) segments) _ new
            (λ items. refl)
      by_break entry false new same = same

  -- The segments that the timeline lists for a window are always grouped: no assertion fails.
  pub group_items-total :
      (digest : VersionFields → String) (start end now : Instant) (rows : List Segment)
      (segments : List ObservedSegment)
      → observed_overlapping digest start end now rows ≡ some segments
      → is_some (group_items confirmations names segments) ≡ true
  unfolding group_items
  group_items-total digest start end now rows segments h =
      group_from-total [] segments
        (observed_overlapping-IsReady digest start end now rows segments h)
