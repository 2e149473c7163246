-- ===== src/Observation/Observed/Total.antt =====
-- When the reads of observation/application/timeline.py raise nothing.
use mosemo.Prelude.{
  String, ◌≡◌, ◌≢◌, refl, Bool, true, false, ◌&&◌, ◌||◌, Option, none, some, List, [], ◌∷◌,
  string_eq, nat_eq, option_eq, ◌==◌, keep, and_then, is_some, arith, All, if◌then◌else◌,
}
use mosemo.Shared.Time.{Instant, Uuid}
use mosemo.Observation.Segments.{
  Segment, effective_ended_at, timeline_kind_at, overlaps_window, satisfies_checks, in_date_range,
}
use mosemo.Observation.Segments.Views.{views_total}
use mosemo.Observation.Activities.{ActivityRecord}
use mosemo.Observation.Merge.{Joined, join, segment_key, sort}
use mosemo.Observation.Merge.Sorting.{All-sort}
use mosemo.Observation.Merge.Reading.{keep-All, join-All, firsts-All}
use mosemo.Observation.Observed.{
  VersionFields, segment_version, observed, observed_overlapping, list_date_segments, list_window,
}

-- The context of an activity is detailed or opaque, as the schemas of activities let through only.
abbrev pub has_known_kind : Segment → Bool
has_known_kind s = elim s.context [
  | none ↦ true
  | some c ↦ (c.kind == some "opaque") || (c.kind == some "detailed")
]

abbrev pub IsReadable : Segment → Type 0
IsReadable s = (satisfies_checks s ≡ true) × (has_known_kind s ≡ true)

module _ (digest : VersionFields → String) (now : Instant) where
  observed-total : (s : Segment) → IsReadable s → is_some (observed digest s now) ≡ true
  unfolding observed segment_version timeline_kind_at effective_ended_at satisfies_checks
  observed-total s h = ground arith

  module _ (start end : Instant) where
    observed_overlapping-total :
        (rows : List Segment)
        → All IsReadable rows
        → is_some (observed_overlapping digest start end now rows) ≡ true
    unfolding observed_overlapping
    observed_overlapping-total [] h = refl
    observed_overlapping-total (s ∷ rows) h =
        by_views (overlaps_window s start end now) (views_total s start end now h.0.0).1
          (observed digest s now) (observed-total s h.0)
          (observed_overlapping digest start end now rows) (observed_overlapping-total rows h.1)
      where
        by_views :
            {A : Type 0} (o : Option Bool)
            → o ≢ none
            → (seen : Option A) → is_some seen ≡ true
            → (rest : Option (List A)) → is_some rest ≡ true
            → is_some (
                and_then o λ overlaps.
                  if overlaps
                  then and_then seen (λ o. and_then rest (λ os. some (o ∷ os)))
                  else rest)
              ≡ true
        by_views none h seen k rest l = absurd (h refl)
        by_views (some true) h (some o) k (some os) l = refl
        by_views (some true) h none k rest l = absurd (cc)
        by_views (some true) h (some o) k none l = absurd (cc)
        by_views (some false) h seen k rest l = l

    pub list_window-total :
        (records : List ActivityRecord) (rows : List Segment) (account : Uuid)
        → All IsReadable rows
        → is_some (list_window digest records rows account start end now) ≡ true
    unfolding list_window list_date_segments
    list_window-total records rows account h =
        observed_overlapping-total (list_date_segments records rows account start end) (
          firsts-All IsReadable (sort segment_key (join records (keep dated rows))) (
            All-sort segment_key (λ (row : Joined). IsReadable row.0)
              (join records (keep dated rows))
              (join-All IsReadable records (keep dated rows) (keep-All IsReadable dated rows h))))
      where
        dated : Segment → Bool
        dated s = (s.account_id == account) && in_date_range s start end
