-- ===== src/Observation/Observed/Windows.antt =====
-- The reads of observation/application/timeline.py against the stored rows.
use mosemo.Prelude.{
  ap, ◌∙◌, map, Option, ◌≡◌, refl, inl, inr, Bool-cases, String, true, false, some, List, [], ◌∷◌,
  nat_eq, ◌==◌, keep, arith, All,
}
use mosemo.Shared.Time.{Instant, Uuid}
use mathlib.Core.List.{Perm}
use mosemo.Observation.Activities.{ActivityRecord}
use mosemo.Observation.Merge.{Joined, join, segment_key, sort}
use mosemo.Observation.Merge.Sorting.{All-sort, sort-perm}
use mosemo.Observation.Merge.Filtering.{IsOrdered, sort-IsOrdered, keep-joined, keep-both}
use mosemo.Observation.Merge.Reading.{keep-All, join-All, firsts-All}
use mosemo.Observation.Segments.{Segment, satisfies_checks, overlaps_window, in_date_range}
use mosemo.Observation.Segments.Views.{overlaps_window-in_date_range, views_total}
use mosemo.Observation.Observed.{
  VersionFields, ObservedSegment, observed_overlapping, list_date_segments, list_window,
}

abbrev pub IsRow : Segment → Type 0
IsRow s = satisfies_checks s ≡ true

-- A row that the date filter drops does not overlap the window.
not_in_date_range :
    (s : Segment) (start end now : Instant)
    → IsRow s
    → in_date_range s start end ≡ false
    → overlaps_window s start end now ≡ some false
not_in_date_range s start end now c h =
    ground (arith, overlaps_window-in_date_range s start end now c, views_total s start end now c)

module _ (digest : VersionFields → String) (start end now : Instant) where
  observed_overlapping-kept :
      (rows : List Segment)
      → All IsRow rows
      → observed_overlapping digest start end now (keep (λ s. in_date_range s start end) rows)
        ≡ observed_overlapping digest start end now rows
  unfolding observed_overlapping
  observed_overlapping-kept [] h = refl
  observed_overlapping-kept (s ∷ rows) h =
      let ih = observed_overlapping-kept rows h.1 in
      elim (Bool-cases (in_date_range s start end)) [
        | inl kept ↦ rw (kept, ih) refl
        | inr dropped ↦ rw (dropped, not_in_date_range s start end now h.0 dropped) ih
      ]

module _ (digest : VersionFields → String) (records : List ActivityRecord) (account : Uuid)
    (start end now : Instant) where
  -- The account's rows with the records that start them.
  abbrev pub account_rows : List Segment → List Joined
  account_rows rows = join records (keep (λ s. s.account_id == account) rows)

  -- What a window lists: the segments of the account's rows that overlap it, in order.
  abbrev pub Lists : List Segment → Option (List ObservedSegment) → Type 0
  Lists rows answer =
      (ordered : List Joined) × Perm ordered (account_rows rows)
      × IsOrdered segment_key ordered
      × (answer ≡ observed_overlapping digest start end now (map (λ (row : Joined). row.0) ordered))

  -- A window lists exactly the account's segments that overlap it, and the date filter in the database
  -- is only an optimisation: the answer is that for all of the account's rows which have the record
  -- that starts them, in the order of their start, and of the record's device, sequence and event.
  -- This holds for rows that satisfy the constraints of the table.
  pub list_window-overlapping :
      (rows : List Segment)
      → All IsRow rows
      → Lists rows (list_window digest records rows account start end now)
  unfolding list_window list_date_segments
  list_window-overlapping rows h = (
    sort segment_key (account_rows rows),
    sort-perm segment_key (account_rows rows),
    sort-IsOrdered segment_key (account_rows rows),
    ap
          (λ l.
            observed_overlapping digest start end now
              (map (λ (row : Joined). row.0) (sort segment_key (join records l))))
          (keep-both (λ s. s.account_id == account) (λ s. in_date_range s start end) rows)
        ∙ ap (observed_overlapping digest start end now) (
            keep-joined (λ s. in_date_range s start end) segment_key records
              (keep (λ s. s.account_id == account) rows))
        ∙ observed_overlapping-kept digest start end now
            (map (λ (row : Joined). row.0) (sort segment_key (account_rows rows)))
            (firsts-All IsRow (sort segment_key (account_rows rows)) (
              All-sort segment_key (λ (row : Joined). IsRow row.0) (account_rows rows)
                (join-All IsRow records (keep (λ s. s.account_id == account) rows)
                  (keep-All IsRow (λ s. s.account_id == account) rows h)))),
  )
