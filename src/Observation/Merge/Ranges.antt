-- ===== src/Observation/Merge/Ranges.antt =====
-- What the paged read of a range of segments returns (`list_segment_range` of
-- observation/infrastructure/timeline_segments.py).
use mathlib.Core.List.{Perm}
use mosemo.Prelude.{
  ◌≡◌, ap, sym, ◌∙◌, ◌&&◌, Option, List, [], ◌∷◌, ◌++◌, append_assoc, append-nil, nat_eq, ◌==◌, leb,
  keep, map, ok,
}
use mosemo.Shared.Time.{Instant, Uuid}
use mosemo.Observation.Activities.{ActivityRecord}
use mosemo.Observation.Segments.{Segment}
use mosemo.Observation.Merge.{
  Joined, join, segment_key, is_through, segment_rows, visit, collect, list_segment_range,
}
use mosemo.Observation.Merge.Pages.{IsStrict, visited, visit_pages-visit}
use mosemo.Observation.Merge.Sorting.{IsDistinct, sort-IsStrict, sort-perm}

visit-collect {ℓ} :
    {E : Type ℓ} (rows : List Joined) (found : List Segment)
    → visited {E = E} (visit collect rows found) ≡ ok (found ++ map (λ row. row.0) rows)
unfolding visit
visit-collect [] found = ap ok (sym (append-nil found))
visit-collect (row ∷ rows) found =
    visit-collect rows (found ++ row.0 ∷ [])
    ∙ ap ok (append_assoc found (row.0 ∷ []) (map (λ u. u.0) rows))

-- The account's segments that start within the range, with the records that start them.
abbrev pub in_range :
    List ActivityRecord → List Segment → Uuid → Instant → Option Instant → List Joined
in_range records segments account start through = join records (
    keep
      (λ s. (s.account_id == account) && leb start s.started_at && is_through through s.started_at)
      segments)

-- Reading a range of segments page by page loses none, repeats none and orders them: when no two
-- segments of the range start with the same event, the result is the segments of some rows whose keys
-- increase strictly, and these rows are the segments of the range that have a first record, in
-- another order.
pub list_segment_range-IsComplete {ℓ} :
    {E : Type ℓ} (records : List ActivityRecord) (segments : List Segment) (account : Uuid)
    (start : Instant) (through : Option Instant)
    → IsDistinct segment_key (in_range records segments account start through)
    → (rows : List Joined) × (list_segment_range {E = E} records segments account start through
        ≡ ok (map (λ row. row.0) rows))
      × IsStrict segment_key rows
      × Perm rows (in_range records segments account start through)
unfolding list_segment_range segment_rows
list_segment_range-IsComplete records segments account start through h = (
  segment_rows records segments account start through,
  visit_pages-visit segment_key collect 127 (segment_rows records segments account start through) []
        (sort-IsStrict segment_key (in_range records segments account start through) h)
      ∙ visit-collect (segment_rows records segments account start through) [],
  sort-IsStrict segment_key (in_range records segments account start through) h,
  sort-perm segment_key (in_range records segments account start through),
)
