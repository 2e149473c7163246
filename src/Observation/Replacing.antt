-- ===== src/Observation/Replacing.antt =====
-- Replacing stored segments by computed ones: `replace_account_segments` of
-- observation/infrastructure/timeline_segments.py, over the rows of all accounts.
-- `uuid7` is a parameter: `new_id n` is what its n-th call returns, and `generated` counts the calls.
pub mod Reuse
pub mod Origin
pub mod Ids
pub mod Accounts
mod Examples
use mosemo.Prelude.{
  ℕ, zero, suc, ◌+◌, Bool, true, false, not, ◌&&◌, Option, none, some, List, [], ◌∷◌, ◌++◌, nat_eq,
  ◌==◌, keep, length, take, find, contains, map, if◌then◌else◌,
}
use mosemo.Shared.Time.{Instant, Uuid}
use mosemo.Observation.Segments.{Segment}
use mosemo.Observation.Projected.{
  ProjectedSegment, first_event_id, converged_index, continues, can_inherit, to_segment,
}

-- The rows, and how many identifiers were generated for them.
pub record Timeline : Type 0 where
  pub rows : List Segment
  pub generated : ℕ

abbrev pub ids : List Segment → List Uuid
ids segments = map (λ s. s.id) segments

abbrev pub cut_at :
    ProjectedSegment
    → Option ℕ
    → List Segment
    → List ProjectedSegment × List Segment
    → List ProjectedSegment × List Segment
cut_at s none existing later = (s ∷ later.0, later.1)
cut_at s (some index) existing later = ([], take index existing)

-- `_trim_converged`: the computed segments before the first that equals a stored one, and the stored
-- ones before that.
unfoldable pub trim_converged :
    List ProjectedSegment → List Segment → Instant → List ProjectedSegment × List Segment
unfolding converged_index
trim_converged [] existing observed = ([], existing)
trim_converged (s ∷ projected) existing observed =
    cut_at s (converged_index s existing observed) existing
      (trim_converged projected existing observed)

-- A dict by first event: of equal keys the later value stays.
abbrev pub later_or : Option Segment → Bool → Segment → Option Segment
later_or (some later) found s = some later
later_or none true s = some s
later_or none false s = none

abbrev pub by_first_event : List Segment → Uuid → Option Segment
by_first_event [] event = none
by_first_event (s ∷ segments) event =
    later_or (by_first_event segments event) (s.first_event_id == event) s

-- The candidate that the computed segment continues.
abbrev pub continued : List Segment → List Uuid → ProjectedSegment → Option Segment
continued candidates reused s = find (λ c. not (contains reused c.id) && continues s c) candidates

abbrev pub unless_reused : Option Segment → List Uuid → Option Segment → Option Segment
unless_reused none reused other = other
unless_reused (some old) reused other = if contains reused old.id then other else some old

abbrev pub inherited : ProjectedSegment → Option Segment → Option Uuid
inherited s none = none
inherited s (some old) = if can_inherit s old then some old.id else none

-- `_reusable_id`
unfoldable pub reusable_id : ProjectedSegment → List Segment → List Uuid → Option Uuid
unfolding can_inherit continues
reusable_id s candidates reused = inherited s (
    unless_reused (by_first_event candidates (first_event_id s)) reused
      (continued candidates reused s))

abbrev pub id_or : Option Uuid → Uuid → Uuid
id_or none fresh = fresh
id_or (some id) fresh = id

abbrev pub mark : Option Uuid → List Uuid → List Uuid
mark none reused = reused
mark (some id) reused = id ∷ reused

-- `DELETE … WHERE id = …` for each of the segments.
abbrev pub delete_all : List Segment → List Segment → List Segment
delete_all removed rows = keep (λ s. not (contains (ids removed) s.id)) rows

module _ (new_id : ℕ → Uuid) where
  -- The loop that adds a row for every computed segment. The constructor generates an identifier
  -- also where a reused one replaces it.
  unfoldable pub added_rows :
      Uuid → List Segment → List ProjectedSegment → List Uuid → ℕ → List Segment
  unfolding to_segment reusable_id
  added_rows account candidates [] reused n = []
  added_rows account candidates (s ∷ projected) reused n =
      to_segment account (id_or (reusable_id s candidates reused) (new_id n)) s
      ∷ added_rows account candidates projected (mark (reusable_id s candidates reused) reused)
          (suc n)

  abbrev pub replace_trimmed : Timeline → Uuid → List ProjectedSegment × List Segment → Timeline
  replace_trimmed t account trimmed = record {
    rows = delete_all trimmed.1 t.rows ++ added_rows account trimmed.1 trimmed.0 [] t.generated;
    generated = t.generated + length trimmed.0;
  }

  -- `replace_account_segments`
  unfoldable pub replace_account_segments :
      Timeline → Uuid → List ProjectedSegment → List Segment → Instant → Timeline
  unfolding trim_converged added_rows
  replace_account_segments t account projected existing observed =
      replace_trimmed t account (trim_converged projected existing observed)
