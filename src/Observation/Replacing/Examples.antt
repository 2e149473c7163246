-- ===== src/Observation/Replacing/Examples.antt =====
-- Replacing the rows of a concrete timeline.
use mosemo.Prelude.{ℕ, ◌+◌, ◌≡◌, inl, refl, Option, none, some, List, [], ◌∷◌, nat_eq, arith}
use mosemo.Shared.Time.{Uuid}
use mosemo.Observation.Segments.{SegmentType, Segment}
use mosemo.Observation.Projected.{ProjectedSegment, gap}
use mosemo.Observation.Replacing.{Timeline, added_rows, replace_account_segments}
use mosemo.Observation.Replacing.Origin.{Origins, added_rows-Origins}
use mosemo.Observation.Replacing.Ids.{IsIdentified}
use mosemo.Observation.Replacing.Accounts.{
  of_others, replace_account_segments-IsIdentified, replace_account_segments-others,
}

abbrev new_ids : ℕ → Uuid
new_ids n = 1000 + n

abbrev row : Uuid → Uuid → ℕ → Segment
row id account n = record {
  id = id;
  account_id = account;
  segment_type = SegmentType.capture_gap;
  started_at = n;
  ended_at = none;
  first_event_id = n;
  last_event_id = none;
  last_observed_at = none;
  context = none;
  reason = some "sleep";
}

-- The row of account 6 belongs to another account.
abbrev before : Timeline
before = record { rows = row 1 5 7 ∷ row 2 6 7 ∷ []; generated = 0 }

abbrev gap_from : ℕ → Option ℕ → ProjectedSegment
gap_from n ended =
    gap (record { started_at = n; first_event_id = n; reason = "sleep"; ended_at = ended })

abbrev projected : List ProjectedSegment
projected = gap_from 7 (some 9) ∷ gap_from 9 none ∷ []

abbrev after : Timeline
after = record {
  rows = row 2 6 7 ∷ record (row 1 5 7) { ended_at = some 9 } ∷ row 1001 5 9 ∷ [];
  generated = 2;
}

-- The first event's row keeps its identifier.
run-replace_account_segments :
    replace_account_segments new_ids before 5 projected (row 1 5 7 ∷ []) 9 ≡ after
unfolding replace_account_segments
run-replace_account_segments = refl

injective : (j k : ℕ) → new_ids j ≡ new_ids k → j ≡ k
injective j k h = omega arith

before-IsIdentified : IsIdentified new_ids before
before-IsIdentified = ((refl, (refl, tt)), λ k late. ground arith)

added_rows-Origins_example :
    Origins new_ids (row 1 5 7 ∷ []) [] 0 (added_rows new_ids 5 (row 1 5 7 ∷ []) projected [] 0)
added_rows-Origins_example = added_rows-Origins new_ids 5 (row 1 5 7 ∷ []) projected [] 0

replace_account_segments-IsIdentified_example :
    IsIdentified new_ids (replace_account_segments new_ids before 5 projected (row 1 5 7 ∷ []) 9)
replace_account_segments-IsIdentified_example =
    replace_account_segments-IsIdentified new_ids injective before 5 projected (row 1 5 7 ∷ []) 9
      (inl refl, tt) before-IsIdentified

replace_account_segments-others_example :
    of_others 5 (replace_account_segments new_ids before 5 projected (row 1 5 7 ∷ []) 9).rows
    ≡ of_others 5 before.rows
replace_account_segments-others_example =
    replace_account_segments-others new_ids before 5 projected (row 1 5 7 ∷ []) 9 (refl, (refl, tt))
      (inl refl, tt) (refl, tt)
