-- ===== src/Labeling/Proposing/Cursors.antt =====
-- A cursor over rows in the order of their identifiers (`list_closed_detailed_segments` of
-- observation/infrastructure/timeline_segments.py) moves forward.
use mosemo.Prelude.{
  ℕ, zero, suc, ◌≤◌, ◌<◌, ◌≡◌, inl, inr, ap, Bool, true, Bool-cases, Option, none, some, List, [],
  ◌∷◌, nat_eq, arith, All, In, keep, length, take,
}
use mosemo.Shared.Time.{Uuid}
use mosemo.Observation.Segments.{Segment}
use mosemo.Observation.Observed.{is_past}
use mosemo.Labeling.Scanning.{ScannedSegment}
use mosemo.Labeling.Scanning.Cursor.{Advances}

-- Rows by increasing identifiers.
abbrev pub IsAscending : List Segment → Type 0
IsAscending [] = Unit
IsAscending (s ∷ rows) = All (λ r. s.id < r.id) rows × IsAscending rows

-- How many rows stand after a cursor.
abbrev pub past_count : List Segment → Option Uuid → ℕ
past_count rows cursor = length (keep (λ s. is_past cursor s.id) rows)

-- A later cursor leaves fewer rows, by its own at least.
past_count-le :
    (rows : List Segment) (cursor : Option Uuid) (id : Uuid)
    → is_past cursor id ≡ true
    → past_count rows (some id) ≤ past_count rows cursor
past_count-le [] cursor id h = omega arith
past_count-le (r ∷ rows) none id h = ground (arith, past_count-le rows none id h)
past_count-le (r ∷ rows) (some c) id h = ground (arith, past_count-le rows (some c) id h)

past_count-lt :
    (rows : List Segment) (cursor : Option Uuid) (s : Segment)
    → In s rows
    → is_past cursor s.id ≡ true
    → past_count rows (some s.id) < past_count rows cursor
past_count-lt [] cursor s i h = absurd i
past_count-lt (r ∷ rows) none s (inl e) h =
    let same : s.id ≡ r.id = ap (λ x. x.id) e in ground (arith, past_count-le rows none s.id h)
past_count-lt (r ∷ rows) (some c) s (inl e) h =
    let same : s.id ≡ r.id = ap (λ x. x.id) e in ground (arith, past_count-le rows (some c) s.id h)
past_count-lt (r ∷ rows) none s (inr i) h = ground (arith, past_count-lt rows none s i h)
past_count-lt (r ∷ rows) (some c) s (inr i) h = ground (arith, past_count-lt rows (some c) s i h)

All-keep :
    (P : Segment → Type 0) (test : Segment → Bool) (rows : List Segment)
    → All P rows
    → All P (keep test rows)
All-keep P test [] h = tt
All-keep P test (r ∷ rows) h = elim (Bool-cases (test r)) [
  | inl e ↦ rw e (h.0, All-keep P test rows h.1)
  | inr e ↦ rw e (All-keep P test rows h.1)
]

pub keep-IsAscending :
    (test : Segment → Bool) (rows : List Segment) → IsAscending rows → IsAscending (keep test rows)
keep-IsAscending test [] h = tt
keep-IsAscending test (r ∷ rows) h = elim (Bool-cases (test r)) [
  | inl e ↦ rw e (All-keep (λ s. r.id < s.id) test rows h.0, keep-IsAscending test rows h.1)
  | inr e ↦ rw e (keep-IsAscending test rows h.1)
]

pub All-take :
    (P : Segment → Type 0) (n : ℕ) (rows : List Segment) → All P rows → All P (take n rows)
All-take P zero rows h = tt
All-take P (suc n) [] h = tt
All-take P (suc n) (r ∷ rows) h = (h.0, All-take P n rows h.1)

pub take-IsAscending : (n : ℕ) (rows : List Segment) → IsAscending rows → IsAscending (take n rows)
take-IsAscending zero rows h = tt
take-IsAscending (suc n) [] h = tt
take-IsAscending (suc n) (r ∷ rows) h =
    (All-take (λ s. r.id < s.id) n rows h.0, take-IsAscending n rows h.1)

pub length-take : (n : ℕ) (rows : List Segment) → length (take n rows) ≤ n
length-take zero rows = omega arith
length-take (suc n) [] = omega arith
length-take (suc n) (r ∷ rows) = omega (arith, length-take n rows)

-- The identifiers of scanned segments are those of rows.
abbrev pub ScannedFrom : List Segment → List ScannedSegment → Type 0
ScannedFrom [] [] = Unit
ScannedFrom (r ∷ rows) (s ∷ page) = (s.segment_id ≡ r.id) × ScannedFrom rows page
ScannedFrom _ _ = ⊥

pub Advances-rows :
    (all rows : List Segment) (page : List ScannedSegment) (cursor : Option Uuid)
    → All (λ s. In s all) rows
    → All (λ s. is_past cursor s.id ≡ true) rows
    → IsAscending rows
    → ScannedFrom rows page
    → Advances (past_count all) (past_count all cursor) page
Advances-rows all [] [] cursor i past asc f = tt
Advances-rows all [] (s ∷ page) cursor i past asc f = absurd f
Advances-rows all (r ∷ rows) [] cursor i past asc f = absurd f
Advances-rows all (r ∷ rows) (s ∷ page) cursor i past asc f = (
  rw f.0 (past_count-lt all cursor r i.0 past.0),
  Advances-rows all rows page (some s.segment_id) i.1 (after rows asc.0) asc.1 f.1,
)
  where
    after :
        (rest : List Segment)
        → All (λ t. r.id < t.id) rest
        → All (λ t. is_past (some s.segment_id) t.id ≡ true) rest
    after [] h = tt
    after (t ∷ rest) h = (ground (arith, f.0), after rest h.1)
