-- ===== src/Observation/Merge.antt =====
-- The merge order of an account's records (`observation_key` of observation/domain/timeline.py,
-- `_MERGE_ORDER` of observation/infrastructure/activity_records.py), and the loops that read a query
-- page by page after a cursor (`_rebuild_legacy_projection` and `_replay` of
-- observation/application/batches.py, `list_segment_range` of
-- observation/infrastructure/timeline_segments.py).
-- A query is its rows in order; a cursor drops the rows that do not come after it.
pub mod Pages
pub mod Sorting
pub mod Filtering
pub mod Ranges
pub mod Reading
mod Examples
use mosemo.Prelude.{
  ℕ, zero, suc, Bool, true, false, ◌&&◌, ◌||◌, Option, none, some, List, [], ◌∷◌, ◌++◌, nat_eq,
  ◌==◌, ltb, leb, keep, take, length, last?, contains, find, Result, ok, err, ◌>>=◌, if◌then◌else◌,
}
use mosemo.Shared.Time.{Instant, Uuid}
use mosemo.Observation.Activities.{ActivityRecord}
use mosemo.Observation.Records.{find_by_event_id}
use mosemo.Observation.Segments.{Segment}

pub record Key : Type 0 where
  pub time : Instant
  pub device : Uuid
  pub sequence : ℕ
  pub event : Uuid

abbrev pub observation_key : ActivityRecord → Key
observation_key r = record {
  time = r.observed_at;
  device = r.device_id;
  sequence = r.sequence;
  event = r.event_id;
}

-- `<` on the tuples, in Python and in SQL.
abbrev pub key_before : Key → Key → Bool
key_before a b =
    ltb a.time b.time
    || ((a.time == b.time)
        && (ltb a.device b.device
            || ((a.device == b.device)
                && (ltb a.sequence b.sequence
                    || ((a.sequence == b.sequence) && ltb a.event b.event)))))

module _ {ℓ} {A : Type ℓ} (key : A → Key) where
  abbrev pub insert : A → List A → List A
  insert x [] = x ∷ []
  insert x (y ∷ ys) =
      let rest = insert x ys in if key_before (key y) (key x) then y ∷ rest else x ∷ y ∷ ys

  -- `sorted(rows, key=key)`, and `ORDER BY key`
  abbrev pub sort : List A → List A
  sort [] = []
  sort (x ∷ xs) = insert x (sort xs)

  abbrev pub after_cursor : Option Key → A → Bool
  after_cursor none x = true
  after_cursor (some cursor) x = key_before cursor (key x)

  -- `WHERE key > after ORDER BY key LIMIT limit`, of a query whose ordered rows are `rows`.
  abbrev pub page : ℕ → Option Key → List A → List A
  page limit after rows = take limit (keep (after_cursor after) rows)

  abbrev pub cursor_of : Option A → Option Key
  cursor_of none = none
  cursor_of (some x) = some (key x)

-- What a loop over rows does with one of them: it may raise, and it may stop.
abbrev pub Visit {ℓ κ μ} : Type ℓ → Type κ → Type μ → Type (ℓ ⊔ κ ⊔ μ)
Visit E A S = A → S → Result E (S × Bool)

-- `for row in rows:` with a `break`; whether the loop stopped is returned.
unfoldable pub visit {ℓ κ μ} :
    {E : Type ℓ} {A : Type κ} {S : Type μ} → Visit E A S → List A → S → Result E (S × Bool)
visit step [] s = ok (s, false)
visit step (x ∷ xs) s = step x s >>= λ u. elim u.1 [ true ↦ ok u | false ↦ visit step xs u.0 ]

-- `while not stopped and (page := …): for row in page: …; after = key(page[-1])`
unfoldable pub visit_pages {ℓ κ μ} :
    {E : Type ℓ} {A : Type κ} {S : Type μ}
    → (A → Key)
    → Visit E A S
    → ℕ
    → List A
    → ℕ
    → Option Key
    → S
    → Result E S
unfolding visit
visit_pages key step limit rows zero after s = ok s
visit_pages key step limit rows (suc fuel) after s = elim (page key limit after rows) [
  | [] ↦ ok s
  | x ∷ xs ↦ visit step (x ∷ xs) s >>= λ u. elim u.1 [
    | true ↦ ok u.0
    | false ↦ visit_pages key step limit rows fuel (cursor_of key (last? (x ∷ xs))) u.0
  ]
]

-- The page size of both queries.
abbrev pub page_limit : ℕ
page_limit = 128

abbrev pub read_pages {ℓ κ μ} :
    {E : Type ℓ} {A : Type κ} {S : Type μ} → (A → Key) → Visit E A S → List A → S → Result E S
read_pages key step rows s = visit_pages key step page_limit rows (suc (length rows)) none s

abbrev pub is_account_record : List Uuid → Instant → ActivityRecord → Bool
is_account_record devices start r = contains devices r.device_id && leb start r.observed_at

-- The rows of `list_record_page`, for devices and a start.
unfoldable pub merged : List ActivityRecord → List Uuid → Instant → List ActivityRecord
merged records devices start = sort observation_key (keep (is_account_record devices start) records)

-- `find_latest_account_record`: the same order from the end.
unfoldable pub find_latest_account_record : List ActivityRecord → List Uuid → Option ActivityRecord
find_latest_account_record records devices =
    last? (sort observation_key (keep (λ r. contains devices r.device_id) records))

-- A segment with the record that starts it.
abbrev pub Joined : Type 0
Joined = Segment × ActivityRecord

abbrev pub joined_to : Segment → Option ActivityRecord → List Joined → List Joined
joined_to s none rows = rows
joined_to s (some r) rows = (s, r) ∷ rows

-- `JOIN activity_records ON first_event_id = event_id`
abbrev pub join : List ActivityRecord → List Segment → List Joined
join records [] = []
join records (s ∷ segments) =
    joined_to s (find_by_event_id records s.first_event_id) (join records segments)

abbrev pub segment_key : Joined → Key
segment_key row = record {
  time = row.0.started_at;
  device = row.1.device_id;
  sequence = row.1.sequence;
  event = row.1.event_id;
}

abbrev pub is_through : Option Instant → Instant → Bool
is_through none at = true
is_through (some through) at = leb at through

-- The rows of `list_segment_range`.
unfoldable pub segment_rows :
    List ActivityRecord → List Segment → Uuid → Instant → Option Instant → List Joined
segment_rows records segments account start through = sort segment_key (
    join records (
      keep
        (λ s.
          (s.account_id == account) && leb start s.started_at && is_through through s.started_at)
        segments))

abbrev pub collect {ℓ} : {E : Type ℓ} → Visit E Joined (List Segment)
collect row found = ok (found ++ row.0 ∷ [], false)

-- `list_segment_range`
unfoldable pub list_segment_range {ℓ} :
    {E : Type ℓ}
    → List ActivityRecord
    → List Segment
    → Uuid
    → Instant
    → Option Instant
    → Result E (List Segment)
unfolding visit_pages segment_rows
list_segment_range records segments account start through =
    read_pages segment_key collect (segment_rows records segments account start through) []

-- `find_last_account_segment`
unfoldable pub find_last_account_segment :
    List ActivityRecord → List Segment → Uuid → Option Segment
find_last_account_segment records segments account =
    elim (last? (sort segment_key (join records (keep (λ s. s.account_id == account) segments)))) [
      | none ↦ none
      | some row ↦ some row.0
    ]

abbrev pub later_start : Instant → Option Instant → Option Instant
later_start t none = some t
later_start t (some u) = if ltb t u then some u else some t

-- `max(started_at)` of the account's segments that start before `observed`.
abbrev pub previous_start : List Segment → Uuid → Instant → Option Instant
previous_start [] account observed = none
previous_start (s ∷ segments) account observed =
    let rest = previous_start segments account observed in
    if (s.account_id == account) && ltb s.started_at observed
    then later_start s.started_at rest
    else rest

-- `find_replay_start`
unfoldable pub find_replay_start : List Segment → Uuid → Instant → Instant
find_replay_start segments account observed = elim (previous_start segments account observed) [
  | none ↦ observed
  | some start ↦ start
]

-- `find_account_segment_by_first_event`
abbrev pub find_by_first_event : List Segment → Uuid → Uuid → Option Segment
find_by_first_event segments account event =
    find (λ s. (s.account_id == account) && (s.first_event_id == event)) segments
