-- ===== src/Labeling/Retrieval.antt =====
-- src/mosemo/labeling/application/proposals.py: the confirmed examples and the input for the suggester
-- (`RecentConfirmedExampleRetriever`, `SuggestionInputs`), with labeling/domain/suggestions.py.
-- `summarize` stands for `summarize_context`, which validates a context with pydantic; what it raises, and
-- a failed assertion, are `none`.
pub mod Recent
pub mod Sources
mod Examples
use mosemo.Prelude.{
  ℕ, zero, suc, ◌+◌, String, Bool, true, false, not, ◌&&◌, ◌||◌, Option, none, some, List, [], ◌∷◌,
  ◌++◌, nat_eq, string_eq, ◌==◌, ltb, and_then, contains, keep, length, map, take, if◌then◌else◌,
}
use mosemo.Shared.Time.{Instant, Uuid}
use mosemo.Labels.{Label, list_active}
use mosemo.Observation.Activities.{Context}
use mosemo.Observation.Segments.{Segment}
use mosemo.Observation.Observed.{
  VersionFields, ObservedSegment, find_by_first_events, get_by_first_event,
}
use mosemo.Labeling.Confirmations.{Confirmation, applies_to}
use mosemo.Labeling.Attempts.{current_version}
use mosemo.Labeling.States.{Store}

pub record LabelCandidate : Type 0 where
  pub label_id : Uuid
  pub display_name : String

pub record ConfirmedExample : Type 0 where
  pub confirmation_id : Uuid
  pub activity : String
  pub label_id : Option Uuid

pub record SuggestionInput : Type 0 where
  pub activity : String
  pub labels : List LabelCandidate
  pub examples : List ConfirmedExample

abbrev pub max_examples : ℕ
max_examples = 8

-- `PAGE_SIZE`
abbrev pub example_page_size : ℕ
example_page_size = 40

abbrev pub is_newer : Confirmation → Confirmation → Bool
is_newer a b = ltb b.updated_at a.updated_at || ((b.updated_at == a.updated_at) && ltb b.id a.id)

abbrev pub insert_newer : Confirmation → List Confirmation → List Confirmation
insert_newer c [] = c ∷ []
insert_newer c (d ∷ rows) =
    let rest = insert_newer c rows in if is_newer d c then d ∷ rest else c ∷ d ∷ rows

-- `ORDER BY updated_at DESC, id DESC`
abbrev pub newest_first : List Confirmation → List Confirmation
newest_first [] = []
newest_first (c ∷ rows) = insert_newer c (newest_first rows)

-- The rows that `list_example_page` pages through.
abbrev pub example_rows : List Confirmation → Uuid → Uuid → List Confirmation
example_rows confirmations account exclude =
    newest_first
      (keep (λ c. (c.account_id == account) && not (c.first_event_id == exclude)) confirmations)

abbrev pub skip {ℓ} : {A : Type ℓ} → ℕ → List A → List A
skip zero xs = xs
skip (suc n) [] = []
skip (suc n) (x ∷ xs) = skip n xs

-- `list_example_page`: `LIMIT` and `OFFSET`.
abbrev pub list_example_page : List Confirmation → Uuid → Uuid → ℕ → ℕ → List Confirmation
list_example_page confirmations account exclude limit offset =
    take limit (skip offset (example_rows confirmations account exclude))

abbrev pub is_offered : List Uuid → Option Uuid → Bool
is_offered active none = true
is_offered active (some label) = contains active label

abbrev pub is_current : Confirmation → Option String → Bool
is_current c none = false
is_current c (some version) = applies_to c version

-- `_is_usable_as_suggestion_example`
unfoldable pub is_usable_as_suggestion_example : Confirmation → ObservedSegment → List Uuid → Bool
unfolding applies_to current_version
is_usable_as_suggestion_example c segment active =
    is_current c (current_version (some segment)) && is_offered active c.label_id

module _ (summarize : Context → Option String) where
  abbrev pub example_of : Confirmation → ObservedSegment → Option ConfirmedExample
  example_of c segment = and_then segment.context λ context.
      and_then (summarize context) λ activity.
        some (record { confirmation_id = c.id; activity = activity; label_id = c.label_id })

  -- The example that a confirmation makes, if any; the outer `none` is a raise.
  unfoldable pub example_if_usable :
      Confirmation → Option ObservedSegment → List Uuid → Option (Option ConfirmedExample)
  unfolding is_usable_as_suggestion_example
  example_if_usable c none active = some none
  example_if_usable c (some segment) active =
      if is_usable_as_suggestion_example c segment active
      then and_then (example_of c segment) (λ e. some (some e))
      else some none

  -- `for confirmation in rows:`, until there are enough examples.
  unfoldable pub add_examples :
      List Uuid
      → List ObservedSegment
      → List Confirmation
      → List ConfirmedExample
      → Option (List ConfirmedExample)
  unfolding example_if_usable
  add_examples active segments [] examples = some examples
  add_examples active segments (c ∷ rows) examples =
      and_then (example_if_usable c (get_by_first_event segments c.first_event_id) active) λ made.
        elim made [
          | none ↦ add_examples active segments rows examples
          | some e ↦ elim (length (examples ++ e ∷ []) == max_examples) [
            | true ↦ some (examples ++ e ∷ [])
            | false ↦ add_examples active segments rows (examples ++ e ∷ [])
          ]
        ]

module _ (summarize : Context → Option String) (digest : VersionFields → String) where
  -- `while len(examples) < MAX_EXAMPLES:`
  unfoldable pub find_from :
      ℕ
      → Store
      → Uuid
      → Uuid
      → List Uuid
      → Instant
      → ℕ
      → List ConfirmedExample
      → Option (List ConfirmedExample)
  unfolding add_examples find_by_first_events
  find_from zero s account exclude active now offset examples = some examples
  find_from (suc fuel) s account exclude active now offset examples =
      elim (ltb (length examples) max_examples) [
        | false ↦ some examples
        | true ↦ elim (list_example_page s.confirmations account exclude example_page_size offset) [
          | [] ↦ some examples
          | c ∷ rows ↦
              and_then
                (find_by_first_events digest s.segments account
                  (map (λ r. r.first_event_id) (c ∷ rows)) now)
                λ segments.
                  and_then (add_examples summarize active segments (c ∷ rows) examples) λ more.
                    elim (ltb (length (c ∷ rows)) example_page_size) [
                      | true ↦ some more
                      | false ↦
                          find_from fuel s account exclude active now (offset + length (c ∷ rows))
                            more
                    ]
        ]
      ]

  -- `RecentConfirmedExampleRetriever.find`: a page that is not the last one moves the offset, so
  -- that fuel for the rows is enough.
  unfoldable pub find_recent_examples :
      Store → Uuid → Uuid → List Uuid → Instant → Option (List ConfirmedExample)
  unfolding find_from
  find_recent_examples s account exclude active now =
      find_from (suc (length (example_rows s.confirmations account exclude))) s account exclude
        active now 0 []

  -- `SuggestionInputs.build`
  unfoldable pub build_suggestion_input :
      Store → Uuid → Uuid → String → Instant → Option SuggestionInput
  unfolding find_recent_examples list_active
  build_suggestion_input s account event activity now =
      let labels = list_active s.labels account in
      and_then (find_recent_examples s account event (map (λ l. l.id) labels) now) λ examples.
        some (record {
          activity = activity;
          labels =
              map (λ (l : Label). record { label_id = l.id; display_name = l.display_name }) labels;
          examples = examples;
        })
