-- ===== src/Observation/Records/Keys.antt =====
-- The unique keys of the records table (observation/infrastructure/tables.py) under storing.
use mosemo.Prelude.{
  ◌≡◌, ◌⊎◌, inl, inr, refl, ap, sym, ◌∙◌, subst, Bool, false, ◌&&◌, ◌||◌, Option, none, some, List,
  [], ◌∷◌, ◌++◌, append_assoc, append-nil, nat_eq, ◌==◌, arith, map, All, All-append, ok, >>=-ok,
  ok-injective,
}
use mosemo.Shared.Time.{Uuid}
use mosemo.Observation.Activities.{ActivityRecord}
use mosemo.Observation.Focus.{FocusSession, validate_link}
use mosemo.Observation.Records.{
  stored, Storing, BatchStoring, find_taken, conflict_status, as_terminal, status_of, insert_unless,
  store_unless, store_record, adopt, store_records,
}

-- Two records have the same event ID, or the same device and sequence.
abbrev pub shares_key : ActivityRecord → ActivityRecord → Bool
shares_key a b =
    (a.event_id == b.event_id) || ((a.device_id == b.device_id) && (a.sequence == b.sequence))

-- The primary key and the unique constraint: no two rows share a key.
abbrev pub UniqueKeys : List ActivityRecord → Type 0
UniqueKeys [] = Unit
UniqueKeys (r ∷ records) = All (λ d. shares_key r d ≡ false) records × UniqueKeys records

-- A key is free when no row shares it.
pub find_taken-none :
    (records : List ActivityRecord) (r : ActivityRecord)
    → find_taken records r ≡ none
    → All (λ d. shares_key d r ≡ false) records
unfolding find_taken
find_taken-none [] r h = tt
find_taken-none (d ∷ records) r h = ground (arith, find_taken-none records r)

pub UniqueKeys-append_one :
    (records : List ActivityRecord) (r : ActivityRecord)
    → UniqueKeys records
    → All (λ d. shares_key d r ≡ false) records
    → UniqueKeys (records ++ r ∷ [])
UniqueKeys-append_one [] r u h = (tt, tt)
UniqueKeys-append_one (d ∷ records) r u h = (
  All-append (λ e. shares_key d e ≡ false) records (r ∷ []) u.0 (h.0, tt),
  UniqueKeys-append_one records r u.1 h.1,
)

-- What storing one record does: a free record is appended, a taken one changes nothing.
abbrev pub Stores : List ActivityRecord → ActivityRecord → Storing → Type 0
Stores records r s =
    ((find_taken records r ≡ none)
      × (s ≡ record { adopted = some r; status = stored; records = records ++ r ∷ [] }))
    ⊎ ((other : ActivityRecord) × (find_taken records r ≡ some other)
        × (s ≡ record { adopted = none; status = conflict_status r other; records = records }))

pub store_record-Stores :
    (account : Uuid) (sessions : List FocusSession) (records : List ActivityRecord)
    (r : ActivityRecord) (s : Storing)
    → store_record account sessions records r ≡ ok s
    → Stores records r s
unfolding store_record
store_record-Stores account sessions records r s h = by_key (find_taken records r) refl h
  where
    by_key :
        (taken : Option ActivityRecord)
        → find_taken records r ≡ taken
        → store_unless
            (status_of r taken)
            (as_terminal (validate_link account r sessions))
            r
            (insert_unless taken r records)
            records
          ≡ ok s
        → Stores records r s
    by_key none e h =
        let (u, linked, made) = >>=-ok (as_terminal (validate_link account r sessions)) _ h in
        inl (e, sym (ok-injective made))
    by_key (some other) e h = inr (other, e, sym (ok-injective h))

-- The table after storing one record.
abbrev Grows : List ActivityRecord → Storing → Type 0
Grows records s =
    ((rest : List ActivityRecord) → s.records ++ rest ≡ records ++ adopt s.adopted rest)
    × (UniqueKeys records → UniqueKeys s.records)

store_record-Grows :
    (records : List ActivityRecord) (r : ActivityRecord) (s : Storing)
    → Stores records r s
    → Grows records s
store_record-Grows records r s (inl (free, made)) = subst (Grows records) (sym made) (
  (λ rest. append_assoc records (r ∷ []) rest),
  λ u. UniqueKeys-append_one records r u (find_taken-none records r free),
)
store_record-Grows records r s (inr (other, taken, made)) =
    subst (Grows records) (sym made) ((λ rest. refl), λ u. u)

-- Storing a batch only appends: the table afterwards is the one before, unchanged, and the adopted
-- records in the order of the batch. It answers every record of the batch in order, and no two rows
-- share a key afterwards if none did before.
pub store_records-appends :
    (account : Uuid) (sessions : List FocusSession) (records batch : List ActivityRecord)
    (s : BatchStoring)
    → store_records account sessions records batch ≡ ok s
    → (s.records ≡ records ++ s.adopted)
      × (map (λ r. r.0) s.results ≡ map (λ r. r.event_id) batch)
      × (UniqueKeys records → UniqueKeys s.records)
unfolding store_records
store_records-appends account sessions records [] s h =
    subst
      (λ b.
        (b.records ≡ records ++ b.adopted)
        × (map (λ r. r.0) b.results ≡ [])
        × (UniqueKeys records → UniqueKeys b.records))
      (ok-injective h) (sym (append-nil records), refl, λ u. u)
store_records-appends account sessions records (r ∷ batch) s h =
    let (one, first, h1) = >>=-ok (store_record account sessions records r) _ h in
    let (rest, others, h2) = >>=-ok (store_records account sessions one.records batch) _ h1 in
    let (grown, answered, kept) =
      store_records-appends account sessions one.records batch rest others in
    let step =
      store_record-Grows records r one (store_record-Stores account sessions records r one first) in
    subst
      (λ b.
        (b.records ≡ records ++ b.adopted)
        × (map (λ r. r.0) b.results ≡ r.event_id ∷ map (λ r. r.event_id) batch)
        × (UniqueKeys records → UniqueKeys b.records))
      (ok-injective h2)
      (grown ∙ step.0 rest.adopted, ap (λ l. r.event_id ∷ l) answered, λ u. kept (step.1 u))
