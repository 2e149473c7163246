-- ===== src/Observation/Records/Replays.antt =====
-- Storing a batch that was stored before (observation/application/batches.py, `_store_records`).
use mosemo.Prelude.{
  ◌≡◌, ◌≢◌, ◌⊎◌, inl, inr, refl, ap, sym, subst, Bool, true, ◌&&◌, Option, none, some, List, [],
  ◌∷◌, ◌++◌, nat_eq, ◌==◌, ==_refl, find, is_some, arith, All, Result, ok, err, ◌>>=◌, >>=-ok,
  ok-injective,
}
use mosemo.Shared.Time.{Uuid}
use mosemo.Observation.Activities.{ActivityRecord}
use mosemo.Observation.Focus.{FocusSession, validate_link}
use mosemo.Observation.Records.{
  TerminalBatchError, RecordStatus, stored, Storing, BatchStoring, find_by_event_id, by_sequence,
  find_taken, conflict_status, status_of, insert_unless, as_terminal, store_unless, store_record,
  adopt, store_records,
}
use mosemo.Observation.Records.Keys.{Stores, store_record-Stores, store_records-appends}

-- A key of the record is in use.
abbrev pub IsTaken : List ActivityRecord → ActivityRecord → Type 0
IsTaken records r = is_some (find_taken records r) ≡ true

find-append-is_some {ℓ} :
    {A : Type ℓ} (p : A → Bool) (xs ys : List A)
    → is_some (find p xs) ≡ true
    → is_some (find p (xs ++ ys)) ≡ true
find-append-is_some p [] ys h = absurd (cc)
find-append-is_some p (x ∷ xs) ys h = ground (arith, find-append-is_some p xs ys)

by_sequence-is_some :
    (a b : Option ActivityRecord)
    → is_some (by_sequence a b) ≡ true
    → (is_some a ≡ true) ⊎ (is_some b ≡ true)
by_sequence-is_some none b h = inr h
by_sequence-is_some (some x) b h = inl refl

is_some-by_sequence :
    (a b : Option ActivityRecord)
    → (is_some a ≡ true) ⊎ (is_some b ≡ true)
    → is_some (by_sequence a b) ≡ true
is_some-by_sequence none b (inl h) = absurd (cc)
is_some-by_sequence none b (inr h) = h
is_some-by_sequence (some x) b h = refl

-- A taken key stays taken.
IsTaken-append :
    (records more : List ActivityRecord) (r : ActivityRecord)
    → IsTaken records r
    → IsTaken (records ++ more) r
unfolding find_taken
IsTaken-append records more r h = is_some-by_sequence _ _ (elim (by_sequence-is_some _ _ h) [
  | inl e ↦ inl (find-append-is_some (λ d. d.event_id == r.event_id) records more e)
  | inr e ↦ inr (
      find-append-is_some (λ d. (d.device_id == r.device_id) && (d.sequence == r.sequence)) records
        more e)
])

IsTaken-here : (records : List ActivityRecord) (r : ActivityRecord) → IsTaken (records ++ r ∷ []) r
unfolding find_taken
IsTaken-here records r = is_some-by_sequence _ _ (inl (there records))
  where
    there : (rs : List ActivityRecord) → is_some (find_by_event_id (rs ++ r ∷ []) r.event_id) ≡ true
    there [] = rw (==_refl r.event_id) refl
    there (d ∷ rs) = ground (arith, there rs)

Stores-IsTaken :
    (records : List ActivityRecord) (r : ActivityRecord) (s : Storing)
    → Stores records r s
    → IsTaken s.records r
Stores-IsTaken records r s (inl (free, made)) =
    subst (λ x. IsTaken x.records r) (sym made) (IsTaken-here records r)
Stores-IsTaken records r s (inr (other, taken, made)) =
    subst (λ x. IsTaken x.records r) (sym made) (ap is_some taken)

store_records-IsTaken :
    (account : Uuid) (sessions : List FocusSession) (records batch : List ActivityRecord)
    (s : BatchStoring)
    → store_records account sessions records batch ≡ ok s
    → All (IsTaken s.records) batch
unfolding store_records
store_records-IsTaken account sessions records [] s h = tt
store_records-IsTaken account sessions records (r ∷ batch) s h =
    let (one, first, h1) = >>=-ok (store_record account sessions records r) _ h in
    let (rest, others, h2) = >>=-ok (store_records account sessions one.records batch) _ h1 in
    let grown = (store_records-appends account sessions one.records batch rest others).0 in
    let here =
      Stores-IsTaken records r one (store_record-Stores account sessions records r one first) in
    subst (λ b. All (IsTaken b.records) (r ∷ batch)) (ok-injective h2)
      (
        subst (λ l. IsTaken l r) (sym grown) (IsTaken-append one.records rest.adopted r here),
        store_records-IsTaken account sessions one.records batch rest others,
      )

-- The answer to a record that was stored before.
abbrev pub IsRejected : RecordStatus → Type 0
IsRejected status = status ≢ stored

conflict_status-IsRejected : (r other : ActivityRecord) → IsRejected (conflict_status r other)
unfolding conflict_status
conflict_status-IsRejected r other h = ground arith

-- What storing a batch of taken records gives, whoever asks and whatever the sessions are.
abbrev pub Rejects : List ActivityRecord → Result TerminalBatchError BatchStoring → Type 0
Rejects records (ok s) =
    (s.adopted ≡ []) × (s.records ≡ records) × All (λ r. IsRejected r.1) s.results
Rejects records (err e) = ⊥

store_record-taken :
    (account : Uuid) (sessions : List FocusSession) (records : List ActivityRecord)
    (r : ActivityRecord)
    → IsTaken records r
    → (status : RecordStatus) × IsRejected status
      × (store_record account sessions records r
          ≡ ok (record { adopted = none; status = status; records = records }))
unfolding store_record
store_record-taken account sessions records r t = by_key (find_taken records r) t
  where
    by_key :
        (taken : Option ActivityRecord)
        → is_some taken ≡ true
        → (status : RecordStatus) × IsRejected status
          × (store_unless
                (status_of r taken)
                (as_terminal (validate_link account r sessions))
                r
                (insert_unless taken r records)
                records
              ≡ ok (record { adopted = none; status = status; records = records }))
    by_key none t = absurd (cc)
    by_key (some other) t = (conflict_status r other, conflict_status-IsRejected r other, refl)

store_records-Rejects :
    (account : Uuid) (sessions : List FocusSession) (records batch : List ActivityRecord)
    → All (IsTaken records) batch
    → Rejects records (store_records account sessions records batch)
unfolding store_records
store_records-Rejects account sessions records [] t = (refl, refl, tt)
store_records-Rejects account sessions records (r ∷ batch) t =
    let (status, rejected, e) = store_record-taken account sessions records r t.0 in
    subst
      (λ x. Rejects records (
        x >>= λ one. store_records account sessions one.records batch >>= λ rest. ok (record {
          adopted = adopt one.adopted rest.adopted;
          results = (r.event_id, one.status) ∷ rest.results;
          records = rest.records;
        })))
      (sym e)
      (and_more status rejected (store_records account sessions records batch)
        (store_records-Rejects account sessions records batch t.1))
  where
    and_more :
        (status : RecordStatus)
        → IsRejected status
        → (x : Result TerminalBatchError BatchStoring) → Rejects records x
        → Rejects records (
            x >>= λ rest. ok (record {
              adopted = rest.adopted;
              results = (r.event_id, status) ∷ rest.results;
              records = rest.records;
            }))
    and_more status rejected (ok rest) (a, b, c) = (a, b, (rejected, c))
    and_more status rejected (err e) k = absurd k

-- Storing is idempotent: storing a batch again, after it was stored and whatever was appended since,
-- succeeds, for any account and sessions; it adopts no record, changes nothing, and answers no record
-- as newly stored.
store_records-again :
    (account account' : Uuid) (sessions sessions' : List FocusSession)
    (records batch more : List ActivityRecord) (s : BatchStoring)
    → store_records account sessions records batch ≡ ok s
    → Rejects (s.records ++ more) (store_records account' sessions' (s.records ++ more) batch)
store_records-again account account' sessions sessions' records batch more s h =
    store_records-Rejects account' sessions' (s.records ++ more) batch
      (all_taken batch (store_records-IsTaken account sessions records batch s h))
  where
    all_taken :
        (rs : List ActivityRecord)
        → All (IsTaken s.records) rs
        → All (IsTaken (s.records ++ more)) rs
    all_taken [] t = tt
    all_taken (r ∷ rs) t = (IsTaken-append s.records more r t.0, all_taken rs t.1)
