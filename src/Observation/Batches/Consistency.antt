-- ===== src/Observation/Batches/Consistency.antt =====
-- What processing a batch keeps (`process` of observation/application/batches.py): the order and the
-- keys of records, the identifiers of segments, and everything of other accounts.
use mosemo.Prelude.{
  ℕ, ◌≡◌, inl, inr, refl, ap, sym, ◌∙◌, subst, Bool, true, false, not, ◌||◌, Option, none, some,
  List, [], ◌∷◌, ◌++◌, append-nil, nat_eq, string_eq, ◌==◌, arith, keep, guard, ok, >>=-ok,
  ok-injective, some-injective,
}
use mosemo.Shared.Time.{Instant, Uuid}
use mosemo.Observation.Activities.{ActivityRecord}
use mosemo.Observation.Records.{projection_time_regression, BatchStoring, ensure_device_order}
use mosemo.Observation.Records.Keys.{UniqueKeys, store_records-appends}
use mosemo.Observation.Records.Order.{IsClockMonotone, ensure_device_order-IsClockMonotone}
use mosemo.Observation.Merge.{find_latest_account_record}
use mosemo.Observation.Replacing.{Timeline}
use mosemo.Observation.Replacing.Ids.{IsIdentified}
use mosemo.Observation.Replacing.Accounts.{of_others}
use mosemo.Observation.Updating.{rebuild_legacy_projection, project}
use mosemo.Observation.Updating.Rows.{
  Keeps, same-Keeps, rebuild_legacy_projection-Keeps, project-Keeps,
}
use mosemo.Observation.Receipts.{
  Receipt, ActivityBatch, terminal, Database, find_receipt, claim_unless, new_receipt,
  claim_receipt, set_results, has_for_account, list_device_ids, is_account_clock_monotone,
}
use mosemo.Observation.Batches.{
  Results, Initialized, rebuilt_unless, initialize_account, projected_if_adopted, process,
}
use mosemo.Observation.Batches.Stages.{
  scope_of, Stages, Processed, process-Processed, regression_as_terminal-ok,
}

module _ (new_id : ℕ → Uuid) where
  -- No two records share a key, each device's clock never goes back along its sequence, and the
  -- segments' identifiers are distinct and not generated again.
  pub record IsConsistent (db : Database) : Type 0 where
    pub keys : UniqueKeys db.records
    pub clocks : IsClockMonotone db.records
    pub identified : IsIdentified new_id db.timeline

abbrev pub receipts_of_others : Uuid → List Receipt → List Receipt
receipts_of_others account receipts = keep (λ r. not (r.account_id == account)) receipts

set_results-others :
    (receipts : List Receipt) (account : Uuid) (batch : ActivityBatch) (results : Results)
    → receipts_of_others account (set_results receipts account batch results)
      ≡ receipts_of_others account receipts
set_results-others [] account batch results = refl
set_results-others (r ∷ receipts) account batch results =
    ground (arith, set_results-others receipts account batch results)

append_one-others :
    (receipts : List Receipt) (account : Uuid) (batch : ActivityBatch)
    → receipts_of_others account (receipts ++ new_receipt account batch ∷ [])
      ≡ receipts_of_others account receipts
append_one-others [] account batch = ground arith
append_one-others (r ∷ receipts) account batch =
    ground (arith, append_one-others receipts account batch)

claim_receipt-others :
    (receipts : List Receipt) (account : Uuid) (batch : ActivityBatch) (claimed : List Receipt)
    → claim_receipt receipts account batch ≡ some claimed
    → receipts_of_others account claimed ≡ receipts_of_others account receipts
unfolding claim_receipt
claim_receipt-others receipts account batch claimed h =
    by_key (find_receipt receipts account batch.device_id batch.batch_id) h
  where
    by_key :
        (o : Option Receipt)
        → claim_unless o (new_receipt account batch) receipts ≡ some claimed
        → receipts_of_others account claimed ≡ receipts_of_others account receipts
    by_key none e =
        subst (λ l. receipts_of_others account l ≡ receipts_of_others account receipts)
          (some-injective e) (append_one-others receipts account batch)
    by_key (some r) e = absurd (cc)

module _ (new_id : ℕ → Uuid) (injective : (j k : ℕ) → new_id j ≡ new_id k → j ≡ k) (now : Instant)
    (account : Uuid) (batch : ActivityBatch) (db : Database) where
  initialize_account-Keeps :
      (initialized : Bool) (start : Initialized)
      → initialize_account new_id (scope_of now account db) initialized db.records db.timeline
        ≡ ok start
      → Keeps new_id injective account db.timeline start.1
  unfolding initialize_account
  initialize_account-Keeps initialized start h =
      let (u, h0, h1) =
        >>=-ok
          (guard
            (initialized
              || is_account_clock_monotone db.records (list_device_ids db.devices account))
            (terminal projection_time_regression))
          _ h in
      by_latest initialized
        (find_latest_account_record db.records (list_device_ids db.devices account)) h1
    where
      by_latest :
          (b : Bool) (latest : Option ActivityRecord)
          → rebuilt_unless new_id b (scope_of now account db) db.records latest db.timeline
            ≡ ok start
          → Keeps new_id injective account db.timeline start.1
      by_latest true latest e =
          same-Keeps new_id injective account db.timeline start.1 (ap (λ s. s.1) (ok-injective e))
      by_latest false none e =
          same-Keeps new_id injective account db.timeline start.1 (ap (λ s. s.1) (ok-injective e))
      by_latest false (some latest) e =
          let (t, h0, h1) =
            >>=-ok
              (rebuild_legacy_projection new_id (scope_of now account db) db.records latest
                db.timeline)
              _ e in
          subst (λ s. Keeps new_id injective account db.timeline s.1) (ok-injective h1)
            (rebuild_legacy_projection-Keeps new_id injective account
              (list_device_ids db.devices account) now db.records latest db.timeline t h0)

  projected-Keeps :
      (storing : BatchStoring) (adopted : List ActivityRecord) (latest : Option ActivityRecord)
      (t t' : Timeline)
      → projected_if_adopted new_id (scope_of now account db) storing adopted latest t ≡ ok t'
      → Keeps new_id injective account t t'
  projected-Keeps storing [] latest t t' h =
      same-Keeps new_id injective account t t' (ok-injective h)
  projected-Keeps storing (r ∷ adopted) latest t t' h =
      project-Keeps new_id injective account (list_device_ids db.devices account) now
        storing.records (r ∷ adopted) latest t t'
        (regression_as_terminal-ok
          (project new_id (scope_of now account db) storing.records (r ∷ adopted) latest t) h)

  -- What a claimed batch does to the tables.
  abbrev pub Preserves : Database → Type 0
  Preserves db' =
      IsConsistent new_id db
      → IsConsistent new_id db'
        × ((adopted : List ActivityRecord) × (db'.records ≡ db.records ++ adopted))
        × (of_others account db'.timeline.rows ≡ of_others account db.timeline.rows)
        × (receipts_of_others account db'.receipts ≡ receipts_of_others account db.receipts)

  Stages-Preserves :
      (receipts : List Receipt) (initialized : Bool) (results : Results) (db' : Database)
      → claim_receipt db.receipts account batch ≡ some receipts
      → Stages new_id now account batch db initialized receipts (results, db')
      → Preserves db'
  Stages-Preserves receipts initialized results db' claimed stages =
      let (start, s0, storing, s1, s2, timeline, s3, made) = stages in
      let (grown, answered, unique) =
        store_records-appends account db.sessions db.records batch.records storing s1 in
      subst (λ d. Preserves d.1) (sym made)
        (λ c.
          let first = initialize_account-Keeps initialized start s0 c.identified in
          let second =
            projected-Keeps storing storing.adopted start.0 start.1 timeline s3 first.0 in
          (
            record {
              keys = unique c.keys;
              clocks = subst IsClockMonotone (sym grown) (
                  ensure_device_order-IsClockMonotone db.records storing.adopted
                    (subst UniqueKeys grown (unique c.keys)) c.clocks
                    (subst (λ r. ensure_device_order r storing.adopted ≡ ok tt) grown s2));
              identified = second.0;
            },
            (storing.adopted, grown),
            second.1 ∙ first.1,
            set_results-others receipts account batch storing.results
                ∙ claim_receipt-others db.receipts account batch receipts claimed,
          ))

-- Processing a batch keeps the database consistent: if no two records share a key, each device's clock
-- never went back along its sequence, and segments have distinct identifiers that the generator does
-- not return again, then the same holds after a batch that was processed. Records are only appended,
-- and the segments and receipts of other accounts are what they were. The generator never repeats
-- itself.
pub process-IsConsistent :
    (new_id : ℕ → Uuid)
    → ((j k : ℕ) → new_id j ≡ new_id k → j ≡ k)
    → (now : Instant) (account : Uuid) (batch : ActivityBatch) (db : Database) (results : Results)
      (db' : Database)
    → process new_id now account batch db ≡ ok (results, db')
    → IsConsistent new_id db
    → IsConsistent new_id db'
      × ((adopted : List ActivityRecord) × (db'.records ≡ db.records ++ adopted))
      × (of_others account db'.timeline.rows ≡ of_others account db.timeline.rows)
      × (receipts_of_others account db'.receipts ≡ receipts_of_others account db.receipts)
process-IsConsistent new_id injective now account batch db results db' h c =
    let (device, owned, done) = process-Processed new_id now account batch db results db' h in
    by_case done c
  where
    by_case :
        Processed new_id now account batch db (results, db')
        → Preserves new_id injective now account batch db db'
    by_case (inl (won, same, claim)) =
        subst (Preserves new_id injective now account batch db) (sym same)
          (λ k. (k, ([], sym (append-nil db.records)), refl, refl))
    by_case (inr (receipts, claimed, stages)) =
        Stages-Preserves new_id injective now account batch db receipts
          (has_for_account db.receipts account) results db' claimed stages
