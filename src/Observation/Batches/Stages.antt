-- ===== src/Observation/Batches/Stages.antt =====
-- The stages of a successful `process` (observation/application/batches.py).
use mosemo.Prelude.{
  ℕ, ◌≡◌, ◌⊎◌, inl, inr, refl, sym, Bool, Option, none, some, List, Result, ok, err, >>=-ok,
  require-ok, ok-injective,
}
use mosemo.Shared.Time.{Instant, Uuid}
use mosemo.Identity.{find_owned_device}
use mosemo.Observation.Projected.{observation_time_regression, key_error, value_error}
use mosemo.Observation.Records.{
  device_not_owned, TerminalBatchError, BatchStoring, store_records, ensure_device_order,
}
use mosemo.Observation.Replacing.{Timeline}
use mosemo.Observation.Receipts.{
  Receipt, ActivityBatch, BatchError, terminal, projection, assertion_error, receipt_winner_missing,
  Database, terminally, has_for_account, claim_receipt, set_results, ensure_device_owned,
  winner_results, list_device_ids,
}
use mosemo.Observation.Updating.{AccountScope, regression_as_terminal}
use mosemo.Observation.Batches.{
  Results, Initialized, initialize_account, projected_if_adopted, process_claimed, process_as,
  process,
}

abbrev pub scope_of : Instant → Uuid → Database → AccountScope
scope_of now account db = record {
  account_id = account;
  device_ids = list_device_ids db.devices account;
  now = now;
}

pub terminally-ok {ℓ} :
    {A : Type ℓ} (r : Result TerminalBatchError A) {a : A} → terminally r ≡ ok a → r ≡ ok a
terminally-ok (ok a) h = cc
terminally-ok (err e) h = cc

pub regression_as_terminal-ok {ℓ} :
    {A : Type ℓ} (r : Result BatchError A) {a : A} → regression_as_terminal r ≡ ok a → r ≡ ok a
regression_as_terminal-ok (ok a) h = h
regression_as_terminal-ok (err (terminal e)) h = absurd (cc)
regression_as_terminal-ok (err (projection observation_time_regression)) h = absurd (cc)
regression_as_terminal-ok (err (projection key_error)) h = absurd (cc)
regression_as_terminal-ok (err (projection value_error)) h = absurd (cc)
regression_as_terminal-ok (err assertion_error) h = absurd (cc)
regression_as_terminal-ok (err receipt_winner_missing) h = absurd (cc)

module _ (new_id : ℕ → Uuid) (now : Instant) (account : Uuid) (batch : ActivityBatch)
    (db : Database) where
  -- The claimed batch was initialized, stored, checked and projected, in this order.
  abbrev pub Stages : Bool → List Receipt → Results × Database → Type 0
  Stages initialized receipts returned =
      (start : Initialized) × (initialize_account new_id (scope_of now account db) initialized
          db.records db.timeline
        ≡ ok start)
      × (storing : BatchStoring) × (store_records account db.sessions db.records batch.records
          ≡ ok storing)
      × (ensure_device_order storing.records storing.adopted ≡ ok tt)
      × (timeline : Timeline) × (projected_if_adopted new_id (scope_of now account db) storing
            storing.adopted start.0 start.1
          ≡ ok timeline)
      × (returned ≡ (
        storing.results,
        record db {
          receipts = set_results receipts account batch storing.results;
          records = storing.records;
          timeline = timeline;
        },
      ))

  pub process_claimed-Stages :
      (initialized : Bool) (receipts : List Receipt) (returned : Results × Database)
      → process_claimed new_id now account batch initialized receipts db ≡ ok returned
      → Stages initialized receipts returned
  unfolding process_claimed
  process_claimed-Stages initialized receipts returned h =
      let (start, h0, h1) =
        >>=-ok
          (initialize_account new_id (scope_of now account db) initialized db.records db.timeline) _
          h in
      let (storing, h2, h3) =
        >>=-ok (terminally (store_records account db.sessions db.records batch.records)) _ h1 in
      let (u, h4, h5) =
        >>=-ok (terminally (ensure_device_order storing.records storing.adopted)) _ h3 in
      let (timeline, h6, h7) =
        >>=-ok
          (projected_if_adopted new_id (scope_of now account db) storing storing.adopted start.0
            start.1)
          _ h5 in
      (
        start,
        h0,
        storing,
        terminally-ok (store_records account db.sessions db.records batch.records) h2,
        terminally-ok (ensure_device_order storing.records storing.adopted) h4,
        timeline,
        h6,
        sym (ok-injective h7),
      )

  -- A successful processing either returns the results of an earlier one and changes nothing, or
  -- claims the batch and passes its stages.
  abbrev pub Processed : Results × Database → Type 0
  Processed (results, db') =
      ((winner_results db.receipts account batch ≡ ok results)
        × (db' ≡ db)
        × (claim_receipt db.receipts account batch ≡ none))
      ⊎ ((receipts : List Receipt) × (claim_receipt db.receipts account batch ≡ some receipts)
          × Stages (has_for_account db.receipts account) receipts (results, db'))

  pub process-Processed :
      (results : Results) (db' : Database)
      → process new_id now account batch db ≡ ok (results, db')
      → (device : Uuid) × (find_owned_device db.devices account batch.device_id ≡ some device)
        × Processed (results, db')
  unfolding process
  process-Processed results db' h =
      let (device, owned, h1) =
        >>=-ok (ensure_device_owned db.devices account batch.device_id) _ h in
      (
        device,
        require-ok (find_owned_device db.devices account batch.device_id)
            (terminal device_not_owned) owned,
        by_claim (claim_receipt db.receipts account batch) refl h1,
      )
    where
      by_claim :
          (o : Option (List Receipt))
          → claim_receipt db.receipts account batch ≡ o
          → process_as new_id o now account batch db ≡ ok (results, db')
          → Processed (results, db')
      by_claim none e k =
          let (found, won, k1) = >>=-ok (winner_results db.receipts account batch) _ k in
          let same : ◌≡◌ {A = Results × Database} (found, db) (results, db') = ok-injective k1 in
          inl (cc, cc, e)
      by_claim (some receipts) e k = inr (
        receipts,
        e,
        process_claimed-Stages (has_for_account db.receipts account) receipts (results, db') k,
      )
