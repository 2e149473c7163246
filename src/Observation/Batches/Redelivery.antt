-- ===== src/Observation/Batches/Redelivery.antt =====
-- Delivering a batch again (`process`, `_winner_results` and `claim` of
-- observation/application/batches.py and observation/infrastructure/batch_receipts.py).
use mosemo.Prelude.{
  ℕ, String, ◌≡◌, inl, inr, refl, ap, sym, ◌∙◌, subst, Bool, true, false, Option, none, some, List,
  [], ◌∷◌, nat_eq, string_eq, ◌==◌, ==_iff, arith, find-append_one, guard, require, Result, ok, err,
  ◌>>=◌, >>=-ok, guard-ok, require-ok, ok-injective, some-injective, ◌>>◌, if◌then◌else◌,
}
use mosemo.Shared.Time.{Instant, Uuid}
use mosemo.Identity.{find_owned_device}
use mosemo.Observation.Records.{device_not_owned, batch_content_conflict}
use mosemo.Observation.Receipts.{
  Receipt, ActivityBatch, BatchError, terminal, receipt_winner_missing, Database, is_receipt,
  find_receipt, claim_unless, new_receipt, claim_receipt, set_results, winner_results,
}
use mosemo.Observation.Batches.{Results, process_as, process}
use mosemo.Observation.Batches.Stages.{Processed, process-Processed}

-- What a processed batch leaves: its receipt, with the results and the fingerprint.
abbrev pub Receives : Uuid → ActivityBatch → Results → List Receipt → Type 0
Receives account batch results receipts =
    (winner : Receipt) × (find_receipt receipts account batch.device_id batch.batch_id
      ≡ some winner)
    × (winner.fingerprint ≡ batch.fingerprint)
    × (winner.results ≡ results)

abbrev with_results : Results → Receipt → Option Receipt
with_results results r = some (record r { results = results })

find-set_results :
    (receipts : List Receipt) (account : Uuid) (batch : ActivityBatch) (results : Results)
    (r : Receipt)
    → find_receipt receipts account batch.device_id batch.batch_id ≡ some r
    → find_receipt
        (set_results receipts account batch results)
        account
        batch.device_id
        batch.batch_id
      ≡ some (record r { results = results })
find-set_results [] account batch results r h = absurd (cc)
find-set_results (x ∷ receipts) account batch results r h =
    by_test (is_receipt account batch.device_id batch.batch_id x) refl
      (find-set_results receipts account batch results r) h
  where
    by_test :
        (b : Bool)
        → is_receipt account batch.device_id batch.batch_id x ≡ b
        → (find_receipt receipts account batch.device_id batch.batch_id ≡ some r
            → find_receipt
                (set_results receipts account batch results)
                account
                batch.device_id
                batch.batch_id
              ≡ some (record r { results = results }))
        → (if b then some x else find_receipt receipts account batch.device_id batch.batch_id)
          ≡ some r
        → find_receipt
            ((if b then record x { results = results } else x)
              ∷ set_results receipts account batch results)
            account
            batch.device_id
            batch.batch_id
          ≡ some (record r { results = results })
    by_test true e k h = let same : x ≡ r = cc in rw e (ap (with_results results) same)
    by_test false e k h = rw e (k h)

-- A batch with the key of a received one gets its results, or is refused for another fingerprint.
abbrev pub redelivery : Results → Bool → Database → Result BatchError (Results × Database)
redelivery results true db = ok (results, db)
redelivery results false db = err (terminal batch_content_conflict)

Processed-Receives :
    (new_id : ℕ → Uuid) (now : Instant) (account : Uuid) (batch : ActivityBatch) (db : Database)
    (results : Results) (db' : Database)
    → Processed new_id now account batch db (results, db')
    → Receives account batch results db'.receipts × (db'.devices ≡ db.devices)
unfolding winner_results claim_receipt
Processed-Receives new_id now account batch db results db' (inl (won, same, claim)) =
    let (winner, h0, h1) =
      >>=-ok
        (require (find_receipt db.receipts account batch.device_id batch.batch_id)
          receipt_winner_missing)
        _ won in
    let (u, h2, h3) =
      >>=-ok (guard (winner.fingerprint == batch.fingerprint) (terminal batch_content_conflict)) _
        h1 in
    (
      (
        winner,
        ap (λ d. find_receipt d.receipts account batch.device_id batch.batch_id) same
            ∙ require-ok (find_receipt db.receipts account batch.device_id batch.batch_id)
                receipt_winner_missing h0,
        (==_iff winner.fingerprint batch.fingerprint).0 (
            guard-ok (winner.fingerprint == batch.fingerprint) (terminal batch_content_conflict)
              h2),
        ok-injective h3,
      ),
      ap (λ d. d.devices) same,
    )
Processed-Receives new_id now account batch db results db' (inr (receipts, claimed, stages)) =
    let (start, s0, storing, s1, s2, timeline, s3, made) = stages in
    let (r, there, print) =
      claimed-found (find_receipt db.receipts account batch.device_id batch.batch_id) refl
        claimed in
    (
      (
        record r { results = storing.results },
        ap (λ d. find_receipt d.1.receipts account batch.device_id batch.batch_id) made
            ∙ find-set_results receipts account batch storing.results r there,
        print,
        sym (ap (λ d. d.0) made),
      ),
      ap (λ d. d.1.devices) made,
    )
  where
    claimed-found :
        (o : Option Receipt)
        → find_receipt db.receipts account batch.device_id batch.batch_id ≡ o
        → claim_unless o (new_receipt account batch) db.receipts ≡ some receipts
        → (r : Receipt) × (find_receipt receipts account batch.device_id batch.batch_id ≡ some r)
          × (r.fingerprint ≡ batch.fingerprint)
    claimed-found none e k = (
      new_receipt account batch,
      subst
          (λ rs.
            find_receipt rs account batch.device_id batch.batch_id
            ≡ some (new_receipt account batch))
          (some-injective k)
          (find-append_one (is_receipt account batch.device_id batch.batch_id) db.receipts
            (new_receipt account batch) e (ground arith)),
      refl,
    )
    claimed-found (some other) e k = absurd (cc)

winner_results-received :
    (receipts : List Receipt) (account : Uuid) (batch : ActivityBatch) (winner : Receipt)
    (db : Database)
    → find_receipt receipts account batch.device_id batch.batch_id ≡ some winner
    → (winner_results receipts account batch >>= λ results. ok (results, db))
      ≡ redelivery winner.results (winner.fingerprint == batch.fingerprint) db
unfolding winner_results
winner_results-received receipts account batch winner db h =
    rw h (answer (winner.fingerprint == batch.fingerprint))
  where
    answer :
        (b : Bool)
        → (guard b (terminal batch_content_conflict) >> ok winner.results >>= λ r. ok (r, db))
          ≡ redelivery winner.results b db
    answer true = refl
    answer false = refl

received-again :
    (new_id : ℕ → Uuid) (now : Instant) (account : Uuid) (batch : ActivityBatch) (db : Database)
    (device : Uuid) (winner : Receipt)
    → find_owned_device db.devices account batch.device_id ≡ some device
    → find_receipt db.receipts account batch.device_id batch.batch_id ≡ some winner
    → process new_id now account batch db
      ≡ redelivery winner.results (winner.fingerprint == batch.fingerprint) db
unfolding process claim_receipt
received-again new_id now account batch db device winner owned there =
    ap
      (λ o. require o (terminal device_not_owned) >>= λ d.
        process_as new_id (claim_receipt db.receipts account batch) now account batch db)
      owned
    ∙ ap
        (λ o.
          process_as new_id (claim_unless o (new_receipt account batch) db.receipts) now account
            batch db)
        there
    ∙ winner_results-received db.receipts account batch winner db there

-- Processing is idempotent: after a batch of a device was processed, any delivery for the same account,
-- device and batch identifier, at any time and with any identifiers generated, changes nothing. It
-- returns the results of the first one if its fingerprint is the same, and is refused as a content
-- conflict otherwise.
pub process-again :
    (new_id new_id' : ℕ → Uuid) (now now' : Instant) (account : Uuid) (batch batch' : ActivityBatch)
    (db : Database) (results : Results) (db' : Database)
    → process new_id now account batch db ≡ ok (results, db')
    → batch'.device_id ≡ batch.device_id
    → batch'.batch_id ≡ batch.batch_id
    → process new_id' now' account batch' db'
      ≡ redelivery results (batch.fingerprint == batch'.fingerprint) db'
process-again new_id new_id' now now' account batch batch' db results db' h same_device same_batch =
    let (device, owned, done) = process-Processed new_id now account batch db results db' h in
    let ((winner, there, print, stored), kept) =
      Processed-Receives new_id now account batch db results db' done in
    subst
      (λ b.
        process new_id' now' account batch' db' ≡ redelivery b.0 (b.1 == batch'.fingerprint) db')
      (pair stored print)
      (received-again new_id' now' account batch' db' device winner (rw (kept, same_device) owned)
        (rw (same_device, same_batch) there))
  where
    pair :
        {r : Results} {f : String}
        → r ≡ results
        → f ≡ batch.fingerprint
        → ◌≡◌ {A = Results × String} (r, f) (results, batch.fingerprint)
    pair e e' = cc
