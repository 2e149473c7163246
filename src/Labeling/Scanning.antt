-- ===== src/Labeling/Scanning.antt =====
-- src/mosemo/labeling/application/proposals.py: the sweep over closed segments, `ScanLabelProposals` and
-- `SweepLabelProposals`. `World` is what a scan reads and changes: the tables, and whatever decides the
-- clock and the model's answers.
pub mod Bounds
pub mod Cursor
pub mod Sweeps
use mosemo.Prelude.{
  ℕ, zero, suc, ◌+◌, ◌-◌, ◌≤◌, ◌<◌, ◌≡◌, Bool, true, false, ◌&&◌, Option, none, some, List, [], ◌∷◌,
  nat_eq, ◌==◌, ltb, length, Result, ok, err, ◌>>=◌, if◌then◌else◌,
}
use mosemo.Shared.Time.{Uuid}
use mosemo.Labeling.Confirmations.{LabelError, timeline_busy}

-- `_ScannedSegment`
pub record ScannedSegment : Type 0 where
  pub segment_id : Uuid
  pub account_id : Uuid
  pub first_event_id : Uuid
  pub needs_processing : Bool

-- `ProposalScanBatch`
pub record ScanBatch : Type 0 where
  pub processed : ℕ
  pub scanned : ℕ
  pub sweep_complete : Bool
  pub last_segment_id : Option Uuid

abbrev pub scan_page_size : ℕ
scan_page_size = 100

abbrev pub max_scan_candidates_per_batch : ℕ
max_scan_candidates_per_batch = 500

-- The limit of attempts that a sweep leaves at its default.
abbrev pub default_max_processed : ℕ
default_max_processed = 100

abbrev pub min : ℕ → ℕ → ℕ
min a b = if ltb b a then b else a

-- What a scan uses: a page of segments after a cursor, and the proposal of a label, which says whether
-- an attempt was made.
pub record Segments (World : Type 0) : Type 0 where
  pub find_page : World → Option Uuid → ℕ → Result LabelError (List ScannedSegment × World)
  pub propose : World → Uuid → Uuid → Result LabelError Bool × World

-- Where a scan is.
pub record Progress (World : Type 0) : Type 0 where
  pub processed : ℕ
  pub scanned : ℕ
  pub last : Option Uuid
  pub world : World

module _ {World : Type 0} (segments : Segments World) where
  -- `_process`: a busy timeline lock is no attempt, and other errors are raised.
  abbrev pub attempted : Result LabelError Bool × World → Result LabelError (Bool × World)
  attempted (ok made, w) = ok (made, w)
  attempted (err timeline_busy, w) = ok (false, w)
  attempted (err e, w) = err e

  abbrev pub process_if : Bool → World → ScannedSegment → Result LabelError (Bool × World)
  process_if false w s = ok (false, w)
  process_if true w s = attempted (segments.propose w s.account_id s.first_event_id)

  abbrev pub scanned_one : Progress World → ScannedSegment → Bool × World → Progress World
  scanned_one p s (made, w) = record {
    processed = if made then p.processed + 1 else p.processed;
    scanned = p.scanned + 1;
    last = some s.segment_id;
    world = w;
  }

  -- `for segment in page:`, until the limit of attempts is reached.
  unfoldable pub scan_page :
      ℕ → List ScannedSegment → Progress World → Result LabelError (Progress World)
  scan_page max_processed [] p = ok p
  scan_page max_processed (s ∷ page) p = process_if s.needs_processing p.world s >>= λ made.
      elim (made.0 && ((scanned_one p s made).processed == max_processed)) [
        | true ↦ ok (scanned_one p s made)
        | false ↦ scan_page max_processed page (scanned_one p s made)
      ]

  abbrev pub batch_of : Bool → Progress World → ScanBatch × World
  batch_of complete p = (
    record {
      processed = p.processed;
      scanned = p.scanned;
      sweep_complete = complete;
      last_segment_id = if complete then none else p.last;
    },
    p.world,
  )

  -- `while processed < max_processed and scanned < max_scanned:`
  unfoldable pub scan_pages : ℕ → ℕ → ℕ → Progress World → Result LabelError (ScanBatch × World)
  unfolding scan_page
  scan_pages max_processed max_scanned zero p = ok (batch_of false p)
  scan_pages max_processed max_scanned (suc fuel) p =
      elim (ltb p.processed max_processed && ltb p.scanned max_scanned) [
        | false ↦ ok (batch_of false p)
        | true ↦
            segments.find_page p.world p.last (min scan_page_size (max_scanned - p.scanned))
            >>= λ found. elim found.0 [
              | [] ↦ ok (batch_of true (record p { world = found.1 }))
              | s ∷ page ↦
                  scan_page max_processed (s ∷ page) (record p { world = found.1 })
                  >>= scan_pages max_processed max_scanned fuel
            ]
      ]

  -- `ScanLabelProposals.execute`: every page that is not empty scans a segment, so that fuel for the
  -- segments that may be scanned is enough.
  unfoldable pub scan : ℕ → ℕ → Option Uuid → World → Result LabelError (ScanBatch × World)
  unfolding scan_pages
  scan max_processed max_scanned after w =
      scan_pages max_processed max_scanned (suc max_scanned)
        (record { processed = 0; scanned = 0; last = after; world = w })

  -- `SweepLabelProposals.execute`; `none` is fuel that ran out.
  unfoldable pub sweep : ℕ → ℕ → ℕ → Option Uuid → World → Result LabelError (Option ℕ × World)
  unfolding scan
  sweep max_scanned zero processed cursor w = ok (none, w)
  sweep max_scanned (suc fuel) processed cursor w =
      scan default_max_processed max_scanned cursor w >>= λ batch. elim batch.0.sweep_complete [
        | true ↦ ok (some (processed + batch.0.processed), batch.1)
        | false ↦
            sweep max_scanned fuel (processed + batch.0.processed) batch.0.last_segment_id batch.1
      ]
