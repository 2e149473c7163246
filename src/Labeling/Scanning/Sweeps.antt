-- ===== src/Labeling/Scanning/Sweeps.antt =====
-- The sweep ends (`SweepLabelProposals.execute` of labeling/application/proposals.py): its cursor only
-- moves forward.
use mosemo.Prelude.{
  ℕ, zero, suc, ◌+◌, ◌≤◌, ◌<◌, ◌≡◌, ◌⊎◌, inl, inr, refl, ap, Bool, true, false, Option, none, some,
  nat_eq, arith, Result, ok, err, ◌>>=◌,
}
use mosemo.Shared.Time.{Uuid}
use mosemo.Labeling.Confirmations.{LabelError}
use mosemo.Labeling.Scanning.{ScanBatch, Segments, default_max_processed, scan, sweep}
use mosemo.Labeling.Scanning.Bounds.{IsPaged, scan-IsBounded}
use mosemo.Labeling.Scanning.Cursor.{IsStatic, IsSame, scan_pages-Leaves}

-- A sweep that ended, with no more attempts than this, or raised.
abbrev pub EndsWithin : {World : Type 0} → ℕ → Result LabelError (Option ℕ × World) → Type 0
EndsWithin n (ok (none, w)) = ⊥
EndsWithin n (ok (some attempts, w)) = attempts ≤ n
EndsWithin n (err e) = Unit

module _ {World : Type 0} (segments : Segments World) (static : IsStatic segments) where
  weaken :
      (m n : ℕ) (r : Result LabelError (Option ℕ × World)) → m ≤ n → EndsWithin m r → EndsWithin n r
  weaken m n (ok (none, w)) h k = k
  weaken m n (ok (some attempts, w)) h k = omega arith
  weaken m n (err e) h k = tt

  sweep-EndsWithin :
      (max_scanned fuel processed : ℕ) (cursor : Option Uuid) (w : World)
      → IsPaged segments
      → static.IsGood w
      → 0 < max_scanned
      → static.remaining w cursor < fuel
      → EndsWithin
          (processed + static.remaining w cursor)
          (sweep segments max_scanned fuel processed cursor w)
  unfolding sweep scan
  sweep-EndsWithin max_scanned zero processed cursor w paged g h enough = absurd (omega arith)
  sweep-EndsWithin max_scanned (suc fuel) processed cursor w paged g h enough =
      by_batch (scan segments default_max_processed max_scanned cursor w) refl
        (λ done c v j k. sweep-EndsWithin max_scanned fuel done c v paged j h k)
    where
      by_batch :
          (r : Result LabelError (ScanBatch × World))
          → scan segments default_max_processed max_scanned cursor w ≡ r
          → ((done : ℕ) (c : Option Uuid) (v : World)
              → static.IsGood v
              → static.remaining v c < fuel
              → EndsWithin (done + static.remaining v c) (sweep segments max_scanned fuel done c v))
          → EndsWithin (processed + static.remaining w cursor) (
              r >>= λ batch. elim batch.0.sweep_complete [
                | true ↦ ok (some (processed + batch.0.processed), batch.1)
                | false ↦
                    sweep segments max_scanned fuel
                      (processed + batch.0.processed)
                      batch.0.last_segment_id
                      batch.1
              ])
      by_batch (err x) e f = tt
      by_batch (ok (b, v)) e f =
          let (c0, c1, attempts, limits) =
            scan-IsBounded segments default_max_processed max_scanned cursor w v b paged e in
          let (kept, left, counted) =
            scan_pages-Leaves segments static default_max_processed max_scanned (suc max_scanned)
              (record { processed = 0; scanned = 0; last = cursor; world = w }) (b, v) g e in
          by_complete b.sweep_complete refl attempts kept left counted limits
        where
          by_complete :
              (complete : Bool)
              → b.sweep_complete ≡ complete
              → b.processed ≤ b.scanned
              → IsSame segments static w v
              → (b.sweep_complete ≡ false
                  → static.remaining w b.last_segment_id + b.scanned
                    ≤ static.remaining w cursor + 0)
              → b.scanned ≤ static.remaining w cursor + 0
              → (b.sweep_complete ≡ false
                  → (default_max_processed ≤ b.processed) ⊎ (max_scanned ≤ b.scanned))
              → EndsWithin (processed + static.remaining w cursor) (elim complete [
                | true ↦ ok (some (processed + b.processed), v)
                | false ↦
                    sweep segments max_scanned fuel (processed + b.processed) b.last_segment_id v
              ])
          by_complete true t attempts kept left counted limits = omega arith
          by_complete false t attempts kept left counted limits =
              let fewer = left t in
              let same : static.remaining v b.last_segment_id
                  ≡ static.remaining w b.last_segment_id =
                ap (λ h. h b.last_segment_id) kept.1 in
              let some_scanned : 0 < b.scanned = elim (limits t) [
                | inl hit ↦ omega arith
                | inr hit ↦ omega arith
              ] in
              weaken (processed + b.processed + static.remaining v b.last_segment_id)
                (processed + static.remaining w cursor)
                (sweep segments max_scanned fuel (processed + b.processed) b.last_segment_id v)
                (omega arith) (f (processed + b.processed) b.last_segment_id v kept.0 (omega arith))

  -- A sweep ends: while the segments stay what they are, fuel for one batch more than there are
  -- segments is enough. It raises, or returns the number of its attempts, which is at most the
  -- number of segments. A batch scans at least one segment, and pages are no longer than asked.
  pub sweep-ends :
      (max_scanned : ℕ) (w : World)
      → IsPaged segments
      → static.IsGood w
      → 0 < max_scanned
      → EndsWithin
          (static.remaining w none)
          (sweep segments max_scanned (suc (static.remaining w none)) 0 none w)
  sweep-ends max_scanned w paged g h =
      weaken (0 + static.remaining w none) (static.remaining w none)
        (sweep segments max_scanned (suc (static.remaining w none)) 0 none w) (omega arith)
        (sweep-EndsWithin max_scanned (suc (static.remaining w none)) 0 none w paged g h
          (omega arith))
