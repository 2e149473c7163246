-- ===== src/Labeling/Scanning/Bounds.antt =====
-- One bounded batch of a sweep (`ScanLabelProposals.execute` of labeling/application/proposals.py).
use mosemo.Prelude.{
  ℕ, zero, suc, ◌+◌, ◌-◌, ◌≤◌, ◌<◌, ◌≡◌, ◌⊎◌, inl, inr, refl, ap, subst, Bool, true, false, ◌&&◌,
  Bool-cases, Option, List, [], ◌∷◌, nat_eq, ◌==◌, ltb, length, arith, ok, ◌>>=◌, >>=-ok,
  ok-injective,
}
use mosemo.Shared.Time.{Uuid}
use mosemo.Labeling.Scanning.{
  ScannedSegment, ScanBatch, Segments, Progress, scan_page_size, min, process_if, scanned_one,
  scan_page, batch_of, scan_pages, scan,
}

module _ {World : Type 0} (segments : Segments World) where
  -- A page has no more segments than its limit.
  abbrev pub IsPaged : Type 0
  IsPaged =
      (w w' : World) (cursor : Option Uuid) (limit : ℕ) (page : List ScannedSegment)
      → segments.find_page w cursor limit ≡ ok (page, w')
      → length page ≤ limit

  -- What visiting a page of segments counts.
  abbrev pub Counts : ℕ → ℕ → Progress World → Progress World → Type 0
  Counts max_processed size p q =
      (p.processed ≤ q.processed)
      × (q.processed ≤ max_processed)
      × (q.processed + p.scanned ≤ p.processed + q.scanned)
      × (q.scanned ≤ p.scanned + size)

  pub scan_page-Counts :
      (max_processed : ℕ) (page : List ScannedSegment) (p q : Progress World)
      → p.processed < max_processed
      → scan_page segments max_processed page p ≡ ok q
      → Counts max_processed (length page) p q × ((page ≡ []) ⊎ (p.scanned < q.scanned))
  unfolding scan_page
  scan_page-Counts max_processed [] p q h e =
      let same : p ≡ q = ok-injective e in
      (
        subst (Counts max_processed 0 p) same
            ((omega arith, omega arith, omega arith, omega arith)),
        inl refl,
      )
  scan_page-Counts max_processed (s ∷ page) p q h e =
      let (made, tried, rest) = >>=-ok (process_if segments s.needs_processing p.world s) _ e in
      by_limit made.0 made.1
        (made.0 && ((scanned_one segments p s made).processed == max_processed)) refl
        (λ below k. scan_page-Counts max_processed page (scanned_one segments p s made) q below k)
        rest
    where
      by_limit :
          (hit : Bool) (w : World) (stop : Bool)
          → (hit && ((scanned_one segments p s (hit, w)).processed == max_processed)) ≡ stop
          → ((scanned_one segments p s (hit, w)).processed < max_processed
              → scan_page segments max_processed page (scanned_one segments p s (hit, w)) ≡ ok q
              → Counts max_processed (length page) (scanned_one segments p s (hit, w)) q
                × ((page ≡ []) ⊎ ((scanned_one segments p s (hit, w)).scanned < q.scanned)))
          → (elim stop [
            | true ↦ ok (scanned_one segments p s (hit, w))
            | false ↦ scan_page segments max_processed page (scanned_one segments p s (hit, w))
          ])
            ≡ ok q
          → Counts max_processed (suc (length page)) p q
            × ((s ∷ page ≡ []) ⊎ (p.scanned < q.scanned))
      by_limit true w true t ih k =
          let same = ok-injective k in
          let reached : p.processed + 1 ≡ max_processed = ground arith in
          (
            subst (Counts max_processed (suc (length page)) p) same
                ((omega arith, omega arith, omega arith, omega arith)),
            inr (subst (λ r. p.scanned < r.scanned) same (omega arith)),
          )
      by_limit true w false t ih k =
          let below : p.processed + 1 < max_processed = ground arith in
          let (c, more) = ih below k in
          (
            (omega (arith, c.0), omega (arith, c.1), omega (arith, c.2), omega (arith, c.3)),
            inr (omega (arith, c.0, c.2)),
          )
      by_limit false w true t ih k = absurd (cc)
      by_limit false w false t ih k =
          let (c, more) = ih h k in
          (
            (omega (arith, c.0), omega (arith, c.1), omega (arith, c.2), omega (arith, c.3)),
            inr (omega (arith, c.0, c.2)),
          )

  -- A batch of the sweep, bounded, and stopped by a limit unless the segments ran out.
  abbrev pub IsBounded : ℕ → ℕ → Progress World → ScanBatch → Type 0
  IsBounded max_processed max_scanned p b =
      (b.processed ≤ max_processed)
      × (b.scanned ≤ max_scanned)
      × (b.processed + p.scanned ≤ p.processed + b.scanned)
      × (b.sweep_complete ≡ false → (max_processed ≤ b.processed) ⊎ (max_scanned ≤ b.scanned))

  -- More pages after those that were visited.
  further :
      (max_processed max_scanned : ℕ) (p q : Progress World) (b : ScanBatch)
      → q.processed + p.scanned ≤ p.processed + q.scanned
      → IsBounded max_processed max_scanned q b
      → IsBounded max_processed max_scanned p b
  further max_processed max_scanned p q b h (c0, c1, c2, c3) = (c0, c1, omega arith, c3)

  scan_pages-IsBounded :
      (max_processed max_scanned fuel : ℕ) (p : Progress World) (b : ScanBatch) (w : World)
      → IsPaged
      → p.processed ≤ max_processed
      → p.scanned ≤ max_scanned
      → max_scanned - p.scanned < fuel
      → scan_pages segments max_processed max_scanned fuel p ≡ ok (b, w)
      → IsBounded max_processed max_scanned p b
  unfolding scan_pages
  scan_pages-IsBounded max_processed max_scanned zero p b w paged h k enough e =
      absurd (omega arith)
  scan_pages-IsBounded max_processed max_scanned (suc fuel) p b w paged h k enough e =
      by_test (ltb p.processed max_processed && ltb p.scanned max_scanned) refl
        (λ q below more room r.
          further max_processed max_scanned p q b more
            (scan_pages-IsBounded max_processed max_scanned fuel q b w paged below room r.0 r.1))
        e
    where
      Further : Type 0
      Further =
          (q : Progress World)
          → q.processed ≤ max_processed
          → q.processed + p.scanned ≤ p.processed + q.scanned
          → q.scanned ≤ max_scanned
          → (max_scanned - q.scanned < fuel)
            × (scan_pages segments max_processed max_scanned fuel q ≡ ok (b, w))
          → IsBounded max_processed max_scanned p b

      by_page :
          (page : List ScannedSegment) (w' : World)
          → p.processed < max_processed
          → p.scanned < max_scanned
          → length page ≤ min scan_page_size (max_scanned - p.scanned)
          → Further
          → (elim page [
            | [] ↦ ok (batch_of segments true (record p { world = w' }))
            | s ∷ rest ↦
                scan_page segments max_processed (s ∷ rest) (record p { world = w' })
                >>= scan_pages segments max_processed max_scanned fuel
          ])
            ≡ ok (b, w)
          → IsBounded max_processed max_scanned p b
      by_page [] w' below room size f e =
          subst (IsBounded max_processed max_scanned p) (ap (λ r. r.0) (ok-injective e))
            ((omega arith, omega arith, omega arith, λ stopped. absurd (cc)))
      by_page (s ∷ rest) w' below room size f e =
          let (q, visited, more) =
            >>=-ok (scan_page segments max_processed (s ∷ rest) (record p { world = w' })) _ e in
          let (counts, moved) =
            scan_page-Counts max_processed (s ∷ rest) (record p { world = w' }) q below visited in
          let size' : length (s ∷ rest) ≤ max_scanned - p.scanned = ground arith in
          let further : p.scanned < q.scanned = elim moved [
            | inl empty ↦ absurd (cc)
            | inr beyond ↦ beyond
          ] in
          f q counts.1 counts.2 (omega (arith, counts.3)) ((omega arith, more))

      by_test :
          (t : Bool)
          → (ltb p.processed max_processed && ltb p.scanned max_scanned) ≡ t
          → Further
          → (elim t [
            | false ↦ ok (batch_of segments false p)
            | true ↦
                segments.find_page p.world p.last (min scan_page_size (max_scanned - p.scanned))
                >>= λ found. elim found.0 [
                  | [] ↦ ok (batch_of segments true (record p { world = found.1 }))
                  | s ∷ page ↦
                      scan_page segments max_processed (s ∷ page) (record p { world = found.1 })
                      >>= scan_pages segments max_processed max_scanned fuel
                ]
          ])
            ≡ ok (b, w)
          → IsBounded max_processed max_scanned p b
      by_test false t f e =
          subst (IsBounded max_processed max_scanned p) (ap (λ r. r.0) (ok-injective e))
            ((h, k, omega arith, λ stopped. either t))
        where
          either :
              (ltb p.processed max_processed && ltb p.scanned max_scanned) ≡ false
              → (max_processed ≤ p.processed) ⊎ (max_scanned ≤ p.scanned)
          either t = elim (Bool-cases (ltb p.processed max_processed)) [
            | inl under ↦ inr (ground arith)
            | inr over ↦ inl (ground arith)
          ]
      by_test true t f e =
          let (found, read, rest) =
            >>=-ok
              (segments.find_page p.world p.last (min scan_page_size (max_scanned - p.scanned))) _
              e in
          by_page found.0 found.1 (ground arith) (ground arith)
            (paged p.world found.1 p.last (min scan_page_size (max_scanned - p.scanned)) found.0
              read)
            f rest

  -- A batch of the sweep makes at most `max_processed` attempts and scans at most `max_scanned` segments,
  -- an attempt for a scanned segment at most. A batch that does not complete the sweep has reached one of
  -- the two limits. The pages are no longer than asked.
  pub scan-IsBounded :
      (max_processed max_scanned : ℕ) (after : Option Uuid) (w w' : World) (b : ScanBatch)
      → IsPaged
      → scan segments max_processed max_scanned after w ≡ ok (b, w')
      → (b.processed ≤ max_processed)
        × (b.scanned ≤ max_scanned)
        × (b.processed ≤ b.scanned)
        × (b.sweep_complete ≡ false → (max_processed ≤ b.processed) ⊎ (max_scanned ≤ b.scanned))
  unfolding scan
  scan-IsBounded max_processed max_scanned after w w' b paged e =
      let (c0, c1, c2, c3) =
        scan_pages-IsBounded max_processed max_scanned (suc max_scanned)
          (record { processed = 0; scanned = 0; last = after; world = w }) b w' paged (omega arith)
          (omega arith) (omega arith) e in
      (c0, c1, omega arith, c3)
