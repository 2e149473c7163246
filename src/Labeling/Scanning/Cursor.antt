-- ===== src/Labeling/Scanning/Cursor.antt =====
-- What a batch of the sweep leaves (`ScanLabelProposals.execute` of labeling/application/proposals.py):
-- its cursor only moves forward.
use mosemo.Prelude.{
  ℕ, zero, suc, ◌+◌, ◌-◌, ◌≤◌, ◌<◌, ◌≡◌, refl, ap, sym, ◌∙◌, subst, Bool, true, false, ◌&&◌, Option,
  some, List, [], ◌∷◌, nat_eq, ◌==◌, ltb, arith, Result, ok, err, ◌>>=◌, >>=-ok, ok-injective,
}
use mosemo.Shared.Time.{Uuid}
use mosemo.Labeling.Confirmations.{LabelError, timeline_busy}
use mosemo.Labeling.Scanning.{
  ScannedSegment, ScanBatch, Segments, Progress, scan_page_size, min, attempted, process_if,
  scanned_one, scan_page, batch_of, scan_pages,
}

-- Each segment of a page leaves fewer after it than the one before.
abbrev pub Advances : (Option Uuid → ℕ) → ℕ → List ScannedSegment → Type 0
Advances remaining n [] = Unit
Advances remaining n (s ∷ page) =
    (remaining (some s.segment_id) < n) × Advances remaining (remaining (some s.segment_id)) page

-- Worlds whose segments stay what they are: how many stand after a cursor, a page that moves the
-- cursor forward, and steps that change no segment. `IsGood` is an invariant of these worlds.
pub record IsStatic {World : Type 0} (segments : Segments World) : Type 1 where
  pub IsGood : World → Type 0
  pub remaining : World → Option Uuid → ℕ
  pub advances :
      (w w' : World) (cursor : Option Uuid) (limit : ℕ) (page : List ScannedSegment)
      → IsGood w
      → segments.find_page w cursor limit ≡ ok (page, w')
      → Advances (remaining w) (remaining w cursor) page
  pub reads :
      (w w' : World) (cursor : Option Uuid) (limit : ℕ) (page : List ScannedSegment)
      → IsGood w
      → segments.find_page w cursor limit ≡ ok (page, w')
      → IsGood w' × (remaining w' ≡ remaining w)
  pub proposes :
      (w : World) (account event : Uuid)
      → IsGood w
      → IsGood (segments.propose w account event).1
        × (remaining (segments.propose w account event).1 ≡ remaining w)

module _ {World : Type 0} (segments : Segments World) (static : IsStatic segments) where
  -- How many segments stand after the cursor.
  abbrev pub left_in : Progress World → ℕ
  left_in p = static.remaining p.world p.last

  -- A good world with the same segments.
  abbrev pub IsSame : World → World → Type 0
  IsSame w w' = static.IsGood w' × (static.remaining w' ≡ static.remaining w)

  process_if-IsSame :
      (b : Bool) (w : World) (s : ScannedSegment) (made : Bool × World)
      → static.IsGood w
      → process_if segments b w s ≡ ok made
      → IsSame w made.1
  process_if-IsSame false w s made g h = subst (λ m. IsSame w m.1) (ok-injective h) (g, refl)
  process_if-IsSame true w s made g h =
      by_result (segments.propose w s.account_id s.first_event_id) h
        (static.proposes w s.account_id s.first_event_id g)
    where
      by_result :
          (r : Result LabelError Bool × World)
          → attempted segments r ≡ ok made
          → IsSame w r.1
          → IsSame w made.1
      by_result (ok hit, w') e k = subst (λ m. IsSame w m.1) (ok-injective e) k
      by_result (err timeline_busy, w') e k = subst (λ m. IsSame w m.1) (ok-injective e) k
      by_result (err _, w') e k = absurd (cc)

  -- Visiting a page changes no segment, and leaves fewer segments by each that it scanned.
  scan_page-left :
      (max_processed : ℕ) (page : List ScannedSegment) (p q : Progress World)
      → static.IsGood p.world
      → Advances (static.remaining p.world) (left_in p) page
      → scan_page segments max_processed page p ≡ ok q
      → IsSame p.world q.world × (left_in q + q.scanned ≤ left_in p + p.scanned)
  unfolding scan_page
  scan_page-left max_processed [] p q g a e =
      let same : p ≡ q = ok-injective e in
      subst (λ r. IsSame p.world r.world × (left_in r + r.scanned ≤ left_in p + p.scanned)) same
        ((g, refl), omega arith)
  scan_page-left max_processed (s ∷ page) p q g a e =
      let (made, tried, rest) = >>=-ok (process_if segments s.needs_processing p.world s) _ e in
      let kept = process_if-IsSame s.needs_processing p.world s made g tried in
      by_limit (made.0 && ((scanned_one segments p s made).processed == max_processed)) made kept
        (λ b k. scan_page-left max_processed page (scanned_one segments p s made) q kept.0 b k) rest
    where
      by_limit :
          (stop : Bool) (made : Bool × World)
          → IsSame p.world made.1
          → (Advances (static.remaining made.1) (left_in (scanned_one segments p s made)) page
              → scan_page segments max_processed page (scanned_one segments p s made) ≡ ok q
              → IsSame made.1 q.world
                × (left_in q + q.scanned
                    ≤ left_in (scanned_one segments p s made)
                      + (scanned_one segments p s made).scanned))
          → (elim stop [
            | true ↦ ok (scanned_one segments p s made)
            | false ↦ scan_page segments max_processed page (scanned_one segments p s made)
          ])
            ≡ ok q
          → IsSame p.world q.world × (left_in q + q.scanned ≤ left_in p + p.scanned)
      by_limit true made kept ih k =
          let step : static.remaining made.1 (some s.segment_id) < left_in p = rw kept.1 a.0 in
          subst (λ r. IsSame p.world r.world × (left_in r + r.scanned ≤ left_in p + p.scanned))
            (ok-injective k) (kept, omega arith)
      by_limit false made kept ih k =
          let step : static.remaining made.1 (some s.segment_id) < left_in p = rw kept.1 a.0 in
          let (same, fewer) =
            ih (subst (λ f. Advances f (f (some s.segment_id)) page) (sym kept.1) a.1) k in
          ((same.0, same.1 ∙ kept.1), omega arith)

  -- What a batch leaves.
  abbrev pub Leaves : Progress World → ScanBatch × World → Type 0
  Leaves p (b, w) =
      IsSame p.world w
      × (b.sweep_complete ≡ false
          → static.remaining p.world b.last_segment_id + b.scanned ≤ left_in p + p.scanned)
      × (b.scanned ≤ left_in p + p.scanned)

  pub scan_pages-Leaves :
      (max_processed max_scanned fuel : ℕ) (p : Progress World) (r : ScanBatch × World)
      → static.IsGood p.world
      → scan_pages segments max_processed max_scanned fuel p ≡ ok r
      → Leaves p r
  unfolding scan_pages
  scan_pages-Leaves max_processed max_scanned zero p r g e =
      subst (Leaves p) (ok-injective e) ((g, refl), (λ stopped. omega arith), omega arith)
  scan_pages-Leaves max_processed max_scanned (suc fuel) p r g e =
      by_test (ltb p.processed max_processed && ltb p.scanned max_scanned)
        (λ q j k. scan_pages-Leaves max_processed max_scanned fuel q r j k) e
    where
      by_page :
          (page : List ScannedSegment) (w' : World)
          → IsSame p.world w'
          → Advances (static.remaining p.world) (left_in p) page
          → ((q : Progress World)
              → static.IsGood q.world
              → scan_pages segments max_processed max_scanned fuel q ≡ ok r
              → Leaves q r)
          → (elim page [
            | [] ↦ ok (batch_of segments true (record p { world = w' }))
            | s ∷ rest ↦
                scan_page segments max_processed (s ∷ rest) (record p { world = w' })
                >>= scan_pages segments max_processed max_scanned fuel
          ])
            ≡ ok r
          → Leaves p r
      by_page [] w' same moves f e =
          subst (Leaves p) (ok-injective e) (same, (λ stopped. absurd (cc)), omega arith)
      by_page (s ∷ rest) w' same moves f e =
          let (q, visited, more) =
            >>=-ok (scan_page segments max_processed (s ∷ rest) (record p { world = w' })) _ e in
          let (kept, fewer) =
            scan_page-left max_processed (s ∷ rest) (record p { world = w' }) q same.0
              (subst (λ h. Advances h (h p.last) (s ∷ rest)) (sym same.1) moves) visited in
          let (after, cursor, counted) = f q kept.0 more in
          let all : static.remaining q.world ≡ static.remaining p.world = kept.1 ∙ same.1 in
          let before : static.remaining w' p.last ≡ left_in p = ap (λ g. g p.last) same.1 in
          let fewer' : left_in q + q.scanned ≤ left_in p + p.scanned = omega (arith, fewer) in
          (
            (after.0, after.1 ∙ all),
            (λ stopped.
                let moved = ap (λ g. g r.0.last_segment_id) all in
                let within = cursor stopped in omega arith),
            omega (arith, counted, fewer'),
          )

      by_test :
          (t : Bool)
          → ((q : Progress World)
              → static.IsGood q.world
              → scan_pages segments max_processed max_scanned fuel q ≡ ok r
              → Leaves q r)
          → (elim t [
            | false ↦ ok (batch_of segments false p)
            | true ↦
                segments.find_page p.world p.last (min scan_page_size (max_scanned - p.scanned))
                >>= λ found. elim found.0 [
                  | [] ↦ ok (batch_of segments true (record p { world = found.1 }))
                  | s ∷ page ↦
                      scan_page segments max_processed (s ∷ page) (record p { world = found.1 })
                      >>= scan_pages segments max_processed max_scanned fuel
                ]
          ])
            ≡ ok r
          → Leaves p r
      by_test false f e =
          subst (Leaves p) (ok-injective e) ((g, refl), (λ stopped. omega arith), omega arith)
      by_test true f e =
          let (found, read, rest) =
            >>=-ok
              (segments.find_page p.world p.last (min scan_page_size (max_scanned - p.scanned))) _
              e in
          by_page found.0 found.1
            (static.reads p.world found.1 p.last (min scan_page_size (max_scanned - p.scanned))
              found.0 g read)
            (static.advances p.world found.1 p.last (min scan_page_size (max_scanned - p.scanned))
              found.0 g read)
            f rest
