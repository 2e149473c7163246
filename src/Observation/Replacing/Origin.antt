-- ===== src/Observation/Replacing/Origin.antt =====
-- Where the identifiers of the added rows come from (`replace_account_segments` of
-- observation/infrastructure/timeline_segments.py).
use mosemo.Prelude.{
  ℕ, suc, ◌≤◌, ◌≡◌, ◌⊎◌, inl, inr, refl, ap, sym, ◌∙◌, subst, true, false, not, Option, none, some,
  List, [], ◌∷◌, nat_eq, arith, All, contains,
}
use mosemo.Shared.Time.{Uuid}
use mosemo.Observation.Segments.{Segment, SegmentType, is_activity}
use mosemo.Observation.Projected.{ProjectedSegment, activity, gap, can_inherit, to_segment}
use mosemo.Observation.Replacing.{ids, reusable_id, id_or, mark, added_rows}
use mosemo.Observation.Replacing.Reuse.{InRows, reusable_id-Reuses}

abbrev pub Distinct : List Uuid → Type 0
Distinct [] = Unit
Distinct (x ∷ xs) = (contains xs x ≡ false) × Distinct xs

-- The candidates are stored rows.
abbrev pub Stored : List Segment → List Segment → Type 0
Stored rows segments = All (λ c. InRows c rows) segments

pub InRows-All {ℓ} :
    (P : Segment → Type ℓ) (rows : List Segment) (s : Segment) → All P rows → InRows s rows → P s
InRows-All P [] s h i = absurd i
InRows-All P (r ∷ rows) s h (inl e) = subst P (sym e) h.0
InRows-All P (r ∷ rows) s h (inr i) = InRows-All P rows s h.1 i

pub contains-InRows :
    (s : Segment) (rows : List Segment) → InRows s rows → contains (ids rows) s.id ≡ true
contains-InRows s [] i = absurd i
contains-InRows s (r ∷ rows) (inl e) = let same : s.id ≡ r.id = ap (λ x. x.id) e in ground arith
contains-InRows s (r ∷ rows) (inr i) = ground (arith, contains-InRows s rows i)

module _ (new_id : ℕ → Uuid) where
  -- No identifier from the n-th on is used.
  abbrev pub IsUnused : ℕ → List Uuid → Type 0
  IsUnused n used = (k : ℕ) → n ≤ k → contains used (new_id k) ≡ false

  -- Where the identifier of an added row comes from: a candidate of the same kind, not reused
  -- before, or the generator.
  abbrev pub Origin : List Segment → List Uuid → ℕ → Segment → Type 0
  Origin candidates reused n s =
      ((c : Segment) × InRows c candidates
        × (contains reused s.id ≡ false)
        × (s.id ≡ c.id)
        × (s.segment_type ≡ c.segment_type))
      ⊎ ((k : ℕ) × (n ≤ k) × (s.id ≡ new_id k))

  same_kind :
      (account id : Uuid) (p : ProjectedSegment) (c : Segment)
      → can_inherit p c ≡ true
      → ((to_segment account id p).id ≡ id)
        × ((to_segment account id p).segment_type ≡ c.segment_type)
  unfolding to_segment can_inherit
  same_kind account id (activity a) c h = (refl, of_type c.segment_type h)
    where
      of_type : (t : SegmentType) → is_activity t ≡ true → SegmentType.activity ≡ t
      of_type SegmentType.activity e = refl
      of_type SegmentType.capture_gap e = absurd (cc)
  same_kind account id (gap g) c h = (refl, of_type c.segment_type h)
    where
      of_type : (t : SegmentType) → not (is_activity t) ≡ true → SegmentType.capture_gap ≡ t
      of_type SegmentType.activity e = absurd (cc)
      of_type SegmentType.capture_gap e = refl

  pub row-id : (account id : Uuid) (p : ProjectedSegment) → (to_segment account id p).id ≡ id
  unfolding to_segment
  row-id account id (activity a) = refl
  row-id account id (gap g) = refl

  weaken-Origin :
      (candidates : List Segment) (id : Option Uuid) (reused : List Uuid) (n : ℕ)
      (rows : List Segment)
      → All (Origin candidates (mark id reused) (suc n)) rows
      → All (Origin candidates reused n) rows
  weaken-Origin candidates id reused n [] h = tt
  weaken-Origin candidates id reused n (s ∷ rows) h =
      (one id h.0, weaken-Origin candidates id reused n rows h.1)
    where
      unmarked :
          (o : Option Uuid) → contains (mark o reused) s.id ≡ false → contains reused s.id ≡ false
      unmarked none e = e
      unmarked (some i) e = ground arith

      one :
          (o : Option Uuid)
          → Origin candidates (mark o reused) (suc n) s
          → Origin candidates reused n s
      one o (inl (c, there, free, same, kind)) = inl (c, there, unmarked o free, same, kind)
      one o (inr (k, late, same)) = inr (k, omega arith, same)

  -- Each added row has its identifier from a candidate that was not among the reused ones, or from the
  -- generator.
  pub added_rows-Origin :
      (account : Uuid) (candidates : List Segment) (projected : List ProjectedSegment)
      (reused : List Uuid) (n : ℕ)
      → All (Origin candidates reused n) (added_rows new_id account candidates projected reused n)
  unfolding added_rows
  added_rows-Origin account candidates [] reused n = tt
  added_rows-Origin account candidates (p ∷ projected) reused n = (
    by_id (reusable_id p candidates reused) refl,
    weaken-Origin candidates (reusable_id p candidates reused) reused n
        (added_rows new_id account candidates projected
          (mark (reusable_id p candidates reused) reused) (suc n))
        (added_rows-Origin account candidates projected
          (mark (reusable_id p candidates reused) reused) (suc n)),
  )
    where
      by_id :
          (o : Option Uuid)
          → reusable_id p candidates reused ≡ o
          → Origin candidates reused n (to_segment account (id_or o (new_id n)) p)
      by_id none e = inr (n, omega arith, row-id account (new_id n) p)
      by_id (some id) e =
          let (c, there, free, same, kind) = reusable_id-Reuses p candidates reused id e in
          let (own, type) = same_kind account id p c kind in
          inl (c, there, subst (λ x. contains reused x ≡ false) (sym own) free, own ∙ same, type)

  -- The row has the identifier of a candidate of the same kind, and no row before it has that one.
  abbrev pub Inherits : List Segment → List Uuid → Segment → Type 0
  Inherits candidates reused s =
      (c : Segment) × InRows c candidates
      × (contains reused s.id ≡ false)
      × (s.id ≡ c.id)
      × (s.segment_type ≡ c.segment_type)

  -- Each row inherits an identifier that is not among those inherited before, and is then added to
  -- them, or has the next one of the generator.
  abbrev pub Origins : List Segment → List Uuid → ℕ → List Segment → Type 0
  Origins candidates reused n [] = Unit
  Origins candidates reused n (s ∷ rows) =
      (Inherits candidates reused s × Origins candidates (s.id ∷ reused) (suc n) rows)
      ⊎ ((s.id ≡ new_id n) × Origins candidates reused (suc n) rows)

  -- Each added row has the identifier of a candidate of the same kind which no added row before it
  -- reused, nor is it among those given as reused, or else the one that the generator returns for it:
  -- the n-th for the first row, and the next for each further row.
  pub added_rows-Origins :
      (account : Uuid) (candidates : List Segment) (projected : List ProjectedSegment)
      (reused : List Uuid) (n : ℕ)
      → Origins candidates reused n (added_rows new_id account candidates projected reused n)
  unfolding added_rows
  added_rows-Origins account candidates [] reused n = tt
  added_rows-Origins account candidates (p ∷ projected) reused n =
      by_id (reusable_id p candidates reused) refl
        (λ used. added_rows-Origins account candidates projected used (suc n))
    where
      others : List Uuid → List Segment
      others used = added_rows new_id account candidates projected used (suc n)

      by_id :
          (o : Option Uuid)
          → reusable_id p candidates reused ≡ o
          → ((used : List Uuid) → Origins candidates used (suc n) (others used))
          → Origins candidates reused n
              (to_segment account (id_or o (new_id n)) p ∷ others (mark o reused))
      by_id none e rest = inr (row-id account (new_id n) p, rest reused)
      by_id (some id) e rest =
          let (c, there, free, same, kind) = reusable_id-Reuses p candidates reused id e in
          let (own, type) = same_kind account id p c kind in
          inl (
            (c, there, subst (λ x. contains reused x ≡ false) (sym own) free, own ∙ same, type),
            subst (λ x. Origins candidates (x ∷ reused) (suc n) (others (id ∷ reused))) (sym own)
                (rest (id ∷ reused)),
          )
