-- ===== src/Observation/Replacing/Ids.antt =====
-- The identifiers of the rows after a replacement (`replace_account_segments` of
-- observation/infrastructure/timeline_segments.py).
use mosemo.Prelude.{
  ℕ, zero, suc, ◌+◌, ◌≤◌, ◌≡◌, inl, inr, refl, ap, sym, subst, Bool, true, false, not, Bool-cases,
  Option, none, some, List, [], ◌∷◌, ◌++◌, nat_eq, ◌==◌, arith, All, keep, length, take, contains,
  any-append,
}
use mosemo.Shared.Time.{Instant, Uuid}
use mosemo.Observation.Segments.{Segment}
use mosemo.Observation.Projected.{ProjectedSegment, converged_index}
use mosemo.Observation.Replacing.{
  Timeline, ids, cut_at, trim_converged, reusable_id, id_or, mark, added_rows, delete_all,
}
use mosemo.Observation.Replacing.Reuse.{Reuses, reusable_id-Reuses}
use mosemo.Observation.Replacing.Origin.{
  Distinct, Stored, contains-InRows, IsUnused, Origin, row-id, added_rows-Origin,
}

pub ids-append : (xs ys : List Segment) → ids (xs ++ ys) ≡ ids xs ++ ids ys
ids-append [] ys = refl
ids-append (x ∷ xs) ys = ap (λ l. x.id ∷ l) (ids-append xs ys)

pub contains-keep :
    (test : Segment → Bool) (rows : List Segment) (id : Uuid)
    → contains (ids rows) id ≡ false
    → contains (ids (keep test rows)) id ≡ false
contains-keep test [] id h = refl
contains-keep test (r ∷ rows) id h = ground (arith, contains-keep test rows id)

pub Distinct-keep :
    (test : Segment → Bool) (rows : List Segment)
    → Distinct (ids rows)
    → Distinct (ids (keep test rows))
Distinct-keep test [] d = tt
Distinct-keep test (r ∷ rows) d = elim (Bool-cases (test r)) [
  | inl e ↦ rw e (contains-keep test rows r.id d.0, Distinct-keep test rows d.1)
  | inr e ↦ rw e (Distinct-keep test rows d.1)
]

pub Distinct-append :
    (xs ys : List Uuid)
    → Distinct xs
    → Distinct ys
    → All (λ y. contains xs y ≡ false) ys
    → Distinct (xs ++ ys)
Distinct-append [] ys dx dy h = dy
Distinct-append (x ∷ xs) ys dx dy h = (apart, Distinct-append xs ys dx.1 dy (others ys h))
  where
    others :
        (zs : List Uuid)
        → All (λ y. contains (x ∷ xs) y ≡ false) zs
        → All (λ y. contains xs y ≡ false) zs
    others [] k = tt
    others (z ∷ zs) k = (ground arith, others zs k.1)

    absent : (zs : List Uuid) → All (λ y. contains (x ∷ xs) y ≡ false) zs → contains zs x ≡ false
    absent [] k = refl
    absent (z ∷ zs) k = ground (arith, absent zs k.1)

    apart : contains (xs ++ ys) x ≡ false
    apart = ground (arith, any-append (λ v. x == v) xs ys, absent ys h)

delete_all-deleted :
    (removed rows : List Segment) (id : Uuid)
    → contains (ids removed) id ≡ true
    → contains (ids (delete_all removed rows)) id ≡ false
delete_all-deleted removed [] id h = refl
delete_all-deleted removed (r ∷ rows) id h = elim (Bool-cases (contains (ids removed) r.id)) [
  | inl e ↦ rw e (delete_all-deleted removed rows id h)
  | inr e ↦ rw e (ground (arith, delete_all-deleted removed rows id h))
]

-- The rows' identifiers are distinct, and no identifier to come is among them.
abbrev pub IsIdentified : (ℕ → Uuid) → Timeline → Type 0
IsIdentified new_id t = Distinct (ids t.rows) × IsUnused new_id t.generated (ids t.rows)

pub trim_converged-All {ℓ} :
    (P : Segment → Type ℓ) (projected : List ProjectedSegment) (existing : List Segment)
    (observed : Instant)
    → All P existing
    → All P (trim_converged projected existing observed).1
unfolding trim_converged
trim_converged-All P [] existing observed h = h
trim_converged-All P (p ∷ projected) existing observed h =
    cut (converged_index p existing observed) (trim_converged-All P projected existing observed h)
  where
    taken : (n : ℕ) (segments : List Segment) → All P segments → All P (take n segments)
    taken zero segments k = tt
    taken (suc n) [] k = tt
    taken (suc n) (s ∷ segments) k = (k.0, taken n segments k.1)

    cut :
        (index : Option ℕ)
        → All P (trim_converged projected existing observed).1
        → All P (cut_at p index existing (trim_converged projected existing observed)).1
    cut none k = k
    cut (some n) k = taken n existing h

pub Stored-IsUnused :
    (new_id : ℕ → Uuid) (n : ℕ) (rows candidates : List Segment)
    → IsUnused new_id n (ids rows)
    → Stored rows candidates
    → IsUnused new_id n (ids candidates)
Stored-IsUnused new_id n rows [] u h = λ k late. refl
Stored-IsUnused new_id n rows (c ∷ candidates) u h = λ k late. ground (
  arith,
  u k late,
  contains-InRows c rows h.0,
  Stored-IsUnused new_id n rows candidates u h.1 k late,
)

module _ (new_id : ℕ → Uuid) (injective : (j k : ℕ) → new_id j ≡ new_id k → j ≡ k) where
  -- An added identifier is a candidate's that was not reused, or generated.
  absent :
      (candidates : List Segment) (id : Option Uuid) (reused : List Uuid) (n : ℕ)
      (rows : List Segment)
      → IsUnused new_id n (ids candidates)
      → ((i : Uuid) → id ≡ some i → contains (ids candidates) i ≡ true)
      → All (Origin new_id candidates (mark id reused) (suc n)) rows
      → contains (ids rows) (id_or id (new_id n)) ≡ false
  absent candidates id reused n [] free old h = refl
  absent candidates none reused n (s ∷ rows) free old h =
      ground (arith, absent candidates none reused n rows free old h.1, apart h.0)
    where
      apart : Origin new_id candidates reused (suc n) s → (new_id n == s.id) ≡ false
      apart (inl (c, there, unused, same, kind)) =
          ground (arith, free n (omega arith), contains-InRows c candidates there)
      apart (inr (k, late, same)) = ground (arith, injective n k)
  absent candidates (some i) reused n (s ∷ rows) free old h =
      ground (arith, absent candidates (some i) reused n rows free old h.1, apart h.0)
    where
      apart : Origin new_id candidates (i ∷ reused) (suc n) s → (i == s.id) ≡ false
      apart (inl (c, there, unused, same, kind)) = ground arith
      apart (inr (k, late, same)) = ground (arith, free k (omega arith), old i refl)

  pub added_rows-Distinct :
      (account : Uuid) (candidates : List Segment) (projected : List ProjectedSegment)
      (reused : List Uuid) (n : ℕ)
      → IsUnused new_id n (ids candidates)
      → Distinct (ids (added_rows new_id account candidates projected reused n))
  unfolding added_rows
  added_rows-Distinct account candidates [] reused n free = tt
  added_rows-Distinct account candidates (p ∷ projected) reused n free =
      let id = reusable_id p candidates reused in
      let rest = added_rows new_id account candidates projected (mark id reused) (suc n) in
      (
        subst (λ i. contains (ids rest) i ≡ false)
            (sym (row-id new_id account (id_or id (new_id n)) p))
            (absent candidates id reused n rest free
              (λ i e.
                let (c, there, unused, same, kind) = reusable_id-Reuses p candidates reused i e in
                subst (λ x. contains (ids candidates) x ≡ true) (sym same)
                  (contains-InRows c candidates there))
              (added_rows-Origin new_id account candidates projected (mark id reused) (suc n))),
        added_rows-Distinct account candidates projected (mark id reused) (suc n)
            (λ k late. free k (omega arith)),
      )

  -- An added row has no identifier of a row that is kept.
  pub kept_apart :
      (rows candidates added : List Segment) (reused : List Uuid) (n : ℕ)
      → IsUnused new_id n (ids rows)
      → All (Origin new_id candidates reused n) added
      → All (λ y. contains (ids (delete_all candidates rows)) y ≡ false) (ids added)
  kept_apart rows candidates [] reused n u h = tt
  kept_apart rows candidates (s ∷ added) reused n u h =
      (one h.0, kept_apart rows candidates added reused n u h.1)
    where
      one :
          Origin new_id candidates reused n s
          → contains (ids (delete_all candidates rows)) s.id ≡ false
      one (inl (c, there, unused, same, kind)) =
          subst (λ i. contains (ids (delete_all candidates rows)) i ≡ false) (sym same)
            (delete_all-deleted candidates rows c.id (contains-InRows c candidates there))
      one (inr (k, late, same)) =
          subst (λ i. contains (ids (delete_all candidates rows)) i ≡ false) (sym same)
            (contains-keep (λ r. not (contains (ids candidates) r.id)) rows (new_id k) (u k late))

  -- The identifiers to come are not used by the added rows either.
  pub added_rows-IsUnused :
      (account : Uuid) (candidates : List Segment) (projected : List ProjectedSegment)
      (reused : List Uuid) (n : ℕ)
      → IsUnused new_id n (ids candidates)
      → IsUnused new_id
          (n + length projected)
          (ids (added_rows new_id account candidates projected reused n))
  unfolding added_rows
  added_rows-IsUnused account candidates [] reused n free = λ k late. refl
  added_rows-IsUnused account candidates (p ∷ projected) reused n free = λ k late.
      let id = reusable_id p candidates reused in
      let rest =
        added_rows-IsUnused account candidates projected (mark id reused) (suc n)
          (λ j after. free j (omega arith)) k (omega arith) in
      ground (
        arith,
        rest,
        row-id new_id account (id_or id (new_id n)) p,
        fresh_or_old id k (omega arith) (λ i e. reusable_id-Reuses p candidates reused i e),
      )
    where
      fresh_or_old :
          (o : Option Uuid) (k : ℕ)
          → suc n ≤ k
          → ((i : Uuid) → o ≡ some i → Reuses p candidates reused i)
          → (new_id k == id_or o (new_id n)) ≡ false
      fresh_or_old none k late old = ground (arith, injective k n)
      fresh_or_old (some i) k late old =
          let (c, there, unused, same, kind) = old i refl in
          ground (arith, free k (omega arith), contains-InRows c candidates there)
