-- ===== src/Observation/Replacing/Accounts.antt =====
-- What a replacement keeps (`replace_account_segments` of
-- observation/infrastructure/timeline_segments.py): identifiers, and the rows of other accounts.
use mosemo.Prelude.{
  ℕ, suc, ◌≡◌, inl, inr, refl, ap, sym, ◌∙◌, subst, false, not, Bool-cases, List, [], ◌∷◌, ◌++◌,
  append-nil, nat_eq, ◌==◌, arith, All, keep, contains, any-append,
}
use mosemo.Shared.Time.{Instant, Uuid}
use mosemo.Observation.Segments.{Segment}
use mosemo.Observation.Projected.{ProjectedSegment, activity, gap, to_segment}
use mosemo.Observation.Replacing.{
  Timeline, ids, trim_converged, reusable_id, mark, added_rows, delete_all,
  replace_account_segments,
}
use mosemo.Observation.Replacing.Reuse.{InRows}
use mosemo.Observation.Replacing.Origin.{Distinct, Stored, contains-InRows, added_rows-Origin}
use mosemo.Observation.Replacing.Ids.{
  IsIdentified, ids-append, contains-keep, Distinct-keep, Distinct-append, trim_converged-All,
  Stored-IsUnused, added_rows-Distinct, kept_apart, added_rows-IsUnused,
}

-- The identifiers of the rows stay distinct, and none that the generator returns later is used, when
-- the segments to replace are stored rows and the generator never repeats itself.
pub replace_account_segments-IsIdentified :
    (new_id : ℕ → Uuid)
    → ((j k : ℕ) → new_id j ≡ new_id k → j ≡ k)
    → (t : Timeline) (account : Uuid) (projected : List ProjectedSegment) (existing : List Segment)
      (observed : Instant)
    → Stored t.rows existing
    → IsIdentified new_id t
    → IsIdentified new_id (replace_account_segments new_id t account projected existing observed)
unfolding replace_account_segments
replace_account_segments-IsIdentified new_id injective t account projected existing observed st u =
    let (new, old) = trim_converged projected existing observed in
    let held = trim_converged-All (λ c. InRows c t.rows) projected existing observed st in
    let free = Stored-IsUnused new_id t.generated t.rows old u.1 held in
    (
      subst Distinct (sym (ids-append (delete_all old t.rows) (added account old new))) (
          Distinct-append (ids (delete_all old t.rows)) (ids (added account old new))
            (Distinct-keep (λ s. not (contains (ids old) s.id)) t.rows u.0)
            (added_rows-Distinct new_id injective account old new [] t.generated free)
            (kept_apart new_id injective t.rows old (added account old new) [] t.generated u.1
              (added_rows-Origin new_id account old new [] t.generated))),
      λ k late.
          subst (λ l. contains l (new_id k) ≡ false)
            (sym (ids-append (delete_all old t.rows) (added account old new)))
            (ground (
              arith,
              any-append (λ v. new_id k == v) (ids (delete_all old t.rows))
                  (ids (added account old new)),
              contains-keep (λ s. not (contains (ids old) s.id)) t.rows (new_id k)
                  (u.1 k (omega arith)),
              added_rows-IsUnused new_id injective account old new [] t.generated free k late,
            )),
    )
  where
    added : Uuid → List Segment → List ProjectedSegment → List Segment
    added a old new = added_rows new_id a old new [] t.generated

-- The rows of the other accounts.
abbrev pub of_others : Uuid → List Segment → List Segment
of_others account rows = keep (λ s. not (s.account_id == account)) rows

of_others-append :
    (account : Uuid) (xs ys : List Segment)
    → of_others account (xs ++ ys) ≡ of_others account xs ++ of_others account ys
of_others-append account [] ys = refl
of_others-append account (x ∷ xs) ys = ground (arith, of_others-append account xs ys)

added_rows-others :
    (new_id : ℕ → Uuid) (account : Uuid) (candidates : List Segment)
    (projected : List ProjectedSegment) (reused : List Uuid) (n : ℕ)
    → of_others account (added_rows new_id account candidates projected reused n) ≡ []
unfolding added_rows to_segment
added_rows-others new_id account candidates [] reused n = refl
added_rows-others new_id account candidates (activity a ∷ projected) reused n = ground (
  arith,
  added_rows-others new_id account candidates projected
      (mark (reusable_id (activity a) candidates reused) reused) (suc n),
)
added_rows-others new_id account candidates (gap g ∷ projected) reused n = ground (
  arith,
  added_rows-others new_id account candidates projected
      (mark (reusable_id (gap g) candidates reused) reused) (suc n),
)

-- A row is known by its identifier.
same_row :
    (rows : List Segment) (r c : Segment)
    → Distinct (ids rows)
    → InRows r rows
    → InRows c rows
    → r.id ≡ c.id
    → r ≡ c
same_row [] r c d i j e = absurd i
same_row (x ∷ rows) r c d (inl p) (inl q) e = p ∙ sym q
same_row (x ∷ rows) r c d (inl p) (inr j) e =
    absurd (ground (arith, contains-InRows c rows j, d.0, ap (λ s. s.id) p))
same_row (x ∷ rows) r c d (inr i) (inl q) e =
    absurd (ground (arith, contains-InRows r rows i, d.0, ap (λ s. s.id) q))
same_row (x ∷ rows) r c d (inr i) (inr j) e = same_row rows r c d.1 i j e

-- A row of another account is none of the account's rows.
other_account :
    (rows : List Segment) (account : Uuid) (r : Segment) (candidates : List Segment)
    → Distinct (ids rows)
    → InRows r rows
    → (r.account_id == account) ≡ false
    → Stored rows candidates
    → All (λ c. c.account_id ≡ account) candidates
    → contains (ids candidates) r.id ≡ false
other_account rows account r [] d i e h own = refl
other_account rows account r (c ∷ candidates) d i e h own = elim (Bool-cases (r.id == c.id)) [
  | inl same ↦
      let row = same_row rows r c d i h.0 (ground arith) in
      absurd (ground (arith, own.0, ap (λ s. s.account_id) row))
  | inr apart ↦ ground (arith, other_account rows account r candidates d i e h.1 own.1)
]

delete_all-others :
    (all : List Segment) (account : Uuid) (candidates rows : List Segment)
    → Distinct (ids all)
    → Stored all rows
    → Stored all candidates
    → All (λ c. c.account_id ≡ account) candidates
    → of_others account (delete_all candidates rows) ≡ of_others account rows
delete_all-others all account candidates [] d within h own = refl
delete_all-others all account candidates (r ∷ rows) d within h own =
    let rest = delete_all-others all account candidates rows d within.1 h own in
    elim (Bool-cases (r.account_id == account)) [
      | inl e ↦ elim (Bool-cases (contains (ids candidates) r.id)) [
        | inl gone ↦ rw (gone, e) rest
        | inr kept ↦ rw (kept, e) rest
      ]
      | inr e ↦
          rw (other_account all account r candidates d within.0 e h own, e) (ap (λ l. r ∷ l) rest)
    ]

all-Stored : (rows : List Segment) → Stored rows rows
all-Stored rows = within rows rows (λ s i. i)
  where
    within :
        (all part : List Segment) → ((s : Segment) → InRows s part → InRows s all) → Stored all part
    within all [] f = tt
    within all (s ∷ part) f = (f s (inl refl), within all part (λ t i. f t (inr i)))

-- The rows of other accounts are what they were, in the same order, when identifiers are distinct and
-- the segments to replace are stored rows of the account.
pub replace_account_segments-others :
    (new_id : ℕ → Uuid) (t : Timeline) (account : Uuid) (projected : List ProjectedSegment)
    (existing : List Segment) (observed : Instant)
    → Distinct (ids t.rows)
    → Stored t.rows existing
    → All (λ s. s.account_id ≡ account) existing
    → of_others account (replace_account_segments new_id t account projected existing observed).rows
      ≡ of_others account t.rows
unfolding replace_account_segments
replace_account_segments-others new_id t account projected existing observed d st own =
    let (new, old) = trim_converged projected existing observed in
    of_others-append account (delete_all old t.rows)
      (added_rows new_id account old new [] t.generated)
    ∙ ap (λ l. of_others account (delete_all old t.rows) ++ l)
        (added_rows-others new_id account old new [] t.generated)
    ∙ append-nil (of_others account (delete_all old t.rows))
    ∙ delete_all-others t.rows account old t.rows d (all-Stored t.rows)
        (trim_converged-All (λ c. InRows c t.rows) projected existing observed st)
        (trim_converged-All (λ s. s.account_id ≡ account) projected existing observed own)
