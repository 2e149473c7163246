-- ===== src/Observation/Records/Nearest.antt =====
-- The nearest record that a test picks (`ORDER BY … LIMIT 1` in
-- observation/infrastructure/activity_records.py).
use mosemo.Prelude.{
  ℕ, ◌≤◌, ◌≡◌, ◌⊎◌, inl, inr, refl, sym, ◌∙◌, subst, Bool, true, false, Bool-cases, Option, none,
  some, List, [], ◌∷◌, ◌++◌, nat_eq, ltb, arith, All, if◌then◌else◌,
}
use mosemo.Observation.Activities.{ActivityRecord}
use mosemo.Observation.Records.{nearer_of, nearest}

abbrev pub In : ActivityRecord → List ActivityRecord → Type 0
In r [] = ⊥
In r (d ∷ records) = (r ≡ d) ⊎ In r records

pub In-append :
    (r : ActivityRecord) (front back : List ActivityRecord)
    → In r (front ++ back)
    → In r front ⊎ In r back
In-append r [] back i = inr i
In-append r (d ∷ front) back (inl e) = inl (inl e)
In-append r (d ∷ front) back (inr i) = elim (In-append r front back i) [
  | inl j ↦ inl (inr j)
  | inr j ↦ inr j
]

pub All-In :
    (P : ActivityRecord → Type 0) (records : List ActivityRecord) (r : ActivityRecord)
    → All P records
    → In r records
    → P r
All-In P [] r h i = absurd i
All-In P (d ∷ records) r h (inl e) = subst P (sym e) h.0
All-In P (d ∷ records) r h (inr i) = All-In P records r h.1 i

module _ (picks : ActivityRecord → Bool) (distance : ActivityRecord → ℕ) where
  -- The pick is one of the records, and none that the test picks is nearer.
  abbrev pub IsNearest : List ActivityRecord → Option ActivityRecord → Type 0
  IsNearest records none = (a : ActivityRecord) → In a records → picks a ≡ false
  IsNearest records (some p) =
      In p records
      × (picks p ≡ true)
      × ((a : ActivityRecord) → In a records → picks a ≡ true → distance p ≤ distance a)

  pub skip-IsNearest :
      (d : ActivityRecord) (records : List ActivityRecord) (rest : Option ActivityRecord)
      → picks d ≡ false
      → IsNearest records rest
      → IsNearest (d ∷ records) rest
  skip-IsNearest d records none e n =
      λ a i. elim i [ inl same ↦ subst (λ x. picks x ≡ false) (sym same) e | inr j ↦ n a j ]
  skip-IsNearest d records (some p) e n = (
    inr n.0,
    n.1,
    λ a i k. elim i [
      | inl same ↦ absurd (false-true (sym (subst (λ x. picks x ≡ false) (sym same) e) ∙ k))
      | inr j ↦ n.2 a j k
    ],
  )
    where
      false-true : false ≡ true → ⊥
      false-true q = cc

  pub take-IsNearest :
      (d : ActivityRecord) (records : List ActivityRecord) (rest : Option ActivityRecord)
      → picks d ≡ true
      → IsNearest records rest
      → IsNearest (d ∷ records) (nearer_of distance d rest)
  take-IsNearest d records none e n = (
    inl refl,
    e,
    λ a i k. elim i [
      | inl same ↦ subst (λ x. distance d ≤ distance x) (sym same) (omega arith)
      | inr j ↦ absurd (false-true (sym (n a j) ∙ k))
    ],
  )
    where
      false-true : false ≡ true → ⊥
      false-true q = cc
  take-IsNearest d records (some p) e n = elim (Bool-cases (ltb (distance p) (distance d))) [
    | inl nearer ↦ subst (IsNearest (d ∷ records)) (pick-other nearer) (
      inr n.0,
      n.1,
      λ a i k. elim i [
        | inl same ↦ subst (λ x. distance p ≤ distance x) (sym same) (ground arith)
        | inr j ↦ n.2 a j k
      ],
    )
    | inr farther ↦ subst (IsNearest (d ∷ records)) (pick-this farther) (
      inl refl,
      e,
      λ a i k. elim i [
        | inl same ↦ subst (λ x. distance d ≤ distance x) (sym same) (omega arith)
        | inr j ↦ no_nearer farther (n.2 a j k)
      ],
    )
  ]
    where
      pick-other : ltb (distance p) (distance d) ≡ true → some p ≡ nearer_of distance d (some p)
      pick-other q = rw q refl

      pick-this : ltb (distance p) (distance d) ≡ false → some d ≡ nearer_of distance d (some p)
      pick-this q = rw q refl

      no_nearer : {m : ℕ} → ltb (distance p) (distance d) ≡ false → distance p ≤ m → distance d ≤ m
      no_nearer q r = ground arith

  pub nearest-IsNearest :
      (records : List ActivityRecord) → IsNearest records (nearest picks distance records)
  nearest-IsNearest [] = λ a i. absurd i
  nearest-IsNearest (d ∷ records) = by_pick (picks d) (nearest-IsNearest records) refl
    where
      by_pick :
          (b : Bool)
          → IsNearest records (nearest picks distance records)
          → picks d ≡ b
          → IsNearest (d ∷ records) (
              if b
              then nearer_of distance d (nearest picks distance records)
              else nearest picks distance records)
      by_pick true n e = take-IsNearest d records (nearest picks distance records) e n
      by_pick false n e = skip-IsNearest d records (nearest picks distance records) e n
