-- ===== src/Observation/Merge/Filtering.antt =====
-- Filtering rows that are joined and ordered (the queries of
-- observation/infrastructure/timeline_segments.py): whether the filter comes before or after makes no
-- difference.
use mosemo.Prelude.{
  ◌≡◌, refl, ap, sym, ◌∙◌, inl, inr, Bool, true, false, ◌&&◌, Bool-cases, Option, none, some, List,
  [], ◌∷◌, nat_eq, All, keep, map, arith, if◌then◌else◌,
}
use mosemo.Observation.Activities.{ActivityRecord}
use mosemo.Observation.Segments.{Segment}
use mosemo.Observation.Records.{find_by_event_id}
use mosemo.Observation.Merge.{Key, key_before, insert, sort, Joined, joined_to, join}
use mosemo.Observation.Merge.Sorting.{All-insert}

before-transitive :
    (a b c : Key) → key_before b a ≡ false → key_before c b ≡ false → key_before c a ≡ false
before-transitive a b c h k = ground arith

before-total : (a b : Key) → key_before a b ≡ true → key_before b a ≡ false
before-total a b h = ground arith

module _ {ℓ} {A : Type ℓ} (key : A → Key) where
  -- No row comes before an earlier one of the list.
  abbrev pub IsOrdered : List A → Type 0
  IsOrdered [] = Unit
  IsOrdered (x ∷ xs) = All (λ y. key_before (key y) (key x) ≡ false) xs × IsOrdered xs

  All-after :
      (x y : A) (zs : List A)
      → key_before (key y) (key x) ≡ false
      → All (λ z. key_before (key z) (key y) ≡ false) zs
      → All (λ z. key_before (key z) (key x) ≡ false) zs
  All-after x y [] e k = tt
  All-after x y (z ∷ zs) e k =
      (before-transitive (key x) (key y) (key z) e k.0, All-after x y zs e k.1)

  insert-IsOrdered : (x : A) (ys : List A) → IsOrdered ys → IsOrdered (insert key x ys)
  insert-IsOrdered x [] h = (tt, tt)
  insert-IsOrdered x (y ∷ ys) h =
      by_order (key_before (key y) (key x)) refl (insert-IsOrdered x ys h.1)
    where
      by_order :
          (b : Bool)
          → key_before (key y) (key x) ≡ b
          → IsOrdered (insert key x ys)
          → IsOrdered (if b then y ∷ insert key x ys else x ∷ y ∷ ys)
      by_order true e k = (
        All-insert key (λ z. key_before (key z) (key y) ≡ false) x ys
            (before-total (key y) (key x) e) h.0,
        k,
      )
      by_order false e k = ((e, All-after x y ys e h.0), h)

  pub sort-IsOrdered : (xs : List A) → IsOrdered (sort key xs)
  sort-IsOrdered [] = tt
  sort-IsOrdered (x ∷ xs) = insert-IsOrdered x (sort key xs) (sort-IsOrdered xs)

  insert-first :
      (x : A) (ys : List A)
      → All (λ y. key_before (key y) (key x) ≡ false) ys
      → insert key x ys ≡ x ∷ ys
  insert-first x [] h = refl
  insert-first x (y ∷ ys) h = rw h.0 refl

  module _ (test : A → Bool) where
    keep-after :
        (x : A) (ys : List A)
        → All (λ y. key_before (key y) (key x) ≡ false) ys
        → All (λ y. key_before (key y) (key x) ≡ false) (keep test ys)
    keep-after x [] h = tt
    keep-after x (y ∷ ys) h = elim (Bool-cases (test y)) [
      | inl e ↦ rw e (h.0, keep-after x ys h.1)
      | inr e ↦ rw e (keep-after x ys h.1)
    ]

    keep-insert :
        (x : A) (ys : List A)
        → IsOrdered ys
        → keep test (insert key x ys)
          ≡ (if test x then insert key x (keep test ys) else keep test ys)
    keep-insert x [] h = elim (Bool-cases (test x)) [ inl e ↦ rw e refl | inr e ↦ rw e refl ]
    keep-insert x (y ∷ ys) h = by_order (key_before (key y) (key x)) refl (keep-insert x ys h.1)
      where
        by_order :
            (b : Bool)
            → key_before (key y) (key x) ≡ b
            → keep test (insert key x ys)
              ≡ (if test x then insert key x (keep test ys) else keep test ys)
            → keep test (if b then y ∷ insert key x ys else x ∷ y ∷ ys)
              ≡ (if test x then insert key x (keep test (y ∷ ys)) else keep test (y ∷ ys))
        by_order true e ih = elim (Bool-cases (test x)) [
          | inl kept ↦ elim (Bool-cases (test y)) [
            | inl too ↦ rw (kept, too, e) (ap (λ l. y ∷ l) (ih ∙ rw kept refl))
            | inr not_too ↦ rw (kept, not_too) (ih ∙ rw kept refl)
          ]
          | inr dropped ↦ elim (Bool-cases (test y)) [
            | inl too ↦ rw (dropped, too) (ap (λ l. y ∷ l) (ih ∙ rw dropped refl))
            | inr not_too ↦ rw (dropped, not_too) (ih ∙ rw dropped refl)
          ]
        ]
        by_order false e ih = elim (Bool-cases (test x)) [
          | inl kept ↦ rw kept (
              sym (
                insert-first x (keep test (y ∷ ys))
                  (keep-after x (y ∷ ys) (e, All-after x y ys e h.0))))
          | inr dropped ↦ rw dropped refl
        ]

    pub keep-sort : (xs : List A) → keep test (sort key xs) ≡ sort key (keep test xs)
    keep-sort [] = refl
    keep-sort (x ∷ xs) =
        keep-insert x (sort key xs) (sort-IsOrdered xs) ∙ by_test (test x) (keep-sort xs)
      where
        by_test :
            (b : Bool)
            → keep test (sort key xs) ≡ sort key (keep test xs)
            → (if b then insert key x (keep test (sort key xs)) else keep test (sort key xs))
              ≡ sort key (if b then x ∷ keep test xs else keep test xs)
        by_test true ih = ap (insert key x) ih
        by_test false ih = ih

module _ (test : Segment → Bool) where
  keep-join :
      (records : List ActivityRecord) (rows : List Segment)
      → keep (λ (row : Joined). test row.0) (join records rows) ≡ join records (keep test rows)
  keep-join records [] = refl
  keep-join records (s ∷ rows) =
      by_first (find_by_event_id records s.first_event_id) refl (keep-join records rows)
    where
      by_first :
          (o : Option ActivityRecord)
          → find_by_event_id records s.first_event_id ≡ o
          → keep (λ (row : Joined). test row.0) (join records rows) ≡ join records (keep test rows)
          → keep (λ (row : Joined). test row.0) (joined_to s o (join records rows))
            ≡ join records (if test s then s ∷ keep test rows else keep test rows)
      by_first none e ih = elim (Bool-cases (test s)) [
        | inl kept ↦ rw (kept, e) ih
        | inr dropped ↦ rw dropped ih
      ]
      by_first (some r) e ih = elim (Bool-cases (test s)) [
        | inl kept ↦ rw (kept, e) (ap (λ l. (s, r) ∷ l) ih)
        | inr dropped ↦ rw dropped ih
      ]

  map-keep :
      (rows : List Joined)
      → map (λ (row : Joined). row.0) (keep (λ (row : Joined). test row.0) rows)
        ≡ keep test (map (λ (row : Joined). row.0) rows)
  map-keep [] = refl
  map-keep (row ∷ rows) = elim (Bool-cases (test row.0)) [
    | inl e ↦ rw e (ap (λ l. row.0 ∷ l) (map-keep rows))
    | inr e ↦ rw e (map-keep rows)
  ]

  -- Joined, ordered and filtered rows are those that are filtered first.
  pub keep-joined :
      (key : Joined → Key) (records : List ActivityRecord) (rows : List Segment)
      → map (λ (row : Joined). row.0) (sort key (join records (keep test rows)))
        ≡ keep test (map (λ (row : Joined). row.0) (sort key (join records rows)))
  keep-joined key records rows =
      ap (λ l. map (λ (row : Joined). row.0) (sort key l)) (sym (keep-join records rows))
      ∙ ap (map (λ (row : Joined). row.0))
          (sym (keep-sort key (λ (row : Joined). test row.0) (join records rows)))
      ∙ map-keep (sort key (join records rows))

pub keep-both {ℓ} :
    {A : Type ℓ} (a b : A → Bool) (xs : List A) → keep (λ x. a x && b x) xs ≡ keep b (keep a xs)
keep-both a b [] = refl
keep-both a b (x ∷ xs) = elim (Bool-cases (a x)) [
  | inl e ↦ elim (Bool-cases (b x)) [
    | inl f ↦ rw (e, f) (ap (λ l. x ∷ l) (keep-both a b xs))
    | inr f ↦ rw (e, f) (keep-both a b xs)
  ]
  | inr e ↦ rw e (keep-both a b xs)
]
