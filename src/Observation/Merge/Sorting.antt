-- ===== src/Observation/Merge/Sorting.antt =====
-- Ordering rows by their keys (`sorted(adopted, key=observation_key)` of
-- observation/application/batches.py, and the ORDER BY of the queries).
use mosemo.Prelude.{
  ◌≡◌, refl, Bool, true, false, List, [], ◌∷◌, nat_eq, ◌==◌, arith, All, if◌then◌else◌,
}
use mathlib.Core.List.{Perm}
use mathlib.Core.List.Perm
use mosemo.Observation.Merge.{Key, key_before, insert, sort}
use mosemo.Observation.Merge.Pages.{IsStrict}

key_before-transitive :
    (a b c : Key) → key_before a b ≡ true → key_before b c ≡ true → key_before a c ≡ true
key_before-transitive a b c h k = ground arith

key_before-total :
    (a b : Key) → (a.event == b.event) ≡ false → key_before b a ≡ false → key_before a b ≡ true
key_before-total a b h k = ground arith

module _ {ℓ} {A : Type ℓ} (key : A → Key) where
  abbrev pub IsOther : A → A → Type 0
  IsOther x y = ((key x).event == (key y).event) ≡ false

  -- No two rows have the same event.
  abbrev pub IsDistinct : List A → Type 0
  IsDistinct [] = Unit
  IsDistinct (x ∷ xs) = All (IsOther x) xs × IsDistinct xs

  pub All-insert {κ} :
      (P : A → Type κ) (x : A) (ys : List A) → P x → All P ys → All P (insert key x ys)
  All-insert P x [] h k = (h, k)
  All-insert P x (y ∷ ys) h k = by_order (key_before (key y) (key x)) (All-insert P x ys h k.1)
    where
      by_order :
          (b : Bool)
          → All P (insert key x ys)
          → All P (if b then y ∷ insert key x ys else x ∷ y ∷ ys)
      by_order true r = (k.0, r)
      by_order false r = (h, k)

  pub All-sort {κ} : (P : A → Type κ) (xs : List A) → All P xs → All P (sort key xs)
  All-sort P [] h = h
  All-sort P (x ∷ xs) h = All-insert P x (sort key xs) h.0 (All-sort P xs h.1)

  insert-IsStrict :
      (x : A) (ys : List A) → All (IsOther x) ys → IsStrict key ys → IsStrict key (insert key x ys)
  insert-IsStrict x [] h k = (tt, tt)
  insert-IsStrict x (y ∷ ys) h k =
      by_order (key_before (key y) (key x)) refl (insert-IsStrict x ys h.1 k.1)
    where
      all_after :
          (a b : A) (zs : List A)
          → key_before (key a) (key b) ≡ true
          → All (λ z. key_before (key b) (key z) ≡ true) zs
          → All (λ z. key_before (key a) (key z) ≡ true) zs
      all_after a b [] e r = tt
      all_after a b (z ∷ zs) e r =
          (key_before-transitive (key a) (key b) (key z) e r.0, all_after a b zs e r.1)

      by_order :
          (b : Bool)
          → key_before (key y) (key x) ≡ b
          → IsStrict key (insert key x ys)
          → IsStrict key (if b then y ∷ insert key x ys else x ∷ y ∷ ys)
      by_order true e r = (All-insert (λ z. key_before (key y) (key z) ≡ true) x ys e k.0, r)
      by_order false e r =
          let first = key_before-total (key x) (key y) h.0 e in
          ((first, all_after x y ys first k.0), k)

  -- Rows of distinct events have strictly increasing keys, once ordered.
  pub sort-IsStrict : (xs : List A) → IsDistinct xs → IsStrict key (sort key xs)
  sort-IsStrict [] h = tt
  sort-IsStrict (x ∷ xs) h =
      insert-IsStrict x (sort key xs) (All-sort (IsOther x) xs h.0) (sort-IsStrict xs h.1)

  insert-perm : (x : A) (ys : List A) → Perm (insert key x ys) (x ∷ ys)
  insert-perm x [] = Perm.refl (x ∷ [])
  insert-perm x (y ∷ ys) = by_order (key_before (key y) (key x)) (insert-perm x ys)
    where
      by_order :
          (b : Bool)
          → Perm (insert key x ys) (x ∷ ys)
          → Perm (if b then y ∷ insert key x ys else x ∷ y ∷ ys) (x ∷ y ∷ ys)
      by_order true p = Perm.trans (Perm.cons y p) (Perm.swap x y ys)
      by_order false p = Perm.refl (x ∷ y ∷ ys)

  pub sort-perm : (xs : List A) → Perm (sort key xs) xs
  sort-perm [] = Perm.refl []
  sort-perm (x ∷ xs) = Perm.trans (insert-perm x (sort key xs)) (Perm.cons x (sort-perm xs))
