-- ===== src/Observation/Merge/Pages.antt =====
-- Reading by pages visits every row (`list_record_page`, and `list_segment_range` of
-- observation/infrastructure/timeline_segments.py): the loops over pages are loops over the query.
use mosemo.Prelude.{
  ℕ, zero, suc, ◌<◌, ◌≤◌, ◌≡◌, refl, ap, sym, ◌∙◌, subst, Bool, true, false, Option, none, some,
  List, [], ◌∷◌, ◌++◌, append_assoc, nat_eq, arith, All, Result, ok, err, ◌>>=◌, keep, take, length,
  last?,
}
use mosemo.Observation.Merge.{Key, key_before, after_cursor, cursor_of, Visit, visit, visit_pages}

pub key_before-irreflexive : (a : Key) → key_before a a ≡ false
key_before-irreflexive a = ground arith

pub key_before-asymmetric : (a b : Key) → key_before a b ≡ true → key_before b a ≡ false
key_before-asymmetric a b h = ground arith

drop {ℓ} : {A : Type ℓ} → ℕ → List A → List A
drop zero xs = xs
drop (suc n) [] = []
drop (suc n) (x ∷ xs) = drop n xs

take-drop {ℓ} : {A : Type ℓ} (n : ℕ) (xs : List A) → xs ≡ take n xs ++ drop n xs
unfolding drop
take-drop zero xs = refl
take-drop (suc n) [] = refl
take-drop (suc n) (x ∷ xs) = ap (λ l. x ∷ l) (take-drop n xs)

length-drop {ℓ} : {A : Type ℓ} (n : ℕ) (xs : List A) → length (drop n xs) ≤ length xs
unfolding drop
length-drop zero xs = omega arith
length-drop (suc n) [] = omega arith
length-drop (suc n) (x ∷ xs) = omega (arith, length-drop n xs)

-- The rows read after one page more, and the others.
split_rows {ℓ} :
    {A : Type ℓ} (l : ℕ) (front : List A) (x : A) (xs : List A)
    → front ++ x ∷ xs ≡ (front ++ x ∷ take l xs) ++ drop l xs
split_rows l front x xs =
    ap (λ ys. front ++ x ∷ ys) (take-drop l xs)
    ∙ sym (append_assoc front (x ∷ take l xs) (drop l xs))

last?-append {ℓ} :
    {A : Type ℓ} (front : List A) (x : A) (xs : List A) → last? (front ++ x ∷ xs) ≡ last? (x ∷ xs)
last?-append [] x xs = refl
last?-append (y ∷ []) x xs = refl
last?-append (y ∷ z ∷ front) x xs = last?-append (z ∷ front) x xs

module _ {ℓ} {A : Type ℓ} (key : A → Key) where
  -- The keys increase from each row to all that follow.
  abbrev pub IsStrict : List A → Type 0
  IsStrict [] = Unit
  IsStrict (x ∷ xs) = All (λ y. key_before (key x) (key y) ≡ true) xs × IsStrict xs

  before-last :
      (x : A) (front rest : List A) (c : A)
      → All (λ y. key_before (key x) (key y) ≡ true) (front ++ rest)
      → last? front ≡ some c
      → key_before (key x) (key c) ≡ true
  before-last x [] rest c h e = absurd (cc)
  before-last x (y ∷ []) rest c h e =
      let same : y ≡ c = cc in subst (λ z. key_before (key x) (key z) ≡ true) same h.0
  before-last x (y ∷ z ∷ front) rest c h e = before-last x (z ∷ front) rest c h.1 e

  keep-following :
      (c : A) (rest : List A)
      → All (λ y. key_before (key c) (key y) ≡ true) rest
      → keep (after_cursor key (some (key c))) rest ≡ rest
  keep-following c [] h = refl
  keep-following c (y ∷ rest) h = rw h.0 (ap (λ l. y ∷ l) (keep-following c rest h.1))

  -- After the cursor of the rows read stand the others.
  keep-after :
      (front rest : List A) (c : A)
      → IsStrict (front ++ rest)
      → last? front ≡ some c
      → keep (after_cursor key (some (key c))) (front ++ rest) ≡ rest
  keep-after [] rest c h e = absurd (cc)
  keep-after (x ∷ []) rest c h e =
      let same : x ≡ c = cc in
      subst (λ z. keep (after_cursor key (some (key z))) (x ∷ rest) ≡ rest) same
        (rw (key_before-irreflexive (key x)) (keep-following x rest h.0))
  keep-after (x ∷ y ∷ front) rest c h e =
      rw (key_before-asymmetric (key x) (key c) (before-last x (y ∷ front) rest c h.0 e))
        (keep-after (y ∷ front) rest c h.1 e)

  keep-true : (rest : List A) → keep (after_cursor key none) rest ≡ rest
  keep-true [] = refl
  keep-true (x ∷ rest) = ap (λ l. x ∷ l) (keep-true rest)

  keep-unread :
      (front rest : List A)
      → IsStrict (front ++ rest)
      → keep (after_cursor key (cursor_of key (last? front))) (front ++ rest) ≡ rest
  keep-unread [] rest h = keep-true rest
  keep-unread (x ∷ front) rest h = by_last (last? (x ∷ front)) refl
    where
      no_last : (y : A) (ys : List A) → last? (y ∷ ys) ≡ none → ⊥
      no_last y [] e = cc
      no_last y (z ∷ ys) e = no_last z ys e

      by_last :
          (o : Option A)
          → last? (x ∷ front) ≡ o
          → keep (after_cursor key (cursor_of key o)) (x ∷ front ++ rest) ≡ rest
      by_last none e = absurd (no_last x front e)
      by_last (some c) e = keep-after (x ∷ front) rest c h e

-- What a loop over rows returns at its end.
abbrev pub visited {ℓ κ} : {E : Type ℓ} {S : Type κ} → Result E (S × Bool) → Result E S
visited (ok u) = ok u.0
visited (err e) = err e

visit-append {ℓ κ μ} :
    {E : Type ℓ} {A : Type κ} {S : Type μ} (step : Visit E A S) (xs ys : List A) (s : S)
    → visit step (xs ++ ys) s
      ≡ (visit step xs s >>= λ u. elim u.1 [ true ↦ ok u | false ↦ visit step ys u.0 ])
unfolding visit
visit-append step [] ys s = refl
visit-append {E = E} {S = S} step (x ∷ xs) ys s =
    after_step (step x s) (λ t. visit-append step xs ys t)
  where
    after_step :
        (r : Result E (S × Bool))
        → ((t : S)
            → visit step (xs ++ ys) t
              ≡ (visit step xs t >>= λ u. elim u.1 [ true ↦ ok u | false ↦ visit step ys u.0 ]))
        → (r >>= λ u. elim u.1 [ true ↦ ok u | false ↦ visit step (xs ++ ys) u.0 ]) ≡ (
            r >>= (λ u. elim u.1 [ true ↦ ok u | false ↦ visit step xs u.0 ]) >>= λ u. elim u.1 [
              | true ↦ ok u
              | false ↦ visit step ys u.0
            ])
    after_step (err e) k = refl
    after_step (ok (u, true)) k = refl
    after_step (ok (u, false)) k = k u

module _ {ℓ κ μ} {E : Type ℓ} {A : Type κ} {S : Type μ} (key : A → Key) (step : Visit E A S) where
  visit_pages-from :
      (l fuel : ℕ) (front rest : List A) (s : S)
      → IsStrict key (front ++ rest)
      → length rest < fuel
      → visit_pages key step (suc l) (front ++ rest) fuel (cursor_of key (last? front)) s
        ≡ visited (visit step rest s)
  unfolding visit_pages visit
  visit_pages-from l zero front rest s h enough = absurd (omega arith)
  visit_pages-from l (suc fuel) front [] s h enough =
      rw (keep-unread key front [] h, visit_pages) refl
  visit_pages-from l (suc fuel) front (x ∷ xs) s h enough =
      rw (keep-unread key front (x ∷ xs) h, visit_pages)
        (from_page (visit step (x ∷ take l xs) s) (λ t.
            rw (split_rows l front x xs, sym (last?-append front x (take l xs)))
              (visit_pages-from l fuel (front ++ x ∷ take l xs) (drop l xs) t
                (subst (IsStrict key) (split_rows l front x xs) h)
                (omega (arith, length-drop l xs))))
          ∙ ap visited (sym (visit-append step (x ∷ take l xs) (drop l xs) s))
          ∙ ap (λ ys. visited (visit step (x ∷ ys) s)) (sym (take-drop l xs)))
    where
      from_page :
          (r : Result E (S × Bool))
          → ((t : S)
              → visit_pages key step
                  (suc l)
                  (front ++ x ∷ xs)
                  fuel
                  (cursor_of key (last? (x ∷ take l xs)))
                  t
                ≡ visited (visit step (drop l xs) t))
          → (r >>= λ u. elim u.1 [
            | true ↦ ok u.0
            | false ↦
                visit_pages key step
                  (suc l)
                  (front ++ x ∷ xs)
                  fuel
                  (cursor_of key (last? (x ∷ take l xs)))
                  u.0
          ])
            ≡ visited (r >>= λ u. elim u.1 [ true ↦ ok u | false ↦ visit step (drop l xs) u.0 ])
      from_page (err e) k = refl
      from_page (ok (u, true)) k = refl
      from_page (ok (u, false)) k = k u

  -- Reading by pages of any positive size is reading the whole query: with fuel for one page more
  -- than there are rows, the loop over pages visits the rows in order, each once, until the step
  -- stops or raises, provided that the rows' keys increase strictly.
  pub visit_pages-visit :
      (l : ℕ) (rows : List A) (s : S)
      → IsStrict key rows
      → visit_pages key step (suc l) rows (suc (length rows)) none s ≡ visited (visit step rows s)
  visit_pages-visit l rows s h = visit_pages-from l (suc (length rows)) [] rows s h (omega arith)
