-- ===== src/Prelude/Lists.antt =====
-- Lists measured by native numbers, predicates on every element, and chains of fallible steps.
use Prim.Native.Nat.{ℕ, zero, suc, ◌+◌}
use mathlib.Core.Path.{◌≡◌, refl}
use mathlib.Core.Logic.{◌≢◌, ◌⊎◌, inl, inr}
use mathlib.Core.Bool.{Bool, true, false, ◌||◌}
use mathlib.Core.List.{List, [], ◌∷◌, ◌++◌}
use mathlib.Core.Option.{Option, none, some}
use native.Mathlib.Omega.{arith}
use mosemo.Prelude.Tests.{if◌then◌else◌}

module _ {ℓ} {A : Type ℓ} where
  abbrev pub length : List A → ℕ
  length [] = 0
  length (x ∷ xs) = suc (length xs)

  -- `xs[-1]`, which an empty list does not have.
  abbrev pub last? : List A → Option A
  last? [] = none
  last? (x ∷ []) = some x
  last? (x ∷ y ∷ xs) = last? (y ∷ xs)

  abbrev pub get_or : List A → ℕ → A → A
  get_or [] i d = d
  get_or (x ∷ xs) zero d = x
  get_or (x ∷ xs) (suc i) d = get_or xs i d

  abbrev pub take : ℕ → List A → List A
  take zero xs = []
  take (suc n) [] = []
  take (suc n) (x ∷ xs) = x ∷ take n xs

  pub length-append : (xs ys : List A) → length (xs ++ ys) ≡ length xs + length ys
  length-append [] ys = omega arith
  length-append (x ∷ xs) ys = omega (arith, length-append xs ys)

  -- `next((x for x in xs if p(x)), None)`
  abbrev pub find : (A → Bool) → List A → Option A
  find p [] = none
  find p (x ∷ xs) = if p x then some x else find p xs

  pub find-holds : (p : A → Bool) (xs : List A) (x : A) → find p xs ≡ some x → p x ≡ true
  find-holds p [] x h = cc
  find-holds p (y ∷ xs) x h = ground (arith, find-holds p xs x)

  -- What one test finds where another finds nothing fails the other.
  pub find-none :
      (p q : A → Bool) (xs : List A) (x : A) → find p xs ≡ none → find q xs ≡ some x → p x ≡ false
  find-none p q [] x h k = absurd (cc)
  find-none p q (y ∷ xs) x h k = ground (arith, find-none p q xs x)

  pub find-append_one :
      (p : A → Bool) (xs : List A) (x : A)
      → find p xs ≡ none
      → p x ≡ true
      → find p (xs ++ x ∷ []) ≡ some x
  find-append_one p [] x h e = ground arith
  find-append_one p (y ∷ xs) x h e = ground (arith, find-append_one p xs x)

  abbrev pub keep : (A → Bool) → List A → List A
  keep p [] = []
  keep p (x ∷ xs) = let rest = keep p xs in if p x then x ∷ rest else rest

  -- Every element that `p` holds of, replaced.
  abbrev pub replace : (A → Bool) → (A → A) → List A → List A
  replace p f [] = []
  replace p f (x ∷ xs) = (if p x then f x else x) ∷ replace p f xs

  -- A found element, replaced by one that is found too.
  pub find-replace :
      (p q : A → Bool) (xs : List A) (x y : A)
      → find p xs ≡ some x
      → q x ≡ true
      → p y ≡ true
      → find p (replace q (λ z. y) xs) ≡ some y
  find-replace p q [] x y h k e = absurd (cc)
  find-replace p q (z ∷ xs) x y h k e = ground (arith, find-replace p q xs x y)

  abbrev pub any : (A → Bool) → List A → Bool
  any p [] = false
  any p (x ∷ xs) = p x || any p xs

-- A predicate of every element, by recursion: it computes to tuples.
module _ {ℓ κ} {A : Type ℓ} (Holds : A → Type κ) where
  abbrev pub All : List A → Type κ
  All [] = Unit
  All (first ∷ rest) = Holds first × All rest

  pub All-append : (front back : List A) → All front → All back → All (front ++ back)
  All-append [] back none_yet there = there
  All-append (first ∷ front) back here there = (here.0, All-append front back here.1 there)

pub any-append {ℓ} :
    {A : Type ℓ} (p : A → Bool) (xs ys : List A) → any p (xs ++ ys) ≡ (any p xs || any p ys)
any-append p [] ys = refl
any-append p (x ∷ xs) ys = ground (arith, any-append p xs ys)

-- Two lists with a last element are equal only if both parts are.
pub append_one-injective {ℓ} :
    {A : Type ℓ} (xs ys : List A) {x y : A} → xs ++ x ∷ [] ≡ ys ++ y ∷ [] → (xs ≡ ys) × (x ≡ y)
append_one-injective [] [] h = (refl, cc)
append_one-injective [] (y' ∷ []) h = absurd (cc)
append_one-injective [] (y' ∷ z ∷ ys) h = absurd (cc)
append_one-injective (x' ∷ []) [] h = absurd (cc)
append_one-injective (x' ∷ z ∷ xs) [] h = absurd (cc)
append_one-injective (x' ∷ xs) (y' ∷ ys) {x} {y} h =
    let (same, last) = append_one-injective xs ys (tails h) in (cc same, last)
  where
    tails : x' ∷ (xs ++ x ∷ []) ≡ y' ∷ (ys ++ y ∷ []) → xs ++ x ∷ [] ≡ ys ++ y ∷ []
    tails e = cc

pub append_one-ne {ℓ} : {A : Type ℓ} (xs : List A) (x : A) → [] ≢ xs ++ x ∷ []
append_one-ne [] x h = cc
append_one-ne (y ∷ xs) x h = cc

-- `x` is an element.
abbrev pub In : {A : Type 0} → A → List A → Type 0
In x [] = ⊥
In x (y ∷ ys) = (x ≡ y) ⊎ In x ys

-- The elements that a test keeps: elements that it holds of.
pub keep-In :
    {A : Type 0} (p : A → Bool) (xs : List A) → All (λ x. In x xs × (p x ≡ true)) (keep p xs)
keep-In {A} p xs = among xs (λ x i. i)
  where
    among :
        (part : List A)
        → ((x : A) → In x part → In x xs)
        → All (λ x. In x xs × (p x ≡ true)) (keep p part)
    among [] f = tt
    among (x ∷ part) f = by_test (p x) refl (among part (λ y i. f y (inr i)))
      where
        by_test :
            (b : Bool)
            → p x ≡ b
            → All (λ y. In y xs × (p y ≡ true)) (keep p part)
            → All (λ y. In y xs × (p y ≡ true)) (if b then x ∷ keep p part else keep p part)
        by_test true e k = ((f x (inl refl), e), k)
        by_test false e k = k

-- What is found is an element.
pub find-In : {A : Type 0} (p : A → Bool) (xs : List A) (x : A) → find p xs ≡ some x → In x xs
find-In p [] x h = absurd (cc)
find-In p (y ∷ xs) x h = by_test (p y) h (find-In p xs x)
  where
    by_test :
        (b : Bool)
        → (if b then some y else find p xs) ≡ some x
        → (find p xs ≡ some x → In x xs)
        → In x (y ∷ xs)
    by_test true e k = inl (cc)
    by_test false e k = inr (k e)
