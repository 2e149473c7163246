-- ===== src/Observation/Days/Newest.antt =====
-- The order of the listed focus sessions (`list_completed` of
-- observation/infrastructure/focus_sessions.py).
use mosemo.Prelude.{
  ◌≡◌, ◌↔◌, inl, inr, refl, sym, subst, Bool, true, false, List, [], ◌∷◌, nat_eq, arith, All, In,
  keep, if◌then◌else◌,
}
use mosemo.Observation.Focus.{FocusSession}
use mosemo.Observation.Days.{is_newer, insert, newest_first}

-- No session is newer than the one before it.
abbrev pub IsNewestFirst : List FocusSession → Type 0
IsNewestFirst [] = Unit
IsNewestFirst (s ∷ sessions) = All (λ t. is_newer t s ≡ false) sessions × IsNewestFirst sessions

is_newer-transitive :
    (a b c : FocusSession) → is_newer b a ≡ false → is_newer c b ≡ false → is_newer c a ≡ false
is_newer-transitive a b c h k = ground arith

is_newer-total : (a b : FocusSession) → is_newer a b ≡ true → is_newer b a ≡ false
is_newer-total a b h = ground arith

In-insert :
    (s t : FocusSession) (sessions : List FocusSession)
    → In t (insert s sessions) ↔ In t (s ∷ sessions)
In-insert s t [] = (λ i. i, λ i. i)
In-insert s t (u ∷ sessions) = by_order (is_newer u s) (In-insert s t sessions)
  where
    by_order :
        (b : Bool)
        → In t (insert s sessions) ↔ In t (s ∷ sessions)
        → In t (if b then u ∷ insert s sessions else s ∷ u ∷ sessions) ↔ In t (s ∷ u ∷ sessions)
    by_order false k = (λ i. i, λ i. i)
    by_order true (f, g) = (there, back)
      where
        swap : In t (s ∷ sessions) → In t (s ∷ u ∷ sessions)
        swap (inl e) = inl e
        swap (inr i) = inr (inr i)

        there : In t (u ∷ insert s sessions) → In t (s ∷ u ∷ sessions)
        there (inl e) = inr (inl e)
        there (inr i) = swap (f i)

        back : In t (s ∷ u ∷ sessions) → In t (u ∷ insert s sessions)
        back (inl e) = inr (g (inl e))
        back (inr (inl e)) = inl e
        back (inr (inr i)) = inr (g (inr i))

All-insert :
    (P : FocusSession → Type 0) (s : FocusSession) (sessions : List FocusSession)
    → P s
    → All P sessions
    → All P (insert s sessions)
All-insert P s [] p h = (p, tt)
All-insert P s (t ∷ sessions) p h = by_order (is_newer t s) (All-insert P s sessions p h.1)
  where
    by_order :
        (b : Bool)
        → All P (insert s sessions)
        → All P (if b then t ∷ insert s sessions else s ∷ t ∷ sessions)
    by_order true k = (h.0, k)
    by_order false k = (p, h)

insert-IsNewestFirst :
    (s : FocusSession) (sessions : List FocusSession)
    → IsNewestFirst sessions
    → IsNewestFirst (insert s sessions)
insert-IsNewestFirst s [] h = (tt, tt)
insert-IsNewestFirst s (t ∷ sessions) h =
    by_order (is_newer t s) refl (insert-IsNewestFirst s sessions h.1)
  where
    all_older :
        (rest : List FocusSession)
        → is_newer t s ≡ false
        → All (λ u. is_newer u t ≡ false) rest
        → All (λ u. is_newer u s ≡ false) rest
    all_older [] e k = tt
    all_older (u ∷ rest) e k = (is_newer-transitive s t u e k.0, all_older rest e k.1)

    by_order :
        (b : Bool)
        → is_newer t s ≡ b
        → IsNewestFirst (insert s sessions)
        → IsNewestFirst (if b then t ∷ insert s sessions else s ∷ t ∷ sessions)
    by_order true e k =
        (All-insert (λ u. is_newer u t ≡ false) s sessions (is_newer-total t s e) h.0, k)
    by_order false e k = ((e, all_older sessions e h.0), h)

pub newest_first-IsNewestFirst :
    (sessions : List FocusSession) → IsNewestFirst (newest_first sessions)
newest_first-IsNewestFirst [] = tt
newest_first-IsNewestFirst (s ∷ sessions) =
    insert-IsNewestFirst s (newest_first sessions) (newest_first-IsNewestFirst sessions)

pub In-newest_first :
    (t : FocusSession) (sessions : List FocusSession) → In t (newest_first sessions) ↔ In t sessions
In-newest_first t [] = (λ i. i, λ i. i)
In-newest_first t (s ∷ sessions) =
    compose (In-newest_first t sessions) (In-insert s t (newest_first sessions))
  where
    compose :
        In t (newest_first sessions) ↔ In t sessions
        → In t (insert s (newest_first sessions)) ↔ In t (s ∷ newest_first sessions)
        → In t (insert s (newest_first sessions)) ↔ In t (s ∷ sessions)
    compose (f, g) (p, q) = (λ i. there (p i), λ i. q (back i))
      where
        there : In t (s ∷ newest_first sessions) → In t (s ∷ sessions)
        there (inl e) = inl e
        there (inr i) = inr (f i)

        back : In t (s ∷ sessions) → In t (s ∷ newest_first sessions)
        back (inl e) = inl e
        back (inr i) = inr (g i)

pub In-keep :
    (p : FocusSession → Bool) (t : FocusSession) (sessions : List FocusSession)
    → In t (keep p sessions) ↔ (In t sessions × (p t ≡ true))
In-keep p t [] = (λ i. absurd i, λ i. absurd i.0)
In-keep p t (s ∷ sessions) = by_test (p s) refl (In-keep p t sessions)
  where
    by_test :
        (b : Bool)
        → p s ≡ b
        → In t (keep p sessions) ↔ (In t sessions × (p t ≡ true))
        → In t (if b then s ∷ keep p sessions else keep p sessions)
          ↔ (In t (s ∷ sessions) × (p t ≡ true))
    by_test true e (f, g) = (there, back)
      where
        there : In t (s ∷ keep p sessions) → In t (s ∷ sessions) × (p t ≡ true)
        there (inl same) = (inl same, subst (λ u. p u ≡ true) (sym same) e)
        there (inr i) = (inr (f i).0, (f i).1)

        back : In t (s ∷ sessions) × (p t ≡ true) → In t (s ∷ keep p sessions)
        back (inl same, k) = inl same
        back (inr i, k) = inr (g (i, k))
    by_test false e (f, g) = (λ i. (inr (f i).0, (f i).1), back)
      where
        back : In t (s ∷ sessions) × (p t ≡ true) → In t (keep p sessions)
        back (inl same, k) = absurd (let other = subst (λ u. p u ≡ true) same k in cc)
        back (inr i, k) = g (i, k)
