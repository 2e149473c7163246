-- ===== src/Prelude/Equal.antt =====
-- Python's `==` on the values that the program compares: one operator, an instance for each type.
use Prim.Native.Nat.{ℕ}
use Prim.Native.String.{String}
use mathlib.Core.Path.{◌≡◌, refl, ap}
use mathlib.Core.Logic.{◌↔◌}
use mathlib.Core.Bool.{Bool, true, false}
use mathlib.Core.Option.{Option, none, some}
use mathlib.Core.List.{List}
use text.Mathlib.Text.{◌==◌ as str_eq}
use text.Mathlib.TextEquality.{eq_iff}
use mosemo.Prelude.Lists.{any}
use mosemo.Prelude.Tests.{nat_beq, nat_beq_iff}

-- A test that holds of equal values and of no others.
pub record Eq {ℓ} (Value : Type ℓ) : Type ℓ where
  pub equals : Value → Value → Bool
  pub equals_iff : (left right : Value) → (equals left right ≡ true) ↔ (left ≡ right)

module _ {ℓ} {Value : Type ℓ} ⦃test : Eq Value⦄ where
  infix 50 ◌==◌
  abbrev pub ◌==◌ : Value → Value → Bool
  left == right = test.equals left right

  pub ==_iff : (left right : Value) → ((left == right) ≡ true) ↔ (left ≡ right)
  ==_iff left right = test.equals_iff left right

  pub ==_refl : (value : Value) → (value == value) ≡ true
  ==_refl value = (==_iff value value).1 refl

instance abbrev pub string_eq : Eq String
string_eq = record { equals_iff = eq_iff; equals = str_eq }

instance abbrev pub nat_eq : Eq ℕ
nat_eq = record { equals_iff = nat_beq_iff; equals = nat_beq }

module _ {ℓ} {A : Type ℓ} ⦃e : Eq A⦄ where
  -- `value in values`
  abbrev pub contains : List A → A → Bool
  contains values value = any (λ v. value == v) values

  abbrev pub option_beq : Option A → Option A → Bool
  option_beq none none = true
  option_beq (some a) (some b) = a == b
  option_beq _ _ = false

  pub option_beq_iff : (a b : Option A) → (option_beq a b ≡ true) ↔ (a ≡ b)
  option_beq_iff none none = (λ h. refl, λ h. refl)
  option_beq_iff (some a) (some b) =
      (λ h. ap some ((e.equals_iff a b).0 h), λ h. (e.equals_iff a b).1 (cc))
  option_beq_iff none (some b) = (λ h. cc, λ h. cc)
  option_beq_iff (some a) none = (λ h. cc, λ h. cc)

  instance abbrev pub option_eq : Eq (Option A)
  option_eq = record { equals = option_beq; equals_iff = option_beq_iff }
