-- ===== src/Shared/Time.antt =====
-- Python's aware `datetime` and `timedelta`, and `UUID`.
-- An instant is the number of microseconds since `datetime.min` in UTC, and a span is a number of
-- microseconds; the program compares instants, adds spans to them and takes differences. An
-- identifier is its 128-bit integer: it is only compared.
use mosemo.Prelude.{ℕ, ◌*◌, ◌≡◌, ◌↔◌, Bool, true, false, Eq, arith}

abbrev pub Instant : Type 0
Instant = ℕ

abbrev pub Span : Type 0
Span = ℕ

abbrev pub Uuid : Type 0
Uuid = ℕ

abbrev pub seconds : ℕ → Span
seconds n = n * 1000000

abbrev pub minutes : ℕ → Span
minutes n = n * 60000000

-- shared/domain/timezones.py: the IANA timezones that the public API accepts.
pub data Timezone : Type 0 where
  asia_seoul america_new_york utc : Timezone

abbrev pub timezone_beq : Timezone → Timezone → Bool
timezone_beq asia_seoul asia_seoul = true
timezone_beq america_new_york america_new_york = true
timezone_beq utc utc = true
timezone_beq _ _ = false

pub timezone_beq_iff : (a b : Timezone) → (timezone_beq a b ≡ true) ↔ (a ≡ b)
timezone_beq_iff a b = (λ h. ground arith, λ h. ground arith)

instance abbrev pub timezone_eq : Eq Timezone
timezone_eq = record { equals = timezone_beq; equals_iff = timezone_beq_iff }
