-- ===== src/Shared/Windows/Examples.antt =====
-- Calendar days of the three timezones, without daylight saving time.
use Prim.Native.Nat.{◌/◌}
use mosemo.Prelude.{zero, suc, ◌+◌, ◌*◌, ◌-◌, ◌≤◌, ◌≡◌, ◌↔◌, refl, Option, none, some, arith}
use mosemo.Shared.Time.{Instant, Timezone, asia_seoul, america_new_york, utc, minutes}
use mosemo.Shared.Windows.{Date, Zones, timeline_date_window}
use mosemo.Shared.Windows.Days.{second_day, AreZones, Answers, timeline_date_window-Answers}

abbrev date_at : Timezone → Instant → Date
date_at asia_seoul at = (at + 32400000000) / 86400000000
date_at america_new_york at = (at - 18000000000) / 86400000000
date_at utc at = at / 86400000000

abbrev start_of : Timezone → Date → Option Instant
start_of asia_seoul zero = none
start_of asia_seoul (suc day) = some (day * 86400000000 + 54000000000)
start_of america_new_york day = some (day * 86400000000 + 18000000000)
start_of utc day = some (day * 86400000000)

abbrev pub fixed_zones : Zones
fixed_zones = record { local_date = date_at; midnight = start_of }

starts :
    (timezone : Timezone) (day : Date) (start at : Instant)
    → second_day ≤ at
    → start_of timezone day ≡ some start
    → (start ≤ at) ↔ (day ≤ date_at timezone at)
starts asia_seoul zero start at late e = absurd (cc)
starts asia_seoul (suc day) start at late e =
    let same : day * 86400000000 + 54000000000 ≡ start = cc in (λ h. omega arith, λ h. omega arith)
starts america_new_york day start at late e =
    let same : day * 86400000000 + 18000000000 ≡ start = cc in (λ h. omega arith, λ h. omega arith)
starts utc day start at late e =
    let same : day * 86400000000 ≡ start = cc in (λ h. omega arith, λ h. omega arith)

no_start : (timezone : Timezone) (day : Date) → start_of timezone day ≡ none → day ≡ 0
no_start asia_seoul zero e = refl
no_start asia_seoul (suc day) e = absurd (cc)
no_start america_new_york day e = absurd (cc)
no_start utc day e = absurd (cc)

pub fixed_zones-AreZones : AreZones fixed_zones
fixed_zones-AreZones = record { since_midnight = starts; overflow = no_start }

-- The first date of Seoul begins before `datetime.min`.
runs-timeline_date_window :
    (timeline_date_window fixed_zones asia_seoul (some 0) (minutes 6000)
      ≡ some (some (0, 0, minutes 900)))
    × (timeline_date_window fixed_zones asia_seoul none (minutes 6000)
        ≡ some (some (4, minutes 5220, minutes 6660)))
    × (timeline_date_window fixed_zones america_new_york (some 4) (minutes 6000) ≡ some none)
unfolding timeline_date_window
runs-timeline_date_window = (refl, refl, refl)

timeline_date_window-Answers_example :
    Answers fixed_zones fixed_zones-AreZones asia_seoul 4
      (minutes 6000)
      (timeline_date_window fixed_zones asia_seoul (some 4) (minutes 6000))
timeline_date_window-Answers_example =
    timeline_date_window-Answers fixed_zones fixed_zones-AreZones asia_seoul (some 4) (minutes 6000)
