-- ===== src/Dialogue/Dates/Calendar.antt =====
-- `dt.date` and `dt.timedelta`: how long adding days stays within the years that a date may have.
use bit_net.Base.{
  ℕ, zero, suc, ◌+◌, ◌*◌, ◌≤◌, ◌<◌, min, ◌≡◌, refl, inl, inr, true, arith, ltb, Bool-cases, nat_eq,
  text_eq, texts_eq, option_eq, ok,
}
use bit_net.Dialogue.Dates.{Date, days_in_month, next_day, add_days}

abbrev pub IsDate : Date → Type 0
IsDate d = (1 ≤ d.month) × (d.month ≤ 12) × (1 ≤ d.day)

-- A number that a day raises by at most one: a month counts for 28 days.
abbrev pub rank : Date → ℕ
rank d = 28 * (12 * d.year + d.month) + min d.day 28

abbrev pub last_rank : ℕ
last_rank = 3_360_028

days_in_month_ge : (y m : ℕ) → 28 ≤ days_in_month y m
days_in_month_ge y m = ground arith

next_day_total :
    (d : Date)
    → IsDate d
    → rank d < last_rank
    → (e : Date) × (next_day d ≡ ok e) × IsDate e × (rank e ≤ rank d + 1)
unfolding next_day
next_day_total d valid early =
    let enough = days_in_month_ge d.year d.month in
    elim (Bool-cases (ltb d.day (days_in_month d.year d.month))) [
      | inl within ↦ (record d { day = suc d.day }, rw within refl, omega arith, omega arith)
      | inr over ↦
          let long : 28 ≤ d.day = ground arith in
          elim (Bool-cases (ltb d.month 12)) [
            | inl more ↦ (
              record { year = d.year; month = suc d.month; day = 1 },
              rw (over, more) refl,
              ground arith,
              omega arith,
            )
            | inr done ↦
                let december : d.month ≡ 12 = ground arith in
                let early_year : d.year < 9999 = omega arith in
                let test : ltb d.year 9999 ≡ true = ground arith in
                (
                  record { year = suc d.year; month = 1; day = 1 },
                  rw (over, done, test) refl,
                  omega arith,
                  omega arith,
                )
          ]
    ]

-- Adding days returns while the rank cannot pass the last year.
pub add_days_total :
    (n : ℕ) (d : Date) → IsDate d → rank d + n < last_rank → (e : Date) × (add_days n d ≡ ok e)
unfolding add_days
add_days_total zero d valid early = (d, refl)
add_days_total (suc n) d valid early =
    let (e, next, valid', near) = next_day_total d valid (omega arith) in
    let (f, done) = add_days_total n e valid' (omega (arith, near)) in (f, rw next done)
