-- ===== src/Dialogue/Dates.antt =====
-- `dt.date`, `dt.timedelta` and `date.isoformat`, as python/prepare_repeated_dialogue_curriculum.py
-- uses them: a date some days after another.
pub mod Calendar
use bit_net.Base.{
  ℕ, zero, suc, ◌%◌, Bool, not, ◌&&◌, ◌||◌, ◌∷◌, ◌++◌, ltb, if◌then◌else◌, ◌==◌, nat_eq, Result, ok,
  err, ◌>>=◌, Text, overflow_error,
}
use bit_net.Dialogue.Format.{padded}

pub record Date : Type 0 where
  pub year : ℕ
  pub month : ℕ
  pub day : ℕ

abbrev pub is_leap : ℕ → Bool
is_leap y = y % 4 == 0 && (not (y % 100 == 0) || y % 400 == 0)

abbrev pub days_in_month : ℕ → ℕ → ℕ
days_in_month y m =
    if m == 2
    then (if is_leap y then 29 else 28)
    else if m == 4 || m == 6 || m == 9 || m == 11
    then 30
    else 31

-- `date + dt.timedelta(days=1)`; 9999 is the last year.
unfoldable pub next_day : Date → Result Date
next_day d =
    if ltb d.day (days_in_month d.year d.month)
    then ok (record d { day = suc d.day })
    else if ltb d.month 12
    then ok (record { year = d.year; month = suc d.month; day = 1 })
    else if ltb d.year 9999
    then ok (record { year = suc d.year; month = 1; day = 1 })
    else err overflow_error

-- `date + dt.timedelta(days=n)`
unfoldable pub add_days : ℕ → Date → Result Date
add_days zero d = ok d
add_days (suc n) d = next_day d >>= λ e. add_days n e

-- `date.isoformat()`
unfoldable pub isoformat : Date → Text
isoformat d = padded 4 d.year ++ b'-' ∷ padded 2 d.month ++ b'-' ∷ padded 2 d.day
