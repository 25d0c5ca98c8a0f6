-- ===== src/Crates/Chrono.antt =====
-- The crate chrono. A `NaiveDate` is its distance in days from the first date, so that its order
-- and the differences of dates are those of numbers; a `NaiveDateTime` is its distance in
-- nanoseconds from the start of that date.
pub mod Even
use sn0int.Prelude.{
  ℕ, suc, ◌+◌, ◌-◌, ◌*◌, ◌%◌, ◌==◌, ◌≤◌, ◌<◌, Bool, true, List, Text, Option, some, ◌≡◌, ◌≢◌, All,
  length, if◌then◌else◌,
}
use sn0int.Prelude.Int.{ℤ, pos, ◌+ℤ◌}

abbrev pub NaiveDate : Type 0
NaiveDate = ℕ

abbrev pub NaiveDateTime : Type 0
NaiveDateTime = ℕ

-- The month that follows a month.
abbrev pub next_year : ℤ → ℕ → ℤ
next_year year month = if month == 12 then year +ℤ pos 1 else year

abbrev pub next_month : ℕ → ℕ
next_month month = if month == 12 then 1 else month + 1

pub record Chrono : Type 1 where
  -- `NaiveDate::from_ymd` and `Utc.ymd`, which panic on a date that does not exist
  pub from_ymd : ℤ → ℕ → ℕ → Option NaiveDate
  pub year : NaiveDate → ℤ
  pub month : NaiveDate → ℕ
  pub Weekday : Type 0
  pub weekday : NaiveDate → Weekday
  pub succ : Weekday → Weekday
  pub num_days_from_sunday : Weekday → ℕ
  pub is_sat : Weekday → Bool
  -- format("%B %Y") and format("%Y-%m-%d ")
  pub format_month : NaiveDate → Text
  pub format_day : NaiveDate → Text
  -- `checked_sub_signed` by days, and `checked_add_signed` by one day
  pub sub_days : NaiveDate → ℕ → Option NaiveDate
  pub next_day : NaiveDate → Option NaiveDate
  pub date : NaiveDateTime → NaiveDate
  pub hour : NaiveDateTime → ℕ
  pub minute : NaiveDateTime → ℕ
  -- panics on a time of day that does not exist
  pub and_hms : NaiveDate → ℕ → ℕ → ℕ → Option NaiveDateTime

-- A year that is printed without a sign.
abbrev pub IsPlainYear : ℤ → Type 0
IsPlainYear y = (n : ℕ) × (y ≡ pos n) × (n ≤ 9999)

pub record ChronoLaws (c : Chrono) : Type 0 where
  pub year-from_ymd :
      (y : ℤ) (m d : ℕ) {date : NaiveDate} → c.from_ymd y m d ≡ some date → c.year date ≡ y
  pub month-from_ymd :
      (y : ℤ) (m d : ℕ) {date : NaiveDate} → c.from_ymd y m d ≡ some date → c.month date ≡ m
  -- A month has 28 to 31 days, and its days follow one another.
  pub month_length :
      (y : ℤ) (m : ℕ) {first next : NaiveDate}
      → c.from_ymd y m 1 ≡ some first
      → c.from_ymd (next_year y m) (next_month m) 1 ≡ some next
      → (first + 28 ≤ next) × (next ≤ first + 31)
  pub day_of_month :
      (y : ℤ) (m d : ℕ) {first next : NaiveDate}
      → c.from_ymd y m 1 ≡ some first
      → c.from_ymd (next_year y m) (next_month m) 1 ≡ some next
      → first + d < next
      → c.from_ymd y m (d + 1) ≡ some (first + d)
  pub num_days_lt : (w : c.Weekday) → c.num_days_from_sunday w < 7
  pub num_days-succ :
      (w : c.Weekday) → c.num_days_from_sunday (c.succ w) ≡ (c.num_days_from_sunday w + 1) % 7
  pub is_sat_num : (w : c.Weekday) → c.is_sat w ≡ (c.num_days_from_sunday w == 6)
  -- The name of a month and its year are at most 21 printable characters.
  pub length-format_month : (date : NaiveDate) → length (c.format_month date) ≤ 21
  pub printable-format_month : (date : NaiveDate) → All (λ x. 32 ≤ x) (c.format_month date)
  pub hour_lt : (t : NaiveDateTime) → c.hour t < 24
  pub minute_lt : (t : NaiveDateTime) → c.minute t < 60
  pub and_hms_some :
      (d h m s : ℕ)
      → h < 24
      → m < 60
      → s < 60
      → c.and_hms d h m s ≡ some ((((d * 24 + h) * 60 + m) * 60 + s) * 1000000000)
  pub next_day_lem : (d : NaiveDate) {d' : NaiveDate} → c.next_day d ≡ some d' → d' ≡ d + 1
  -- `%Y-%m-%d ` has 11 characters for a year of up to four digits; other years have a sign.
  pub length-format_day : (d : NaiveDate) → IsPlainYear (c.year d) → length (c.format_day d) ≡ 11
  pub printable-format_day : (d : NaiveDate) → All (λ x. 32 ≤ x) (c.format_day d)
  pub date_le : (t t' : NaiveDateTime) → t ≤ t' → c.date t ≤ c.date t'
