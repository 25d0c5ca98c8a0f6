-- ===== src/Crates/Chrono/Even.antt =====
-- A small calendar with the documented laws: years of twelve months of 30 days, from year 0.
use sn0int.Prelude.{
  ℕ, ◌+◌, ◌-◌, ◌*◌, ◌/◌, ◌%◌, ◌==◌, ◌≤◌, ◌<◌, ◌&&◌, Option, none, some, codes, length, All, leb,
  ltb, if◌then◌else◌, ◌≡◌, refl, arith,
}
use sn0int.Prelude.Int.{ℤ, pos, negsuc, ◌+ℤ◌}
use sn0int.Crates.Chrono.{Chrono, ChronoLaws, NaiveDate, next_year, next_month}

unfoldable pub day_number : ℤ → ℕ → ℕ → Option NaiveDate
day_number (negsuc _) m d = none
day_number (pos y) m d =
    if leb 1 m && leb m 12 && leb 1 d && leb d 30
    then some (y * 360 + (m - 1) * 30 + (d - 1))
    else none

unfoldable pub instant : NaiveDate → ℕ → ℕ → ℕ → Option ℕ
instant d h m s =
    if ltb h 24 && ltb m 60 && ltb s 60
    then some ((((d * 24 + h) * 60 + m) * 60 + s) * 1000000000)
    else none

abbrev pub even : Chrono
even = record {
  from_ymd = day_number;
  year = λ date. pos (date / 360);
  month = λ date. date / 30 % 12 + 1;
  Weekday = ℕ;
  weekday = λ date. date;
  succ = λ day. day + 1;
  num_days_from_sunday = λ day. day % 7;
  is_sat = λ day. day % 7 == 6;
  format_month = λ _. codes "May 2020";
  format_day = λ _. codes "2020-05-30 ";
  sub_days = λ date n. if leb n date then some (date - n) else none;
  next_day = λ date. some (date + 1);
  date = λ t. t / 86400000000000;
  hour = λ t. t / 3600000000000 % 24;
  minute = λ t. t / 60000000000 % 60;
  and_hms = instant;
}

year_day : (y : ℤ) (m d : ℕ) {date : NaiveDate} → day_number y m d ≡ some date → even.year date ≡ y
unfolding day_number
year_day (negsuc _) m d e = absurd (cc)
year_day (pos y) m d {date} e = ground arith

month_day :
    (y : ℤ) (m d : ℕ) {date : NaiveDate} → day_number y m d ≡ some date → even.month date ≡ m
unfolding day_number
month_day (negsuc _) m d e = absurd (cc)
month_day (pos y) m d {date} e = ground arith

month_days :
    (y : ℤ) (m : ℕ) {first next : NaiveDate}
    → day_number y m 1 ≡ some first
    → day_number (next_year y m) (next_month m) 1 ≡ some next
    → next ≡ first + 30
unfolding day_number ◌+ℤ◌
month_days (negsuc _) m e e' = absurd (cc)
month_days (pos y) m e e' = ground arith

next_days :
    (y : ℤ) (m d : ℕ) {first : NaiveDate}
    → day_number y m 1 ≡ some first
    → d < 30
    → day_number y m (d + 1) ≡ some (first + d)
unfolding day_number
next_days (negsuc _) m d e h = absurd (cc)
next_days (pos y) m d e h = ground arith

instant-some :
    (d h m s : ℕ)
    → h < 24
    → m < 60
    → s < 60
    → instant d h m s ≡ some ((((d * 24 + h) * 60 + m) * 60 + s) * 1000000000)
unfolding instant
instant-some d h m s hh hm hs = ground arith

month_length_30 :
    (y : ℤ) (m : ℕ) {first next : NaiveDate}
    → day_number y m 1 ≡ some first
    → day_number (next_year y m) (next_month m) 1 ≡ some next
    → (first + 28 ≤ next) × (next ≤ first + 31)
month_length_30 y m e e' = omega (arith, month_days y m e e')

next_day_lt :
    (y : ℤ) (m d : ℕ) {first next : NaiveDate}
    → day_number y m 1 ≡ some first
    → day_number (next_year y m) (next_month m) 1 ≡ some next
    → first + d < next
    → d < 30
next_day_lt y m d e e' h = omega (arith, month_days y m e e')

mod_lt : (w : ℕ) → w % 7 < 7
mod_lt w = omega arith

succ_mod : (w : ℕ) → (w + 1) % 7 ≡ (w % 7 + 1) % 7
succ_mod w = omega arith

hour_below : (t : ℕ) → t / 3600000000000 % 24 < 24
hour_below t = omega arith

minute_below : (t : ℕ) → t / 60000000000 % 60 < 60
minute_below t = omega arith

date_below : (t t' : ℕ) → t ≤ t' → t / 86400000000000 ≤ t' / 86400000000000
date_below t t' h = omega arith

next_lem : (d : ℕ) {d' : ℕ} → some (d + 1) ≡ some d' → d' ≡ d + 1
next_lem d e = ground arith

some_length : length (codes "May 2020") ≤ 21
some_length = omega arith

some_printable : All (λ x. 32 ≤ x) (codes "May 2020")
some_printable = omega arith

day_length : length (codes "2020-05-30 ") ≡ 11
day_length = refl

day_printable : All (λ x. 32 ≤ x) (codes "2020-05-30 ")
day_printable = omega arith

pub even-ChronoLaws : ChronoLaws even
even-ChronoLaws = record {
  year-from_ymd = λ y m d e. year_day y m d e;
  month-from_ymd = λ y m d e. month_day y m d e;
  month_length = λ y m e e'. month_length_30 y m e e';
  day_of_month = λ y m d e e' h. next_days y m d e (next_day_lt y m d e e' h);
  num_days_lt = λ w. mod_lt w;
  num_days-succ = λ w. succ_mod w;
  is_sat_num = λ w. refl;
  length-format_month = λ _. some_length;
  printable-format_month = λ _. some_printable;
  hour_lt = λ t. hour_below t;
  minute_lt = λ t. minute_below t;
  and_hms_some = instant-some;
  next_day_lem = λ d e. next_lem d e;
  length-format_day = λ _ _. day_length;
  printable-format_day = λ _. day_printable;
  date_le = λ t t' h. date_below t t' h;
}
