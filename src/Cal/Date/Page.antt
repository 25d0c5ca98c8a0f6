-- ===== src/Cal/Date/Page.antt =====
-- src/cal/date.rs: the page of a month.
use sn0int.Prelude.{
  ℕ, zero, suc, ◌+◌, ◌-◌, ◌*◌, ◌/◌, ◌==◌, not, ◌&&◌, [], ◌∷◌, ◌++◌, Option, some, Text, codes,
  length, if◌then◌else◌,
}
use sn0int.Prelude.Int.{ℤ, as_u32}
use sn0int.Prelude.Options.{◌>>=◌}
use sn0int.Prelude.Numbers.{padded, replicate}
use sn0int.Crates.Chrono.{NaiveDate, Chrono}
use sn0int.Cal.{as_term_str, Floats}
use sn0int.Cal.Date.{DateContext, is_today, is_future, activity_for_day, days_in_month}

-- `{:^21}`
abbrev pub centred : Text → Text
centred s =
    let left = (21 - length s) / 2 in
    replicate left b' ' ++ s ++ replicate (21 - length s - left) b' '

-- The text so far, the weekday of the next day and the width of the line so far.
pub record Page (Weekday : Type 0) : Type 0 where
  pub text : Text
  pub week_day : Weekday
  pub week_written : ℕ

module _ (c : Chrono) (f : Floats) (ctx : DateContext) where
  abbrev pub graded_day : NaiveDate → Text
  graded_day date =
      if not (is_future ctx date) then as_term_str (activity_for_day f ctx date) else []

  abbrev pub marked_day : NaiveDate → Text
  marked_day date = if is_today ctx date then 27 ∷ codes "[1m#" else codes " "

  -- What is written for a day, up to the end of its line.
  unfoldable pub day_text : NaiveDate → ℕ → Text
  unfolding as_term_str activity_for_day padded
  day_text date cur_day =
      graded_day date ++ marked_day date ++ padded b' ' 2 cur_day ++ 27 ∷ codes "[0m"

  -- The body of the loop.
  unfoldable pub write_day : ℕ → ℕ → NaiveDate → Page c.Weekday → Page c.Weekday
  unfolding day_text
  write_day days cur_day date page =
      let text = page.text ++ day_text date cur_day in
      let sat = c.is_sat page.week_day in
      record {
        text = if sat && not (cur_day == days) then text ++ 10 ∷ [] else text;
        week_day = c.succ page.week_day;
        week_written = if sat then 0 else page.week_written + 3;
      }

  -- The loop, with `left` days to go.
  unfoldable pub write_days : ℤ → ℕ → ℕ → ℕ → ℕ → Page c.Weekday → Option (Page c.Weekday)
  unfolding write_day
  write_days year month days zero cur_day page = some page
  write_days year month days (suc left) cur_day page = do
    date ← c.from_ymd year month cur_day
    write_days year month days left (cur_day + 1) (write_day days cur_day date page)

  -- The two lines above the days, and the space before the first day.
  unfoldable pub top : NaiveDate → Page c.Weekday
  top first =
      let progress = c.num_days_from_sunday (c.weekday first) in
      record {
        text =
            centred (c.format_month first)
            ++ 10 ∷ codes " Su Mo Tu We Th Fr Sa"
            ++ 10 ∷ replicate (progress * 3) b' ';
        week_day = c.weekday first;
        week_written = progress * 3;
      }

  unfoldable pub bottom : Page c.Weekday → Text
  bottom page =
      if page.week_written == 0
      then page.text
      else page.text ++ replicate (21 - page.week_written) b' '

  -- `DateSpec::to_term_string` of one month.
  unfoldable pub month_text : ℤ → ℕ → Option Text
  unfolding days_in_month write_days top bottom
  month_text year month = do
    first ← c.from_ymd year month 1
    length ← days_in_month c year month
    page ← write_days year month (as_u32 length) (as_u32 length) 1 (top first)
    some (bottom page)
