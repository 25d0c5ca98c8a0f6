-- ===== src/Cal/Date.antt =====
-- src/cal/date.rs: the view of the calendar by days. What panics is `none`, and the
-- arithmetic of years wraps around, as it does in a release build.
pub mod Page
pub mod Merge
pub mod Range
pub mod Screen
pub mod Cell
pub mod Layout
pub mod Month
use sn0int.Prelude.{
  ℕ, zero, suc, ◌+◌, ◌-◌, ◌*◌, ◌/◌, ◌%◌, ◌==◌, ◌≤◌, ◌<◌, Bool, true, false, not, ◌||◌, ◌&&◌, List,
  [], ◌∷◌, ◌++◌, map, Option, none, some, Text, codes, Result, ok, err, message, length, ltb, leb,
  take, drop, if◌then◌else◌, ◌≡◌,
}
use sn0int.Prelude.Int.{ℤ, pos, negsuc, ◌+ℤ◌, ◌-ℤ◌, as_i32, as_u32}
use sn0int.Prelude.Options.{◌>>=◌}
use sn0int.Prelude.Numbers.{padded, replicate}
use sn0int.Crates.Chrono.{NaiveDate, Chrono, next_year}
use sn0int.Cal.{
  DateArg, month_arg, num_arg, ActivityGrade, none_grade, as_term_str, Floats, from_ratio,
}
use sn0int.Cal.Graph.{graph_map, get}

pub data DateSpec : Type 0 where
  year_spec : ℤ → DateSpec
  year_month : ℤ → ℕ → DateSpec
  year_month_context : ℤ → ℕ → ℕ → DateSpec

pub record DateContext : Type 0 where
  pub events : List (NaiveDate × ℕ)
  pub max : ℕ
  pub today : NaiveDate

-- `setup_graph_map`, of the dates of the events.
unfoldable pub setup_graph_map : List NaiveDate → List (NaiveDate × ℕ) × ℕ
unfolding graph_map
setup_graph_map dates = graph_map ◌==◌ dates

-- `DateContext::new`
unfoldable pub new_context : List NaiveDate → NaiveDate → DateContext
unfolding setup_graph_map
new_context dates today =
    let (events, max) = setup_graph_map dates in
    record { events = events; max = max; today = today }

abbrev pub is_today : DateContext → NaiveDate → Bool
is_today ctx date = ctx.today == date

abbrev pub is_future : DateContext → NaiveDate → Bool
is_future ctx date = ltb ctx.today date

abbrev pub graded : Floats → ℕ → Option ℕ → ActivityGrade
graded f max (some events) = from_ratio f events max
graded f max none = none_grade

-- `DateContext::activity_for_day`
unfoldable pub activity_for_day : Floats → DateContext → NaiveDate → ActivityGrade
unfolding get from_ratio
activity_for_day f ctx date = graded f ctx.max (get ◌==◌ date ctx.events)

abbrev pub spec_of : ℤ → ℕ → Option ℕ → DateSpec
spec_of year month none = year_month year month
spec_of year month (some context) = year_month_context year month context

-- The year and the month before which there are `context` months.
unfoldable pub start_month : ℤ → ℕ → ℕ → ℤ × ℕ
start_month year month context =
    let year' = as_i32 (year -ℤ pos (context / 12)) in
    let context' = context % 12 in
    if leb month context'
    then (as_i32 (year' -ℤ pos 1), 12 - context' + month)
    else (year', month - context')

abbrev pub following : ℤ → ℕ → ℤ × ℕ
following year month = if month == 12 then (as_i32 (year +ℤ pos 1), 1) else (year, month + 1)

abbrev pub num_days : NaiveDate → NaiveDate → ℤ
num_days end start = pos end -ℤ pos start

module _ (c : Chrono) where
  -- The `match` of `DateSpec::from_args`. A number alone is a year, unless there is a context.
  unfoldable pub match_args : NaiveDate → List DateArg → Option ℕ → Result DateSpec
  match_args today [] context = ok (spec_of (c.year today) (c.month today) context)
  match_args today (month_arg month ∷ []) context = ok (spec_of (c.year today) month context)
  match_args today (num_arg year ∷ []) none = ok (year_spec year)
  match_args today (month_arg month ∷ num_arg year ∷ _) context = ok (spec_of year month context)
  match_args today (num_arg year ∷ month_arg month ∷ _) context = ok (spec_of year month context)
  match_args today _ context = err (message "Combination of datespec args is invalid")

  -- `DateSpec::from_args`
  unfoldable pub from_args : NaiveDate → List DateArg → Option ℕ → Result DateSpec
  unfolding match_args
  from_args today args context =
      if ltb 2 (length args)
      then err (message "Too many datespec args")
      else match_args today args context

  -- `DateSpec::start`
  unfoldable pub start : DateSpec → Option NaiveDate
  unfolding start_month
  start (year_spec year) = c.from_ymd year 1 1
  start (year_month year month) = c.from_ymd year month 1
  start (year_month_context year month context) =
      let (year', month') = start_month year month context in c.from_ymd year' month' 1

  -- `DateSpec::end`
  unfoldable pub end : DateSpec → Option NaiveDate
  end (year_spec year) = c.from_ymd (as_i32 (year +ℤ pos 1)) 1 1
  end (year_month year month) =
      let (year', month') = following year month in c.from_ymd year' month' 1
  end (year_month_context year month context) =
      let (year', month') = following year month in c.from_ymd year' month' 1

  -- `days_in_month`
  unfoldable pub days_in_month : ℤ → ℕ → Option ℤ
  days_in_month year month = do
    start ← c.from_ymd year month 1
    end ←
        if month == 12
        then c.from_ymd (as_i32 (year +ℤ pos 1)) 1 1
        else c.from_ymd year (month + 1) 1
    some (num_days end start)
