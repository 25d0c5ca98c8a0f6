-- ===== src/Cal/Time.antt =====
-- src/cal/time.rs: the view of the calendar by slices of an hour. What panics is `none`, and products
-- of `u32` wrap around, as they do in a release build.
pub mod Row
pub mod Columns
use sn0int.Prelude.{
  ℕ, zero, suc, ◌+◌, ◌-◌, ◌*◌, ◌/◌, ◌%◌, ◌==◌, ◌≤◌, ◌<◌, Bool, true, false, not, List, [], ◌∷◌,
  ◌++◌, Option, none, some, Text, codes, Result, ok, err, message, leb, ltb, if◌then◌else◌,
}
use sn0int.Prelude.Options.{◌>>=◌}
use sn0int.Prelude.Numbers.{padded, replicate}
use sn0int.Crates.Chrono.{NaiveDate, NaiveDateTime, Chrono}
use sn0int.Cal.{DateArg, ActivityGrade, none_grade, as_term_str, Floats, from_ratio}
use sn0int.Cal.Date.{graded}
use sn0int.Cal.Graph.{graph_map, get}

pub record DateTimeContext : Type 0 where
  pub events : List (NaiveDateTime × ℕ)
  pub max : ℕ
  pub now : NaiveDateTime
  pub slice_width : ℕ
  pub slice_duration : ℕ

pub record DateTimeSpec : Type 0 where
  pub start : NaiveDate
  pub end : NaiveDate

abbrev pub is_future : DateTimeContext → NaiveDateTime → Bool
is_future ctx time = ltb ctx.now time

abbrev pub slices_per_hour : DateTimeContext → ℕ
slices_per_hour ctx = 60 / ctx.slice_duration

unfoldable pub hour_width : DateTimeContext → ℕ
hour_width ctx = slices_per_hour ctx * ctx.slice_width % 4294967296

-- `DateTimeContext::activity_for_slice`
unfoldable pub activity_for_slice : Floats → DateTimeContext → NaiveDateTime → ActivityGrade
unfolding get from_ratio
activity_for_slice f ctx time = graded f ctx.max (get ◌==◌ time ctx.events)

module _ (c : Chrono) where
  -- `round_to_slice`
  unfoldable pub round_to_slice : NaiveDateTime → ℕ → Option NaiveDateTime
  round_to_slice time slice_duration =
      let mins = c.minute time in
      if slice_duration == 0
      then none
      else c.and_hms (c.date time) (c.hour time) (mins - mins % slice_duration) 0

  unfoldable pub round_all : ℕ → List NaiveDateTime → Option (List NaiveDateTime)
  unfolding round_to_slice
  round_all slice_duration [] = some []
  round_all slice_duration (time ∷ times) = do
    slice ← round_to_slice time slice_duration
    slices ← round_all slice_duration times
    some (slice ∷ slices)

  -- `setup_graph_map`, of the times of the events.
  unfoldable pub setup_graph_map : List NaiveDateTime → ℕ → Option (List (NaiveDateTime × ℕ) × ℕ)
  unfolding round_all graph_map
  setup_graph_map times slice_duration = do
    slices ← round_all slice_duration times
    some (graph_map ◌==◌ slices)

  -- `DateTimeContext::new`
  unfoldable pub new_context : List NaiveDateTime → NaiveDateTime → ℕ → ℕ → Option DateTimeContext
  unfolding setup_graph_map round_to_slice
  new_context times now slice_width slice_duration = do
    graph ← setup_graph_map times slice_duration
    now' ← round_to_slice now slice_duration
    some (record {
      events = graph.0;
      max = graph.1;
      now = now';
      slice_width = slice_width;
      slice_duration = slice_duration;
    })

  abbrev pub travelled : NaiveDate → Option NaiveDate → Result DateTimeSpec
  travelled today none = err (message "Failed travel back in time")
  travelled today (some start) = ok (record { start = start; end = today })

  -- `DateTimeSpec::from_args`, which is not finished for a date: that panics.
  unfoldable pub from_args : NaiveDate → List DateArg → Option ℕ → Option (Result DateTimeSpec)
  from_args today [] none = some (ok (record { start = today; end = today }))
  from_args today [] (some context) = some (travelled today (c.sub_days today context))
  from_args today (_ ∷ _) context = none

-- What is written for the hour x of the legend: the hour, and spaces up to its width.
unfoldable pub legend_hours : ℕ → ℕ → ℕ → Text
legend_hours width zero x = []
legend_hours width (suc left) x =
    padded b'0' 2 x ++ replicate (width - 2) b' ' ++ legend_hours width left (x + 1)

-- The first line.
unfoldable pub legend : DateTimeContext → Text
unfolding legend_hours hour_width
legend ctx = replicate 11 b' ' ++ legend_hours (hour_width ctx) 24 0

module _ (c : Chrono) (f : Floats) (ctx : DateTimeContext) where
  abbrev pub graded_slice : NaiveDateTime → Text
  graded_slice time =
      if not (is_future ctx time)
      then as_term_str (activity_for_slice f ctx time)
      else 27 ∷ codes "[0m"

  unfoldable pub slice_text : NaiveDateTime → Text
  unfolding as_term_str activity_for_slice
  slice_text time = graded_slice time ++ replicate ctx.slice_width b' '

  -- The hour and the minute of the next slice.
  abbrev pub next_slice : ℕ → ℕ → ℕ × ℕ
  next_slice hours mins =
      let mins' = mins + ctx.slice_duration in
      if leb 60 mins' then (hours + 1, 0) else (hours, mins')

  -- The loop over the slices of a day, with `left` slices to go.
  unfoldable pub write_slices : NaiveDate → ℕ → ℕ → ℕ → Option Text
  unfolding slice_text
  write_slices date zero hours mins = some []
  write_slices date (suc left) hours mins = do
    time ← c.and_hms date hours mins 0
    let (hours', mins') = next_slice hours mins
    rest ← write_slices date left hours' mins'
    some (slice_text time ++ rest)

  unfoldable pub row_text : NaiveDate → Option Text
  unfolding write_slices
  row_text date = if ctx.slice_duration == 0 then none else (do
    slices ← write_slices date (1440 / ctx.slice_duration) 0 0
    some (c.format_day date ++ slices ++ 27 ∷ codes "[0m"))

  -- The loop over the days; `rounds` is an upper bound of how many there are.
  unfoldable pub write_rows : ℕ → NaiveDate → NaiveDate → Option Text
  unfolding row_text
  write_rows zero date end = some []
  write_rows (suc rounds) date end =
      let later = (do
        row ← row_text date
        next ← c.next_day date
        rest ← write_rows rounds next end
        some (row ++ (if ltb date end then 10 ∷ rest else rest))) in
      if leb date end then later else some []

  -- `DateTimeSpec::to_term_string`
  unfoldable pub to_term_string : DateTimeSpec → Option Text
  unfolding legend write_rows
  to_term_string spec = if ctx.slice_duration == 0 then none else (do
    rows ← write_rows (spec.end + 1 - spec.start) spec.start spec.end
    some (legend ctx ++ 10 ∷ rows))
