-- ===== src/Cal/Command.antt =====
-- src/cmd/cal_cmd.rs: the command that prints the calendar. `none` is a panic; the result is the text that is
-- printed. The clock is read twice: once for the arguments, and once for the context.
use sn0int.Prelude.{
  ℕ, Bool, false, ◌||◌, List, Option, none, some, Text, Result, ok, err, map, if◌then◌else◌,
}
use sn0int.Prelude.Options.{◌>>=◌}
use sn0int.Crates.Chrono.{NaiveDate, NaiveDateTime, Chrono}
use sn0int.Models.Activity.{Activity, ActivityFilter, Activities, query}
use sn0int.Cal.{DateArg, Floats}
use sn0int.Cal.Date.{DateSpec}
use sn0int.Cal.Date
use sn0int.Cal.Date.Merge
use sn0int.Cal.Time
use sn0int.Cal.Time.{DateTimeSpec, DateTimeContext}

pub record Args : Type 0 where
  pub context : Option ℕ
  pub time : Bool
  pub hourly : Bool
  pub args : List DateArg

-- What the clock says: the time, and its date.
pub record Clock : Type 0 where
  pub today : NaiveDate
  pub now : NaiveDateTime

abbrev since_until : NaiveDateTime → NaiveDateTime → ActivityFilter
since_until since until = record {
  topic = none;
  since = some since;
  until = some until;
  location = false;
}

module _ (c : Chrono) (f : Floats) (a : Activities) (db : a.Connection) where
  -- The filter from the start of one day to the end of another.
  unfoldable pub filter_between : NaiveDate → NaiveDate → Option ActivityFilter
  filter_between start end = do
    since ← c.and_hms start 0 0 0
    until ← c.and_hms end 23 59 59
    some (since_until since until)

  -- `?` after the query.
  abbrev pub with_events {ℓ} :
      {A : Type ℓ} → Result (List Activity) → (List Activity → Option A) → Option (Result A)
  with_events (err x) render = some (err x)
  with_events (ok events) render = do text ← render events; some (ok text)

  unfoldable pub time_view : Clock → Bool → DateTimeSpec → Option (Result Text)
  unfolding filter_between query Time.new_context Time.to_term_string
  time_view clock hourly dts = do
    filter ← filter_between dts.start dts.end
    with_events (query a filter db) λ events.
        Time.new_context c (map (λ (event : Activity). event.time) events) clock.now
          (if hourly then 3 else 1) (if hourly then 60 else 12)
        >>= λ ctx. Time.to_term_string c f ctx dts

  unfoldable pub date_view : Clock → DateSpec → Option (Result Text)
  unfolding filter_between query Date.start Date.end Date.new_context Merge.to_term_string
  date_view clock ds = do
    start ← Date.start c ds
    end ← Date.end c ds
    filter ← filter_between start end
    with_events (query a filter db) λ events.
        Merge.to_term_string c f
          (Date.new_context (map (λ (event : Activity). c.date event.time) events) clock.today) ds

  abbrev time_spec : Clock → Bool → Result DateTimeSpec → Option (Result Text)
  time_spec clock hourly (err x) = some (err x)
  time_spec clock hourly (ok dts) = time_view clock hourly dts

  abbrev date_spec : Clock → Result DateSpec → Option (Result Text)
  date_spec clock (err x) = some (err x)
  date_spec clock (ok ds) = date_view clock ds

  -- `Args::run`
  unfoldable pub run : Args → Clock → Clock → Option (Result Text)
  unfolding time_view date_view Time.from_args Date.from_args
  run args first second =
      if args.time || args.hourly
      then (Time.from_args c first.today args.args args.context >>= time_spec second args.hourly)
      else date_spec second (Date.from_args c first.today args.args args.context)
