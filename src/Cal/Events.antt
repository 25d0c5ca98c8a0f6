-- ===== src/Cal/Events.antt =====
-- src/cmd/cal_cmd.rs: the calendar of the events that a query returns. Since they come in the order of
-- their times, the grade of a day goes by the number of its events.
use sn0int.Prelude.{◌≤◌, ◌==◌, List, [], ◌∷◌, map, ok, All, ◌≡◌, refl, ap, ◌⊎◌}
use sn0int.Crates.Chrono.{NaiveDate, Chrono, ChronoLaws}
use sn0int.Models.Activity.{
  Activity, ActivityFilter, Activities, Condition, time_id_asc, query, IsOrdered, InOrder,
}
use sn0int.Cal.{Floats}
use sn0int.Cal.Graph.{count, graph_map}
use sn0int.Cal.Graph.Counts.{counted, IsSorted}
use sn0int.Cal.Graph.Greatest.{graph_map-counts}
use sn0int.Cal.Date.{new_context, setup_graph_map, activity_for_day, graded}

-- ORDER BY time ASC, id ASC
pub record OrderLaws (a : Activities) : Type 0 where
  pub load_ordered :
      (conditions : List Condition) (db : a.Connection) {rows : List Activity}
      → a.load conditions time_id_asc db ≡ ok rows
      → IsOrdered rows

module _ (c : Chrono) (laws : ChronoLaws c) where
  -- The dates of events, as `setup_graph_map` takes them.
  abbrev pub dates : List Activity → List NaiveDate
  dates events = map (λ event. c.date event.time) events

  dates_after :
      (event : Activity) (events : List Activity)
      → All (InOrder event) events
      → All (λ d. c.date event.time ≤ d) (dates events)
  dates_after event [] h = tt
  dates_after event (e ∷ events) (h, hs) =
      (laws.date_le event.time e.time h, dates_after event events hs)

  dates-IsSorted : (events : List Activity) → IsOrdered events → IsSorted (λ d. d) (dates events)
  dates-IsSorted [] h = tt
  dates-IsSorted (event ∷ events) (h, hs) = (dates_after event events h, dates-IsSorted events hs)

  -- In the calendar of the events that a query returns, the grade of a day is that of the number
  -- of its events, or the empty grade if it has none, against the greatest number that a day has.
  pub activity_for_day-count :
      (f : Floats) (a : Activities)
      → OrderLaws a
      → (filter : ActivityFilter) (db : a.Connection) (events : List Activity)
        (today day : NaiveDate)
      → query a filter db ≡ ok events
      → (activity_for_day f (new_context (dates events) today) day
          ≡ graded f
              (new_context (dates events) today).max
              (counted (count ◌==◌ day (dates events))))
        × ((other : NaiveDate)
            → count ◌==◌ other (dates events) ≤ (new_context (dates events) today).max)
        × (((new_context (dates events) today).max ≡ 0)
            ⊎ ((busiest : NaiveDate) × ((new_context (dates events) today).max
                  ≡ count ◌==◌ busiest (dates events))))
  unfolding activity_for_day new_context setup_graph_map query
  activity_for_day-count f a ol filter db events today day asked =
      let sorted = dates-IsSorted events (ol.load_ordered _ db asked) in
      let (counts, below, attained) =
        graph_map-counts ◌==◌ (λ d. d) (λ _ _. refl) (dates events) sorted in
      (ap (graded f (graph_map ◌==◌ (dates events)).1) (counts day), below, attained)
