-- ===== src/Cal/Tests.antt =====
-- Examples of the calendar, in a calendar of months of 30 days.
use mathlib.Core.Path.{subst}
use sn0int.Prelude.{
  ◌/◌, false, none, ok, ok-injective, codes, ℕ, ◌+◌, ◌*◌, ◌==◌, ◌≤◌, ◌<◌, List, [], ◌∷◌, some, Text,
  length, All, leb, ◌≡◌, ◌⊎◌, refl, arith,
}
use sn0int.Prelude.Int.{pos, ◌+ℤ◌, ◌-ℤ◌, as_i32, as_u32}
use sn0int.Crates.Chrono.Even.{even, even-ChronoLaws, day_number}
use sn0int.Cal.{Floats, FloatsLaws, from_ratio}
use sn0int.Cal.Graph.{graph_map, count, visit, visit_all, insert}
use sn0int.Cal.Graph.Counts.{counted}
use sn0int.Cal.Date.{DateContext, start, year_month_context, start_month, new_context}
use sn0int.Cal.Date.Page.{month_text}
use sn0int.Cal.Date.Merge.{context_months}
use sn0int.Cal.Date.Range.{months_until, context_months-months_until}
use sn0int.Cal.Date.Month.{month_text-columns}
use sn0int.Cal.Date.Screen.{columns}
use sn0int.Cal.Grade.{quarters, from_ratio-quarters}
use sn0int.Cal.Time.{DateTimeContext, DateTimeSpec, to_term_string}
use sn0int.Models.Activity.{Activity, ActivityFilter, Activities, IsOrdered, query}
use sn0int.Cal.Events.{OrderLaws, dates, activity_for_day-count}
use sn0int.Cal.Date.{activity_for_day, graded}
use sn0int.Cal.Time.Columns.{to_term_string-columns}

-- Fractions, for the operations of `f64`.
abbrev fractions : Floats
fractions = record {
  F64 = ℕ × ℕ;
  from_u64 = λ n. (n, 1);
  divide = λ x y. (x.0 * y.1, x.1 * y.0);
  le = λ x y. leb (x.0 * y.1) (y.0 * x.1);
}

fraction_le : (num max k : ℕ) → leb (num * 4 * 1) (k * (1 * (max * 1))) ≡ leb (num * 4) (k * max)
fraction_le num max k =
    let top : num * 4 * 1 ≡ num * 4 = omega arith in
    let bottom : 1 * (max * 1) ≡ max = omega arith in rw (top, bottom)

fractions-FloatsLaws : FloatsLaws fractions
fractions-FloatsLaws = record { le-quotient = λ num max k _ _ _ _ _. fraction_le num max k }

abbrev days : List ℕ
days = 3 ∷ 3 ∷ 5 ∷ 7 ∷ 7 ∷ 7 ∷ []

greatest_day : (graph_map ◌==◌ days).1 ≡ 3
unfolding graph_map visit_all visit insert
greatest_day = refl

-- Two months before March 2020.
started : start even (year_month_context (pos 2020) 3 2) ≡ some 727200
unfolding start start_month ◌-ℤ◌ as_i32 as_u32 day_number
started = refl

context_months-months_until_example :
    context_months even (pos 2020) 3 2 ≡ some (months_until 2 (pos 2020, 3))
unfolding ◌-ℤ◌
context_months-months_until_example =
    context_months-months_until even even-ChronoLaws (pos 2020) 3 2 (omega arith) (omega arith)
      (omega arith) started

abbrev ctx : DateContext
ctx = record { events = (727201, 2) ∷ []; max = 2; today = 727230 }

first_day : day_number (pos 2020) 1 1 ≡ some 727200
unfolding day_number
first_day = refl

first_of_next : day_number (pos 2020) 2 1 ≡ some 727230
unfolding day_number
first_of_next = refl

month_text-columns_example :
    (text : Text) × (month_text even fractions ctx (pos 2020) 1 ≡ some text)
    × All (λ n. n ≡ 21) (columns text)
    × (length (columns text) ≤ 8)
unfolding ◌+ℤ◌
month_text-columns_example =
    month_text-columns even even-ChronoLaws fractions ctx (pos 2020) 1 (omega arith) first_day
      first_of_next

from_ratio-quarters_example :
    (1 * 4 ≤ quarters (from_ratio fractions 1 4) * 4)
    × (quarters (from_ratio fractions 1 4) * 4 < 1 * 4 + 4)
from_ratio-quarters_example =
    from_ratio-quarters fractions fractions-FloatsLaws 1 4 (omega arith) (omega arith) (omega arith)

abbrev slices : DateTimeContext
slices = record { events = []; max = 0; now = 0; slice_width = 1; slice_duration = 12 }

abbrev three_days : DateTimeSpec
three_days = record { start = 10; end = 12 }

to_term_string-columns_example :
    (text : Text) × (to_term_string even fractions slices three_days ≡ some text)
    × All (λ n. n ≡ 131) (columns text)
    × (length (columns text) ≡ 4)
to_term_string-columns_example =
    to_term_string-columns even even-ChronoLaws fractions slices three_days 5 refl (omega arith)
      (omega arith) (omega arith) (λ d _ _. (d + 1, refl))
      (λ d _ le. (d / 360, refl, omega (arith, le)))

abbrev mail : ℕ → Activity
mail t = record {
  id = 0;
  topic = codes "mail";
  time = t;
  uniq = none;
  latitude = none;
  longitude = none;
  radius = none;
  content = [];
}

abbrev day_length : ℕ
day_length = 86400 * 1000000000

-- Two events on the third day and one on the fourth.
abbrev three_mails : List Activity
three_mails = mail (3 * day_length) ∷ mail (3 * day_length + 7) ∷ mail (4 * day_length) ∷ []

abbrev mails : Activities
mails = record {
  Connection = Unit;
  load = λ conditions order db. ok three_mails;
  first = λ conditions order db. ok none;
  first_uniq = λ tag db. ok none;
  insert = λ obj db. ok db;
}

three_mails-IsOrdered : IsOrdered three_mails
three_mails-IsOrdered = ((omega arith, (omega arith, tt)), ((omega arith, tt), (tt, tt)))

mails-OrderLaws : OrderLaws mails
mails-OrderLaws = record {
  load_ordered = λ conditions db h. subst IsOrdered (ok-injective h) three_mails-IsOrdered;
}

abbrev everything : ActivityFilter
everything = record { topic = none; since = none; until = none; location = false }

abbrev mail_dates : List ℕ
mail_dates = dates even even-ChronoLaws three_mails

asked : query mails everything tt ≡ ok three_mails
unfolding query
asked = refl

activity_for_day-count_example :
    (activity_for_day fractions (new_context mail_dates 9) 3
      ≡ graded fractions (new_context mail_dates 9).max (counted (count ◌==◌ 3 mail_dates)))
    × ((other : ℕ) → count ◌==◌ other mail_dates ≤ (new_context mail_dates 9).max)
    × (((new_context mail_dates 9).max ≡ 0)
        ⊎ ((busiest : ℕ) × ((new_context mail_dates 9).max ≡ count ◌==◌ busiest mail_dates)))
activity_for_day-count_example =
    activity_for_day-count even even-ChronoLaws fractions mails mails-OrderLaws everything tt
      three_mails 9 3 asked
