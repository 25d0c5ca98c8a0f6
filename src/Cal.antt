-- ===== src/Cal.antt =====
-- src/cal: the calendar of logged activity, in the terminal. mod.rs is here; date.rs, the view by
-- days, is in Cal/Date.antt, and time.rs, the view by slices of an hour, in Cal/Time.antt.
pub mod Graph
pub mod Grade
pub mod Date
pub mod Time
pub mod Events
pub mod Command
mod Tests
use sn0int.Prelude.{
  ℕ, ◌+◌, ◌*◌, ◌≤◌, ◌<◌, ◌==◌, Bool, true, false, ◌||◌, List, [], ◌∷◌, ◌++◌, Option, none, some,
  Text, String, codes, text_eq, Result, ok, err, message, leb, if◌then◌else◌, ◌≡◌,
}
use sn0int.Prelude.Int.{ℤ}
use sn0int.Prelude.Numbers.{parse_i32}

pub data DateArg : Type 0 where
  month_arg : ℕ → DateArg
  num_arg : ℤ → DateArg

abbrev either : Text → String → String → Bool
either s short long = text_eq s (codes short) || text_eq s (codes long)

-- The month that a name in small letters is for.
unfoldable pub month_of : Text → Option ℕ
month_of s =
    if either s "jan" "january"
    then some 1
    else if either s "feb" "february"
    then some 2
    else if either s "mar" "march"
    then some 3
    else if either s "apr" "april"
    then some 4
    else if text_eq s (codes "may")
    then some 5
    else if either s "jun" "june"
    then some 6
    else if either s "jul" "july"
    then some 7
    else if either s "aug" "august"
    then some 8
    else if either s "sep" "september"
    then some 9
    else if either s "oct" "october"
    then some 10
    else if either s "nov" "november"
    then some 11
    else if either s "dec" "december"
    then some 12
    else none

abbrev num_of : Option ℤ → Result DateArg
num_of none = err (message "Input is not a month and not a number")
num_of (some num) = ok (num_arg num)

abbrev date_arg : Text → Option ℕ → Result DateArg
date_arg s (some month) = ok (month_arg month)
date_arg s none = num_of (parse_i32 s)

-- `str::to_lowercase` goes by the tables of Unicode, and is a parameter here.
module _ (to_lowercase : Text → Text) where
  -- `DateArg::from_str`
  unfoldable pub from_str : Text → Result DateArg
  unfolding month_of
  from_str s = date_arg s (month_of (to_lowercase s))

pub data ActivityGrade : Type 0 where
  none_grade one two three four : ActivityGrade

abbrev escape : String → Text
escape s = 27 ∷ codes s

-- `ActivityGrade::as_term_str`
unfoldable pub as_term_str : ActivityGrade → Text
as_term_str none_grade = escape "[97m" ++ escape "[48;5;238m"
as_term_str one = escape "[30m" ++ escape "[48;5;148m"
as_term_str two = escape "[30m" ++ escape "[48;5;71m"
as_term_str three = escape "[97m" ++ escape "[48;5;34m"
as_term_str four = escape "[97m" ++ escape "[48;5;22m"

-- The operations of `f64` that a grade is computed by.
pub record Floats : Type 1 where
  pub F64 : Type 0
  pub from_u64 : ℕ → F64
  pub divide : F64 → F64 → F64
  pub le : F64 → F64 → Bool

-- By IEEE 754, numbers below 2 ^ 51 are exact, so is a quarter of one, and the rounded quotient is on the
-- side of a small whole number on which the quotient is.
pub record FloatsLaws (f : Floats) : Type 0 where
  pub le-quotient :
      (num max k : ℕ)
      → num < 2251799813685248
      → max < 2251799813685248
      → 1 ≤ max
      → 1 ≤ k
      → k ≤ 4
      → f.le (f.divide (f.from_u64 num) (f.divide (f.from_u64 max) (f.from_u64 4))) (f.from_u64 k)
        ≡ leb (num * 4) (k * max)

module _ (f : Floats) where
  -- `ActivityGrade::from_ratio`
  unfoldable pub from_ratio : ℕ → ℕ → ActivityGrade
  from_ratio num max =
      let step = f.divide (f.from_u64 max) (f.from_u64 4) in
      let x = f.divide (f.from_u64 num) step in
      if f.le x (f.from_u64 1)
      then one
      else if f.le x (f.from_u64 2)
      then two
      else if f.le x (f.from_u64 3)
      then three
      else four
