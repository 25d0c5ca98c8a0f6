-- ===== src/Cal/Date/Merge.antt =====
-- src/cal/date.rs: the pages of several months side by side. All of them are pages of single
-- months, so that a list of months stands for the slice of `DateSpec`.
use sn0int.Prelude.{
  ℕ, zero, suc, ◌+◌, List, [], ◌∷◌, ◌++◌, Option, some, Text, codes, is_empty, split, map,
  if◌then◌else◌,
}
use sn0int.Prelude.Int.{ℤ}
use sn0int.Prelude.Options.{◌>>=◌}
use sn0int.Prelude.Numbers.{replicate}
use sn0int.Crates.Chrono.{Chrono}
use sn0int.Cal.{Floats}
use sn0int.Cal.Date.{
  DateSpec, year_spec, year_month, year_month_context, DateContext, following, start,
}
use sn0int.Cal.Date.Page.{month_text}

-- `str::lines`: what follows the last line feed is a line unless it is empty. The text
-- of a page has no carriage return, which `lines` would drop as well.
unfoldable pub lines : List Text → List Text
lines [] = []
lines (last ∷ []) = if is_empty last then [] else last ∷ []
lines (line ∷ rest) = line ∷ lines rest

-- `pop_front` of each month, and a line of 21 spaces where a month has no more lines.
abbrev pub pop_line : List Text → Text
pop_line [] = replicate 21 b' '
pop_line (line ∷ _) = line

abbrev pub rest_lines : List Text → List Text
rest_lines [] = []
rest_lines (_ ∷ rest) = rest

unfoldable pub side_by_side : List (List Text) → Text
side_by_side [] = []
side_by_side (month ∷ []) = pop_line month
side_by_side (month ∷ months) = pop_line month ++ codes "   " ++ side_by_side months

-- The loop over `0..=MONTH_LINES`, with a line feed after all lines but the last.
unfoldable pub merge_lines : ℕ → List (List Text) → Text
unfolding side_by_side
merge_lines zero months = []
merge_lines (suc zero) months = side_by_side months
merge_lines (suc left) months = side_by_side months ++ 10 ∷ merge_lines left (map rest_lines months)

-- `chunks(3)`
unfoldable pub chunks : List (ℤ × ℕ) → List (List (ℤ × ℕ))
chunks [] = []
chunks (a ∷ b ∷ d ∷ months) = (a ∷ b ∷ d ∷ []) ∷ chunks months
chunks months = months ∷ []

abbrev pub year_months : ℤ → ℕ → ℕ → List (ℤ × ℕ)
year_months year zero month = []
year_months year (suc left) month = (year, month) ∷ year_months year left (month + 1)

-- The loop over the months of a context, with `left` rounds to go.
unfoldable pub walk_months : ℕ → ℤ → ℕ → List (ℤ × ℕ)
walk_months zero year month = []
walk_months (suc left) year month =
    let (year', month') = following year month in (year, month) ∷ walk_months left year' month'

unfoldable pub context_months : Chrono → ℤ → ℕ → ℕ → Option (List (ℤ × ℕ))
unfolding start walk_months
context_months c year month context = do
  first ← start c (year_month_context year month context)
  some (walk_months (suc context) (c.year first) (c.month first))

module _ (c : Chrono) (f : Floats) (ctx : DateContext) where
  unfoldable pub months_lines : List (ℤ × ℕ) → Option (List (List Text))
  unfolding month_text lines
  months_lines [] = some []
  months_lines ((year, month) ∷ months) = do
    text ← month_text c f ctx year month
    rest ← months_lines months
    some (lines (split 10 text) ∷ rest)

  -- `merge_months`
  unfoldable pub merge_months : List (ℤ × ℕ) → Option Text
  unfolding months_lines merge_lines
  merge_months months = do texts ← months_lines months; some (merge_lines 8 texts)

  unfoldable pub fold_chunks : Text → List (List (ℤ × ℕ)) → Option Text
  unfolding merge_months
  fold_chunks a [] = some a
  fold_chunks a (chunk ∷ rest) = do
    b ← merge_months chunk
    fold_chunks (if is_empty a then a ++ b else a ++ 10 ∷ b) rest

  -- `chunk_months`
  unfoldable pub chunk_months : List (ℤ × ℕ) → Option Text
  unfolding chunks fold_chunks
  chunk_months months = fold_chunks [] (chunks months)

  -- `DateSpec::to_term_string`
  unfoldable pub to_term_string : DateSpec → Option Text
  unfolding month_text chunk_months context_months
  to_term_string (year_spec year) = chunk_months (year_months year 12 1)
  to_term_string (year_month year month) = month_text c f ctx year month
  to_term_string (year_month_context year month context) = do
    months ← context_months c year month context
    chunk_months months
