-- ===== src/Cal/Date/Month.antt =====
-- The page of a month has at most eight lines, each 21 columns wide.
use mathlib.Core.Path.{subst}
use sn0int.Prelude.{
  ℕ, suc, ◌+◌, ◌-◌, ◌*◌, ◌/◌, ◌==◌, ◌≤◌, false, List, [], ◌∷◌, ◌++◌, Option, some, Text, codes,
  length, All, ◌≡◌, refl, ap, ◌∙◌, arith, Bool-cases, inl, inr,
}
use sn0int.Prelude.Int.{ℤ, pos, ◌+ℤ◌, ◌-ℤ◌, as_i32, as_u32, InI32, as_i32-InI32}
use sn0int.Prelude.Options.{◌>>=◌}
use sn0int.Prelude.Numbers.{replicate}
use sn0int.Crates.Chrono.{NaiveDate, Chrono, ChronoLaws, next_year, next_month}
use sn0int.Cal.{Floats}
use sn0int.Cal.Date.{DateContext, days_in_month, num_days}
use sn0int.Cal.Date.Page.{Page, top, bottom, centred, write_days, month_text}
use sn0int.Cal.Date.Layout.{Fits, Complete, write_days-Complete}
use sn0int.Cal.Date.Screen.{
  blank, at, show, columns, show_then, show-printable, show-feed, show-spaces,
}

show-centred :
    (s : Text) (n : ℕ) → length s ≤ 21 → All (λ x. 32 ≤ x) s → show (centred s) (at 0 []) ≡ at 21 []
show-centred s n h p =
    let left = (21 - length s) / 2 in
    show_then (replicate left b' ' ++ s) (replicate (21 - length s - left) b' ') (at 0 [])
      (show_then (replicate left b' ') s (at 0 []) (show-spaces left 0 [])
        (show-printable s (0 + left) [] p))
      (show-spaces (21 - length s - left) (0 + left + length s) []
        ∙ ap (λ k. at k []) (omega arith))

show-header :
    (done : List ℕ) → show (10 ∷ codes " Su Mo Tu We Th Fr Sa") (at 21 done) ≡ at 21 (21 ∷ done)
unfolding show
show-header done = refl

module _ (c : Chrono) (laws : ChronoLaws c) (f : Floats) (ctx : DateContext) where
  top-Fits :
      (first : NaiveDate)
      → Fits c laws f ctx (c.num_days_from_sunday (c.weekday first)) 0 (top c f ctx first)
  unfolding top
  top-Fits first =
      let progress = c.num_days_from_sunday (c.weekday first) in
      record {
        lines = 21 ∷ 21 ∷ [];
        printed =
            show_then (centred (c.format_month first) ++ 10 ∷ codes " Su Mo Tu We Th Fr Sa")
              (10 ∷ replicate (progress * 3) b' ') blank
              (show_then (centred (c.format_month first)) (10 ∷ codes " Su Mo Tu We Th Fr Sa") blank
                (show-centred (c.format_month first) 0 (laws.length-format_month first)
                  (laws.printable-format_month first))
                (show-header []))
              (show-feed (replicate (progress * 3) b' ') 21 (21 ∷ [])
                ∙ show-spaces (progress * 3) 0 (21 ∷ 21 ∷ [])
                ∙ ap (λ k. at k (21 ∷ 21 ∷ [])) (omega arith));
        written = omega arith;
        full = (refl, (refl, tt));
        counted_days = omega arith;
      }

  days_in_month_lem :
      (year : ℤ) (month : ℕ) {first next : NaiveDate}
      → InI32 (year +ℤ pos 1)
      → c.from_ymd year month 1 ≡ some first
      → c.from_ymd (next_year year month) (next_month month) 1 ≡ some next
      → days_in_month c year month ≡ some (num_days next first)
  unfolding days_in_month
  days_in_month_lem year month {first} {next} b e e' = elim (Bool-cases (month == 12)) [
    | inl last ↦
        let e2 : c.from_ymd (as_i32 (year +ℤ pos 1)) 1 1 ≡ some next =
          rw (as_i32-InI32 (year +ℤ pos 1) b) (rw last at e') in
        rw e (rw last (rw e2))
    | inr more ↦
        let e2 : c.from_ymd year (month + 1) 1 ≡ some next = rw more at e' in rw e (rw more (rw e2))
  ]

  as_u32-num_days :
      (first next : ℕ)
      → first + 28 ≤ next
      → next ≤ first + 31
      → as_u32 (num_days next first) ≡ next - first
  unfolding as_u32 ◌-ℤ◌
  as_u32-num_days first next h h' = ground arith

  bottom-full :
      (progress days : ℕ) (page : Page c.Weekday)
      → (complete : Complete c laws f ctx progress days page)
      → show (bottom c f ctx page) blank ≡ at 21 complete.lines
  unfolding bottom
  bottom-full progress days page complete = elim complete.written [
    | inl (same, le, more) ↦
        let open_line : (page.week_written == 0) ≡ false = ground arith in
        rw open_line (
          show_then page.text (replicate (21 - page.week_written) b' ') blank complete.printed (
            show-spaces (21 - page.week_written) complete.column complete.lines
            ∙ ap (λ k. at k complete.lines) (omega arith)))
    | inr (nothing, same) ↦ rw nothing (complete.printed ∙ ap (λ k. at k complete.lines) same)
  ]

  month_text-some :
      (year : ℤ) (month : ℕ) (first : NaiveDate) (difference : ℤ) (days : ℕ) (page : Page c.Weekday)
      → c.from_ymd year month 1 ≡ some first
      → days_in_month c year month ≡ some difference
      → as_u32 difference ≡ days
      → write_days c f ctx year month days days 1 (top c f ctx first) ≡ some page
      → month_text c f ctx year month ≡ some (bottom c f ctx page)
  unfolding month_text
  month_text-some year month first difference days page e e' count written =
      let end : Page c.Weekday → Option Text = λ page. some (bottom c f ctx page) in
      let loop : ℕ → NaiveDate → Option Text =
        λ n first. write_days c f ctx year month n n 1 (top c f ctx first) >>= end in
      ap (λ r. r >>= λ first. days_in_month c year month >>= λ length. loop (as_u32 length) first) e
      ∙ ap (λ r. r >>= λ length. loop (as_u32 length) first) e'
      ∙ ap (λ n. loop n first) count
      ∙ ap (λ r. r >>= end) written

  -- If the month and the month after it have a first day, and the next year is a 32-bit integer,
  -- the page of the month is printed without a panic; on a terminal it is at most eight lines, all
  -- of them 21 columns wide.
  pub month_text-columns :
      (year : ℤ) (month : ℕ) {first next : NaiveDate}
      → InI32 (year +ℤ pos 1)
      → c.from_ymd year month 1 ≡ some first
      → c.from_ymd (next_year year month) (next_month month) 1 ≡ some next
      → (text : Text) × (month_text c f ctx year month ≡ some text)
        × All (λ n. n ≡ 21) (columns text)
        × (length (columns text) ≤ 8)
  unfolding month_text
  month_text-columns year month {first} {next} b e e' =
      let (long, short) = laws.month_length year month e e' in
      let days = next - first in
      let progress = c.num_days_from_sunday (c.weekday first) in
      let dates : (d : ℕ) → 1 ≤ d → d ≤ days → c.from_ymd year month d ≡ some (first + (d - 1)) =
        λ d pos le.
          subst (λ k. c.from_ymd year month k ≡ some (first + (d - 1))) (omega arith)
            (laws.day_of_month year month (d - 1) e e' (omega arith)) in
      let (page, written, complete) =
        write_days-Complete c laws f ctx year month days (days - 1) 1 progress first
          (top c f ctx first) (omega arith) (omega arith) (omega arith) dates (top-Fits first) in
      let rounds : suc (days - 1) ≡ days = omega arith in
      let written_all : write_days c f ctx year month days days 1 (top c f ctx first) ≡ some page =
        subst (λ k. write_days c f ctx year month days k 1 (top c f ctx first) ≡ some page) rounds
          written in
      let lines = bottom-full progress days page complete in
      (
        bottom c f ctx page,
        month_text-some year month first (num_days next first) days page e
            (days_in_month_lem year month b e e') (as_u32-num_days first next long short)
            written_all,
        rw lines (refl, complete.full),
        rw lines (omega (arith, complete.counted_days, laws.num_days_lt (c.weekday first))),
      )
