-- ===== src/Cal/Time/Columns.antt =====
-- The view by slices has a legend and a line for each day, all of the same width, if the slices
-- divide the hour.
use mathlib.Core.Path.{subst}
use sn0int.Prelude.{
  ◌==◌, ℕ, zero, suc, ◌+◌, ◌-◌, ◌*◌, ◌≤◌, ◌<◌, true, false, List, [], ◌∷◌, ◌++◌, some, Text, length,
  All, leb, ltb, ◌≡◌, refl, ap, sym, ◌∙◌, arith,
}
use sn0int.Prelude.Options.{◌>>=◌}
use sn0int.Prelude.Numbers.{padded, replicate, two_wide}
use sn0int.Crates.Chrono.{IsPlainYear, Chrono, ChronoLaws}
use sn0int.Cal.{Floats}
use sn0int.Cal.Date.Screen.{
  blank, at, show, columns, show_then, show-printable, show-feed, show-spaces,
}
use sn0int.Cal.Time.{
  DateTimeContext, DateTimeSpec, hour_width, legend_hours, legend, row_text, write_rows,
  to_term_string,
}
use sn0int.Cal.Time.Row.{factors_pos, row_text-columns, hour_slices}

show-legend_hours :
    (width left x n : ℕ) (done : List ℕ)
    → 2 ≤ width
    → x + left < 100
    → show (legend_hours width left x) (at n done) ≡ at (n + left * width) done
unfolding legend_hours show
show-legend_hours width zero x n done w h = ap (λ k. at k done) (omega arith)
show-legend_hours width (suc left) x n done w h =
    let (a, b, e, ha, hb) = two_wide b'0' x (omega arith) (omega arith) in
    let hour : show (padded b'0' 2 x) (at n done) ≡ at (n + 2) done =
      rw e (show-printable (a ∷ b ∷ []) n done (ha, (hb, tt))) in
    show_then (padded b'0' 2 x ++ replicate (width - 2) b' ') (legend_hours width left (x + 1))
      (at n done)
      (show_then (padded b'0' 2 x) (replicate (width - 2) b' ') (at n done) hour
        (show-spaces (width - 2) (n + 2) done))
      (show-legend_hours width left (x + 1) (n + 2 + (width - 2)) done w (omega arith)
        ∙ ap (λ k. at k done) (grind arith))

module _ (c : Chrono) (laws : ChronoLaws c) (f : Floats) (ctx : DateTimeContext) where
  write_rows-more :
      (rounds start next end : ℕ) (row text : Text)
      → leb start end ≡ true
      → ltb start end ≡ true
      → row_text c f ctx start ≡ some row
      → c.next_day start ≡ some next
      → write_rows c f ctx (suc rounds) next end ≡ some text
      → write_rows c f ctx (suc (suc rounds)) start end ≡ some (row ++ 10 ∷ text)
  unfolding write_rows
  write_rows-more rounds start next end row text here more written exists rest =
      rw here
        (rw written (rw exists (rw more (ap (λ r. r >>= λ rest. some (row ++ 10 ∷ rest)) rest))))

  -- The lines of `rounds` days and of the last one, after those that are done.
  write_rows-columns :
      (rounds : ℕ) (start end q : ℕ) (done : List ℕ)
      → q * ctx.slice_duration ≡ 60
      → ((d : ℕ) → start ≤ d → d ≤ end → (d' : ℕ) × (c.next_day d ≡ some d'))
      → ((d : ℕ) → start ≤ d → d ≤ end → IsPlainYear (c.year d))
      → start + rounds ≡ end
      → (text : Text) × (write_rows c f ctx (suc rounds) start end ≡ some text)
        × (lines : List ℕ) × (show text (at 0 done) ≡ at (11 + 24 * (q * ctx.slice_width)) lines)
        × (length lines ≡ rounds + length done)
        × (All (λ n. n ≡ 11 + 24 * (q * ctx.slice_width)) done
            → All (λ n. n ≡ 11 + 24 * (q * ctx.slice_width)) lines)
  unfolding write_rows show
  write_rows-columns zero start end q done e days years last =
      let (row, written, wide) =
        row_text-columns c laws f ctx start q e (years start (omega arith) (omega arith)) in
      let (next, exists) = days start (omega arith) (omega arith) in
      let here : leb start end ≡ true = ground arith in
      let no_more : ltb start end ≡ false = ground arith in
      (
        row ++ [],
        rw here (rw written (rw exists (rw no_more))),
        done,
        show_then row [] (at 0 done) (wide done) refl,
        omega arith,
        λ all. all,
      )
  write_rows-columns (suc rounds) start end q done e days years last =
      let (row, written, wide) =
        row_text-columns c laws f ctx start q e (years start (omega arith) (omega arith)) in
      let (next, exists) = days start (omega arith) (omega arith) in
      let follows : next ≡ start + 1 = laws.next_day_lem start exists in
      let here : leb start end ≡ true = ground arith in
      let more : ltb start end ≡ true = ground arith in
      let width : ℕ = 11 + 24 * (q * ctx.slice_width) in
      let (text, rest, lines, shown, count, same) =
        write_rows-columns rounds next end q (width ∷ done) e (λ d le le'. days d (omega arith) le')
          (λ d le le'. years d (omega arith) le') (omega arith) in
      (
        row ++ 10 ∷ text,
        write_rows-more rounds start next end row text here more written exists rest,
        lines,
        show_then row (10 ∷ text) (at 0 done) (wide done) (show-feed text width done ∙ shown),
        count ∙ omega arith,
        λ all. same (refl, all),
      )

  hour_width_lem :
      (q : ℕ)
      → q * ctx.slice_duration ≡ 60
      → q * ctx.slice_width < 4294967296
      → hour_width ctx ≡ q * ctx.slice_width
  unfolding hour_width
  hour_width_lem q e small = rw (hour_slices q ctx.slice_duration e) (ground arith)

  legend-columns :
      (q : ℕ)
      → q * ctx.slice_duration ≡ 60
      → 2 ≤ q * ctx.slice_width
      → q * ctx.slice_width < 4294967296
      → show (legend ctx) blank ≡ at (11 + 24 * (q * ctx.slice_width)) []
  unfolding legend
  legend-columns q e wide small =
      let hour : hour_width ctx ≡ q * ctx.slice_width = hour_width_lem q e small in
      show_then (replicate 11 b' ') (legend_hours (hour_width ctx) 24 0) blank (show-spaces 11 0 [])
        (show-legend_hours (hour_width ctx) 24 0 11 [] (subst (λ k. 2 ≤ k) (sym hour) wide)
            (omega arith)
          ∙ ap (λ k. at (11 + 24 * k) []) hour)

  -- With q slices to an hour, 2 columns at least for each hour, and the days of the view all
  -- having a next day and a year from 0 to 9999, the view by slices is printed without a panic: on
  -- a terminal it is a line for the legend and a line for each day, and all of them are of one
  -- width, 11 columns and 24 hours.
  pub to_term_string-columns :
      (spec : DateTimeSpec) (q : ℕ)
      → q * ctx.slice_duration ≡ 60
      → 2 ≤ q * ctx.slice_width
      → q * ctx.slice_width < 4294967296
      → spec.start ≤ spec.end
      → ((d : ℕ) → spec.start ≤ d → d ≤ spec.end → (d' : ℕ) × (c.next_day d ≡ some d'))
      → ((d : ℕ) → spec.start ≤ d → d ≤ spec.end → IsPlainYear (c.year d))
      → (text : Text) × (to_term_string c f ctx spec ≡ some text)
        × All (λ n. n ≡ 11 + 24 * (q * ctx.slice_width)) (columns text)
        × (length (columns text) ≡ spec.end - spec.start + 2)
  unfolding to_term_string
  to_term_string-columns spec q e wide small order days years =
      let pos : 0 < ctx.slice_duration = (factors_pos q ctx.slice_duration e).1 in
      let some_slice : (ctx.slice_duration == 0) ≡ false = ground arith in
      let width : ℕ = 11 + 24 * (q * ctx.slice_width) in
      let top : show (legend ctx) blank ≡ at width [] = legend-columns q e wide small in
      let (text, written, lines, shown, count, same) =
        write_rows-columns (spec.end - spec.start) spec.start spec.end q (width ∷ []) e days years
          (omega arith) in
      let rounds : suc (spec.end - spec.start) ≡ spec.end + 1 - spec.start = omega arith in
      let all_rows : write_rows c f ctx (spec.end + 1 - spec.start) spec.start spec.end
          ≡ some text =
        subst (λ k. write_rows c f ctx k spec.start spec.end ≡ some text) rounds written in
      let screen : show (legend ctx ++ 10 ∷ text) blank ≡ at width lines =
        show_then (legend ctx) (10 ∷ text) blank top (show-feed text width [] ∙ shown) in
      (
        legend ctx ++ 10 ∷ text,
        rw some_slice (ap (λ r. r >>= λ rows. some (legend ctx ++ 10 ∷ rows)) all_rows),
        rw screen (refl, same (refl, tt)),
        rw screen (omega (arith, count)),
      )
