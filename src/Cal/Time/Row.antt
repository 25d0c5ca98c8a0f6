-- ===== src/Cal/Time/Row.antt =====
-- The lines of the view by slices are as wide as the legend, if the slices divide the hour.
use mathlib.Core.Path.{subst}
use native.Mathlib.Nat.{mul-le-mul_right, mul-lt-mul_of_pos_right, mul-div_cancel, mul_assoc}
use sn0int.Prelude.{
  ℕ, zero, suc, ◌+◌, ◌*◌, ◌/◌, ◌==◌, ◌≤◌, ◌<◌, true, false, List, [], ◌∷◌, ◌++◌, some, Text, codes,
  length, leb, ltb, ◌≡◌, refl, ap, sym, ◌∙◌, arith, Bool-cases, inl, inr, ==_iff,
}
use sn0int.Prelude.Numbers.{replicate}
use sn0int.Crates.Chrono.{IsPlainYear, NaiveDate, NaiveDateTime, Chrono, ChronoLaws}
use sn0int.Cal.{Floats}
use sn0int.Cal.Date.Screen.{at, show, show_then, show-printable, show-spaces}
use sn0int.Cal.Date.Cell.{show-as_term_str, show-reset}
use sn0int.Cal.Time.{
  DateTimeContext, is_future, activity_for_slice, graded_slice, slice_text, next_slice,
  write_slices, row_text,
}

-- The hours and the slices in them, where `q` slices make an hour.
in_day : (hours q j left : ℕ) → hours * q + j + suc left ≡ 24 * q → hours < 24
in_day hours q j left e = elim (Bool-cases (ltb hours 24)) [
  | inl less ↦ ground arith
  | inr more ↦ absurd (omega (arith, mul-le-mul_right q (let le : 24 ≤ hours = ground arith in le)))
]

pub in_hour : (j q d : ℕ) → j < q → q * d ≡ 60 → j * d < 60
in_hour j zero d h e = elim h [ ]
in_hour j (suc q) zero h e = absurd (omega arith)
in_hour j (suc q) (suc d) h e =
    let lt : j * suc d < suc q * suc d = mul-lt-mul_of_pos_right h (omega arith) in omega arith

-- Where the slices divide the hour, there are `q` in each hour.
pub factors_pos : (q d : ℕ) → q * d ≡ 60 → (0 < q) × (0 < d)
factors_pos zero d e = absurd (omega arith)
factors_pos (suc q) zero e = absurd (omega arith)
factors_pos (suc q) (suc d) e = omega arith

day_slices : (q d : ℕ) → q * d ≡ 60 → 1440 / d ≡ 24 * q
day_slices q d e =
    let day : 24 * q * d ≡ 1440 = omega (arith, mul_assoc 24 q d) in
    subst (λ k. k / d ≡ 24 * q) day (mul-div_cancel (24 * q) (factors_pos q d e).1)

pub hour_slices : (q d : ℕ) → q * d ≡ 60 → 60 / d ≡ q
hour_slices q d e = subst (λ k. k / d ≡ q) e (mul-div_cancel q (factors_pos q d e).1)

module _ (c : Chrono) (laws : ChronoLaws c) (f : Floats) (ctx : DateTimeContext) where
  show-graded_slice :
      (time : NaiveDateTime) (n : ℕ) (done : List ℕ)
      → show (graded_slice c f ctx time) (at n done) ≡ at n done
  show-graded_slice time n done = elim (Bool-cases (is_future ctx time)) [
    | inl later ↦ rw later (show-reset n done)
    | inr past ↦ rw past (show-as_term_str (activity_for_slice f ctx time) n done)
  ]

  show-slice_text :
      (time : NaiveDateTime) (n : ℕ) (done : List ℕ)
      → show (slice_text c f ctx time) (at n done) ≡ at (n + ctx.slice_width) done
  unfolding slice_text
  show-slice_text time n done =
      show_then (graded_slice c f ctx time) (replicate ctx.slice_width b' ') (at n done)
        (show-graded_slice time n done) (show-spaces ctx.slice_width n done)

  next_slice_lem :
      (hours mins j q left : ℕ)
      → q * ctx.slice_duration ≡ 60
      → j < q
      → mins ≡ j * ctx.slice_duration
      → hours * q + j + suc left ≡ 24 * q
      → (j' : ℕ) × (j' < q)
        × ((next_slice c f ctx hours mins).1 ≡ j' * ctx.slice_duration)
        × ((next_slice c f ctx hours mins).0 * q + j' + left ≡ 24 * q)
  next_slice_lem hours mins j q left e below now day = elim (Bool-cases (j + 1 == q)) [
    | inl last ↦
        let full : j + 1 ≡ q = (==_iff (j + 1) q).0 last in
        let hour : leb 60 (mins + ctx.slice_duration) ≡ true =
          ground (arith, ap (λ k. k * ctx.slice_duration) full) in
        rw hour (0, omega arith, omega arith, grind arith)
    | inr more ↦
        let less : j + 1 < q = ground arith in
        let inside : (j + 1) * ctx.slice_duration < 60 =
          in_hour (j + 1) q ctx.slice_duration less e in
        let hour : leb 60 (mins + ctx.slice_duration) ≡ false = ground (arith, inside) in
        rw hour (j + 1, less, grind arith, omega arith)
  ]

  -- The slices of a day all exist, and each takes its width.
  pub write_slices-columns :
      (date : NaiveDate) (left hours mins j q : ℕ)
      → q * ctx.slice_duration ≡ 60
      → j < q
      → mins ≡ j * ctx.slice_duration
      → hours * q + j + left ≡ 24 * q
      → (text : Text) × (write_slices c f ctx date left hours mins ≡ some text)
        × ((n : ℕ) (done : List ℕ) → show text (at n done) ≡ at (n + left * ctx.slice_width) done)
  unfolding write_slices show
  write_slices-columns date zero hours mins j q e below now day =
      ([], refl, λ n done. ap (λ k. at k done) (omega arith))
  write_slices-columns date (suc left) hours mins j q e below now day =
      let time : ℕ = (((date * 24 + hours) * 60 + mins) * 60 + 0) * 1000000000 in
      let exists : c.and_hms date hours mins 0 ≡ some time =
        laws.and_hms_some date hours mins 0 (in_day hours q j left day)
          (rw now (in_hour j q ctx.slice_duration below e)) (omega arith) in
      let (j', below', now', day') = next_slice_lem hours mins j q left e below now day in
      let (text, written, wide) =
        write_slices-columns date left (next_slice c f ctx hours mins).0
          (next_slice c f ctx hours mins).1 j' q e below' now' day' in
      (
        slice_text c f ctx time ++ text,
        rw exists (rw written),
        λ n done.
            show_then (slice_text c f ctx time) text (at n done) (show-slice_text time n done)
              (wide (n + ctx.slice_width) done ∙ ap (λ k. at k done) (grind arith)),
      )

  row_text-some :
      (date : NaiveDate) (slices : Text)
      → (ctx.slice_duration == 0) ≡ false
      → write_slices c f ctx date (1440 / ctx.slice_duration) 0 0 ≡ some slices
      → row_text c f ctx date ≡ some (c.format_day date ++ slices ++ 27 ∷ codes "[0m")
  unfolding row_text
  row_text-some date slices e written = rw e (rw written)

  -- The line of a day.
  pub row_text-columns :
      (date : NaiveDate) (q : ℕ)
      → q * ctx.slice_duration ≡ 60
      → IsPlainYear (c.year date)
      → (text : Text) × (row_text c f ctx date ≡ some text)
        × ((done : List ℕ) → show text (at 0 done) ≡ at (11 + 24 * (q * ctx.slice_width)) done)
  unfolding row_text
  row_text-columns date q e year =
      let width = ctx.slice_width in
      let pos : 0 < ctx.slice_duration = (factors_pos q ctx.slice_duration e).1 in
      let some_slice : (ctx.slice_duration == 0) ≡ false = ground arith in
      let count : 1440 / ctx.slice_duration ≡ 24 * q = day_slices q ctx.slice_duration e in
      let (text, written, wide) =
        write_slices-columns date (24 * q) 0 0 0 q e (factors_pos q ctx.slice_duration e).0
          (omega arith) (omega arith) in
      (
        c.format_day date ++ text ++ 27 ∷ codes "[0m",
        row_text-some date text some_slice
            (subst (λ k. write_slices c f ctx date k 0 0 ≡ some text) (sym count) written),
        λ done.
            show_then (c.format_day date ++ text) (27 ∷ codes "[0m") (at 0 done)
              (show_then (c.format_day date) text (at 0 done)
                (show-printable (c.format_day date) 0 done (laws.printable-format_day date))
                (wide (0 + length (c.format_day date)) done))
              (show-reset (0 + length (c.format_day date) + 24 * q * width) done
                ∙ ap (λ k. at k done)
                    (omega (arith, laws.length-format_day date year, mul_assoc 24 q width))),
      )
