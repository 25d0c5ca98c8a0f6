-- ===== src/Cal/Date/Cell.antt =====
-- What is written for a day is three columns wide.
use sn0int.Prelude.{
  ℕ, ◌+◌, ◌<◌, List, [], ◌∷◌, ◌++◌, codes, ◌≡◌, refl, ap, ◌∙◌, arith, Bool-cases, inl, inr,
}
use sn0int.Prelude.Numbers.{padded, two_wide}
use sn0int.Crates.Chrono.{NaiveDate, Chrono}
use sn0int.Cal.{ActivityGrade, none_grade, one, two, three, four, as_term_str, Floats}
use sn0int.Cal.Date.{DateContext, activity_for_day, is_today, is_future}
use sn0int.Cal.Date.Page.{graded_day, marked_day, day_text}
use sn0int.Cal.Date.Screen.{at, show, show-printable, show_then}

pub show-as_term_str :
    (g : ActivityGrade) (n : ℕ) (done : List ℕ) → show (as_term_str g) (at n done) ≡ at n done
unfolding show as_term_str
show-as_term_str none_grade n done = refl
show-as_term_str one n done = refl
show-as_term_str two n done = refl
show-as_term_str three n done = refl
show-as_term_str four n done = refl

pub show-reset : (n : ℕ) (done : List ℕ) → show (27 ∷ codes "[0m") (at n done) ≡ at n done
unfolding show
show-reset n done = refl

pub show-padded :
    (cur_day n : ℕ) (done : List ℕ)
    → cur_day < 100
    → show (padded b' ' 2 cur_day) (at n done) ≡ at (n + 2) done
show-padded cur_day n done h =
    let (a, b, e, ha, hb) = two_wide b' ' cur_day (omega arith) h in
    rw e (show-printable (a ∷ b ∷ []) n done (ha, (hb, tt)))

module _ (c : Chrono) (f : Floats) (ctx : DateContext) where
  show-graded_day :
      (date : NaiveDate) (n : ℕ) (done : List ℕ)
      → show (graded_day c f ctx date) (at n done) ≡ at n done
  unfolding show
  show-graded_day date n done = elim (Bool-cases (is_future ctx date)) [
    | inl later ↦ rw later (refl)
    | inr past ↦ rw past (show-as_term_str (activity_for_day f ctx date) n done)
  ]

  show-marked_day :
      (date : NaiveDate) (n : ℕ) (done : List ℕ)
      → show (marked_day c f ctx date) (at n done) ≡ at (n + 1) done
  unfolding show
  show-marked_day date n done = elim (Bool-cases (is_today ctx date)) [
    | inl now ↦ rw now
    | inr other ↦ rw other
  ]

  -- A day takes three columns.
  pub show-day_text :
      (date : NaiveDate) (cur_day n : ℕ) (done : List ℕ)
      → cur_day < 100
      → show (day_text c f ctx date cur_day) (at n done) ≡ at (n + 3) done
  unfolding day_text
  show-day_text date cur_day n done h =
      show_then (graded_day c f ctx date ++ marked_day c f ctx date ++ padded b' ' 2 cur_day)
        (27 ∷ codes "[0m") (at n done)
        (show_then (graded_day c f ctx date ++ marked_day c f ctx date) (padded b' ' 2 cur_day)
          (at n done)
          (show_then (graded_day c f ctx date) (marked_day c f ctx date) (at n done)
            (show-graded_day date n done) (show-marked_day date n done))
          (show-padded cur_day (n + 1) done h))
        (show-reset (n + 1 + 2) done ∙ ap (λ k. at k done) (omega arith))
