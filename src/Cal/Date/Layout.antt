-- ===== src/Cal/Date/Layout.antt =====
-- The loop over the days of a month: each line but the last is 21 columns wide.
use mathlib.Core.Path.{subst}
use sn0int.Prelude.{
  ℕ, zero, suc, ◌+◌, ◌-◌, ◌*◌, ◌==◌, ◌≤◌, ◌<◌, true, false, List, [], ◌∷◌, ◌++◌, some, length, All,
  ◌≡◌, ◌≢◌, refl, ap, ◌∙◌, sym, arith, Bool-cases, ◌⊎◌, inl, inr, ==_iff,
}
use sn0int.Prelude.Int.{ℤ}
use sn0int.Crates.Chrono.{NaiveDate, Chrono, ChronoLaws}
use sn0int.Cal.{Floats}
use sn0int.Cal.Date.{DateContext}
use sn0int.Cal.Date.Cell.{show-day_text}
use sn0int.Cal.Date.Page.{Page, day_text, write_day, write_days}
use sn0int.Cal.Date.Screen.{blank, at, show, show-feed, show_then}

module _ (c : Chrono) (laws : ChronoLaws c) (f : Floats) (ctx : DateContext) where
  -- The state of the page before a day that begins a week or goes on with it: `days` are written, in
  -- full weeks but for the last one, from the weekday on which the month began.
  pub record Fits (progress days : ℕ) (page : Page c.Weekday) : Type 0 where
    pub lines : List ℕ
    pub printed : show page.text blank ≡ at (3 * c.num_days_from_sunday page.week_day) lines
    pub written : page.week_written ≡ 3 * c.num_days_from_sunday page.week_day
    pub full : All (λ n. n ≡ 21) lines
    pub counted_days :
        7 * length lines + c.num_days_from_sunday page.week_day ≡ 14 + progress + days

  -- The page when all days are written: the last line may be full, without a line feed.
  pub record Complete (progress days : ℕ) (page : Page c.Weekday) : Type 0 where
    pub lines : List ℕ
    pub column : ℕ
    pub printed : show page.text blank ≡ at column lines
    pub written :
        ((page.week_written ≡ column) × (column ≤ 21) × (0 < column))
        ⊎ ((page.week_written ≡ 0) × (column ≡ 21))
    pub full : All (λ n. n ≡ 21) lines
    pub counted_days : 7 * length lines < 14 + progress + days

  write_day-text :
      (days cur_day progress done : ℕ) (date : NaiveDate) (page : Page c.Weekday)
      → cur_day < 100
      → (fits : Fits progress done page)
      → show (page.text ++ day_text c f ctx date cur_day) blank
        ≡ at (3 * c.num_days_from_sunday page.week_day + 3) fits.lines
  write_day-text days cur_day progress done date page h fits =
      show_then page.text (day_text c f ctx date cur_day) blank fits.printed
        (show-day_text c f ctx date cur_day (3 * c.num_days_from_sunday page.week_day) fits.lines h)

  sat_six : (w : c.Weekday) → c.is_sat w ≡ true → c.num_days_from_sunday w ≡ 6
  sat_six w sat = (==_iff (c.num_days_from_sunday w) 6).0 (sym (laws.is_sat_num w) ∙ sat)

  other_lt : (w : c.Weekday) → c.is_sat w ≡ false → c.num_days_from_sunday w < 6
  other_lt w other = ground (arith, laws.is_sat_num w, laws.num_days_lt w)

  -- A day that is not the last one.
  write_day-Fits :
      (days cur_day progress done : ℕ) (date : NaiveDate) (page : Page c.Weekday)
      → cur_day < 100
      → cur_day ≢ days
      → Fits progress done page
      → Fits progress (done + 1) (write_day c f ctx days cur_day date page)
  unfolding write_day show
  write_day-Fits days cur_day progress done date page h more fits =
      let differs : (cur_day == days) ≡ false = ground arith in
      elim (Bool-cases (c.is_sat page.week_day)) [
        | inl sat ↦
            let six = sat_six page.week_day sat in
            let first : c.num_days_from_sunday (c.succ page.week_day) ≡ 0 =
              omega (arith, laws.num_days-succ page.week_day) in
            record {
              lines = 21 ∷ fits.lines;
              printed =
                  rw (sat, differs)
                    (rw first (
                      show_then (page.text ++ day_text c f ctx date cur_day) (10 ∷ []) blank
                        (write_day-text days cur_day progress done date page h fits)
                        (show-feed [] (3 * c.num_days_from_sunday page.week_day + 3) fits.lines
                          ∙ ap (λ k. at 0 (k ∷ fits.lines)) (omega arith))));
              written = rw (sat, first);
              full = (refl, fits.full);
              counted_days = omega (arith, fits.counted_days);
            }
        | inr other ↦
            let less = other_lt page.week_day other in
            let next : c.num_days_from_sunday (c.succ page.week_day)
                ≡ c.num_days_from_sunday page.week_day + 1 =
              omega (arith, laws.num_days-succ page.week_day) in
            record {
              lines = fits.lines;
              printed =
                  rw (other, next)
                    (write_day-text days cur_day progress done date page h fits
                      ∙ ap (λ k. at k fits.lines) (omega arith));
              written = rw (other, next) (omega (arith, fits.written));
              full = fits.full;
              counted_days = omega (arith, fits.counted_days);
            }
      ]

  write_day-Complete :
      (days progress done : ℕ) (date : NaiveDate) (page : Page c.Weekday)
      → days < 100
      → Fits progress done page
      → Complete progress (done + 1) (write_day c f ctx days days date page)
  unfolding write_day
  write_day-Complete days progress done date page h fits =
      let same : (days == days) ≡ true = (==_iff days days).1 refl in
      elim (Bool-cases (c.is_sat page.week_day)) [
        | inl sat ↦
            let six = sat_six page.week_day sat in
            record {
              lines = fits.lines;
              column = 21;
              printed =
                  rw (sat, same)
                    (write_day-text days days progress done date page h fits
                      ∙ ap (λ k. at k fits.lines) (omega arith));
              written = inr (rw sat, refl);
              full = fits.full;
              counted_days = omega (arith, fits.counted_days);
            }
        | inr other ↦
            let less = other_lt page.week_day other in
            record {
              lines = fits.lines;
              column = 3 * c.num_days_from_sunday page.week_day + 3;
              printed = rw other (write_day-text days days progress done date page h fits);
              written = inl (rw other (omega (arith, fits.written)), omega arith, omega arith);
              full = fits.full;
              counted_days = omega (arith, fits.counted_days);
            }
      ]

  -- The loop.
  pub write_days-Complete :
      (year : ℤ) (month days left cur_day progress first : ℕ) (page : Page c.Weekday)
      → days < 100
      → cur_day + left ≡ days
      → 1 ≤ cur_day
      → ((d : ℕ) → 1 ≤ d → d ≤ days → c.from_ymd year month d ≡ some (first + (d - 1)))
      → Fits progress (cur_day - 1) page
      → (page' : Page c.Weekday) × (write_days c f ctx year month days (suc left) cur_day page
          ≡ some page')
        × Complete progress days page'
  unfolding write_days
  write_days-Complete year month days zero cur_day progress first page h e pos dates fits =
      let date : c.from_ymd year month cur_day ≡ some (first + (cur_day - 1)) =
        dates cur_day pos (omega arith) in
      let last : days ≡ cur_day = omega arith in
      let all_days : cur_day - 1 + 1 ≡ days = omega arith in
      let page' = write_day c f ctx days cur_day (first + (cur_day - 1)) page in
      let complete : Complete progress days page' =
        subst (λ k. Complete progress days (write_day c f ctx days k (first + (cur_day - 1)) page))
          last
          (subst
            (λ k. Complete progress k (write_day c f ctx days days (first + (cur_day - 1)) page))
            all_days
            (write_day-Complete days progress (cur_day - 1) (first + (cur_day - 1)) page h fits)) in
      (page', rw date, complete)
  write_days-Complete year month days (suc left) cur_day progress first page h e pos dates fits =
      let date : c.from_ymd year month cur_day ≡ some (first + (cur_day - 1)) =
        dates cur_day pos (omega arith) in
      let one_more : cur_day - 1 + 1 ≡ cur_day + 1 - 1 = omega arith in
      let after : Fits progress (cur_day + 1 - 1)
          (write_day c f ctx days cur_day (first + (cur_day - 1)) page) =
        subst (λ k. Fits progress k (write_day c f ctx days cur_day (first + (cur_day - 1)) page))
          one_more
          (write_day-Fits days cur_day progress (cur_day - 1) (first + (cur_day - 1)) page
            (omega arith) (omega arith) fits) in
      let (page', written, complete) =
        write_days-Complete year month days left (cur_day + 1) progress first
          (write_day c f ctx days cur_day (first + (cur_day - 1)) page) h (omega arith)
          (omega arith) dates after in
      (page', rw date written, complete)
