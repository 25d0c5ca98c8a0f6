-- ===== src/Cal/Date/Range.antt =====
-- The months that a context shows: `context` months, and the one that it is the context of.
use sn0int.Prelude.{
  ℕ, zero, suc, ◌+◌, ◌-◌, ◌*◌, ◌/◌, ◌%◌, ◌==◌, ◌≤◌, List, [], ◌∷◌, ◌++◌, some, ◌∙◌, if◌then◌else◌,
  ◌≡◌, ap, sym, arith, leb, Bool-cases, inl, inr, ==_iff,
}
use sn0int.Prelude.Int.{
  ℤ, pos, pos_part, neg_part, ◌+ℤ◌, ◌-ℤ◌, InI32, as_i32-InI32, -ℤ_parts, +ℤ_parts, eq_of_parts,
  parts_apart,
}
use sn0int.Crates.Chrono.{NaiveDate, Chrono, ChronoLaws}
use sn0int.Cal.Date.{start_month, following, year_month_context, start}
use sn0int.Cal.Date.Merge.{walk_months, context_months}

-- The month before a month, with no bound on years.
abbrev pub before : ℤ × ℕ → ℤ × ℕ
before (year, month) = if month == 1 then (year -ℤ pos 1, 12) else (year, month - 1)

-- `n` months and then the month itself, in order.
unfoldable pub months_until : ℕ → ℤ × ℕ → List (ℤ × ℕ)
months_until zero p = p ∷ []
months_until (suc n) p = months_until n (before p) ++ p ∷ []

abbrev IsMonth : ℕ → Type 0
IsMonth m = (1 ≤ m) × (m ≤ 12)

-- The second month is `n` months after the first one.
abbrev Later : ℕ → ℤ × ℕ → ℤ × ℕ → Type 0
Later n (y, m) (y', m') =
    12 * pos_part y + m + n + 12 * neg_part y' ≡ 12 * pos_part y' + m' + 12 * neg_part y

-- The years on the way are those of `i32`.
start_years :
    (y : ℤ) (n : ℕ)
    → InI32 y
    → InI32 (y -ℤ pos (n / 12 + 1))
    → InI32 (y -ℤ pos (n / 12)) × InI32 (y -ℤ pos (n / 12) -ℤ pos 1)
start_years y n b b' =
    let d : ℤ = y -ℤ pos (n / 12) in
    omega (
      arith,
      -ℤ_parts y (pos (n / 12)),
      -ℤ_parts y (pos (n / 12 + 1)),
      -ℤ_parts d (pos 1),
      parts_apart d,
      parts_apart y,
      parts_apart (d -ℤ pos 1),
      parts_apart (y -ℤ pos (n / 12 + 1)),
    )

pub start_month_lem :
    (y : ℤ) (m n : ℕ)
    → IsMonth m
    → InI32 y
    → InI32 (y -ℤ pos (n / 12 + 1))
    → IsMonth (start_month y m n).1
      × Later n (start_month y m n) (y, m)
      × InI32 (start_month y m n).0
unfolding start_month
start_month_lem y m n h b b' =
    let d : ℤ = y -ℤ pos (n / 12) in
    let (d1, d2) = start_years y n b b' in
    rw (as_i32-InI32 d d1) (
      rw (as_i32-InI32 (d -ℤ pos 1) d2) (elim (Bool-cases (leb m (n % 12))) [
        | inl wrap ↦ rw wrap (ground (arith, -ℤ_parts y (pos (n / 12)), -ℤ_parts d (pos 1)))
        | inr same ↦ rw same (ground (arith, -ℤ_parts y (pos (n / 12))))
      ]))

Later-zero : (p q : ℤ × ℕ) → IsMonth p.1 → IsMonth q.1 → Later 0 p q → p ≡ q
Later-zero (y, m) (y', m') h h' l =
    let years : y ≡ y' = eq_of_parts y y' (omega (arith, parts_apart y, parts_apart y')) in
    let months : m ≡ m' = omega (arith, ap pos_part years, ap neg_part years) in cc

-- The month before, as far as counting goes.
before_lem :
    (n : ℕ) (q p : ℤ × ℕ)
    → IsMonth p.1
    → Later (suc n) q p
    → IsMonth (before p).1 × Later n q (before p)
before_lem n (y, m) (y', m') h l = elim (Bool-cases (m' == 1)) [
  | inl one ↦ rw one (omega (arith, -ℤ_parts y' (pos 1), (==_iff m' 1).0 one))
  | inr more ↦ rw more (ground arith)
]

months_until_first :
    (n : ℕ) (q p : ℤ × ℕ)
    → IsMonth q.1
    → IsMonth p.1
    → Later (suc n) q p
    → months_until (suc n) p ≡ q ∷ months_until n p
unfolding months_until
months_until_first zero q p h k l =
    let (k', l') = before_lem zero q p k l in
    ap (λ x. x ∷ p ∷ []) (sym (Later-zero q (before p) h k' l'))
months_until_first (suc n) q p h k l =
    let (k', l') = before_lem (suc n) q p k l in
    ap (λ x. x ++ p ∷ []) (months_until_first n q (before p) h k' l')

-- The month after, as far as counting goes.
following_lem :
    (n : ℕ) (q p : ℤ × ℕ)
    → IsMonth q.1
    → IsMonth p.1
    → InI32 q.0
    → InI32 p.0
    → Later (suc n) q p
    → IsMonth (following q.0 q.1).1 × InI32 (following q.0 q.1).0 × Later n (following q.0 q.1) p
following_lem n (y, m) (y', m') h h' b b' l = elim (Bool-cases (m == 12)) [
  | inl last ↦
      let next : InI32 (y +ℤ pos 1) = omega (
        arith,
        +ℤ_parts y (pos 1),
        (==_iff m 12).0 last,
        parts_apart y,
        parts_apart y',
        parts_apart (y +ℤ pos 1),
      ) in
      rw last (
        rw (as_i32-InI32 (y +ℤ pos 1) next)
          (omega (arith, +ℤ_parts y (pos 1), (==_iff m 12).0 last)))
  | inr more ↦ rw more (ground arith)
]

walk-months_until :
    (n : ℕ) (q p : ℤ × ℕ)
    → IsMonth q.1
    → IsMonth p.1
    → InI32 q.0
    → InI32 p.0
    → Later n q p
    → walk_months (suc n) q.0 q.1 ≡ months_until n p
unfolding walk_months months_until
walk-months_until zero q p h h' b b' l = ap (λ x. x ∷ []) (Later-zero q p h h' l)
walk-months_until (suc n) q p h h' b b' l =
    let (k, c, later) = following_lem n q p h h' b b' l in
    ap (◌∷◌ q) (walk-months_until n (following q.0 q.1) p k h' c b' later)
    ∙ sym (months_until_first n q p h h' l)

-- With a context of n months, the calendar lists the n months before the given month in their
-- order, and then that month, each with its year, unless the first of these months has no date.
-- The month is from 1 to 12, and the years in question are 32-bit integers.
pub context_months-months_until :
    (c : Chrono) (laws : ChronoLaws c) (year : ℤ) (month context : ℕ) {first : NaiveDate}
    → IsMonth month
    → InI32 year
    → InI32 (year -ℤ pos (context / 12 + 1))
    → start c (year_month_context year month context) ≡ some first
    → context_months c year month context ≡ some (months_until context (year, month))
unfolding context_months start
context_months-months_until c laws year month context {first} h b b' e =
    let (k, later, i) = start_month_lem year month context h b b' in
    let p : ℤ × ℕ = start_month year month context in
    let y : c.year first ≡ p.0 = laws.year-from_ymd p.0 p.1 1 e in
    let m : c.month first ≡ p.1 = laws.month-from_ymd p.0 p.1 1 e in
    rw e (rw (y, m) (ap some (walk-months_until context p (year, month) k h i b later)))
