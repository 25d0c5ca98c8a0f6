-- ===== src/Cal/Grade.antt =====
-- The grade of a ratio is the number of quarters that it begins.
use sn0int.Prelude.{ℕ, ◌+◌, ◌*◌, ◌≤◌, ◌<◌, arith}
use sn0int.Cal.{ActivityGrade, none_grade, one, two, three, four, Floats, FloatsLaws, from_ratio}

abbrev pub quarters : ActivityGrade → ℕ
quarters none_grade = 0
quarters one = 1
quarters two = 2
quarters three = 3
quarters four = 4

-- For a number of events from 1 up to the greatest number, the grade is the quarter of that
-- greatest number into which the number falls, rounded up, as long as the numbers are exact in
-- floating point.
pub from_ratio-quarters :
    (f : Floats)
    → FloatsLaws f
    → (num max : ℕ) → 1 ≤ num
    → num ≤ max
    → max < 2251799813685248
    → (num * 4 ≤ quarters (from_ratio f num max) * max)
      × (quarters (from_ratio f num max) * max < num * 4 + max)
unfolding from_ratio
from_ratio-quarters f laws num max pos le small =
    let e1 =
      laws.le-quotient num max 1 (omega arith) small (omega arith) (omega arith) (omega arith) in
    let e2 =
      laws.le-quotient num max 2 (omega arith) small (omega arith) (omega arith) (omega arith) in
    let e3 =
      laws.le-quotient num max 3 (omega arith) small (omega arith) (omega arith) (omega arith) in
    rw (e1, e2, e3) (ground arith)
