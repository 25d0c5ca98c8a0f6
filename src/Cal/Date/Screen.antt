-- ===== src/Cal/Date/Screen.antt =====
-- A terminal, as far as the columns of what is printed go.
use sn0int.Prelude.{
  ℕ, zero, suc, ◌+◌, ◌==◌, ◌≤◌, Bool, true, false, not, List, [], ◌∷◌, ◌++◌, Text, length, All,
  if◌then◌else◌, ◌≡◌, refl, ap, ◌∙◌, arith,
}
use sn0int.Prelude.Numbers.{replicate}

-- A terminal that has printed a text: whether an escape sequence is open, the columns of the last line and
-- those of the lines before it, the latest first.
pub record Screen : Type 0 where
  pub escaped : Bool
  pub column : ℕ
  pub done : List ℕ

abbrev pub blank : Screen
blank = record { escaped = false; column = 0; done = [] }

abbrev pub shown : Bool → ℕ → Screen → Screen
shown true x s = record s { escaped = not (x == b'm') }
shown false x s =
    if x == 10
    then record { escaped = false; column = 0; done = s.column ∷ s.done }
    else if x == 27
    then record s { escaped = true }
    else record s { column = s.column + 1 }

unfoldable pub show : Text → Screen → Screen
show [] s = s
show (x ∷ text) s = show text (shown s.escaped x s)

pub show-append : (a b : Text) (s : Screen) → show (a ++ b) s ≡ show b (show a s)
unfolding show
show-append [] b s = refl
show-append (x ∷ a) b s = show-append a b (shown s.escaped x s)

pub show_then :
    (a b : Text) (s : Screen) {s' s'' : Screen}
    → show a s ≡ s'
    → show b s' ≡ s''
    → show (a ++ b) s ≡ s''
show_then a b s e e' = show-append a b s ∙ ap (show b) e ∙ e'

-- The columns of the lines of a text.
abbrev pub columns : Text → List ℕ
columns text = let s = show text blank in s.column ∷ s.done

abbrev pub at : ℕ → List ℕ → Screen
at n done = record { escaped = false; column = n; done = done }

columns_step : (x n : ℕ) (done : List ℕ) → 32 ≤ x → shown false x (at n done) ≡ at (n + 1) done
columns_step x n done h = ground arith

pub show-printable :
    (text : Text) (n : ℕ) (done : List ℕ)
    → All (λ x. 32 ≤ x) text
    → show text (at n done) ≡ at (n + length text) done
unfolding show
show-printable [] n done h = ground arith
show-printable (x ∷ text) n done (h, hs) =
    rw (columns_step x n done h)
      (show-printable text (n + 1) done hs ∙ ap (λ k. at k done) (omega arith))

pub show-feed :
    (text : Text) (n : ℕ) (done : List ℕ)
    → show (10 ∷ text) (at n done) ≡ show text (at 0 (n ∷ done))
unfolding show
show-feed text n done = refl

pub length-replicate : (n c : ℕ) → length (replicate n c) ≡ n
length-replicate zero c = omega arith
length-replicate (suc n) c = omega (arith, length-replicate n c)

pub replicate-printable : (n c : ℕ) → 32 ≤ c → All (λ x. 32 ≤ x) (replicate n c)
replicate-printable zero c h = tt
replicate-printable (suc n) c h = (h, replicate-printable n c h)

pub show-spaces : (k n : ℕ) (done : List ℕ) → show (replicate k b' ') (at n done) ≡ at (n + k) done
show-spaces k n done =
    show-printable (replicate k b' ') n done (replicate-printable k b' ' (omega arith))
    ∙ ap (λ i. at (n + i) done) (length-replicate k b' ')
