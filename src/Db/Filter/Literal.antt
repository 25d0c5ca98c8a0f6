-- ===== src/Db/Filter/Literal.antt =====
-- SQL reads an escaped value as the literal of that value, and of nothing else.
use sn0int.Prelude.{
  ℕ, false, ◌==◌, if◌then◌else◌, [], ◌∷◌, ◌++◌, Option, none, some, Text, ◌≡◌, ◌≢◌, refl, ap, ◌∙◌,
  arith, append_assoc, Bool-cases, inl, inr, ==_iff,
}
use sn0int.Db.Filter.{double_quotes, escape}

-- How SQL reads a string literal behind its opening quote: up to the first quote that no other
-- quote follows, where two quotes stand for one. The result is the value and what follows.
abbrev push : ℕ → Option (Text × Text) → Option (Text × Text)
push c none = none
push c (some (v, rest)) = some (c ∷ v, rest)

unfoldable pub read_quoted : Text → Option (Text × Text)
read_quoted [] = none
read_quoted (c ∷ []) = if c == b'\'' then some ([], []) else none
read_quoted (c ∷ d ∷ s) =
    let doubled = push c (read_quoted s) in
    let plain = push c (read_quoted (d ∷ s)) in
    if c == b'\'' then (if d == b'\'' then doubled else some ([], d ∷ s)) else plain

-- A literal, with its opening quote.
unfoldable pub read_literal : Text → Option (Text × Text)
unfolding read_quoted
read_literal [] = none
read_literal (c ∷ s) = if c == b'\'' then read_quoted s else none

read_plain :
    (c : ℕ) (s : Text) → (c == b'\'') ≡ false → read_quoted (c ∷ s) ≡ push c (read_quoted s)
unfolding read_quoted
read_plain c [] h = rw h
read_plain c (d ∷ s) h = rw h

read_pair : (s : Text) → read_quoted (b'\'' ∷ b'\'' ∷ s) ≡ push b'\'' (read_quoted s)
unfolding read_quoted
read_pair s = refl

-- What follows the literal starts with no quote.
abbrev pub NoQuote : Text → Type 0
NoQuote [] = Unit
NoQuote (c ∷ _) = c ≢ b'\''

read_end : (rest : Text) → NoQuote rest → read_quoted (b'\'' ∷ rest) ≡ some ([], rest)
unfolding read_quoted
read_end [] h = refl
read_end (c ∷ rest) h = ground arith

read_quoted-double_quotes :
    (v rest : Text) → NoQuote rest → read_quoted (double_quotes v ++ b'\'' ∷ rest) ≡ some (v, rest)
unfolding double_quotes
read_quoted-double_quotes [] rest h = read_end rest h
read_quoted-double_quotes (c ∷ v) rest h = elim (Bool-cases (c == b'\'')) [
  | inl quote ↦
      let is : c ≡ b'\'' = (==_iff c b'\'').0 quote in
      rw is (
        read_pair (double_quotes v ++ b'\'' ∷ rest)
        ∙ ap (push b'\'') (read_quoted-double_quotes v rest h))
  | inr other ↦ rw other (
      read_plain c (double_quotes v ++ b'\'' ∷ rest) other
      ∙ ap (push c) (read_quoted-double_quotes v rest h))
]

-- Whatever the value, and whatever follows that does not begin with a quote, SQL reads the escaped
-- value as one literal with that value and goes on with what follows.
pub read_literal-escape :
    (v rest : Text) → NoQuote rest → read_literal (escape v ++ rest) ≡ some (v, rest)
unfolding read_literal escape
read_literal-escape v rest h =
    ap read_quoted (append_assoc (double_quotes v) (b'\'' ∷ []) rest)
    ∙ read_quoted-double_quotes v rest h
