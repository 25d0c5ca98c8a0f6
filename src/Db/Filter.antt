-- ===== src/Db/Filter.antt =====
-- src/db/mod.rs: the WHERE clause that a command line gives.
pub mod Literal
pub mod Parsing
use sn0int.Prelude.{
  ℕ, zero, suc, Bool, true, false, ◌||◌, ◌==◌, if◌then◌else◌, List, [], ◌∷◌, ◌++◌, Option, none,
  some, Text, codes, text_eq, find, take, drop, Result, ok, err, message, ◌>>=◌,
}

pub record Filter : Type 0 where
  pub query : Text

-- `Filter::new`
abbrev pub new : Text → Filter
new query = record { query = query }

-- The loop of `escape`.
unfoldable pub double_quotes : Text → Text
double_quotes [] = []
double_quotes (c ∷ s) =
    let rest = double_quotes s in if c == b'\'' then b'\'' ∷ b'\'' ∷ rest else c ∷ rest

unfoldable pub escape : Text → Text
unfolding double_quotes
escape value = b'\'' ∷ (double_quotes value ++ b'\'' ∷ [])

-- `[…].contains(…)`, on a lower case argument.
unfoldable pub is_operator : Text → Bool
is_operator s =
    text_eq s (codes "=")
    || text_eq s (codes "!=")
    || text_eq s (codes "<")
    || text_eq s (codes ">")
    || text_eq s (codes "<=")
    || text_eq s (codes ">=")
    || text_eq s (codes "like")

-- The variables of the loop of `parse`.
pub record Progress : Type 0 where
  pub query : Text
  pub expect_value : Bool

-- An argument that is no operator and no `key=value`.
unfoldable pub push_value : Progress → Text → Progress
unfolding escape
push_value p arg =
    if p.expect_value
    then record { query = p.query ++ b' ' ∷ escape arg; expect_value = false }
    else record p { query = p.query ++ b' ' ∷ arg }

-- An argument that is no operator, with the place of its first equals sign.
unfoldable pub push_pair : Progress → Text → Option ℕ → Progress
unfolding push_value
push_pair p arg none = push_value p arg
push_pair p arg (some zero) = push_value p arg
push_pair p arg (some (suc i)) = record p {
  query =
      p.query ++ b' ' ∷ (take (suc i) arg ++ (codes " = " ++ escape (drop 1 (drop (suc i) arg))));
}

-- `str::to_lowercase` goes by the tables of Unicode, and is a parameter here.
module _ (to_lowercase : Text → Text) where
  -- One round of the loop of `parse`.
  unfoldable pub push_arg : Progress → Text → Progress
  unfolding push_pair is_operator
  push_arg p arg =
      if is_operator (to_lowercase arg)
      then record { query = p.query ++ b' ' ∷ arg; expect_value = true }
      else push_pair p arg (find b'=' arg)

  unfoldable pub push_args : Progress → List Text → Progress
  unfolding push_arg
  push_args p [] = p
  push_args p (arg ∷ args) = push_args (push_arg p arg) args

  unfoldable pub parse : List Text → Result Filter
  unfolding push_args
  parse [] = err (message "Filter condition is required")
  parse (first ∷ args) =
      if text_eq (to_lowercase first) (codes "where")
      then ok (new (push_args (record { query = []; expect_value = false }) args).query)
      else err (message "Filter must begin with WHERE")

  unfoldable pub parse_optional : List Text → Result Filter
  unfolding parse
  parse_optional [] = ok (new (codes "1"))
  parse_optional (arg ∷ args) = parse (arg ∷ args)

unfoldable pub and_scoped : Filter → Filter
and_scoped f = new (b'(' ∷ (f.query ++ codes ") AND unscoped=0"))
