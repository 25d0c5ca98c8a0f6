-- ===== src/Repl/Tokenize.antt =====
-- src/repl/tokenize.rs: the token under the cursor, for completion.
pub mod Suffix
pub mod Strings
use sn0int.Prelude.{
  ℕ, Bool, true, false, ◌&&◌, ◌||◌, ◌==◌, leb, if◌then◌else◌, List, [], ◌∷◌, ◌++◌, Text,
}

pub record StringState : Type 0 where
  pub quote : ℕ
  pub escape : Bool
  pub buf : Text

pub data Token : Type 0 where
  empty : Token
  name : Text → Token
  in_string : StringState → Token
  value : Text → Token

-- `StringState::new`
abbrev pub new_state : ℕ → StringState
new_state quote = record { quote = quote; escape = false; buf = [] }

abbrev within : ℕ → ℕ → ℕ → Bool
within lo hi c = leb lo c && leb c hi

unfoldable pub is_letter : ℕ → Bool
is_letter c = within b'a' b'z' c || (within b'A' b'Z' c || c == b'_')

unfoldable pub is_digit : ℕ → Bool
is_digit c = within b'0' b'9' c

unfoldable pub is_quote : ℕ → Bool
is_quote c = c == b'\'' || c == b'"'

-- One round of the loop of `parse_last`.
unfoldable pub step : Token → ℕ → Token
step empty c =
    if is_letter c
    then name (c ∷ [])
    else if is_digit c
    then value (c ∷ [])
    else if is_quote c
    then in_string (new_state c)
    else empty
step (name s) c = if is_letter c || is_digit c then name (s ++ c ∷ []) else empty
step (in_string s) c =
    if s.escape
    then in_string (record s { buf = s.buf ++ c ∷ []; escape = false })
    else if c == b'\\'
    then in_string (record s { escape = true })
    else if c == s.quote
    then empty
    else in_string (record s { buf = s.buf ++ c ∷ [] })
step (value s) c = if is_digit c then value (s ++ c ∷ []) else empty

unfoldable pub run : Token → Text → Token
unfolding step
run token [] = token
run token (c ∷ line) = run (step token c) line

unfoldable pub parse_last : Text → Token
unfolding run
parse_last line = run empty line
