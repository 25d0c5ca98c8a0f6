-- ===== src/Repl/Tests.antt =====
-- Examples of the tokenizer.
use sn0int.Prelude.{codes, ◌∷◌, ◌++◌, true, false, ◌≡◌, refl}
use sn0int.Repl.Tokenize.{
  empty, name, in_string, step, run, parse_last, is_quote, is_letter, is_digit,
}
use sn0int.Repl.Tokenize.Suffix.{Ends, parse_last-Ends}
use sn0int.Repl.Tokenize.Strings.{parse_last_quote_after_word}

last_name : parse_last (codes "foo = bar1") ≡ name (codes "bar1")
unfolding parse_last run step is_letter is_digit is_quote
last_name = refl

last_string :
    parse_last (codes "a['b\\'c")
    ≡ in_string (record { quote = b'\''; escape = false; buf = codes "b'c" })
unfolding parse_last run step is_letter is_digit is_quote
last_string = refl

parse_last-Ends_example : Ends (codes "foo = bar1") (parse_last (codes "foo = bar1"))
parse_last-Ends_example = parse_last-Ends (codes "foo = bar1")

no_token : parse_last (codes "x = ") ≡ empty
unfolding parse_last run step is_letter is_digit is_quote
no_token = refl

quoted : is_quote b'"' ≡ true
unfolding is_quote
quoted = refl

-- In `f"x` the quote opens no string, and the token is the name `x`.
parse_last_quote_after_word_example :
    parse_last (codes "f" ++ b'"' ∷ codes "x") ≡ parse_last (codes "x")
unfolding parse_last run step is_letter is_digit is_quote
parse_last_quote_after_word_example =
    parse_last_quote_after_word (codes "f") b'"' (codes "x") tt quoted
