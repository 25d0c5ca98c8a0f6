-- ===== src/Repl/Tokenize/Strings.antt =====
-- Strings: what is typed inside a string comes back, and where a string does not open.
use sn0int.Prelude.{
  ℕ, true, false, ◌||◌, ◌==◌, if◌then◌else◌, [], ◌∷◌, ◌++◌, Text, ◌≡◌, refl, ap, ◌∙◌, arith,
  append_assoc, append-nil, Bool-cases, inl, inr,
}
use sn0int.Repl.Tokenize.{
  Token, empty, name, in_string, value, new_state, is_letter, is_digit, is_quote, step, run,
  parse_last,
}

run-append : (t : Token) (a b : Text) → run t (a ++ b) ≡ run (run t a) b
unfolding run
run-append t [] b = refl
run-append t (c ∷ a) b = run-append (step t c) a b

-- The text of a string literal: a backslash in front of each quote and each backslash.
unfoldable pub escape_text : ℕ → Text → Text
escape_text quote [] = []
escape_text quote (c ∷ s) =
    let rest = escape_text quote s in
    if c == quote || c == b'\\' then b'\\' ∷ c ∷ rest else c ∷ rest

step_plain :
    (quote : ℕ) (buf : Text) (c : ℕ)
    → (c == b'\\') ≡ false
    → (c == quote) ≡ false
    → step (in_string (record { quote = quote; escape = false; buf = buf })) c
      ≡ in_string (record { quote = quote; escape = false; buf = buf ++ c ∷ [] })
unfolding step
step_plain quote buf c no_slash no_quote = rw no_slash (rw no_quote)

run-escape_text :
    (quote : ℕ) (buf s : Text)
    → run (in_string (record { quote = quote; escape = false; buf = buf })) (escape_text quote s)
      ≡ in_string (record { quote = quote; escape = false; buf = buf ++ s })
unfolding run escape_text step
run-escape_text quote buf [] = rw append-nil
run-escape_text quote buf (c ∷ s) =
    let open_state = λ (b : Text). in_string (record { quote = quote; escape = false; buf = b }) in
    let ih : run (open_state (buf ++ c ∷ [])) (escape_text quote s) ≡ open_state (buf ++ c ∷ s) =
      run-escape_text quote (buf ++ c ∷ []) s ∙ ap open_state (append_assoc buf (c ∷ []) s) in
    elim (Bool-cases (c == quote || c == b'\\')) [
      | inl special ↦ rw special ih
      | inr plain ↦
          let no_slash : (c == b'\\') ≡ false = ground arith in
          let no_quote : (c == quote) ≡ false = ground arith in
          rw plain
            (ap (λ t. run t (escape_text quote s)) (step_plain quote buf c no_slash no_quote) ∙ ih)
    ]

-- A quote is no letter and no digit.
quote_opens : (c : ℕ) → is_quote c ≡ true → step empty c ≡ in_string (new_state c)
unfolding step is_quote is_letter is_digit
quote_opens c h = ground arith

-- Where the line so far ends in no token, a quote and then any text with its quotes and
-- backslashes escaped gives an open string with that text.
pub parse_last-escape_text :
    (before : Text) (quote : ℕ) (s : Text)
    → parse_last before ≡ empty
    → is_quote quote ≡ true
    → parse_last (before ++ quote ∷ escape_text quote s)
      ≡ in_string (record { quote = quote; escape = false; buf = s })
unfolding parse_last run
parse_last-escape_text before quote s h q =
    run-append empty before (quote ∷ escape_text quote s)
    ∙ ap (λ t. run (step t quote) (escape_text quote s)) h
    ∙ ap (λ t. run t (escape_text quote s)) (quote_opens quote q)
    ∙ run-escape_text quote [] s

-- What a name or a number is.
abbrev IsWord : Token → Type 0
IsWord (name _) = Unit
IsWord (value _) = Unit
IsWord _ = ⊥

quote_swallowed : (t : Token) (c : ℕ) → IsWord t → is_quote c ≡ true → step t c ≡ empty
unfolding step is_quote is_letter is_digit
quote_swallowed (name s) c w h = ground arith
quote_swallowed (value s) c w h = ground arith
quote_swallowed empty c w h = absurd w
quote_swallowed (in_string s) c w h = absurd w

-- Directly behind a name or a number a quote opens no string: it is dropped, and what follows is
-- read as if the line began there.
pub parse_last_quote_after_word :
    (before : Text) (quote : ℕ) (rest : Text)
    → IsWord (parse_last before)
    → is_quote quote ≡ true
    → parse_last (before ++ quote ∷ rest) ≡ parse_last rest
unfolding parse_last run
parse_last_quote_after_word before quote rest w q =
    run-append empty before (quote ∷ rest)
    ∙ ap (λ t. run t rest) (quote_swallowed (run empty before) quote w q)
