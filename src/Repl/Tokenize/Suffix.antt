-- ===== src/Repl/Tokenize/Suffix.antt =====
-- The token is the end of the line.
use mathlib.Core.Path.{subst}
use sn0int.Prelude.{
  ℕ, Bool, true, false, ◌||◌, ◌==◌, [], ◌∷◌, ◌++◌, Text, ◌≡◌, ◌≢◌, refl, sym, ap, ◌∙◌, arith, All,
  All-append, append_assoc, append-nil, Bool-cases, inl, inr, ==_iff,
}
use sn0int.Repl.Tokenize.{
  Token, empty, name, in_string, value, is_letter, is_digit, is_quote, step, run, parse_last,
}

-- A letter, and then letters and digits.
abbrev pub IsName : Text → Type 0
IsName [] = ⊥
IsName (c ∷ s) = (is_letter c ≡ true) × All (λ d. (is_letter d || is_digit d) ≡ true) s

abbrev pub IsNumber : Text → Type 0
IsNumber [] = ⊥
IsNumber (c ∷ s) = All (λ d. is_digit d ≡ true) (c ∷ s)

-- `raw` stands behind an opening `quote` that it does not close; it stands for `buf`, and `escape`
-- says whether it ends in a backslash that escapes what follows.
pub data Reads (quote : ℕ) : Text → Text → Bool → Type 0 where
  nothing : Reads quote [] [] false
  plain :
      (raw buf : Text) (c : ℕ)
      → Reads quote raw buf false
      → c ≢ b'\\'
      → c ≢ quote
      → Reads quote (raw ++ c ∷ []) (buf ++ c ∷ []) false
  backslash :
      (raw buf : Text) → Reads quote raw buf false → Reads quote (raw ++ b'\\' ∷ []) buf true
  escaped :
      (raw buf : Text) (c : ℕ)
      → Reads quote raw buf true
      → Reads quote (raw ++ c ∷ []) (buf ++ c ∷ []) false

-- What a token says of the line.
abbrev pub Ends : Text → Token → Type 0
Ends line empty = Unit
Ends line (name s) = (before : Text) × (line ≡ before ++ s) × IsName s
Ends line (value s) = (before : Text) × (line ≡ before ++ s) × IsNumber s
Ends line (in_string s) =
    (before raw : Text) × (line ≡ before ++ s.quote ∷ raw)
    × (is_quote s.quote ≡ true)
    × Reads s.quote raw s.buf s.escape

IsName-concat :
    (s : Text) (c : ℕ) → IsName s → (is_letter c || is_digit c) ≡ true → IsName (s ++ c ∷ [])
IsName-concat [] c h k = absurd h
IsName-concat (d ∷ s) c (h, hs) k = (h, All-append _ s (c ∷ []) hs (k, tt))

IsNumber-concat : (s : Text) (c : ℕ) → IsNumber s → is_digit c ≡ true → IsNumber (s ++ c ∷ [])
IsNumber-concat [] c h k = absurd h
IsNumber-concat (d ∷ s) c h k = All-append _ (d ∷ s) (c ∷ []) h (k, tt)

longer :
    (line before s : Text) (c : ℕ) → line ≡ before ++ s → line ++ c ∷ [] ≡ before ++ (s ++ c ∷ [])
longer line before s c same = ap (λ l. l ++ c ∷ []) same ∙ append_assoc before s (c ∷ [])

step_string-Ends :
    (line : Text) (quote : ℕ) (buf : Text) (escape : Bool) (c : ℕ)
    → Ends line (in_string (record { quote = quote; escape = escape; buf = buf }))
    → Ends
        (line ++ c ∷ [])
        (step (in_string (record { quote = quote; escape = escape; buf = buf })) c)
unfolding step
step_string-Ends line quote buf true c (before, raw, same, q, reads) =
    (before, raw ++ c ∷ [], longer line before (quote ∷ raw) c same, q, escaped raw buf c reads)
step_string-Ends line quote buf false c (before, raw, same, q, reads) =
    elim (Bool-cases (c == b'\\')) [
      | inl slash ↦
          let is : c ≡ b'\\' = (==_iff c b'\\').0 slash in
          rw is (
            before,
            raw ++ b'\\' ∷ [],
            longer line before (quote ∷ raw) b'\\' same,
            q,
            backslash raw buf reads,
          )
      | inr other ↦ rw other (elim (Bool-cases (c == quote)) [
        | inl closed ↦ rw closed tt
        | inr more ↦ rw more (
          before,
          raw ++ c ∷ [],
          longer line before (quote ∷ raw) c same,
          q,
          plain raw buf c reads (ground arith) (ground arith),
        )
      ])
    ]

step-Ends : (line : Text) (t : Token) (c : ℕ) → Ends line t → Ends (line ++ c ∷ []) (step t c)
unfolding step
step-Ends line empty c h = elim (Bool-cases (is_letter c)) [
  | inl letter ↦ rw letter (line, refl, (letter, tt))
  | inr no_letter ↦ rw no_letter (elim (Bool-cases (is_digit c)) [
    | inl digit ↦ rw digit (line, refl, (digit, tt))
    | inr no_digit ↦ rw no_digit (elim (Bool-cases (is_quote c)) [
      | inl quote ↦ rw quote (line, [], refl, quote, nothing)
      | inr no_quote ↦ rw no_quote tt
    ])
  ])
]
step-Ends line (name s) c (before, same, ident) = elim (Bool-cases (is_letter c || is_digit c)) [
  | inl more ↦ rw more (before, longer line before s c same, IsName-concat s c ident more)
  | inr over ↦ rw over tt
]
step-Ends line (value s) c (before, same, num) = elim (Bool-cases (is_digit c)) [
  | inl more ↦ rw more (before, longer line before s c same, IsNumber-concat s c num more)
  | inr over ↦ rw over tt
]
step-Ends line (in_string s) c h = step_string-Ends line s.quote s.buf s.escape c h

run-Ends : (line rest : Text) (t : Token) → Ends line t → Ends (line ++ rest) (run t rest)
unfolding run
run-Ends line [] t h = subst (λ l. Ends l t) (sym (append-nil line)) h
run-Ends line (c ∷ rest) t h =
    subst (λ l. Ends l (run (step t c) rest)) (append_assoc line (c ∷ []) rest)
      (run-Ends (line ++ c ∷ []) rest (step t c) (step-Ends line t c h))

-- If the last token of a line is a name or a number, the line ends with it, and it is a letter
-- followed by letters and digits, or a number of digits; if it is an open string, then what
-- follows its opening quote does not close it, and its text is that rest of the line with the
-- escapes resolved.
pub parse_last-Ends : (line : Text) → Ends line (parse_last line)
unfolding parse_last
parse_last-Ends line = run-Ends [] line empty tt
