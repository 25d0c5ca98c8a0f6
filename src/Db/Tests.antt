-- ===== src/Db/Tests.antt =====
-- Examples of filters.
use sn0int.Prelude.{
  ◌+◌, leb, ◌&&◌, if◌then◌else◌, Text, codes, List, [], ◌∷◌, ◌++◌, map, some, ok, text_eq, ◌≡◌,
  refl, arith, ◌↔◌, All,
}
use sn0int.Db.Filter.{Filter, new, escape, is_operator, parse}
use sn0int.Db.Filter.Literal.{read_literal, read_literal-escape}
use sn0int.Db.Filter.Parsing.{
  Part, compared, paired, word, args_of, sql_of, IsPart, IsWord, IsOperator, parse-ok_iff,
  parse-parts, parse_value_with_equals,
}

-- Lower case, for the letters of ASCII.
abbrev lower : Text → Text
lower = map (λ c. if leb b'A' c && leb c b'Z' then c + 32 else c)

read_literal-escape_example :
    read_literal (escape (codes "it's") ++ codes " AND 1") ≡ some (codes "it's", codes " AND 1")
read_literal-escape_example = read_literal-escape (codes "it's") (codes " AND 1") (omega arith)

parse-ok_iff_example : ((f : Filter) × (parse lower (codes "Where" ∷ []) ≡ ok f)) ↔ (
    (first : Text) × (rest : List Text) × (codes "Where" ∷ [] ≡ first ∷ rest)
    × (lower first ≡ codes "where"))
parse-ok_iff_example = parse-ok_iff lower (codes "Where" ∷ [])

abbrev parts : List Part
parts =
    compared (codes "value") (codes "like") (codes "%.com")
    ∷ word (codes "and")
    ∷ paired (codes "id") (codes "1")
    ∷ []

parts-IsPart : All (IsPart lower) parts
unfolding is_operator text_eq
parts-IsPart = (
  ((refl, omega arith), refl, (refl, omega arith)),
  ((refl, omega arith), ((omega arith, refl), tt)),
)

parse-parts_example : parse lower (codes "WHERE" ∷ args_of parts) ≡ ok (new (sql_of parts))
parse-parts_example = parse-parts lower (codes "WHERE") parts refl parts-IsPart

-- WHERE url = http://x/?a=b
abbrev key : Text
key = codes "http://x/?a"

url-IsWord : IsWord lower (codes "url")
unfolding is_operator text_eq
url-IsWord = (refl, omega arith)

equals-IsOperator : IsOperator lower (codes "=")
unfolding is_operator text_eq
equals-IsOperator = refl

split-IsPart : IsPart lower (paired key (codes "b"))
unfolding is_operator text_eq
split-IsPart = (omega arith, refl)

parse_value_with_equals_example :
    parse lower (codes "where" ∷ codes "url" ∷ codes "=" ∷ (key ++ b'=' ∷ codes "b") ∷ [])
    ≡ ok (
        new (
          b' '
          ∷ (codes "url"
              ++ (b' ' ∷ (codes "=" ++ (b' ' ∷ (key ++ (codes " = " ++ escape (codes "b")))))))))
parse_value_with_equals_example =
    parse_value_with_equals lower (codes "where") (codes "url") (codes "=") b'h'
      (codes "ttp://x/?a") (codes "b") refl url-IsWord equals-IsOperator split-IsPart
