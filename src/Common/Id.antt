-- ===== src/Common/Id.antt =====
-- sn0int-common/src/id.rs: the name of a module, `author/name`.
pub mod Laws
use sn0int.Prelude.{
  ℕ, ◌%◌, Bool, ◌||◌, ◌==◌, List, [], ◌∷◌, ◌++◌, Text, codes, is_empty, not, if◌then◌else◌, Result,
  ok, err, message, ◌>>=◌, Error,
}
use sn0int.Crates.Nom.{Nom, IResult, done, failed, and_then}

pub record ModuleId : Type 0 where
  pub author : Text
  pub name : Text

-- `Display`
unfoldable pub to_string : ModuleId → Text
to_string m = m.author ++ b'/' ∷ m.name

-- What `from_str` makes of the parser's result.
abbrev pub finish : IResult ModuleId → Result ModuleId
finish (failed _) = err (message "Failed to parse module id")
finish (done trailing m) =
    if not (is_empty trailing) then err (message "Trailing data in module id") else ok m

-- `if token(name).is_ok()`
abbrev pub named : IResult Text → Result (Unit {0})
named (done _ _) = ok tt
named (failed _) = err (message "String contains invalid character")

module _ (n : Nom) where
  -- `c as u8` keeps the low byte of the character.
  unfoldable pub valid_char : ℕ → Bool
  valid_char c = n.is_alphanumeric (c % 256) || c == b'-'

  unfoldable pub token : Text → IResult Text
  token s = n.take_while1 valid_char s

  unfoldable pub valid_name : Text → Result (Unit {0})
  unfolding token
  valid_name name = named (token name)

  -- `module`
  unfoldable pub parse_module : Text → IResult ModuleId
  unfolding token
  parse_module s =
      and_then (n.tuple token (n.tag (codes "/")) token s)
        (λ input t. done input (record { author = t.0; name = t.2 }))

  unfoldable pub from_str : Text → Result ModuleId
  unfolding parse_module
  from_str s = finish (parse_module s)
