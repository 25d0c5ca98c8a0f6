-- ===== src/Common/Metadata/Header.antt =====
-- sn0int-common/src/metadata.rs: the parser of the header lines, and `Metadata::from_str`.
use sn0int.Prelude.{List, Text, codes, Result, err, message}
use sn0int.Crates.Nom.{Nom, IResult, done, failed, and_then}
use sn0int.Common.Metadata.{EntryType, parse_entry_type, Metadata, default, put_all, try_from}

-- What `Metadata::from_str` makes of the header lines.
unfoldable pub from_lines : IResult (List (EntryType × Text)) → Result Metadata
unfolding put_all try_from
from_lines (failed _) = err (message "Failed to parse header")
from_lines (done _ lines) = try_from (put_all default lines)

module _ (n : Nom) where
  unfoldable pub metaline : Text → IResult (EntryType × Text)
  unfolding parse_entry_type
  metaline s = and_then (n.tag_stream (codes "-- ") s) (λ s₁ _.
      and_then (n.map_res (n.take_until (codes ": ")) parse_entry_type s₁) (λ s₂ name.
        and_then (n.tag_stream (codes ": ") s₂) (λ s₃ _.
          and_then (n.take_until (codes "\n") s₃)
            (λ s₄ value. and_then (n.tag_stream (codes "\n") s₄) (λ s₅ _. done s₅ (name, value))))))

  unfoldable pub metalines : Text → IResult (List (EntryType × Text))
  unfolding metaline
  metalines s =
      and_then (n.fold_many0 metaline s)
        (λ s₁ lines. and_then (n.tag_stream (codes "\n") s₁) (λ s₂ _. done s₂ lines))

  -- `Metadata::from_str`
  unfoldable pub from_str : Text → Result Metadata
  unfolding metalines
  from_str code = from_lines (metalines code)
