-- ===== src/Common/Metadata/Lines.antt =====
-- Header lines are read as they are written.
use sn0int.Prelude.{
  ℕ, ◌<◌, List, [], ◌∷◌, ◌++◌, Text, codes, ok, length, length-append, All, ◌≡◌, ◌≢◌, refl, ap, ◌∙◌,
  arith, text_eq,
}
use sn0int.Crates.Nom.{Nom, NomLaws, done, failed, error, IsFirst, map_result, converted}
use sn0int.Common.Metadata.{
  EntryType, description, version, source, keyring_access, license, parse_entry_type,
}
use sn0int.Common.Metadata.Header.{metaline, metalines}

unfoldable pub entry_name : EntryType → Text
entry_name description = codes "Description"
entry_name version = codes "Version"
entry_name source = codes "Source"
entry_name keyring_access = codes "Keyring-Access"
entry_name license = codes "License"

parse-entry_name : (k : EntryType) → parse_entry_type (entry_name k) ≡ ok k
unfolding parse_entry_type entry_name text_eq
parse-entry_name description = refl
parse-entry_name _ = refl

entry_name-free : (k : EntryType) → All (λ c. c ≢ b':') (entry_name k)
unfolding entry_name
entry_name-free description = omega arith
entry_name-free _ = omega arith

-- One line, in front of what follows it.
unfoldable pub write_line : EntryType × Text → Text → Text
write_line (k, v) rest =
    codes "-- " ++ (entry_name k ++ (codes ": " ++ (v ++ (codes "\n" ++ rest))))

unfoldable pub write_lines : List (EntryType × Text) → Text → Text
write_lines [] rest = codes "\n" ++ rest
write_lines (line ∷ lines) rest = write_line line (write_lines lines rest)

-- A text without the first character of `c ∷ t` does not hold the start of a match.
free-IsFirst : (c : ℕ) (t a rest : Text) → All (λ x. x ≢ c) a → IsFirst (c ∷ t) a rest
free-IsFirst c t [] rest h u v e = omega arith
free-IsFirst c t (x ∷ a) rest (h, hs) [] v e = absurd (h (cc))
free-IsFirst c t (x ∷ a) rest (h, hs) (y ∷ u) v e =
    omega (arith, free-IsFirst c t a rest hs u v (cc))

abbrev pub IsOneLine : Text → Type 0
IsOneLine s = All (λ c. c ≢ b'\n') s

module _ (n : Nom) (l : NomLaws n) where
  metaline-write_line :
      (k : EntryType) (v rest : Text)
      → IsOneLine v
      → metaline n (write_line (k, v) rest) ≡ done rest (k, v)
  unfolding metaline write_line
  metaline-write_line k v rest h =
      let behind_name = codes ": " ++ (v ++ (codes "\n" ++ rest)) in
      let until_name =
        l.take_until_first (codes ": ") (entry_name k) (v ++ (codes "\n" ++ rest))
          (free-IsFirst b':' (codes " ") (entry_name k) _ (entry_name-free k)) in
      let named =
        l.map_res_lem (n.take_until (codes ": ")) parse_entry_type (entry_name k ++ behind_name)
        ∙ ap (λ r. map_result r parse_entry_type) until_name
        ∙ ap (converted behind_name) (parse-entry_name k) in
      let until_end = l.take_until_first (codes "\n") v rest (free-IsFirst b'\n' [] v rest h) in
      rw (l.tag_stream_here (codes "-- ") (entry_name k ++ behind_name)) (
        rw named (
          rw (l.tag_stream_here (codes ": ") (v ++ (codes "\n" ++ rest)))
            (rw until_end (rw (l.tag_stream_here (codes "\n") rest)))))

  write_line-lt :
      (line : EntryType × Text) (rest : Text) → length rest < length (write_line line rest)
  unfolding write_line
  write_line-lt (k, v) rest = omega (
    arith,
    length-append (entry_name k) (codes ": " ++ (v ++ (codes "\n" ++ rest))),
    length-append v (codes "\n" ++ rest),
  )

  blank : (code : Text) → metaline n (codes "\n" ++ code) ≡ failed error
  unfolding metaline
  blank code = rw (l.tag_stream_other b'-' b'\n' (codes "- ") code (omega arith))

  -- The blank line ends the header.
  fold-write_lines :
      (lines : List (EntryType × Text)) (code : Text)
      → All (λ x. IsOneLine x.1) lines
      → n.fold_many0 (metaline n) (write_lines lines code) ≡ done (codes "\n" ++ code) lines
  unfolding write_lines
  fold-write_lines [] code _ = l.fold_many0_stop (metaline n) (codes "\n" ++ code) (blank code)
  fold-write_lines ((k, v) ∷ lines) code (h, hs) =
      let rest = write_lines lines code in
      l.fold_many0_more (metaline n) (write_line (k, v) rest) rest (k, v)
        (metaline-write_line k v rest h) (write_line-lt (k, v) rest)
      ∙ rw (fold-write_lines lines code hs)

  -- Header lines with one-line values are read as they are written, in their order, up to the
  -- blank line behind them.
  pub metalines-write_lines :
      (lines : List (EntryType × Text)) (code : Text)
      → All (λ x. IsOneLine x.1) lines
      → metalines n (write_lines lines code) ≡ done code lines
  unfolding metalines
  metalines-write_lines lines code h =
      rw (fold-write_lines lines code h) (rw (l.tag_stream_here (codes "\n") code))
