-- ===== src/Common/Metadata/RoundTrip.antt =====
-- The metadata of a module, written as a header and read back.
use sn0int.Prelude.{
  List, [], ◌∷◌, ◌++◌, Option, none, some, Text, codes, text_eq, ok, ◌≡◌, refl, ap, ◌∙◌, All,
  append_assoc, append-nil,
}
use sn0int.Crates.Nom.{Nom, NomLaws}
use sn0int.Common.Metadata.{
  EntryType, description, version, source, keyring_access, license, Source, License, mit, gpl3,
  lgpl3, bsd2, bsd3, wtfpl, parse_license, Metadata, NewMetadata, default, try_from, put, put_all,
}
use sn0int.Common.Metadata.Sources.{source_text, parse_source_iff}
use sn0int.Common.Metadata.Header.{from_lines, from_str}
use sn0int.Common.Metadata.Lines.{write_lines, IsOneLine, metalines-write_lines}

unfoldable pub license_text : License → Text
license_text mit = codes "MIT"
license_text gpl3 = codes "GPL-3.0"
license_text lgpl3 = codes "LGPL-3.0"
license_text bsd2 = codes "BSD-2-Clause"
license_text bsd3 = codes "BSD-3-Clause"
license_text wtfpl = codes "WTFPL"

parse-license_text : (x : License) → parse_license (license_text x) ≡ ok x
unfolding parse_license license_text text_eq
parse-license_text mit = refl
parse-license_text _ = refl

abbrev pub source_lines : Option Source → List (EntryType × Text)
source_lines none = []
source_lines (some s) = (source, source_text s) ∷ []

abbrev pub keyring_lines : List Text → List (EntryType × Text)
keyring_lines [] = []
keyring_lines (k ∷ ks) = (keyring_access, k) ∷ keyring_lines ks

-- The header lines that declare `m`.
unfoldable pub lines_of : Metadata → List (EntryType × Text)
unfolding license_text
lines_of m =
    (description, m.description)
    ∷ (version, m.version)
    ∷ (source_lines m.source
        ++ (keyring_lines m.keyring_access ++ (license, license_text m.license) ∷ []))

put_all-keyring :
    (m : NewMetadata) (ks : List Text) (rest : List (EntryType × Text))
    → put_all m (keyring_lines ks ++ rest)
      ≡ put_all (record m { keyring_access = m.keyring_access ++ ks }) rest
unfolding put_all
put_all-keyring m [] rest = rw append-nil
put_all-keyring m (k ∷ ks) rest =
    put_all-keyring (put m (keyring_access, k)) ks rest
    ∙ rw (append_assoc m.keyring_access (k ∷ []) ks)

-- The line that is left, in the end, for each field.
abbrev collected : Metadata → NewMetadata
collected m = record {
  description = some m.description;
  version = some m.version;
  source = elim m.source [ none ↦ none | some s ↦ some (source_text s) ];
  keyring_access = m.keyring_access;
  license = some (license_text m.license);
}

put_all-lines_of : (m : Metadata) → put_all default (lines_of m) ≡ collected m
unfolding put_all lines_of
put_all-lines_of m = go m.source refl
  where
    start : Option Text → NewMetadata
    start s = record {
      description = some m.description;
      version = some m.version;
      source = s;
      keyring_access = [];
      license = none;
    }

    go : (s : Option Source) → m.source ≡ s → put_all default (lines_of m) ≡ collected m
    go none e = rw e (put_all-keyring (start none) m.keyring_access _)
    go (some s) e = rw e (put_all-keyring (start (some (source_text s))) m.keyring_access _)

try_from-collected : (m : Metadata) → try_from (collected m) ≡ ok m
unfolding try_from
try_from-collected m = go m.source refl
  where
    go : (s : Option Source) → m.source ≡ s → try_from (collected m) ≡ ok m
    go none e = rw e (rw (parse-license_text m.license))
    go (some s) e =
        rw e (rw ((parse_source_iff (source_text s) s).1 refl) (rw (parse-license_text m.license)))

module _ (n : Nom) (l : NomLaws n) where
  -- A header that is written from metadata whose fields are each one line is read by
  -- `Metadata::from_str` as that metadata, whatever code follows.
  pub from_str-lines_of :
      (m : Metadata) (code : Text)
      → All (λ x. IsOneLine x.1) (lines_of m)
      → from_str n (write_lines (lines_of m) code) ≡ ok m
  unfolding from_str from_lines
  from_str-lines_of m code h =
      ap from_lines (metalines-write_lines n l (lines_of m) code h)
      ∙ ap try_from (put_all-lines_of m)
      ∙ try_from-collected m
