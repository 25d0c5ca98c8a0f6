-- ===== src/Common/Tests.antt =====
-- Examples of module names and of headers.
use sn0int.Prelude.{true, Text, codes, List, [], ◌∷◌, some, ok, ◌≡◌, ◌↔◌, refl, arith, All, text_eq}
use sn0int.Crates.Nom.{done}
use sn0int.Crates.Nom.Reference.{reference, reference-NomLaws, span, strip, until}
use sn0int.Crates.Nom.Reference.Repeat.{many, fold_many0, follow, prepend}
use sn0int.Common.Id
use sn0int.Common.Id.{ModuleId, to_string, valid_char, valid_name, token}
use sn0int.Common.Id.Laws.{IsToken, from_str-to_string, to_string_of_from_str, valid_name_iff}
use sn0int.Common.Metadata.{
  EntryType, description, version, source, accounts, key_ring, parse_source, parse_entry_type,
  Metadata, gpl3, group_as_str,
}
use sn0int.Common.Metadata.Header
use sn0int.Common.Metadata.Header.{metalines}
use sn0int.Common.Metadata.Lines.{write_lines, IsOneLine}
use sn0int.Common.Metadata.Sources.{source_text, parse_source_iff}
use sn0int.Common.Metadata.RoundTrip.{lines_of, license_text, from_str-lines_of}

abbrev ctlogs : ModuleId
ctlogs = record { author = codes "kpcyrd"; name = codes "ctlogs" }

author-IsToken : IsToken reference reference-NomLaws (codes "kpcyrd")
unfolding valid_char reference
author-IsToken = (refl, (refl, (refl, (refl, (refl, (refl, tt))))))

name-IsToken : IsToken reference reference-NomLaws (codes "ctlogs")
unfolding valid_char reference
name-IsToken = (refl, (refl, (refl, (refl, (refl, (refl, tt))))))

from_str-to_string_example : Id.from_str reference (to_string ctlogs) ≡ ok ctlogs
from_str-to_string_example =
    from_str-to_string reference reference-NomLaws ctlogs author-IsToken name-IsToken

ctlogs_parsed : Id.from_str reference (codes "kpcyrd/ctlogs") ≡ ok ctlogs
unfolding to_string
ctlogs_parsed = from_str-to_string reference reference-NomLaws ctlogs author-IsToken name-IsToken

to_string_of_from_str_example :
    (codes "kpcyrd/ctlogs" ≡ to_string ctlogs)
    × IsToken reference reference-NomLaws (codes "kpcyrd")
    × IsToken reference reference-NomLaws (codes "ctlogs")
to_string_of_from_str_example =
    to_string_of_from_str reference reference-NomLaws (codes "kpcyrd/ctlogs") ctlogs ctlogs_parsed

-- A name with characters that no token has.
valid_name_iff_example :
    (valid_name reference (codes "a!/..") ≡ ok tt) ↔ (valid_char reference b'a' ≡ true)
valid_name_iff_example = valid_name_iff reference reference-NomLaws b'a' (codes "!/..")

parse_source_iff_example :
    (parse_source (codes "accounts:github.com") ≡ ok (accounts (some (codes "github.com"))))
    ↔ (codes "accounts:github.com" ≡ source_text (accounts (some (codes "github.com"))))
parse_source_iff_example =
    parse_source_iff (codes "accounts:github.com") (accounts (some (codes "github.com")))

abbrev lines : List (EntryType × Text)
lines = (description, codes "Scan") ∷ (source, codes "domains") ∷ []

lines-IsOneLine : All (λ x. IsOneLine x.1) lines
lines-IsOneLine = (omega arith, (omega arith, tt))

abbrev scan : Metadata
scan = record {
  description = codes "Scan";
  version = codes "0.1.0";
  source = some (key_ring (codes "aws"));
  keyring_access = codes "shodan" ∷ codes "aws" ∷ [];
  license = gpl3;
}

scan-IsOneLine : All (λ x. IsOneLine x.1) (lines_of scan)
unfolding lines_of license_text group_as_str
scan-IsOneLine =
    (omega arith, (omega arith, (omega arith, (omega arith, (omega arith, (omega arith, tt))))))

from_str-lines_of_example :
    Header.from_str reference (write_lines (lines_of scan) (codes "function run()")) ≡ ok scan
from_str-lines_of_example =
    from_str-lines_of reference reference-NomLaws scan (codes "function run()") scan-IsOneLine

-- A header that is read by evaluation.
written :
    Header.metalines reference (codes "-- Version: 1\n\nx")
    ≡ done (codes "x") ((version, codes "1") ∷ [])
unfolding metalines Header.metaline reference span strip until many fold_many0 follow prepend
    parse_entry_type text_eq
written = refl
