-- ===== src/Autonoscope/Tests.antt =====
-- Examples of rules, with the small network library and the table in memory.
use sn0int.Prelude.{
  none, Text, codes, true, false, List, [], ◌∷◌, ◌++◌, ok, text_eq, split, nonempty, ◌>>=◌, ◌≡◌,
  ◌↔◌, refl,
}
use sn0int.Crates.Network.Bits.{bits, bits-NetworkLaws}
use sn0int.Crates.Sqlite.{Autonoscope}
use sn0int.Crates.Sqlite.Rows.{table, table-SqliteLaws}
use sn0int.Models.{Insert, NewNetblock}
use sn0int.Autonoscope.Rule.{RuleType, as_str, from_str, insert_by, sort_by}
use sn0int.Autonoscope.Segments.{zip_all_eq}
use sn0int.Autonoscope.Domain
use sn0int.Autonoscope.Ip
use sn0int.Autonoscope.Url
use sn0int.Autonoscope.RuleSet.{
  RuleSet, push_row, push_rows, build, sort_rules, matches, decide, matches_any,
}
use sn0int.Autonoscope.RuleSet.Store.{
  Scope, add_rule, delete_rule, add_new, db_add, db_delete, retain_rules, into_new,
}
use sn0int.Autonoscope.RuleSet.{load}
use sn0int.Autonoscope.RuleSet.Matching.{IsSorted, build-IsSorted, Judged, matches-Judged}
use sn0int.Autonoscope.RuleSet.Sync.{IsSynced, delete_rule-IsSynced, add_rule-IsSynced}

domain_rule_iff_example :
    ((Domain.try_from (codes "example.com") >>= λ r. Domain.matches_str r (codes "a.example.com"))
      ≡ ok true)
    ↔ ((front : List Text) × (Domain.labels (codes "a.example.com")
          ≡ front ++ Domain.labels (codes "example.com")))
domain_rule_iff_example = Domain.domain_rule_iff (codes "example.com") (codes "a.example.com")

abbrev ten : Ip.IpRule bits
ten = record { network = true ∷ false ∷ [] }

abbrev block : NewNetblock
block = record {
  family = codes "4";
  value = codes "101";
  asn = none;
  as_org = none;
  description = none;
  unscoped = false;
}

block_matches : Ip.matches_netblock bits ten block ≡ ok true
unfolding Ip.matches_netblock
block_matches = refl

netblock_rule_contains_example : bits.contains ten.network (true ∷ false ∷ true ∷ true ∷ []) ≡ true
netblock_rule_contains_example =
    Ip.netblock_rule_contains bits bits-NetworkLaws ten block (true ∷ false ∷ true ∷ [])
      (true ∷ false ∷ true ∷ true ∷ []) refl block_matches refl

abbrev page : Url.UrlRule bits
page = record { url = codes "h/a"; origin = codes "h"; segments = codes "a" ∷ [] }

page_parsed : bits.parse_url (codes "h/a/b") ≡ ok (codes "h" ∷ codes "a" ∷ codes "b" ∷ [])
unfolding split
page_parsed = refl

url_rule_iff_example : (Url.matches_str bits page (codes "h/a/b") ≡ ok true) ↔ (
    (bits.origin_eq (codes "h") (codes "h") ≡ true)
    × (rest : List Text) × (nonempty (codes "a" ∷ codes "b" ∷ []) ≡ (codes "a" ∷ []) ++ rest))
url_rule_iff_example = Url.url_rule_iff bits page (codes "h/a/b") page_parsed refl

-- A table of three rules, and the set that it loads as.
abbrev rows : List Autonoscope
rows =
    record { id = 0; object = codes "domain"; value = codes "com"; scoped = true }
    ∷ record { id = 1; object = codes "domain"; value = codes "a.com"; scoped = false }
    ∷ record { id = 2; object = codes "ip"; value = codes "10"; scoped = false }
    ∷ []

abbrev loaded : RuleSet bits
loaded = record {
  domains =
      record {
        rule = record { value = codes "a.com"; fragments = codes "com" ∷ codes "a" ∷ [] };
        scoped = false;
      }
      ∷ record {
        rule = record { value = codes "com"; fragments = codes "com" ∷ [] };
        scoped = true;
      }
      ∷ [];
  ips = record { rule = ten; scoped = false } ∷ [];
  urls = [];
}

rows_load : build bits rows ≡ ok loaded
unfolding build push_rows push_row sort_rules from_str text_eq Domain.try_from_row Domain.try_from
    Ip.try_from_row Ip.try_from split sort_by insert_by Domain.precision Ip.precision
rows_load = refl

loads_rows : load bits table rows ≡ ok loaded
unfolding load
loads_rows = rows_load

loaded-IsSorted : IsSorted bits loaded
loaded-IsSorted = build-IsSorted bits rows loaded rows_load

abbrev asked : Insert
asked = Insert.domain (record { value = codes "x.a.com"; unscoped = false })

asked_out : matches bits loaded asked ≡ ok false
unfolding matches decide matches_any Domain.matches_domain Domain.matches_str split zip_all_eq
    text_eq
asked_out = refl

matches-Judged_example : Judged bits loaded asked false
matches-Judged_example = matches-Judged bits loaded asked false loaded-IsSorted asked_out

abbrev scope : Scope bits table
scope = record { set = loaded; db = rows }

scope-IsSynced : IsSynced bits table table-SqliteLaws scope
unfolding Ip.try_from Ip.to_string from_str text_eq
scope-IsSynced = record {
  canonical = (λ h. absurd (cc), (λ h. absurd (cc), (λ h r e. cc, tt)));
  loaded = rows_load;
}

-- What is left of the table and the set without the rule `com`.
abbrev deleted : Scope bits table
deleted = record {
  set = record loaded {
    domains =
        record {
          rule = record { value = codes "a.com"; fragments = codes "com" ∷ codes "a" ∷ [] };
          scoped = false;
        }
        ∷ [];
  };
  db =
      record { id = 1; object = codes "domain"; value = codes "a.com"; scoped = false }
      ∷ record { id = 2; object = codes "ip"; value = codes "10"; scoped = false }
      ∷ [];
}

delete_com : delete_rule bits table RuleType.domain (codes "com") scope ≡ (ok tt, deleted)
unfolding delete_rule db_delete retain_rules as_str text_eq Domain.to_string
delete_com = refl

delete_rule-IsSynced_example : IsSynced bits table table-SqliteLaws deleted
delete_rule-IsSynced_example =
    delete_rule-IsSynced bits table table-SqliteLaws RuleType.domain (codes "com") scope deleted
      scope-IsSynced delete_com

-- The rule `com` again, with the other flag: it replaces the first one.
abbrev changed : Scope bits table
changed = record {
  set = record loaded {
    domains =
        record {
          rule = record { value = codes "a.com"; fragments = codes "com" ∷ codes "a" ∷ [] };
          scoped = false;
        }
        ∷ record {
          rule = record { value = codes "com"; fragments = codes "com" ∷ [] };
          scoped = false;
        }
        ∷ [];
  };
  db =
      record { id = 1; object = codes "domain"; value = codes "a.com"; scoped = false }
      ∷ record { id = 2; object = codes "ip"; value = codes "10"; scoped = false }
      ∷ record { id = 2; object = codes "domain"; value = codes "com"; scoped = false }
      ∷ [];
}

add_com : add_rule bits table RuleType.domain (codes "com") false scope ≡ (ok tt, changed)
unfolding add_rule delete_rule add_new db_add into_new db_delete retain_rules as_str text_eq
    Domain.try_from Domain.into_rule Domain.to_string Domain.precision Ip.precision split sort_rules
    sort_by insert_by
add_com = refl

add_rule-IsSynced_example : IsSynced bits table table-SqliteLaws changed
add_rule-IsSynced_example =
    add_rule-IsSynced bits table table-SqliteLaws bits-NetworkLaws RuleType.domain (codes "com")
      false scope changed scope-IsSynced add_com
