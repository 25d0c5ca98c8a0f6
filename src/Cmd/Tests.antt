-- ===== src/Cmd/Tests.antt =====
-- Examples of the commands noscope and delete, on the table of domains.
use sn0int.Prelude.{
  ℕ, not, All, Option, Bool, true, false, find, some, List, [], ◌∷◌, filter, length, Text, codes,
  text_eq, ok, ◌≡◌, ◌≢◌, refl,
}
use sn0int.Models.{NewDomain}
use sn0int.Models.Domain.{Domain}
use sn0int.Models.Domain
use sn0int.Models.Ops.Delete.{IsSelected}
use sn0int.Db.Insert.{DbChange, insert, insert_struct, insert_unknown}
use sn0int.Cmd.Delete.{run_delete-insert_struct}
use sn0int.Models.Ops.{noscope, delete}
use sn0int.Crates.Network.Bits.{bits}
use sn0int.Crates.Table.{first_by_value}
use sn0int.Autonoscope.RuleSet.{default}
use sn0int.Db.Filter.{
  Filter, new, parse, push_arg, push_args, push_pair, push_value, escape, double_quotes,
  is_operator,
}
use sn0int.Db.Kinds.{Kind, entity_of, insert_of, put}
use sn0int.Db.Generic.{Content, insert_generic}
use sn0int.Db.Generic.Rows.{tables, tables_laws}
use sn0int.Cmd.Rows.{stores, stores_laws}
use sn0int.Cmd.{run_delete, deleted_rows, updated_rows, parse_in, on_target, run_noscope}
use sn0int.Cmd.Noscope.{target_of, run_noscope-insert_generic}

abbrev same : Text → Text
same s = s

abbrev row_a : Bool → Domain
row_a unscoped = record { id = 0; value = codes "a.com"; unscoped = unscoped }

abbrev row_b : Domain
row_b = record { id = 1; value = codes "b.com"; unscoped = false }

abbrev nothing : (k : Kind) → (tables.entities k).Connection
nothing k = []

abbrev content : Bool → Content tables
content unscoped = record {
  entities = put Kind.domain (row_a unscoped ∷ row_b ∷ []) nothing;
  subdomain_ip_addrs = [];
  network_devices = [];
  breach_emails = [];
}

abbrev args : List Text
args = codes "where" ∷ codes "value=a.com" ∷ []

abbrev condition : Filter
condition = new (codes " value = 'a.com'")

parsed : parse same args ≡ ok condition
unfolding parse push_args push_arg push_pair push_value escape double_quotes is_operator text_eq
    find
parsed = refl

abbrev after : Content tables
after = record (content false) {
  entities = put Kind.domain (row_a true ∷ row_b ∷ []) (content false).entities;
}

done :
    run_noscope same tables stores (target_of Kind.domain args) (content false)
    ≡ (ok (updated_rows 1), after)
unfolding run_noscope on_target parse_in noscope parse push_args push_arg push_pair push_value
    escape double_quotes is_operator put text_eq find
done = refl

abbrev a_com : NewDomain
a_com = record { value = codes "a.com"; unscoped = false }

known :
    first_by_value
      (entity_of Kind.domain)
      ((entity_of Kind.domain).value a_com)
      ((tables_laws Kind.domain).rows ((content false).entities Kind.domain))
    ≡ some (row_a false)
unfolding first_by_value put text_eq
known = refl

selected : (stores_laws Kind.domain).holds condition.query (row_a false) ≡ true
unfolding text_eq
selected = refl

run_noscope-insert_generic_example :
    (updated_rows 1
      ≡ updated_rows (
          length (
            filter
              ((stores_laws Kind.domain).holds condition.query)
              ((tables_laws Kind.domain).rows ((content false).entities Kind.domain)))))
    × ((other : Kind) → Kind.domain ≢ other → after.entities other ≡ (content false).entities other)
    × ((insert_generic tables bits (default bits) (insert_of Kind.domain a_com) after).1.entities
          Kind.domain
        ≡ after.entities Kind.domain)
run_noscope-insert_generic_example =
    run_noscope-insert_generic same tables stores tables_laws stores_laws Kind.domain args condition
      (content false) after (updated_rows 1) bits (default bits) a_com parsed done known selected

abbrev deleted : Content tables
deleted = record (content false) {
  entities = put Kind.domain (row_b ∷ []) (content false).entities;
}

deletes :
    run_delete same tables stores (target_of Kind.domain args) (content false)
    ≡ (ok (deleted_rows 1), deleted)
unfolding run_delete on_target parse_in delete parse push_args push_arg push_pair push_value escape
    double_quotes is_operator put text_eq find
deletes = refl

all-IsSelected :
    All
      (IsSelected
        (entity_of Kind.domain)
        ((stores_laws Kind.domain).holds condition.query)
        (codes "a.com"))
      ((tables_laws Kind.domain).rows ((content false).entities Kind.domain))
unfolding put text_eq
all-IsSelected = ((λ _. refl), ((λ e. absurd (cc)), tt))

abbrev answer : Option (DbChange (entity_of Kind.domain) × ℕ)
answer = some (insert, 1)

abbrev added_row : Domain
added_row = record { id = 1; value = codes "a.com"; unscoped = true }

added :
    insert_struct
      (entity_of Kind.domain)
      (tables.entities Kind.domain)
      a_com
      false
      (deleted.entities Kind.domain)
    ≡ (ok (some (insert, 1)), row_b ∷ added_row ∷ [])
unfolding insert_struct insert_unknown first_by_value put text_eq Domain.set_scoped Domain.stored
added = refl

run_delete-insert_struct_example :
    (deleted_rows 1
      ≡ deleted_rows (
          length (
            filter
              ((stores_laws Kind.domain).holds condition.query)
              ((tables_laws Kind.domain).rows ((content false).entities Kind.domain)))))
    × ((tables_laws Kind.domain).rows (deleted.entities Kind.domain)
        ≡ filter
            (λ row. not ((stores_laws Kind.domain).holds condition.query row))
            ((tables_laws Kind.domain).rows ((content false).entities Kind.domain)))
    × ((id : ℕ) × (answer ≡ some (insert, id)))
    × ((row : Domain) × (first_by_value
            (entity_of Kind.domain)
            (codes "a.com")
            (row_b ∷ added_row ∷ [])
          ≡ some row)
        × ((entity_of Kind.domain).scoped row ≡ false))
run_delete-insert_struct_example =
    run_delete-insert_struct same tables stores tables_laws stores_laws Kind.domain args condition
      (content false) deleted (deleted_rows 1) a_com false (row_b ∷ added_row ∷ []) parsed deletes
      all-IsSelected added
