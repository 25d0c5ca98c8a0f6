-- ===== src/Db/Generic/Tests.antt =====
-- Examples of an insertion of any entity: a domain into empty tables.
use sn0int.Prelude.{true, false, [], ◌∷◌, some, codes, text_eq, ok, ◌≡◌, refl}
use sn0int.Models.{Insert, NewDomain}
use sn0int.Models.Domain
use sn0int.Crates.Network.Bits.{bits}
use sn0int.Crates.Table.{first_by_value}
use sn0int.Autonoscope.RuleSet.{default, decide, matches, matches_any}
use sn0int.Db.Insert.{insert_struct, insert_unknown}
use sn0int.Db.Kinds.{Kind, put}
use sn0int.Db.Generic.{Change, Content, insert_entity, insert_scoped, insert_generic}
use sn0int.Db.Generic.Rows.{tables, tables_laws}
use sn0int.Db.Generic.Outcome.{Inserted, insert_generic-Inserted}

abbrev nothing : (k : Kind) → (tables.entities k).Connection
nothing k = []

abbrev empty : Content tables
empty = record {
  entities = nothing;
  subdomain_ip_addrs = [];
  network_devices = [];
  breach_emails = [];
}

abbrev example : NewDomain
example = record { value = codes "example.com"; unscoped = false }

abbrev after : Content tables
after = record {
  entities =
      put Kind.domain (record { id = 0; value = codes "example.com"; unscoped = false } ∷ [])
        nothing;
  subdomain_ip_addrs = [];
  network_devices = [];
  breach_emails = [];
}

in_scope : matches bits (default bits) (Insert.domain example) ≡ ok true
unfolding matches decide matches_any
in_scope = refl

inserted :
    insert_generic tables bits (default bits) (Insert.domain example) empty
    ≡ (ok (some (Change.insert, 0)), after)
unfolding insert_generic insert_scoped insert_entity insert_struct insert_unknown matches decide
    matches_any first_by_value Domain.stored Domain.set_scoped put text_eq
inserted = refl

insert_generic-Inserted_example : Inserted tables tables_laws Kind.domain example true empty after
insert_generic-Inserted_example =
    insert_generic-Inserted tables tables_laws bits (default bits) Kind.domain example true empty
      after in_scope inserted
