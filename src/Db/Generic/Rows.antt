-- ===== src/Db/Generic/Rows.antt =====
-- All tables of the database in memory.
use sn0int.Prelude.{map, ok}
use sn0int.Models.SubdomainIpAddr
use sn0int.Models.NetworkDevice
use sn0int.Models.BreachEmail
use sn0int.Crates.Table.{TableLaws}
use sn0int.Crates.Table.Rows.{table, table-TableLaws}
use sn0int.Crates.LinkTable
use sn0int.Db.BreachEmail.{updated}
use sn0int.Db.Kinds.{Kind, entity_of}
use sn0int.Db.Generic.{Tables}

abbrev pub tables : Tables
tables = record {
  entities = λ k. table (entity_of k);
  subdomain_ip_addrs = LinkTable.Rows.table SubdomainIpAddr.link;
  network_devices = LinkTable.Rows.table NetworkDevice.link;
  breach_emails = LinkTable.Rows.table BreachEmail.link;
  update_network_device = λ u rows. ok rows;
  update_breach_email = λ u rows. ok (map (updated u) rows);
}

abbrev pub tables_laws : (k : Kind) → TableLaws (entity_of k) (tables.entities k)
tables_laws k = table-TableLaws (entity_of k)
