-- ===== src/Db/Generic.antt =====
-- src/db/mod.rs: the insertion and the update of any object, and the query for the id of an entity. The update of
-- an entity is tagged with its kind, as the enum `Update` does, which has no case for domains and breaches: their `NullUpdate` is never
-- dirty, and so it is never written.
pub mod Outcome
pub mod Rows
mod Tests
use sn0int.Prelude.{
  ℕ, Bool, true, false, not, List, Option, none, some, Text, codes, Result, ok, err, message,
  if◌then◌else◌,
}
use sn0int.Models.{Insert}
use sn0int.Models.Entity.{Entity}
use sn0int.Models.SubdomainIpAddr
use sn0int.Models.NetworkDevice
use sn0int.Models.BreachEmail
use sn0int.Models.BreachEmail.{BreachEmailUpdate}
use sn0int.Models.NetworkDevice.{NetworkDeviceUpdate}
use sn0int.Crates.Network.{Network}
use sn0int.Crates.Table.{Table}
use sn0int.Crates.LinkTable.{LinkTable}
use sn0int.Autonoscope.RuleSet.{RuleSet, matches}
use sn0int.Db.Names.{Family}
use sn0int.Db.Kinds.{Kind, entity_of, put}
use sn0int.Db.Insert.{DbChange, insert_struct}
use sn0int.Db.Links.{LinkChange, insert_link}
use sn0int.Db.BreachEmail.{BreachEmailChange, Updates, insert_breach_email}

pub data Update : Type 0 where
  entity : (k : Kind) → (entity_of k).Update → Update
  network_device : NetworkDeviceUpdate → Update
  breach_email : BreachEmailUpdate → Update

-- `Update::is_dirty`
unfoldable pub is_dirty : Update → Bool
unfolding NetworkDevice.is_dirty BreachEmail.is_dirty
is_dirty (Update.entity k update) = (entity_of k).is_dirty update
is_dirty (Update.network_device update) = NetworkDevice.is_dirty update
is_dirty (Update.breach_email update) = BreachEmail.is_dirty update

-- `DbChange`, of any object.
pub data Change : Type 0 where
  insert : Change
  update : Update → Change
  none_change : Change

-- `DbChange::is_some`
unfoldable pub is_some_change : Change → Bool
is_some_change none_change = false
is_some_change _ = true

abbrev pub Answer : Type 0
Answer = Result (Option (Change × ℕ))

-- The change of an entity, behind `generic`.
abbrev pub entity_change : (k : Kind) → DbChange (entity_of k) → Change
entity_change k DbChange.insert = insert
entity_change k (DbChange.update u) = update (Update.entity k u)
entity_change k DbChange.none_change = none_change

abbrev pub link_change : LinkChange → Change
link_change LinkChange.insert = insert
link_change LinkChange.none_change = none_change

abbrev pub breach_email_change : BreachEmailChange → Change
breach_email_change BreachEmailChange.insert = insert
breach_email_change (BreachEmailChange.update u) = update (Update.breach_email u)
breach_email_change BreachEmailChange.none_change = none_change

abbrev pub answer : {A : Type 0} → (A → Change) → Result (Option (A × ℕ)) → Answer
answer f (err x) = err x
answer f (ok none) = ok none
answer f (ok (some (change, id))) = ok (some (f change, id))

-- The tables of the database.
pub record Tables : Type 1 where
  pub entities : (k : Kind) → Table (entity_of k)
  pub subdomain_ip_addrs : LinkTable SubdomainIpAddr.link
  pub network_devices : LinkTable NetworkDevice.link
  pub breach_emails : LinkTable BreachEmail.link
  pub update_network_device :
      NetworkDeviceUpdate → network_devices.Connection → Result network_devices.Connection
  pub update_breach_email : Updates breach_emails

-- What the connection leads to: the content of each table.
pub record Content (t : Tables) : Type 0 where
  pub entities : (k : Kind) → (t.entities k).Connection
  pub subdomain_ip_addrs : t.subdomain_ip_addrs.Connection
  pub network_devices : t.network_devices.Connection
  pub breach_emails : t.breach_emails.Connection

module _ (t : Tables) where
  -- `insert_struct`, on the table of the kind.
  unfoldable pub insert_entity :
      (k : Kind) → (entity_of k).New → Bool → Content t → Answer × Content t
  unfolding insert_struct put
  insert_entity k obj scoped db =
      let (a, table) = insert_struct (entity_of k) (t.entities k) obj scoped (db.entities k) in
      (answer (entity_change k) a, record db { entities = put k table db.entities })

  -- The `match` of `insert_generic`.
  unfoldable pub insert_scoped : Insert → Bool → Content t → Answer × Content t
  unfolding insert_entity insert_link insert_breach_email
  insert_scoped (Insert.domain obj) scoped db = insert_entity Kind.domain obj scoped db
  insert_scoped (Insert.subdomain obj) scoped db = insert_entity Kind.subdomain obj scoped db
  insert_scoped (Insert.ip_addr obj) scoped db = insert_entity Kind.ip_addr obj scoped db
  insert_scoped (Insert.url obj) scoped db = insert_entity Kind.url obj scoped db
  insert_scoped (Insert.email obj) scoped db = insert_entity Kind.email obj scoped db
  insert_scoped (Insert.phone_number obj) scoped db = insert_entity Kind.phone_number obj scoped db
  insert_scoped (Insert.device obj) scoped db = insert_entity Kind.device obj scoped db
  insert_scoped (Insert.network obj) scoped db = insert_entity Kind.network obj scoped db
  insert_scoped (Insert.account obj) scoped db = insert_entity Kind.account obj scoped db
  insert_scoped (Insert.breach obj) scoped db = insert_entity Kind.breach obj scoped db
  insert_scoped (Insert.image obj) scoped db = insert_entity Kind.image obj scoped db
  insert_scoped (Insert.port obj) scoped db = insert_entity Kind.port obj scoped db
  insert_scoped (Insert.netblock obj) scoped db = insert_entity Kind.netblock obj scoped db
  insert_scoped (Insert.crypto_addr obj) scoped db = insert_entity Kind.crypto_addr obj scoped db
  insert_scoped (Insert.subdomain_ip_addr obj) scoped db =
      let (a, table) =
        insert_link SubdomainIpAddr.link t.subdomain_ip_addrs obj db.subdomain_ip_addrs in
      (answer link_change a, record db { subdomain_ip_addrs = table })
  insert_scoped (Insert.network_device obj) scoped db =
      let (a, table) = insert_link NetworkDevice.link t.network_devices obj db.network_devices in
      (answer link_change a, record db { network_devices = table })
  insert_scoped (Insert.breach_email obj) scoped db =
      let (a, table) =
        insert_breach_email t.breach_emails t.update_breach_email obj db.breach_emails in
      (answer breach_email_change a, record db { breach_emails = table })

  abbrev pub with_scope : Insert → Content t → Result Bool → Answer × Content t
  with_scope obj db (err x) = (err x, db)
  with_scope obj db (ok scoped) = insert_scoped obj scoped db

  -- `Database::insert_generic`
  unfoldable pub insert_generic :
      (n : Network) → RuleSet n → Insert → Content t → Answer × Content t
  unfolding insert_scoped matches
  insert_generic n set obj db = with_scope obj db (matches n set obj)

  abbrev pub entity_updated :
      (k : Kind) → ℕ → Content t → Result (t.entities k).Connection → Result ℕ × Content t
  entity_updated k id db (err x) = (err x, db)
  entity_updated k id db (ok table) = (ok id, record db { entities = put k table db.entities })

  abbrev pub network_device_updated :
      ℕ → Content t → Result t.network_devices.Connection → Result ℕ × Content t
  network_device_updated id db (err x) = (err x, db)
  network_device_updated id db (ok table) = (ok id, record db { network_devices = table })

  abbrev pub breach_email_updated :
      ℕ → Content t → Result t.breach_emails.Connection → Result ℕ × Content t
  breach_email_updated id db (err x) = (err x, db)
  breach_email_updated id db (ok table) = (ok id, record db { breach_emails = table })

  -- `Database::update_generic`
  unfoldable pub update_generic : Update → Content t → Result ℕ × Content t
  unfolding put
  update_generic (Update.entity k u) db =
      entity_updated k ((entity_of k).update_id u) db ((t.entities k).update u (db.entities k))
  update_generic (Update.network_device u) db =
      network_device_updated u.id db (t.update_network_device u db.network_devices)
  update_generic (Update.breach_email u) db =
      breach_email_updated u.id db (t.update_breach_email u db.breach_emails)

  abbrev pub typed_id : (e : Entity) → Result (Option e.Row) → Result (Option ℕ)
  typed_id e (err x) = err x
  typed_id e (ok none) = ok none
  typed_id e (ok (some row)) = if e.scoped row then ok (some (e.id row)) else ok none

  -- `Database::get_opt_typed`
  unfoldable pub get_opt_typed : Kind → Text → Content t → Result (Option ℕ)
  get_opt_typed k value db = typed_id (entity_of k) ((t.entities k).get_opt value (db.entities k))

  -- `Database::get_opt`
  unfoldable pub get_opt : Family → Text → Content t → Result (Option ℕ)
  unfolding get_opt_typed
  get_opt Family.domain value db = get_opt_typed Kind.domain value db
  get_opt Family.subdomain value db = get_opt_typed Kind.subdomain value db
  get_opt Family.ipaddr value db = get_opt_typed Kind.ip_addr value db
  get_opt Family.subdomain_ipaddr value db = err (message "Unsupported operation")
  get_opt Family.url value db = get_opt_typed Kind.url value db
  get_opt Family.email value db = get_opt_typed Kind.email value db
  get_opt Family.phonenumber value db = get_opt_typed Kind.phone_number value db
  get_opt Family.device value db = get_opt_typed Kind.device value db
  get_opt Family.network value db = get_opt_typed Kind.network value db
  get_opt Family.network_device value db = err (message "Unsupported operation")
  get_opt Family.account value db = get_opt_typed Kind.account value db
  get_opt Family.breach value db = get_opt_typed Kind.breach value db
  get_opt Family.breach_email value db = err (message "Unsupported operation")
  get_opt Family.image value db = get_opt_typed Kind.image value db
  get_opt Family.port value db = get_opt_typed Kind.port value db
  get_opt Family.netblock value db = get_opt_typed Kind.netblock value db
  get_opt Family.cryptoaddr value db = get_opt_typed Kind.crypto_addr value db
