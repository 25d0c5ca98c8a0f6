-- ===== src/Db/Ttl.antt =====
-- src/db/ttl.rs: entities that expire. `Utc::now` is an argument for each reading. A notification runs modules,
-- which may change the database in any way.
pub mod Reap
pub mod Bump
mod Tests
use sn0int.Prelude.{
  ℕ, ◌==◌, Bool, true, false, not, ◌&&◌, List, [], ◌∷◌, ◌++◌, map, filter, Option, none, some, Text,
  text_eq, codes, Result, ok, err, message, ◌>>=◌, ltb, String, if◌then◌else◌, ◌≡◌,
}
use sn0int.Prelude.Int.{ℤ}
use sn0int.Models.{Insert}
use sn0int.Db.Names.{Table, table, table_as_str, parse_table}

pub record Ttl : Type 0 where
  pub id : ℕ
  pub family : Text
  pub key : ℕ
  pub value : Text
  pub expire : ℕ

pub record NewTtl : Type 0 where
  pub family : Text
  pub key : ℕ
  pub value : Text
  pub expire : ℕ

-- What diesel does with the table `ttls`, its deletion of a row of another table of the schema by its id, the
-- addition of seconds to an instant, and `notify::trigger_notify_event`, whose errors are only printed.
pub record TtlDb : Type 1 where
  pub Connection : Type 0
  pub find_ttl : Text → ℕ → Connection → Result (Option Ttl)
  pub expired_ttls : ℕ → Connection → Result (List Ttl)
  pub insert_ttl : NewTtl → Connection → Result Connection
  pub update_ttl : Ttl → Connection → Result Connection
  pub delete_ttl : ℕ → Connection → Result Connection
  pub delete_where : Text → ℕ → Connection → Result Connection
  pub add_seconds : ℕ → ℤ → ℕ
  pub notify : Text → Text → Connection → Connection

-- `filter(family.eq(..)).filter(key.eq(..)).first()`, on a list of rows.
abbrev pub selects : Text → ℕ → Ttl → Bool
selects family key row = text_eq row.family family && row.key == key

unfoldable pub first_ttl : Text → ℕ → List Ttl → Option Ttl
first_ttl family key [] = none
first_ttl family key (row ∷ rows) =
    let later = first_ttl family key rows in if selects family key row then some row else later

-- The row of an update: diesel writes all columns but the id.
abbrev pub updated : Ttl → Ttl → Ttl
updated u row = if row.id == u.id then u else row

pub record TtlDbLaws (d : TtlDb) : Type 0 where
  pub rows : d.Connection → List Ttl
  pub find_rows :
      (family : Text) (key : ℕ) (db : d.Connection) {found : Option Ttl}
      → d.find_ttl family key db ≡ ok found
      → found ≡ first_ttl family key (rows db)
  pub expired_rows :
      (now : ℕ) (db : d.Connection) {found : List Ttl}
      → d.expired_ttls now db ≡ ok found
      → found ≡ filter (λ row. ltb row.expire now) (rows db)
  pub update_rows :
      (u : Ttl) (db : d.Connection) {db' : d.Connection}
      → d.update_ttl u db ≡ ok db'
      → rows db' ≡ map (updated u) (rows db)
  pub delete_rows :
      (id : ℕ) (db : d.Connection) {db' : d.Connection}
      → d.delete_ttl id db ≡ ok db'
      → rows db' ≡ filter (λ row. not (row.id == id)) (rows db)
  -- Whether a table of the schema has a row with an id: a deletion takes that row, and adds none.
  pub has : Text → ℕ → d.Connection → Bool
  pub has-delete_where :
      (t : Text) (id : ℕ) (db : d.Connection) {db' : d.Connection}
      → d.delete_where t id db ≡ ok db'
      → has t id db' ≡ false
  pub has-delete_where_other :
      (t t' : Text) (id id' : ℕ) (db : d.Connection) {db' : d.Connection}
      → d.delete_where t id db ≡ ok db'
      → has t' id' db ≡ false
      → has t' id' db' ≡ false
  pub rows-delete_where :
      (t : Table) (id : ℕ) (db : d.Connection) {db' : d.Connection}
      → d.delete_where (codes (table_as_str t)) id db ≡ ok db'
      → rows db' ≡ rows db
  pub has-delete_ttl :
      (t : Text) (id id' : ℕ) (db : d.Connection) {db' : d.Connection}
      → d.delete_ttl id db ≡ ok db'
      → has t id' db ≡ false
      → has t id' db' ≡ false

-- The types that implement Model.
pub data AnyModel : Type 0 where
  domain subdomain ip_addr subdomain_ip_addr url email phone_number device network network_device
        account breach breach_email image port netblock crypto_addr :
      AnyModel

-- The table of the schema that each is a row of.
abbrev pub schema : AnyModel → String
schema AnyModel.domain = "domains"
schema AnyModel.subdomain = "subdomains"
schema AnyModel.ip_addr = "ipaddrs"
schema AnyModel.subdomain_ip_addr = "subdomain_ipaddrs"
schema AnyModel.url = "urls"
schema AnyModel.email = "emails"
schema AnyModel.phone_number = "phonenumbers"
schema AnyModel.device = "devices"
schema AnyModel.network = "networks"
schema AnyModel.network_device = "network_devices"
schema AnyModel.account = "accounts"
schema AnyModel.breach = "breaches"
schema AnyModel.breach_email = "breach_emails"
schema AnyModel.image = "images"
schema AnyModel.port = "ports"
schema AnyModel.netblock = "netblocks"
schema AnyModel.crypto_addr = "cryptoaddrs"

abbrev pub parsed : Option Table → Result Table
parsed none = err (message "Matching variant not found")
parsed (some t) = ok t

module _ (d : TtlDb) where
  -- `Ttl::ttl_to_datetime`
  abbrev pub ttl_to_datetime : ℕ → ℤ → ℕ
  ttl_to_datetime now ttl = d.add_seconds now ttl

  -- `Ttl::find`
  unfoldable pub find : Insert → ℕ → d.Connection → Result (Option Ttl)
  unfolding table
  find obj key db = d.find_ttl (table obj) key db

  -- `Ttl::expired`
  unfoldable pub expired : ℕ → d.Connection → Result (List Ttl)
  expired now db = d.expired_ttls now db

  -- `Ttl::create`
  unfoldable pub create : Insert → ℕ → Text → ℤ → ℕ → d.Connection → Result d.Connection
  unfolding table
  create obj key value ttl now db =
      d.insert_ttl
        (record { family = table obj; key = key; value = value; expire = ttl_to_datetime now ttl })
        db

  abbrev pub bump_found : ℕ → d.Connection → Option Ttl → Result d.Connection
  bump_found new_expire db none = ok db
  bump_found new_expire db (some old) =
      if ltb old.expire new_expire
      then d.update_ttl (record old { expire = new_expire }) db
      else ok db

  -- `Ttl::bump`
  unfoldable pub bump : Insert → ℕ → ℤ → ℕ → d.Connection → Result d.Connection
  unfolding find
  bump obj key ttl now db =
      find obj key db >>= λ found. bump_found (ttl_to_datetime now ttl) db found

  -- `Model::delete_id` of each type
  abbrev pub delete_id : AnyModel → ℕ → d.Connection → Result d.Connection
  delete_id m id db = d.delete_where (codes (schema m)) id db

  -- The `match` of `Ttl::delete`.
  unfoldable pub delete_of_table : Table → ℕ → d.Connection → Result d.Connection
  delete_of_table Table.domains key db = delete_id AnyModel.domain key db
  delete_of_table Table.subdomains key db = delete_id AnyModel.subdomain key db
  delete_of_table Table.ipaddrs key db = delete_id AnyModel.ip_addr key db
  delete_of_table Table.subdomain_ipaddrs key db = delete_id AnyModel.subdomain_ip_addr key db
  delete_of_table Table.urls key db = delete_id AnyModel.url key db
  delete_of_table Table.emails key db = delete_id AnyModel.email key db
  delete_of_table Table.phonenumbers key db = delete_id AnyModel.phone_number key db
  delete_of_table Table.devices key db = delete_id AnyModel.device key db
  delete_of_table Table.networks key db = delete_id AnyModel.network key db
  delete_of_table Table.network_devices key db = delete_id AnyModel.network_device key db
  delete_of_table Table.accounts key db = delete_id AnyModel.account key db
  delete_of_table Table.breaches key db = delete_id AnyModel.breach key db
  delete_of_table Table.breach_emails key db = delete_id AnyModel.breach_email key db
  delete_of_table Table.images key db = delete_id AnyModel.image key db
  delete_of_table Table.ports key db = delete_id AnyModel.port key db
  delete_of_table Table.netblocks key db = delete_id AnyModel.netblock key db
  delete_of_table Table.cryptoaddrs key db = delete_id AnyModel.crypto_addr key db

  -- `Ttl::delete`
  unfoldable pub delete : Ttl → d.Connection → Result d.Connection
  unfolding parse_table delete_of_table
  delete row db = parsed (parse_table row.family) >>= λ family.
      delete_of_table family row.key db >>= λ db'. d.delete_ttl row.id db'

  -- The texts of the notification; `quote` is how Debug writes a text.
  abbrev pub subject : (Text → Text) → Ttl → Text
  subject quote row = codes "Deleted " ++ row.family ++ codes " " ++ quote row.value

  abbrev pub topic : Ttl → Text
  topic row = codes "db:" ++ row.family ++ codes ":" ++ row.value ++ codes ":delete"

  -- The loop of `reap_expired`.
  unfoldable pub reap : (Text → Text) → List Ttl → d.Connection → Result d.Connection
  unfolding delete
  reap quote [] db = ok db
  reap quote (row ∷ expired) db =
      delete row db >>= λ db'. reap quote expired (d.notify (subject quote row) (topic row) db')

  -- `reap_expired`
  unfoldable pub reap_expired : (Text → Text) → ℕ → d.Connection → Result d.Connection
  unfolding expired reap
  reap_expired quote now db = expired now db >>= λ rows. reap quote rows db
