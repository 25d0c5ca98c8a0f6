-- ===== src/Db/Names.antt =====
-- src/db/mod.rs and src/models/mod.rs: the names of families and of tables. strum derives how they
-- are written, in kebab-case and in snake_case, and how they are read.
use sn0int.Prelude.{
  List, [], ◌∷◌, Option, none, some, String, Text, codes, text_eq, text_eq_iff, if◌then◌else◌, ◌≡◌,
  refl, ap, ◌∙◌, Bool-cases, inl, inr,
}
use sn0int.Models.{Insert}

pub data Family : Type 0 where
  domain subdomain ipaddr subdomain_ipaddr url email phonenumber device network network_device
        account breach breach_email image port netblock cryptoaddr :
      Family

pub data Table : Type 0 where
  domains subdomains ipaddrs subdomain_ipaddrs urls emails phonenumbers devices networks
        network_devices accounts breaches breach_emails images ports netblocks cryptoaddrs :
      Table

-- `Family::as_str`
unfoldable pub family_as_str : Family → String
family_as_str Family.domain = "domain"
family_as_str Family.subdomain = "subdomain"
family_as_str Family.ipaddr = "ipaddr"
family_as_str Family.subdomain_ipaddr = "subdomain-ipaddr"
family_as_str Family.url = "url"
family_as_str Family.email = "email"
family_as_str Family.phonenumber = "phonenumber"
family_as_str Family.device = "device"
family_as_str Family.network = "network"
family_as_str Family.network_device = "network-device"
family_as_str Family.account = "account"
family_as_str Family.breach = "breach"
family_as_str Family.breach_email = "breach-email"
family_as_str Family.image = "image"
family_as_str Family.port = "port"
family_as_str Family.netblock = "netblock"
family_as_str Family.cryptoaddr = "cryptoaddr"

-- `Table::as_str`
unfoldable pub table_as_str : Table → String
table_as_str Table.domains = "domains"
table_as_str Table.subdomains = "subdomains"
table_as_str Table.ipaddrs = "ipaddrs"
table_as_str Table.subdomain_ipaddrs = "subdomain_ipaddrs"
table_as_str Table.urls = "urls"
table_as_str Table.emails = "emails"
table_as_str Table.phonenumbers = "phonenumbers"
table_as_str Table.devices = "devices"
table_as_str Table.networks = "networks"
table_as_str Table.network_devices = "network_devices"
table_as_str Table.accounts = "accounts"
table_as_str Table.breaches = "breaches"
table_as_str Table.breach_emails = "breach_emails"
table_as_str Table.images = "images"
table_as_str Table.ports = "ports"
table_as_str Table.netblocks = "netblocks"
table_as_str Table.cryptoaddrs = "cryptoaddrs"

-- `Table::from(&Insert)`
unfoldable pub table_of : Insert → Table
table_of (Insert.domain _) = Table.domains
table_of (Insert.subdomain _) = Table.subdomains
table_of (Insert.ip_addr _) = Table.ipaddrs
table_of (Insert.subdomain_ip_addr _) = Table.subdomain_ipaddrs
table_of (Insert.url _) = Table.urls
table_of (Insert.email _) = Table.emails
table_of (Insert.phone_number _) = Table.phonenumbers
table_of (Insert.device _) = Table.devices
table_of (Insert.network _) = Table.networks
table_of (Insert.network_device _) = Table.network_devices
table_of (Insert.account _) = Table.accounts
table_of (Insert.breach _) = Table.breaches
table_of (Insert.breach_email _) = Table.breach_emails
table_of (Insert.image _) = Table.images
table_of (Insert.port _) = Table.ports
table_of (Insert.netblock _) = Table.netblocks
table_of (Insert.crypto_addr _) = Table.cryptoaddrs

-- `Insert::table`
unfoldable pub table : Insert → Text
unfolding table_of table_as_str
table obj = codes (table_as_str (table_of obj))

-- `Insert::family`
unfoldable pub family : Insert → Text
unfolding family_as_str
family (Insert.domain _) = codes (family_as_str Family.domain)
family (Insert.subdomain _) = codes (family_as_str Family.subdomain)
family (Insert.ip_addr _) = codes (family_as_str Family.ipaddr)
family (Insert.subdomain_ip_addr _) = codes (family_as_str Family.subdomain_ipaddr)
family (Insert.url _) = codes (family_as_str Family.url)
family (Insert.email _) = codes (family_as_str Family.email)
family (Insert.phone_number _) = codes (family_as_str Family.phonenumber)
family (Insert.device _) = codes (family_as_str Family.device)
family (Insert.network _) = codes (family_as_str Family.network)
family (Insert.network_device _) = codes (family_as_str Family.network_device)
family (Insert.account _) = codes (family_as_str Family.account)
family (Insert.breach _) = codes (family_as_str Family.breach)
family (Insert.breach_email _) = codes (family_as_str Family.breach_email)
family (Insert.image _) = codes (family_as_str Family.image)
family (Insert.port _) = codes (family_as_str Family.port)
family (Insert.netblock _) = codes (family_as_str Family.netblock)
family (Insert.crypto_addr _) = codes (family_as_str Family.cryptoaddr)

abbrev pub all_tables : List Table
all_tables =
    Table.domains ∷ Table.subdomains ∷ Table.ipaddrs ∷ Table.subdomain_ipaddrs ∷ Table.urls
    ∷ Table.emails ∷ Table.phonenumbers ∷ Table.devices ∷ Table.networks ∷ Table.network_devices
    ∷ Table.accounts ∷ Table.breaches ∷ Table.breach_emails ∷ Table.images ∷ Table.ports
    ∷ Table.netblocks ∷ Table.cryptoaddrs ∷ []

-- The first of some tables with a name.
unfoldable pub first_named : Text → List Table → Option Table
unfolding table_as_str
first_named s [] = none
first_named s (t ∷ tables) =
    let later = first_named s tables in if text_eq s (codes (table_as_str t)) then some t else later

-- `parse::<Table>()`, which compares with each name in turn.
unfoldable pub parse_table : Text → Option Table
unfolding first_named
parse_table s = first_named s all_tables

first_named-some :
    (s : Text) (tables : List Table) {t : Table}
    → first_named s tables ≡ some t
    → s ≡ codes (table_as_str t)
unfolding first_named
first_named-some s [] e = absurd (cc)
first_named-some s (x ∷ tables) e = elim (Bool-cases (text_eq s (codes (table_as_str x)))) [
  | inl hit ↦
      (text_eq_iff s (codes (table_as_str x))).0 hit
      ∙ ap (λ o. elim o [ some t ↦ codes (table_as_str t) | none ↦ s ]) (rw hit at e)
  | inr miss ↦ first_named-some s tables (rw miss at e)
]

-- A text that is read as a table is its name.
pub parse_table-some : (s : Text) {t : Table} → parse_table s ≡ some t → s ≡ codes (table_as_str t)
unfolding parse_table
parse_table-some s e = first_named-some s all_tables e

-- What is written is read back.
pub parse_table-as_str : (t : Table) → parse_table (codes (table_as_str t)) ≡ some t
unfolding parse_table first_named table_as_str text_eq
parse_table-as_str Table.domains = refl
parse_table-as_str Table.subdomains = refl
parse_table-as_str Table.ipaddrs = refl
parse_table-as_str Table.subdomain_ipaddrs = refl
parse_table-as_str Table.urls = refl
parse_table-as_str Table.emails = refl
parse_table-as_str Table.phonenumbers = refl
parse_table-as_str Table.devices = refl
parse_table-as_str Table.networks = refl
parse_table-as_str Table.network_devices = refl
parse_table-as_str Table.accounts = refl
parse_table-as_str Table.breaches = refl
parse_table-as_str Table.breach_emails = refl
parse_table-as_str Table.images = refl
parse_table-as_str Table.ports = refl
parse_table-as_str Table.netblocks = refl
parse_table-as_str Table.cryptoaddrs = refl
