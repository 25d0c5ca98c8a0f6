-- ===== src/Common/Metadata.antt =====
-- sn0int-common/src/metadata.rs: what the header of a module declares.
pub mod Header
pub mod Lines
pub mod RoundTrip
pub mod Sources
use sn0int.Prelude.{
  ℕ, Bool, true, false, ◌&&◌, List, [], ◌∷◌, ◌++◌, Option, none, some, Text, codes, text_eq, find,
  take, drop, if◌then◌else◌, Result, ok, err, message, about, about_two, ◌>>=◌, Error, String,
}

pub data EntryType : Type 0 where
  description version source keyring_access license : EntryType

-- `EntryType::from_str`
unfoldable pub parse_entry_type : Text → Result EntryType
parse_entry_type s =
    if text_eq s (codes "Description")
    then ok description
    else if text_eq s (codes "Version")
    then ok version
    else if text_eq s (codes "Source")
    then ok source
    else if text_eq s (codes "Keyring-Access")
    then ok keyring_access
    else if text_eq s (codes "License")
    then ok license
    else err (about "Unknown EntryType" s)

pub data Source : Type 0 where
  domains subdomains ip_addrs urls emails phone_numbers networks devices : Source
  accounts : Option Text → Source
  breaches images ports netblocks : Source
  crypto_addrs : Option Text → Source
  key_ring : Text → Source
  notifications : Source

unfoldable pub group_as_str : Source → Text
group_as_str domains = codes "domains"
group_as_str subdomains = codes "subdomains"
group_as_str ip_addrs = codes "ipaddrs"
group_as_str urls = codes "urls"
group_as_str emails = codes "emails"
group_as_str phone_numbers = codes "phonenumbers"
group_as_str networks = codes "networks"
group_as_str devices = codes "devices"
group_as_str (accounts _) = codes "accounts"
group_as_str breaches = codes "breaches"
group_as_str images = codes "images"
group_as_str ports = codes "ports"
group_as_str netblocks = codes "netblocks"
group_as_str (crypto_addrs _) = codes "cryptoaddrs"
group_as_str notifications = codes "notifications"
group_as_str (key_ring _) = codes "keyring"

abbrev is_none {ℓ} : {A : Type ℓ} → Option A → Bool
is_none none = true
is_none (some _) = false

-- The last arms of the match in `Source::from_str`.
abbrev pub key_ring_of : Text → Option Text → Result Source
key_ring_of key none = err (about "Unknown Source" key)
key_ring_of key (some param) =
    if text_eq key (codes "keyring")
    then ok (key_ring param)
    else err (about_two "Unknown Source" key param)

-- The match of `Source::from_str`.
unfoldable pub source_of : Text → Option Text → Result Source
source_of key param =
    if text_eq key (codes "domains") && is_none param
    then ok domains
    else if text_eq key (codes "subdomains") && is_none param
    then ok subdomains
    else if text_eq key (codes "ipaddrs") && is_none param
    then ok ip_addrs
    else if text_eq key (codes "urls") && is_none param
    then ok urls
    else if text_eq key (codes "emails") && is_none param
    then ok emails
    else if text_eq key (codes "phonenumbers") && is_none param
    then ok phone_numbers
    else if text_eq key (codes "networks") && is_none param
    then ok networks
    else if text_eq key (codes "devices") && is_none param
    then ok devices
    else if text_eq key (codes "accounts")
    then ok (accounts param)
    else if text_eq key (codes "breaches") && is_none param
    then ok breaches
    else if text_eq key (codes "images") && is_none param
    then ok images
    else if text_eq key (codes "ports") && is_none param
    then ok ports
    else if text_eq key (codes "netblocks") && is_none param
    then ok netblocks
    else if text_eq key (codes "cryptoaddrs")
    then ok (crypto_addrs param)
    else if text_eq key (codes "notifications") && is_none param
    then ok notifications
    else key_ring_of key param

-- `s.find(':')`, then `split_at` and `&b[1..]`.
abbrev pub key_and_param : Text → Option ℕ → Text × Option Text
key_and_param s (some idx) = (take idx s, some (drop 1 (drop idx s)))
key_and_param s none = (s, none)

-- `Source::from_str`
unfoldable pub parse_source : Text → Result Source
unfolding find source_of
parse_source s = let p = key_and_param s (find b':' s) in source_of p.0 p.1

pub data License : Type 0 where
  mit gpl3 lgpl3 bsd2 bsd3 wtfpl : License

-- `License::from_str`
unfoldable pub parse_license : Text → Result License
parse_license s =
    if text_eq s (codes "MIT")
    then ok mit
    else if text_eq s (codes "GPL-3.0")
    then ok gpl3
    else if text_eq s (codes "LGPL-3.0")
    then ok lgpl3
    else if text_eq s (codes "BSD-2-Clause")
    then ok bsd2
    else if text_eq s (codes "BSD-3-Clause")
    then ok bsd3
    else if text_eq s (codes "WTFPL")
    then ok wtfpl
    else err (about "Unsupported license" s)

pub record Metadata : Type 0 where
  pub description : Text
  pub version : Text
  pub source : Option Source
  pub keyring_access : List Text
  pub license : License

pub record NewMetadata : Type 0 where
  pub description : Option Text
  pub version : Option Text
  pub source : Option Text
  pub keyring_access : List Text
  pub license : Option Text

abbrev pub default : NewMetadata
default = record {
  description = none;
  version = none;
  source = none;
  keyring_access = [];
  license = none;
}

-- `ok_or_else(|| format_err!(...))`
abbrev pub required : Option Text → String → Result Text
required none e = err (message e)
required (some x) e = ok x

-- `Some(x) => Some(x.parse()?)`
abbrev pub parse_opt : Option Text → Result (Option Source)
parse_opt none = ok none
parse_opt (some x) = do s ← parse_source x; ok (some s)

-- `NewMetadata::try_from`
unfoldable pub try_from : NewMetadata → Result Metadata
unfolding parse_source parse_license
try_from m = do
  d ← required m.description "Description is required"
  v ← required m.version "Version is required"
  s ← parse_opt m.source
  l ← required m.license "License is required"
  parsed ← parse_license l
  ok (record {
    description = d;
    version = v;
    source = s;
    keyring_access = m.keyring_access;
    license = parsed;
  })

-- One round of the loop of `Metadata::from_str`.
unfoldable pub put : NewMetadata → EntryType × Text → NewMetadata
put m (description, v) = record m { description = some v }
put m (version, v) = record m { version = some v }
put m (source, v) = record m { source = some v }
put m (keyring_access, v) = record m { keyring_access = m.keyring_access ++ v ∷ [] }
put m (license, v) = record m { license = some v }

unfoldable pub put_all : NewMetadata → List (EntryType × Text) → NewMetadata
unfolding put
put_all m [] = m
put_all m (line ∷ lines) = put_all (put m line) lines
