-- ===== src/Models.antt =====
-- src/models: the structs of the entities that modules insert. A date is its distance from the first one,
-- an integer is the number of its bits, and a number in floating point that of its value, since only
-- equality is asked of it; NaN, which SQLite stores as NULL, is left out.
pub mod Fields
pub mod Entity
pub mod Domain
pub mod Subdomain
pub mod Url
pub mod Port
pub mod Netblock
pub mod Email
pub mod Device
pub mod Account
pub mod CryptoAddr
pub mod PhoneNumber
pub mod IpAddr
pub mod Network
pub mod Image
pub mod Breach
pub mod Activity
pub mod Links
pub mod SubdomainIpAddr
pub mod NetworkDevice
pub mod BreachEmail
pub mod Ops
mod Tests
use sn0int.Prelude.{ℕ, Bool, Text, Option}

pub record NewDomain : Type 0 where
  pub value : Text
  pub unscoped : Bool

pub record NewSubdomain : Type 0 where
  pub domain_id : ℕ
  pub value : Text
  pub resolvable : Option Bool
  pub unscoped : Bool

pub record NewIpAddr : Type 0 where
  pub family : Text
  pub value : Text
  pub continent : Option Text
  pub continent_code : Option Text
  pub country : Option Text
  pub country_code : Option Text
  pub city : Option Text
  pub latitude : Option ℕ
  pub longitude : Option ℕ
  pub asn : Option ℕ
  pub as_org : Option Text
  pub description : Option Text
  pub reverse_dns : Option Text
  pub unscoped : Bool

pub record NewSubdomainIpAddr : Type 0 where
  pub subdomain_id : ℕ
  pub ip_addr_id : ℕ

pub record NewUrl : Type 0 where
  pub subdomain_id : ℕ
  pub value : Text
  pub path : Text
  pub status : Option ℕ
  pub body : Option Text
  pub online : Option Bool
  pub title : Option Text
  pub redirect : Option Text
  pub unscoped : Bool

pub record NewPort : Type 0 where
  pub ip_addr_id : ℕ
  pub value : Text
  pub ip_addr : Text
  pub port : ℕ
  pub protocol : Text
  pub status : Option Text
  pub banner : Option Text
  pub service : Option Text
  pub version : Option Text
  pub unscoped : Bool

pub record NewNetblock : Type 0 where
  pub family : Text
  pub value : Text
  pub asn : Option ℕ
  pub as_org : Option Text
  pub description : Option Text
  pub unscoped : Bool

pub record NewEmail : Type 0 where
  pub value : Text
  pub displayname : Option Text
  pub valid : Option Bool
  pub unscoped : Bool

pub record NewDevice : Type 0 where
  pub value : Text
  pub name : Option Text
  pub hostname : Option Text
  pub vendor : Option Text
  pub last_seen : Option ℕ
  pub unscoped : Bool

pub record NewAccount : Type 0 where
  pub value : Text
  pub service : Text
  pub username : Text
  pub displayname : Option Text
  pub email : Option Text
  pub url : Option Text
  pub last_seen : Option ℕ
  pub birthday : Option Text
  pub phonenumber : Option Text
  pub profile_pic : Option Text
  pub unscoped : Bool

pub record NewCryptoAddr : Type 0 where
  pub value : Text
  pub currency : Option Text
  pub denominator : Option ℕ
  pub balance : Option ℕ
  pub received : Option ℕ
  pub first_seen : Option ℕ
  pub last_withdrawal : Option ℕ
  pub description : Option Text
  pub unscoped : Bool

pub record NewPhoneNumber : Type 0 where
  pub value : Text
  pub name : Option Text
  pub valid : Option Bool
  pub last_online : Option ℕ
  pub country : Option Text
  pub carrier : Option Text
  pub line : Option Text
  pub is_ported : Option Bool
  pub last_ported : Option ℕ
  pub caller_name : Option Text
  pub caller_type : Option Text
  pub unscoped : Bool

pub record NewNetwork : Type 0 where
  pub value : Text
  pub latitude : Option ℕ
  pub longitude : Option ℕ
  pub description : Option Text
  pub unscoped : Bool

pub record NewNetworkDevice : Type 0 where
  pub network_id : ℕ
  pub device_id : ℕ
  pub ipaddr : Option Text
  pub last_seen : Option ℕ

pub record NewBreach : Type 0 where
  pub value : Text
  pub unscoped : Bool

pub record NewBreachEmail : Type 0 where
  pub breach_id : ℕ
  pub email_id : ℕ
  pub password : Option Text

pub record NewImage : Type 0 where
  pub value : Text
  pub filename : Option Text
  pub mime : Option Text
  pub width : Option ℕ
  pub height : Option ℕ
  pub created : Option ℕ
  pub latitude : Option ℕ
  pub longitude : Option ℕ
  pub nudity : Option ℕ
  pub ahash : Option Text
  pub dhash : Option Text
  pub phash : Option Text
  pub unscoped : Bool

pub data Insert : Type 0 where
  domain : NewDomain → Insert
  subdomain : NewSubdomain → Insert
  ip_addr : NewIpAddr → Insert
  subdomain_ip_addr : NewSubdomainIpAddr → Insert
  url : NewUrl → Insert
  email : NewEmail → Insert
  phone_number : NewPhoneNumber → Insert
  device : NewDevice → Insert
  network : NewNetwork → Insert
  network_device : NewNetworkDevice → Insert
  account : NewAccount → Insert
  breach : NewBreach → Insert
  breach_email : NewBreachEmail → Insert
  image : NewImage → Insert
  port : NewPort → Insert
  netblock : NewNetblock → Insert
  crypto_addr : NewCryptoAddr → Insert
