-- ===== src/Db/Kinds.antt =====
-- The kinds of entities, each with its table: the cases of `Insert` that go through `insert_struct`.
use sn0int.Prelude.{◌≡◌, ◌≢◌, refl}
use sn0int.Models.{Insert}
use sn0int.Models.Entity.{Entity, EntityLaws}
use sn0int.Models.Domain
use sn0int.Models.Subdomain
use sn0int.Models.IpAddr
use sn0int.Models.Url
use sn0int.Models.Email
use sn0int.Models.PhoneNumber
use sn0int.Models.Device
use sn0int.Models.Network
use sn0int.Models.Account
use sn0int.Models.Breach
use sn0int.Models.Image
use sn0int.Models.Port
use sn0int.Models.Netblock
use sn0int.Models.CryptoAddr

pub data Kind : Type 0 where
  domain subdomain ip_addr url email phone_number device network account breach image port netblock
        crypto_addr :
      Kind

abbrev pub entity_of : Kind → Entity
entity_of Kind.domain = Domain.entity
entity_of Kind.subdomain = Subdomain.entity
entity_of Kind.ip_addr = IpAddr.entity
entity_of Kind.url = Url.entity
entity_of Kind.email = Email.entity
entity_of Kind.phone_number = PhoneNumber.entity
entity_of Kind.device = Device.entity
entity_of Kind.network = Network.entity
entity_of Kind.account = Account.entity
entity_of Kind.breach = Breach.entity
entity_of Kind.image = Image.entity
entity_of Kind.port = Port.entity
entity_of Kind.netblock = Netblock.entity
entity_of Kind.crypto_addr = CryptoAddr.entity

pub entity_of-EntityLaws : (k : Kind) → EntityLaws (entity_of k)
entity_of-EntityLaws Kind.domain = Domain.entity-EntityLaws
entity_of-EntityLaws Kind.subdomain = Subdomain.entity-EntityLaws
entity_of-EntityLaws Kind.ip_addr = IpAddr.entity-EntityLaws
entity_of-EntityLaws Kind.url = Url.entity-EntityLaws
entity_of-EntityLaws Kind.email = Email.entity-EntityLaws
entity_of-EntityLaws Kind.phone_number = PhoneNumber.entity-EntityLaws
entity_of-EntityLaws Kind.device = Device.entity-EntityLaws
entity_of-EntityLaws Kind.network = Network.entity-EntityLaws
entity_of-EntityLaws Kind.account = Account.entity-EntityLaws
entity_of-EntityLaws Kind.breach = Breach.entity-EntityLaws
entity_of-EntityLaws Kind.image = Image.entity-EntityLaws
entity_of-EntityLaws Kind.port = Port.entity-EntityLaws
entity_of-EntityLaws Kind.netblock = Netblock.entity-EntityLaws
entity_of-EntityLaws Kind.crypto_addr = CryptoAddr.entity-EntityLaws

abbrev pub insert_of : (k : Kind) → (entity_of k).New → Insert
insert_of Kind.domain obj = Insert.domain obj
insert_of Kind.subdomain obj = Insert.subdomain obj
insert_of Kind.ip_addr obj = Insert.ip_addr obj
insert_of Kind.url obj = Insert.url obj
insert_of Kind.email obj = Insert.email obj
insert_of Kind.phone_number obj = Insert.phone_number obj
insert_of Kind.device obj = Insert.device obj
insert_of Kind.network obj = Insert.network obj
insert_of Kind.account obj = Insert.account obj
insert_of Kind.breach obj = Insert.breach obj
insert_of Kind.image obj = Insert.image obj
insert_of Kind.port obj = Insert.port obj
insert_of Kind.netblock obj = Insert.netblock obj
insert_of Kind.crypto_addr obj = Insert.crypto_addr obj

-- The row with each optional column that is given, and all else as it was. Domains and breaches have no such
-- column.
abbrev pub merged_of : (k : Kind) → (entity_of k).New → (entity_of k).Row → (entity_of k).Row
merged_of Kind.domain obj row = row
merged_of Kind.subdomain obj row = Subdomain.merged obj row
merged_of Kind.ip_addr obj row = IpAddr.merged obj row
merged_of Kind.url obj row = Url.merged obj row
merged_of Kind.email obj row = Email.merged obj row
merged_of Kind.phone_number obj row = PhoneNumber.merged obj row
merged_of Kind.device obj row = Device.merged obj row
merged_of Kind.network obj row = Network.merged obj row
merged_of Kind.account obj row = Account.merged obj row
merged_of Kind.breach obj row = row
merged_of Kind.image obj row = Image.merged obj row
merged_of Kind.port obj row = Port.merged obj row
merged_of Kind.netblock obj row = Netblock.merged obj row
merged_of Kind.crypto_addr obj row = CryptoAddr.merged obj row

pub merged_of_update :
    (k : Kind) (obj : (entity_of k).New) (row : (entity_of k).Row)
    → (entity_of k).applied ((entity_of k).upsert obj row) row ≡ merged_of k obj row
unfolding Breach.applied
merged_of_update Kind.domain obj row = refl
merged_of_update Kind.subdomain obj row = Subdomain.subdomain_applied-upsert obj row
merged_of_update Kind.ip_addr obj row = IpAddr.ipaddr_applied-upsert obj row
merged_of_update Kind.url obj row = Url.url_applied-upsert obj row
merged_of_update Kind.email obj row = Email.email_applied-upsert obj row
merged_of_update Kind.phone_number obj row = PhoneNumber.phonenumber_applied-upsert obj row
merged_of_update Kind.device obj row = Device.device_applied-upsert obj row
merged_of_update Kind.network obj row = Network.network_applied-upsert obj row
merged_of_update Kind.account obj row = Account.account_applied-upsert obj row
merged_of_update Kind.breach obj row = refl
merged_of_update Kind.image obj row = Image.image_applied-upsert obj row
merged_of_update Kind.port obj row = Port.port_applied-upsert obj row
merged_of_update Kind.netblock obj row = Netblock.netblock_applied-upsert obj row
merged_of_update Kind.crypto_addr obj row = CryptoAddr.cryptoaddr_applied-upsert obj row

-- A state for each kind, with that of one kind replaced.
module _ {C : Kind → Type 0} where
  unfoldable pub put : (k : Kind) → C k → ((k : Kind) → C k) → (k : Kind) → C k
  put Kind.domain c db Kind.domain = c
  put Kind.subdomain c db Kind.subdomain = c
  put Kind.ip_addr c db Kind.ip_addr = c
  put Kind.url c db Kind.url = c
  put Kind.email c db Kind.email = c
  put Kind.phone_number c db Kind.phone_number = c
  put Kind.device c db Kind.device = c
  put Kind.network c db Kind.network = c
  put Kind.account c db Kind.account = c
  put Kind.breach c db Kind.breach = c
  put Kind.image c db Kind.image = c
  put Kind.port c db Kind.port = c
  put Kind.netblock c db Kind.netblock = c
  put Kind.crypto_addr c db Kind.crypto_addr = c
  put _ c db other = db other

  pub put_same : (k : Kind) (c : C k) (db : (k : Kind) → C k) → put k c db k ≡ c
  unfolding put
  put_same Kind.domain c db = refl
  put_same Kind.subdomain c db = refl
  put_same Kind.ip_addr c db = refl
  put_same Kind.url c db = refl
  put_same Kind.email c db = refl
  put_same Kind.phone_number c db = refl
  put_same Kind.device c db = refl
  put_same Kind.network c db = refl
  put_same Kind.account c db = refl
  put_same Kind.breach c db = refl
  put_same Kind.image c db = refl
  put_same Kind.port c db = refl
  put_same Kind.netblock c db = refl
  put_same Kind.crypto_addr c db = refl

  pub put_other :
      (k other : Kind) (c : C k) (db : (k : Kind) → C k) → k ≢ other → put k c db other ≡ db other
  unfolding put
  put_other Kind.domain Kind.domain c db ne = absurd (ne refl)
  put_other Kind.subdomain Kind.subdomain c db ne = absurd (ne refl)
  put_other Kind.ip_addr Kind.ip_addr c db ne = absurd (ne refl)
  put_other Kind.url Kind.url c db ne = absurd (ne refl)
  put_other Kind.email Kind.email c db ne = absurd (ne refl)
  put_other Kind.phone_number Kind.phone_number c db ne = absurd (ne refl)
  put_other Kind.device Kind.device c db ne = absurd (ne refl)
  put_other Kind.network Kind.network c db ne = absurd (ne refl)
  put_other Kind.account Kind.account c db ne = absurd (ne refl)
  put_other Kind.breach Kind.breach c db ne = absurd (ne refl)
  put_other Kind.image Kind.image c db ne = absurd (ne refl)
  put_other Kind.port Kind.port c db ne = absurd (ne refl)
  put_other Kind.netblock Kind.netblock c db ne = absurd (ne refl)
  put_other Kind.crypto_addr Kind.crypto_addr c db ne = absurd (ne refl)
  put_other _ _ c db ne = refl
