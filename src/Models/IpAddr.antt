-- ===== src/Models/IpAddr.antt =====
-- src/models/ipaddr.rs: the table, and what the insertion of a known address changes.
use sn0int.Prelude.{◌∙◌, ℕ, Bool, false, not, ◌||◌, Option, Text, ◌≡◌, ◌↔◌, refl, ap}
use sn0int.Models.{NewIpAddr}
use sn0int.Models.Fields.{
  texts, numbers, is_some, written, upsert_opt, clear_if_equal, written-upsert_opt,
  upsert_opt-none_iff, written_same, written-written, not-not, or-false,
}
use sn0int.Models.Entity.{Entity, EntityLaws}

pub record IpAddr : Type 0 where
  pub id : ℕ
  pub family : Text
  pub value : Text
  pub unscoped : Bool
  pub continent : Option Text
  pub continent_code : Option Text
  pub country : Option Text
  pub country_code : Option Text
  pub city : Option Text
  pub latitude : Option ℕ
  pub longitude : Option ℕ
  pub asn : Option ℕ
  pub as_org : Option Text
  pub description : Option Text
  pub reverse_dns : Option Text

pub record IpAddrUpdate : Type 0 where
  pub id : ℕ
  pub continent : Option Text
  pub continent_code : Option Text
  pub country : Option Text
  pub country_code : Option Text
  pub city : Option Text
  pub latitude : Option ℕ
  pub longitude : Option ℕ
  pub asn : Option ℕ
  pub as_org : Option Text
  pub description : Option Text
  pub reverse_dns : Option Text

-- `InsertableStruct::set_scoped`
unfoldable pub set_scoped : NewIpAddr → Bool → NewIpAddr
set_scoped obj scoped = record obj { unscoped = not scoped }

-- `Scopable::scoped`
unfoldable pub scoped : IpAddr → Bool
scoped row = not row.unscoped

-- `Upsertable::upsert`
unfoldable pub upsert : NewIpAddr → IpAddr → IpAddrUpdate
unfolding upsert_opt
upsert obj existing = record {
  id = existing.id;
  continent = upsert_opt texts obj.continent existing.continent;
  continent_code = upsert_opt texts obj.continent_code existing.continent_code;
  country = upsert_opt texts obj.country existing.country;
  country_code = upsert_opt texts obj.country_code existing.country_code;
  city = upsert_opt texts obj.city existing.city;
  latitude = upsert_opt numbers obj.latitude existing.latitude;
  longitude = upsert_opt numbers obj.longitude existing.longitude;
  asn = upsert_opt numbers obj.asn existing.asn;
  as_org = upsert_opt texts obj.as_org existing.as_org;
  description = upsert_opt texts obj.description existing.description;
  reverse_dns = upsert_opt texts obj.reverse_dns existing.reverse_dns;
}

-- `Upsert::is_dirty`
unfoldable pub is_dirty : IpAddrUpdate → Bool
is_dirty update =
    is_some update.continent
    || is_some update.continent_code
    || is_some update.country
    || is_some update.country_code
    || is_some update.city
    || is_some update.latitude
    || is_some update.longitude
    || is_some update.asn
    || is_some update.as_org
    || is_some update.description
    || is_some update.reverse_dns

-- `Updateable::changeset`
unfoldable pub changeset : IpAddrUpdate → IpAddr → IpAddrUpdate
unfolding clear_if_equal
changeset update existing = record update {
  continent = clear_if_equal texts update.continent existing.continent;
  continent_code = clear_if_equal texts update.continent_code existing.continent_code;
  country = clear_if_equal texts update.country existing.country;
  country_code = clear_if_equal texts update.country_code existing.country_code;
  city = clear_if_equal texts update.city existing.city;
  latitude = clear_if_equal numbers update.latitude existing.latitude;
  longitude = clear_if_equal numbers update.longitude existing.longitude;
  asn = clear_if_equal numbers update.asn existing.asn;
  as_org = clear_if_equal texts update.as_org existing.as_org;
  description = clear_if_equal texts update.description existing.description;
  reverse_dns = clear_if_equal texts update.reverse_dns existing.reverse_dns;
}

-- The row of an insertion, and the row of an update, whose empty columns diesel leaves alone.
unfoldable pub stored : ℕ → NewIpAddr → IpAddr
stored i obj = record {
  id = i;
  family = obj.family;
  value = obj.value;
  unscoped = obj.unscoped;
  continent = obj.continent;
  continent_code = obj.continent_code;
  country = obj.country;
  country_code = obj.country_code;
  city = obj.city;
  latitude = obj.latitude;
  longitude = obj.longitude;
  asn = obj.asn;
  as_org = obj.as_org;
  description = obj.description;
  reverse_dns = obj.reverse_dns;
}

unfoldable pub applied : IpAddrUpdate → IpAddr → IpAddr
applied update row = record row {
  continent = written update.continent row.continent;
  continent_code = written update.continent_code row.continent_code;
  country = written update.country row.country;
  country_code = written update.country_code row.country_code;
  city = written update.city row.city;
  latitude = written update.latitude row.latitude;
  longitude = written update.longitude row.longitude;
  asn = written update.asn row.asn;
  as_org = written update.as_org row.as_org;
  description = written update.description row.description;
  reverse_dns = written update.reverse_dns row.reverse_dns;
}

-- The row with each column that is given, and the others as they were.
unfoldable pub merged : NewIpAddr → IpAddr → IpAddr
merged obj row = record row {
  continent = written obj.continent row.continent;
  continent_code = written obj.continent_code row.continent_code;
  country = written obj.country row.country;
  country_code = written obj.country_code row.country_code;
  city = written obj.city row.city;
  latitude = written obj.latitude row.latitude;
  longitude = written obj.longitude row.longitude;
  asn = written obj.asn row.asn;
  as_org = written obj.as_org row.as_org;
  description = written obj.description row.description;
  reverse_dns = written obj.reverse_dns row.reverse_dns;
}

pub ipaddr_applied-upsert :
    (obj : NewIpAddr) (row : IpAddr) → applied (upsert obj row) row ≡ merged obj row
unfolding applied upsert merged
ipaddr_applied-upsert obj row = rw (
  written-upsert_opt texts obj.continent row.continent,
  written-upsert_opt texts obj.continent_code row.continent_code,
  written-upsert_opt texts obj.country row.country,
  written-upsert_opt texts obj.country_code row.country_code,
  written-upsert_opt texts obj.city row.city,
  written-upsert_opt numbers obj.latitude row.latitude,
  written-upsert_opt numbers obj.longitude row.longitude,
  written-upsert_opt numbers obj.asn row.asn,
  written-upsert_opt texts obj.as_org row.as_org,
  written-upsert_opt texts obj.description row.description,
  written-upsert_opt texts obj.reverse_dns row.reverse_dns,
)

ipaddr_is_dirty_iff :
    (obj : NewIpAddr) (row : IpAddr) → (is_dirty (upsert obj row) ≡ false) ↔ (merged obj row ≡ row)
unfolding is_dirty upsert merged
ipaddr_is_dirty_iff obj row = (to, from)
  where
    to : is_dirty (upsert obj row) ≡ false → merged obj row ≡ row
    to h =
        let (h10, reverse_dns_none) = or-false h in
        let (h9, description_none) = or-false h10 in
        let (h8, as_org_none) = or-false h9 in
        let (h7, asn_none) = or-false h8 in
        let (h6, longitude_none) = or-false h7 in
        let (h5, latitude_none) = or-false h6 in
        let (h4, city_none) = or-false h5 in
        let (h3, country_code_none) = or-false h4 in
        let (h2, country_none) = or-false h3 in
        let (h1, continent_code_none) = or-false h2 in
        let continent_none = h1 in
        let continent_kept =
          (upsert_opt-none_iff texts obj.continent row.continent).0 continent_none in
        let continent_code_kept =
          (upsert_opt-none_iff texts obj.continent_code row.continent_code).0 continent_code_none in
        let country_kept = (upsert_opt-none_iff texts obj.country row.country).0 country_none in
        let country_code_kept =
          (upsert_opt-none_iff texts obj.country_code row.country_code).0 country_code_none in
        let city_kept = (upsert_opt-none_iff texts obj.city row.city).0 city_none in
        let latitude_kept =
          (upsert_opt-none_iff numbers obj.latitude row.latitude).0 latitude_none in
        let longitude_kept =
          (upsert_opt-none_iff numbers obj.longitude row.longitude).0 longitude_none in
        let asn_kept = (upsert_opt-none_iff numbers obj.asn row.asn).0 asn_none in
        let as_org_kept = (upsert_opt-none_iff texts obj.as_org row.as_org).0 as_org_none in
        let description_kept =
          (upsert_opt-none_iff texts obj.description row.description).0 description_none in
        let reverse_dns_kept =
          (upsert_opt-none_iff texts obj.reverse_dns row.reverse_dns).0 reverse_dns_none in
        rw
          (
            continent_kept, continent_code_kept, country_kept, country_code_kept, city_kept,
            latitude_kept, longitude_kept, asn_kept, as_org_kept, description_kept,
            reverse_dns_kept,
          )
          refl

    from : merged obj row ≡ row → is_dirty (upsert obj row) ≡ false
    from h =
        let continent_kept =
          (upsert_opt-none_iff texts obj.continent row.continent).1 (ap (λ r. r.continent) h) in
        let continent_code_kept =
          (upsert_opt-none_iff texts obj.continent_code row.continent_code).1
            (ap (λ r. r.continent_code) h) in
        let country_kept =
          (upsert_opt-none_iff texts obj.country row.country).1 (ap (λ r. r.country) h) in
        let country_code_kept =
          (upsert_opt-none_iff texts obj.country_code row.country_code).1
            (ap (λ r. r.country_code) h) in
        let city_kept = (upsert_opt-none_iff texts obj.city row.city).1 (ap (λ r. r.city) h) in
        let latitude_kept =
          (upsert_opt-none_iff numbers obj.latitude row.latitude).1 (ap (λ r. r.latitude) h) in
        let longitude_kept =
          (upsert_opt-none_iff numbers obj.longitude row.longitude).1 (ap (λ r. r.longitude) h) in
        let asn_kept = (upsert_opt-none_iff numbers obj.asn row.asn).1 (ap (λ r. r.asn) h) in
        let as_org_kept =
          (upsert_opt-none_iff texts obj.as_org row.as_org).1 (ap (λ r. r.as_org) h) in
        let description_kept =
          (upsert_opt-none_iff texts obj.description row.description).1
            (ap (λ r. r.description) h) in
        let reverse_dns_kept =
          (upsert_opt-none_iff texts obj.reverse_dns row.reverse_dns).1
            (ap (λ r. r.reverse_dns) h) in
        rw
          (
            continent_kept, continent_code_kept, country_kept, country_code_kept, city_kept,
            latitude_kept, longitude_kept, asn_kept, as_org_kept, description_kept,
            reverse_dns_kept,
          )
          refl

abbrev pub entity : Entity
entity = record {
  Row = IpAddr;
  id = λ row. row.id;
  row_value = λ row. row.value;
  scoped = scoped;
  New = NewIpAddr;
  value = λ obj. obj.value;
  set_scoped = set_scoped;
  stored = stored;
  Update = IpAddrUpdate;
  update_id = λ update. update.id;
  upsert = upsert;
  is_dirty = is_dirty;
  applied = applied;
}

pub entity-EntityLaws : EntityLaws entity
entity-EntityLaws = record {
  value-set_scoped = λ t b. unfold set_scoped in refl;
  value-stored = λ i t. unfold stored in refl;
  value-applied = λ u m. unfold applied in refl;
  scoped-stored = λ i t b. unfold stored scoped set_scoped in not-not b;
  scoped-applied = λ u m. unfold applied scoped in refl;
  id-upsert = λ t m. unfold upsert in refl;
  clean-stored = λ t i b.
      (ipaddr_is_dirty_iff t (stored i (set_scoped t b))).1
        (unfold stored set_scoped merged in simp written_same);
  clean-applied = λ t m.
      (ipaddr_is_dirty_iff t (applied (upsert t m) m)).1
        (rw (ipaddr_applied-upsert t m) (unfold merged in simp written-written));
  applied-clean = λ t m h. ipaddr_applied-upsert t m ∙ (ipaddr_is_dirty_iff t m).0 h;
}
