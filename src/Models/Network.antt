-- ===== src/Models/Network.antt =====
-- src/models/network.rs: the table, and what the insertion of a known network changes.
use sn0int.Prelude.{◌∙◌, ℕ, Bool, false, not, ◌||◌, Option, Text, ◌≡◌, ◌↔◌, refl, ap}
use sn0int.Models.{NewNetwork}
use sn0int.Models.Fields.{
  texts, numbers, is_some, written, upsert_opt, clear_if_equal, written-upsert_opt,
  upsert_opt-none_iff, written_same, written-written, not-not, or-false,
}
use sn0int.Models.Entity.{Entity, EntityLaws}

pub record Network : Type 0 where
  pub id : ℕ
  pub value : Text
  pub unscoped : Bool
  pub latitude : Option ℕ
  pub longitude : Option ℕ
  pub description : Option Text

pub record NetworkUpdate : Type 0 where
  pub id : ℕ
  pub latitude : Option ℕ
  pub longitude : Option ℕ
  pub description : Option Text

-- `InsertableStruct::set_scoped`
unfoldable pub set_scoped : NewNetwork → Bool → NewNetwork
set_scoped obj scoped = record obj { unscoped = not scoped }

-- `Scopable::scoped`
unfoldable pub scoped : Network → Bool
scoped row = not row.unscoped

-- `Upsertable::upsert`
unfoldable pub upsert : NewNetwork → Network → NetworkUpdate
unfolding upsert_opt
upsert obj existing = record {
  id = existing.id;
  latitude = upsert_opt numbers obj.latitude existing.latitude;
  longitude = upsert_opt numbers obj.longitude existing.longitude;
  description = upsert_opt texts obj.description existing.description;
}

-- `Upsert::is_dirty`
unfoldable pub is_dirty : NetworkUpdate → Bool
is_dirty update = is_some update.latitude || is_some update.longitude || is_some update.description

-- `Updateable::changeset`
unfoldable pub changeset : NetworkUpdate → Network → NetworkUpdate
unfolding clear_if_equal
changeset update existing = record update {
  latitude = clear_if_equal numbers update.latitude existing.latitude;
  longitude = clear_if_equal numbers update.longitude existing.longitude;
  description = clear_if_equal texts update.description existing.description;
}

-- The row of an insertion, and the row of an update, whose empty columns diesel leaves alone.
unfoldable pub stored : ℕ → NewNetwork → Network
stored i obj = record {
  id = i;
  value = obj.value;
  unscoped = obj.unscoped;
  latitude = obj.latitude;
  longitude = obj.longitude;
  description = obj.description;
}

unfoldable pub applied : NetworkUpdate → Network → Network
applied update row = record row {
  latitude = written update.latitude row.latitude;
  longitude = written update.longitude row.longitude;
  description = written update.description row.description;
}

-- The row with each column that is given, and the others as they were.
unfoldable pub merged : NewNetwork → Network → Network
merged obj row = record row {
  latitude = written obj.latitude row.latitude;
  longitude = written obj.longitude row.longitude;
  description = written obj.description row.description;
}

pub network_applied-upsert :
    (obj : NewNetwork) (row : Network) → applied (upsert obj row) row ≡ merged obj row
unfolding applied upsert merged
network_applied-upsert obj row = rw (
  written-upsert_opt numbers obj.latitude row.latitude,
  written-upsert_opt numbers obj.longitude row.longitude,
  written-upsert_opt texts obj.description row.description,
)

network_is_dirty_iff :
    (obj : NewNetwork) (row : Network)
    → (is_dirty (upsert obj row) ≡ false) ↔ (merged obj row ≡ row)
unfolding is_dirty upsert merged
network_is_dirty_iff obj row = (to, from)
  where
    to : is_dirty (upsert obj row) ≡ false → merged obj row ≡ row
    to h =
        let (h2, description_none) = or-false h in
        let (h1, longitude_none) = or-false h2 in
        let latitude_none = h1 in
        let latitude_kept =
          (upsert_opt-none_iff numbers obj.latitude row.latitude).0 latitude_none in
        let longitude_kept =
          (upsert_opt-none_iff numbers obj.longitude row.longitude).0 longitude_none in
        let description_kept =
          (upsert_opt-none_iff texts obj.description row.description).0 description_none in
        rw (latitude_kept, longitude_kept, description_kept) refl

    from : merged obj row ≡ row → is_dirty (upsert obj row) ≡ false
    from h =
        let latitude_kept =
          (upsert_opt-none_iff numbers obj.latitude row.latitude).1 (ap (λ r. r.latitude) h) in
        let longitude_kept =
          (upsert_opt-none_iff numbers obj.longitude row.longitude).1 (ap (λ r. r.longitude) h) in
        let description_kept =
          (upsert_opt-none_iff texts obj.description row.description).1
            (ap (λ r. r.description) h) in
        rw (latitude_kept, longitude_kept, description_kept) refl

abbrev pub entity : Entity
entity = record {
  Row = Network;
  id = λ row. row.id;
  row_value = λ row. row.value;
  scoped = scoped;
  New = NewNetwork;
  value = λ obj. obj.value;
  set_scoped = set_scoped;
  stored = stored;
  Update = NetworkUpdate;
  update_id = λ update. update.id;
  upsert = upsert;
  is_dirty = is_dirty;
  applied = applied;
}

pub entity-EntityLaws : EntityLaws entity
entity-EntityLaws = record {
  value-set_scoped = λ t b. unfold set_scoped in refl;
  value-stored = λ i t. unfold stored in refl;
  value-applied = λ u m. unfold applied in refl;
  scoped-stored = λ i t b. unfold stored scoped set_scoped in not-not b;
  scoped-applied = λ u m. unfold applied scoped in refl;
  id-upsert = λ t m. unfold upsert in refl;
  clean-stored = λ t i b.
      (network_is_dirty_iff t (stored i (set_scoped t b))).1
        (unfold stored set_scoped merged in simp written_same);
  clean-applied = λ t m.
      (network_is_dirty_iff t (applied (upsert t m) m)).1
        (rw (network_applied-upsert t m) (unfold merged in simp written-written));
  applied-clean = λ t m h. network_applied-upsert t m ∙ (network_is_dirty_iff t m).0 h;
}
