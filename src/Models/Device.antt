-- ===== src/Models/Device.antt =====
-- src/models/device.rs: the table, and what the insertion of a known device changes.
use sn0int.Prelude.{◌∙◌, ℕ, Bool, false, not, ◌||◌, Option, Text, ◌≡◌, ◌↔◌, refl, ap}
use sn0int.Models.{NewDevice}
use sn0int.Models.Fields.{
  texts, numbers, is_some, written, upsert_opt, clear_if_equal, written-upsert_opt,
  upsert_opt-none_iff, written_same, written-written, not-not, or-false,
}
use sn0int.Models.Entity.{Entity, EntityLaws}

pub record Device : Type 0 where
  pub id : ℕ
  pub value : Text
  pub unscoped : Bool
  pub name : Option Text
  pub hostname : Option Text
  pub vendor : Option Text
  pub last_seen : Option ℕ

pub record DeviceUpdate : Type 0 where
  pub id : ℕ
  pub name : Option Text
  pub hostname : Option Text
  pub vendor : Option Text
  pub last_seen : Option ℕ

-- `InsertableStruct::set_scoped`
unfoldable pub set_scoped : NewDevice → Bool → NewDevice
set_scoped obj scoped = record obj { unscoped = not scoped }

-- `Scopable::scoped`
unfoldable pub scoped : Device → Bool
scoped row = not row.unscoped

-- `Upsertable::upsert`
unfoldable pub upsert : NewDevice → Device → DeviceUpdate
unfolding upsert_opt
upsert obj existing = record {
  id = existing.id;
  name = upsert_opt texts obj.name existing.name;
  hostname = upsert_opt texts obj.hostname existing.hostname;
  vendor = upsert_opt texts obj.vendor existing.vendor;
  last_seen = upsert_opt numbers obj.last_seen existing.last_seen;
}

-- `Upsert::is_dirty`
unfoldable pub is_dirty : DeviceUpdate → Bool
is_dirty update =
    is_some update.name
    || is_some update.hostname
    || is_some update.vendor
    || is_some update.last_seen

-- `Updateable::changeset`
unfoldable pub changeset : DeviceUpdate → Device → DeviceUpdate
unfolding clear_if_equal
changeset update existing = record update {
  name = clear_if_equal texts update.name existing.name;
  hostname = clear_if_equal texts update.hostname existing.hostname;
  vendor = clear_if_equal texts update.vendor existing.vendor;
  last_seen = clear_if_equal numbers update.last_seen existing.last_seen;
}

-- The row of an insertion, and the row of an update, whose empty columns diesel leaves alone.
unfoldable pub stored : ℕ → NewDevice → Device
stored i obj = record {
  id = i;
  value = obj.value;
  unscoped = obj.unscoped;
  name = obj.name;
  hostname = obj.hostname;
  vendor = obj.vendor;
  last_seen = obj.last_seen;
}

unfoldable pub applied : DeviceUpdate → Device → Device
applied update row = record row {
  name = written update.name row.name;
  hostname = written update.hostname row.hostname;
  vendor = written update.vendor row.vendor;
  last_seen = written update.last_seen row.last_seen;
}

-- The row with each column that is given, and the others as they were.
unfoldable pub merged : NewDevice → Device → Device
merged obj row = record row {
  name = written obj.name row.name;
  hostname = written obj.hostname row.hostname;
  vendor = written obj.vendor row.vendor;
  last_seen = written obj.last_seen row.last_seen;
}

-- An update gives the row what is given, and leaves the rest.
pub device_applied-upsert :
    (obj : NewDevice) (row : Device) → applied (upsert obj row) row ≡ merged obj row
unfolding applied upsert merged
device_applied-upsert obj row = rw (
  written-upsert_opt texts obj.name row.name,
  written-upsert_opt texts obj.hostname row.hostname,
  written-upsert_opt texts obj.vendor row.vendor,
  written-upsert_opt numbers obj.last_seen row.last_seen,
)

-- There is nothing to write exactly if that changes nothing.
device_is_dirty_iff :
    (obj : NewDevice) (row : Device) → (is_dirty (upsert obj row) ≡ false) ↔ (merged obj row ≡ row)
unfolding is_dirty upsert merged
device_is_dirty_iff obj row = (to, from)
  where
    to : is_dirty (upsert obj row) ≡ false → merged obj row ≡ row
    to h =
        let (h3, last_seen_none) = or-false h in
        let (h2, vendor_none) = or-false h3 in
        let (h1, hostname_none) = or-false h2 in
        let name_none = h1 in
        let name_kept = (upsert_opt-none_iff texts obj.name row.name).0 name_none in
        let hostname_kept = (upsert_opt-none_iff texts obj.hostname row.hostname).0 hostname_none in
        let vendor_kept = (upsert_opt-none_iff texts obj.vendor row.vendor).0 vendor_none in
        let last_seen_kept =
          (upsert_opt-none_iff numbers obj.last_seen row.last_seen).0 last_seen_none in
        rw (name_kept, hostname_kept, vendor_kept, last_seen_kept) refl

    from : merged obj row ≡ row → is_dirty (upsert obj row) ≡ false
    from h =
        let name_kept = (upsert_opt-none_iff texts obj.name row.name).1 (ap (λ r. r.name) h) in
        let hostname_kept =
          (upsert_opt-none_iff texts obj.hostname row.hostname).1 (ap (λ r. r.hostname) h) in
        let vendor_kept =
          (upsert_opt-none_iff texts obj.vendor row.vendor).1 (ap (λ r. r.vendor) h) in
        let last_seen_kept =
          (upsert_opt-none_iff numbers obj.last_seen row.last_seen).1 (ap (λ r. r.last_seen) h) in
        rw (name_kept, hostname_kept, vendor_kept, last_seen_kept) refl

abbrev pub entity : Entity
entity = record {
  Row = Device;
  id = λ row. row.id;
  row_value = λ row. row.value;
  scoped = scoped;
  New = NewDevice;
  value = λ obj. obj.value;
  set_scoped = set_scoped;
  stored = stored;
  Update = DeviceUpdate;
  update_id = λ update. update.id;
  upsert = upsert;
  is_dirty = is_dirty;
  applied = applied;
}

pub entity-EntityLaws : EntityLaws entity
entity-EntityLaws = record {
  value-set_scoped = λ t b. unfold set_scoped in refl;
  value-stored = λ i t. unfold stored in refl;
  value-applied = λ u m. unfold applied in refl;
  scoped-stored = λ i t b. unfold stored scoped set_scoped in not-not b;
  scoped-applied = λ u m. unfold applied scoped in refl;
  id-upsert = λ t m. unfold upsert in refl;
  clean-stored = λ t i b.
      (device_is_dirty_iff t (stored i (set_scoped t b))).1
        (unfold stored set_scoped merged in simp written_same);
  clean-applied = λ t m.
      (device_is_dirty_iff t (applied (upsert t m) m)).1
        (rw (device_applied-upsert t m) (unfold merged in simp written-written));
  applied-clean = λ t m h. device_applied-upsert t m ∙ (device_is_dirty_iff t m).0 h;
}
