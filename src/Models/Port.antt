-- ===== src/Models/Port.antt =====
-- src/models/port.rs: the table of ports, and what an insertion of a known port changes.
use sn0int.Prelude.{◌∙◌, ℕ, Bool, false, not, ◌||◌, Option, Text, ◌≡◌, ◌↔◌, refl, ap, arith}
use sn0int.Models.{NewPort}
use sn0int.Models.Fields.{
  texts, is_some, written, upsert_opt, clear_if_equal, written-upsert_opt, upsert_opt-none_iff,
  written_same, written-written, not-not,
}
use sn0int.Models.Entity.{Entity, EntityLaws}

pub record Port : Type 0 where
  pub id : ℕ
  pub ip_addr_id : ℕ
  pub value : Text
  pub ip_addr : Text
  pub port : ℕ
  pub protocol : Text
  pub unscoped : Bool
  pub status : Option Text
  pub banner : Option Text
  pub service : Option Text
  pub version : Option Text

pub record PortUpdate : Type 0 where
  pub id : ℕ
  pub status : Option Text
  pub banner : Option Text
  pub service : Option Text
  pub version : Option Text

-- `InsertableStruct::set_scoped`
unfoldable pub set_scoped : NewPort → Bool → NewPort
set_scoped obj scoped = record obj { unscoped = not scoped }

-- `Scopable::scoped`
unfoldable pub scoped : Port → Bool
scoped row = not row.unscoped

-- `Upsertable::upsert`
unfoldable pub upsert : NewPort → Port → PortUpdate
unfolding upsert_opt
upsert obj existing = record {
  id = existing.id;
  status = upsert_opt texts obj.status existing.status;
  banner = upsert_opt texts obj.banner existing.banner;
  service = upsert_opt texts obj.service existing.service;
  version = upsert_opt texts obj.version existing.version;
}

-- `Upsert::is_dirty`
unfoldable pub is_dirty : PortUpdate → Bool
is_dirty update =
    is_some update.status
    || is_some update.banner
    || is_some update.service
    || is_some update.version

-- `Updateable::changeset`
unfoldable pub changeset : PortUpdate → Port → PortUpdate
unfolding clear_if_equal
changeset update existing = record update {
  status = clear_if_equal texts update.status existing.status;
  banner = clear_if_equal texts update.banner existing.banner;
  service = clear_if_equal texts update.service existing.service;
  version = clear_if_equal texts update.version existing.version;
}

-- The row of an insertion, and the row of an update, whose empty columns diesel leaves alone.
unfoldable pub stored : ℕ → NewPort → Port
stored i obj = record {
  id = i;
  ip_addr_id = obj.ip_addr_id;
  value = obj.value;
  ip_addr = obj.ip_addr;
  port = obj.port;
  protocol = obj.protocol;
  unscoped = obj.unscoped;
  status = obj.status;
  banner = obj.banner;
  service = obj.service;
  version = obj.version;
}

unfoldable pub applied : PortUpdate → Port → Port
applied update row = record row {
  status = written update.status row.status;
  banner = written update.banner row.banner;
  service = written update.service row.service;
  version = written update.version row.version;
}

-- The row with each column that is given, and the others as they were.
unfoldable pub merged : NewPort → Port → Port
merged obj row = record row {
  status = written obj.status row.status;
  banner = written obj.banner row.banner;
  service = written obj.service row.service;
  version = written obj.version row.version;
}

-- The update that the insertion of a known port makes gives the stored row each column that the
-- insertion has, and leaves the others as they were.
pub port_applied-upsert :
    (obj : NewPort) (row : Port) → applied (upsert obj row) row ≡ merged obj row
unfolding applied upsert merged
port_applied-upsert obj row = rw (
  written-upsert_opt texts obj.status row.status,
  written-upsert_opt texts obj.banner row.banner,
  written-upsert_opt texts obj.service row.service,
  written-upsert_opt texts obj.version row.version,
)

-- The insertion of a known port has nothing to write exactly if the given columns are those of the
-- stored row.
pub port_is_dirty_iff :
    (obj : NewPort) (row : Port) → (is_dirty (upsert obj row) ≡ false) ↔ (merged obj row ≡ row)
unfolding is_dirty upsert merged
port_is_dirty_iff obj row = (to, from)
  where
    to : is_dirty (upsert obj row) ≡ false → merged obj row ≡ row
    to h =
        let status_kept = (upsert_opt-none_iff texts obj.status row.status).0 (ground (arith, h)) in
        let banner_kept = (upsert_opt-none_iff texts obj.banner row.banner).0 (ground (arith, h)) in
        let service_kept =
          (upsert_opt-none_iff texts obj.service row.service).0 (ground (arith, h)) in
        let version_kept =
          (upsert_opt-none_iff texts obj.version row.version).0 (ground (arith, h)) in
        rw (status_kept, banner_kept, service_kept, version_kept) refl

    from : merged obj row ≡ row → is_dirty (upsert obj row) ≡ false
    from h =
        let status_kept =
          (upsert_opt-none_iff texts obj.status row.status).1 (ap (λ r. r.status) h) in
        let banner_kept =
          (upsert_opt-none_iff texts obj.banner row.banner).1 (ap (λ r. r.banner) h) in
        let service_kept =
          (upsert_opt-none_iff texts obj.service row.service).1 (ap (λ r. r.service) h) in
        let version_kept =
          (upsert_opt-none_iff texts obj.version row.version).1 (ap (λ r. r.version) h) in
        ground (arith, status_kept, banner_kept, service_kept, version_kept)

abbrev pub entity : Entity
entity = record {
  Row = Port;
  id = λ row. row.id;
  row_value = λ row. row.value;
  scoped = scoped;
  New = NewPort;
  value = λ obj. obj.value;
  set_scoped = set_scoped;
  stored = stored;
  Update = PortUpdate;
  update_id = λ update. update.id;
  upsert = upsert;
  is_dirty = is_dirty;
  applied = applied;
}

pub entity-EntityLaws : EntityLaws entity
entity-EntityLaws = record {
  value-set_scoped = λ t b. unfold set_scoped in refl;
  value-stored = λ i t. unfold stored in refl;
  value-applied = λ u m. unfold applied in refl;
  scoped-stored = λ i t b. unfold stored scoped set_scoped in not-not b;
  scoped-applied = λ u m. unfold applied scoped in refl;
  id-upsert = λ t m. unfold upsert in refl;
  clean-stored = λ t i b.
      (port_is_dirty_iff t (stored i (set_scoped t b))).1
        (unfold stored set_scoped merged in simp written_same);
  clean-applied = λ t m.
      (port_is_dirty_iff t (applied (upsert t m) m)).1
        (rw (port_applied-upsert t m) (unfold merged in simp written-written));
  applied-clean = λ t m h. port_applied-upsert t m ∙ (port_is_dirty_iff t m).0 h;
}
