-- ===== src/Models/Netblock.antt =====
-- src/models/netblock.rs: the table of netblocks, and what an insertion of a known netblock changes.
use sn0int.Prelude.{◌∙◌, ℕ, Bool, false, not, ◌||◌, Option, Text, ◌≡◌, ◌↔◌, refl, ap, arith}
use sn0int.Models.{NewNetblock}
use sn0int.Models.Fields.{
  texts, numbers, is_some, written, upsert_opt, clear_if_equal, written-upsert_opt,
  upsert_opt-none_iff, written_same, written-written, not-not,
}
use sn0int.Models.Entity.{Entity, EntityLaws}

pub record Netblock : Type 0 where
  pub id : ℕ
  pub family : Text
  pub value : Text
  pub unscoped : Bool
  pub asn : Option ℕ
  pub as_org : Option Text
  pub description : Option Text

pub record NetblockUpdate : Type 0 where
  pub id : ℕ
  pub asn : Option ℕ
  pub as_org : Option Text
  pub description : Option Text

-- `InsertableStruct::set_scoped`
unfoldable pub set_scoped : NewNetblock → Bool → NewNetblock
set_scoped obj scoped = record obj { unscoped = not scoped }

-- `Scopable::scoped`
unfoldable pub scoped : Netblock → Bool
scoped row = not row.unscoped

-- `Upsertable::upsert`
unfoldable pub upsert : NewNetblock → Netblock → NetblockUpdate
unfolding upsert_opt
upsert obj existing = record {
  id = existing.id;
  asn = upsert_opt numbers obj.asn existing.asn;
  as_org = upsert_opt texts obj.as_org existing.as_org;
  description = upsert_opt texts obj.description existing.description;
}

-- `Upsert::is_dirty`
unfoldable pub is_dirty : NetblockUpdate → Bool
is_dirty update = is_some update.asn || is_some update.as_org || is_some update.description

-- `Updateable::changeset`
unfoldable pub changeset : NetblockUpdate → Netblock → NetblockUpdate
unfolding clear_if_equal
changeset update existing = record update {
  asn = clear_if_equal numbers update.asn existing.asn;
  as_org = clear_if_equal texts update.as_org existing.as_org;
  description = clear_if_equal texts update.description existing.description;
}

-- The row of an insertion, and the row of an update, whose empty columns diesel leaves alone.
unfoldable pub stored : ℕ → NewNetblock → Netblock
stored i obj = record {
  id = i;
  family = obj.family;
  value = obj.value;
  unscoped = obj.unscoped;
  asn = obj.asn;
  as_org = obj.as_org;
  description = obj.description;
}

unfoldable pub applied : NetblockUpdate → Netblock → Netblock
applied update row = record row {
  asn = written update.asn row.asn;
  as_org = written update.as_org row.as_org;
  description = written update.description row.description;
}

-- The row with each column that is given, and the others as they were.
unfoldable pub merged : NewNetblock → Netblock → Netblock
merged obj row = record row {
  asn = written obj.asn row.asn;
  as_org = written obj.as_org row.as_org;
  description = written obj.description row.description;
}

-- An update gives the row what is given, and leaves the rest.
pub netblock_applied-upsert :
    (obj : NewNetblock) (row : Netblock) → applied (upsert obj row) row ≡ merged obj row
unfolding applied upsert merged
netblock_applied-upsert obj row = rw (
  written-upsert_opt numbers obj.asn row.asn,
  written-upsert_opt texts obj.as_org row.as_org,
  written-upsert_opt texts obj.description row.description,
)

-- There is nothing to write exactly if that changes nothing.
pub netblock_is_dirty_iff :
    (obj : NewNetblock) (row : Netblock)
    → (is_dirty (upsert obj row) ≡ false) ↔ (merged obj row ≡ row)
unfolding is_dirty upsert merged
netblock_is_dirty_iff obj row = (to, from)
  where
    to : is_dirty (upsert obj row) ≡ false → merged obj row ≡ row
    to h =
        let asn_kept = (upsert_opt-none_iff numbers obj.asn row.asn).0 (ground (arith, h)) in
        let as_org_kept = (upsert_opt-none_iff texts obj.as_org row.as_org).0 (ground (arith, h)) in
        let description_kept =
          (upsert_opt-none_iff texts obj.description row.description).0 (ground (arith, h)) in
        rw (asn_kept, as_org_kept, description_kept) refl

    from : merged obj row ≡ row → is_dirty (upsert obj row) ≡ false
    from h =
        let asn_kept = (upsert_opt-none_iff numbers obj.asn row.asn).1 (ap (λ r. r.asn) h) in
        let as_org_kept =
          (upsert_opt-none_iff texts obj.as_org row.as_org).1 (ap (λ r. r.as_org) h) in
        let description_kept =
          (upsert_opt-none_iff texts obj.description row.description).1
            (ap (λ r. r.description) h) in
        ground (arith, asn_kept, as_org_kept, description_kept)

abbrev pub entity : Entity
entity = record {
  Row = Netblock;
  id = λ row. row.id;
  row_value = λ row. row.value;
  scoped = scoped;
  New = NewNetblock;
  value = λ obj. obj.value;
  set_scoped = set_scoped;
  stored = stored;
  Update = NetblockUpdate;
  update_id = λ update. update.id;
  upsert = upsert;
  is_dirty = is_dirty;
  applied = applied;
}

pub entity-EntityLaws : EntityLaws entity
entity-EntityLaws = record {
  value-set_scoped = λ t b. unfold set_scoped in refl;
  value-stored = λ i t. unfold stored in refl;
  value-applied = λ u m. unfold applied in refl;
  scoped-stored = λ i t b. unfold stored scoped set_scoped in not-not b;
  scoped-applied = λ u m. unfold applied scoped in refl;
  id-upsert = λ t m. unfold upsert in refl;
  clean-stored = λ t i b.
      (netblock_is_dirty_iff t (stored i (set_scoped t b))).1
        (unfold stored set_scoped merged in simp written_same);
  clean-applied = λ t m.
      (netblock_is_dirty_iff t (applied (upsert t m) m)).1
        (rw (netblock_applied-upsert t m) (unfold merged in simp written-written));
  applied-clean = λ t m h. netblock_applied-upsert t m ∙ (netblock_is_dirty_iff t m).0 h;
}
