-- ===== src/Models/Breach.antt =====
-- src/models/breach.rs: the table, whose rows no insertion changes, and the `NullUpdate` of mod.rs.
use sn0int.Prelude.{ℕ, Bool, false, not, Text, refl}
use sn0int.Models.{NewBreach}
use sn0int.Models.Fields.{not-not}
use sn0int.Models.Entity.{Entity, EntityLaws}

pub record Breach : Type 0 where
  pub id : ℕ
  pub value : Text
  pub unscoped : Bool

pub record NullUpdate : Type 0 where
  pub id : ℕ

-- `InsertableStruct::set_scoped`
unfoldable pub set_scoped : NewBreach → Bool → NewBreach
set_scoped obj scoped = record obj { unscoped = not scoped }

-- `Scopable::scoped`
unfoldable pub scoped : Breach → Bool
scoped row = not row.unscoped

-- `Upsertable::upsert`
unfoldable pub upsert : NewBreach → Breach → NullUpdate
upsert obj existing = record { id = existing.id }

-- `Upsert::is_dirty`
unfoldable pub is_dirty : NullUpdate → Bool
is_dirty update = false

-- The row of an insertion, and the row of an update, which is never made.
unfoldable pub stored : ℕ → NewBreach → Breach
stored i obj = record { id = i; value = obj.value; unscoped = obj.unscoped }

unfoldable pub applied : NullUpdate → Breach → Breach
applied update row = row

abbrev pub entity : Entity
entity = record {
  Row = Breach;
  id = λ row. row.id;
  row_value = λ row. row.value;
  scoped = scoped;
  New = NewBreach;
  value = λ obj. obj.value;
  set_scoped = set_scoped;
  stored = stored;
  Update = NullUpdate;
  update_id = λ update. update.id;
  upsert = upsert;
  is_dirty = is_dirty;
  applied = applied;
}

pub entity-EntityLaws : EntityLaws entity
entity-EntityLaws = record {
  value-set_scoped = λ t b. unfold set_scoped in refl;
  value-stored = λ i t. unfold stored in refl;
  value-applied = λ u m. unfold applied in refl;
  scoped-stored = λ i t b. unfold stored scoped set_scoped in not-not b;
  scoped-applied = λ u m. unfold applied scoped in refl;
  id-upsert = λ t m. unfold upsert in refl;
  clean-stored = λ t i b. unfold is_dirty in refl;
  clean-applied = λ t m. unfold is_dirty in refl;
  applied-clean = λ t m h. unfold applied in refl;
}
