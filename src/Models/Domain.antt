-- ===== src/Models/Domain.antt =====
-- src/models/domain.rs: the table of domains, which have no column that changes.
use sn0int.Prelude.{ℕ, Bool, false, not, Text, refl}
use sn0int.Models.{NewDomain}
use sn0int.Models.Fields.{not-not}
use sn0int.Models.Entity.{Entity, EntityLaws}

pub record Domain : Type 0 where
  pub id : ℕ
  pub value : Text
  pub unscoped : Bool

-- `NullUpdate`, of src/models/mod.rs
pub record NullUpdate : Type 0 where
  pub id : ℕ

unfoldable pub set_scoped : NewDomain → Bool → NewDomain
set_scoped obj scoped = record obj { unscoped = not scoped }

unfoldable pub scoped : Domain → Bool
scoped row = not row.unscoped

unfoldable pub upsert : NewDomain → Domain → NullUpdate
upsert obj existing = record { id = existing.id }

unfoldable pub is_dirty : NullUpdate → Bool
is_dirty update = false

unfoldable pub stored : ℕ → NewDomain → Domain
stored i obj = record { id = i; value = obj.value; unscoped = obj.unscoped }

abbrev pub entity : Entity
entity = record {
  Row = Domain;
  id = λ row. row.id;
  row_value = λ row. row.value;
  scoped = scoped;
  New = NewDomain;
  value = λ obj. obj.value;
  set_scoped = set_scoped;
  stored = stored;
  Update = NullUpdate;
  update_id = λ update. update.id;
  upsert = upsert;
  is_dirty = is_dirty;
  applied = λ _ row. row;
}

pub entity-EntityLaws : EntityLaws entity
entity-EntityLaws = record {
  value-set_scoped = λ t b. unfold set_scoped in refl;
  value-stored = λ i t. unfold stored in refl;
  value-applied = λ u m. refl;
  scoped-stored = λ i t b. unfold stored scoped set_scoped in not-not b;
  scoped-applied = λ u m. refl;
  id-upsert = λ t m. unfold upsert in refl;
  clean-stored = λ t i b. unfold is_dirty in refl;
  clean-applied = λ t m. unfold is_dirty in refl;
  applied-clean = λ t m h. refl;
}
