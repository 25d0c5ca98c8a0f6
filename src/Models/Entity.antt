-- ===== src/Models/Entity.antt =====
-- src/models/mod.rs: the traits Model, Scopable, InsertableStruct, Upsertable and Upsert, as far as the
-- insertion of an entity uses them, and what diesel derives for its structs.
use sn0int.Prelude.{ℕ, Bool, false, Text, ◌≡◌}

pub record Entity : Type 1 where
  -- the struct that is read from the table
  pub Row : Type 0
  pub id : Row → ℕ
  pub row_value : Row → Text
  pub scoped : Row → Bool
  -- the struct that is inserted
  pub New : Type 0
  pub value : New → Text
  pub set_scoped : New → Bool → New
  -- the row of an insertion, by `Insertable`
  pub stored : ℕ → New → Row
  -- the struct of an update
  pub Update : Type 0
  pub update_id : Update → ℕ
  pub upsert : New → Row → Update
  pub is_dirty : Update → Bool
  -- the row of an update, by `AsChangeset`
  pub applied : Update → Row → Row

-- What the insertion relies on, of each entity.
pub record EntityLaws (e : Entity) : Type 0 where
  pub value-set_scoped : (t : e.New) (b : Bool) → e.value (e.set_scoped t b) ≡ e.value t
  pub value-stored : (i : ℕ) (t : e.New) → e.row_value (e.stored i t) ≡ e.value t
  pub value-applied : (u : e.Update) (m : e.Row) → e.row_value (e.applied u m) ≡ e.row_value m
  pub scoped-stored : (i : ℕ) (t : e.New) (b : Bool) → e.scoped (e.stored i (e.set_scoped t b)) ≡ b
  pub scoped-applied : (u : e.Update) (m : e.Row) → e.scoped (e.applied u m) ≡ e.scoped m
  pub id-upsert : (t : e.New) (m : e.Row) → e.update_id (e.upsert t m) ≡ e.id m
  pub clean-stored :
      (t : e.New) (i : ℕ) (b : Bool)
      → e.is_dirty (e.upsert t (e.stored i (e.set_scoped t b))) ≡ false
  pub clean-applied :
      (t : e.New) (m : e.Row) → e.is_dirty (e.upsert t (e.applied (e.upsert t m) m)) ≡ false
  pub applied-clean :
      (t : e.New) (m : e.Row) → e.is_dirty (e.upsert t m) ≡ false → e.applied (e.upsert t m) m ≡ m
