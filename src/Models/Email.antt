-- ===== src/Models/Email.antt =====
-- src/models/email.rs: the table of emails, and what an insertion of a known email changes.
use sn0int.Prelude.{◌∙◌, ℕ, Bool, false, not, ◌||◌, Option, Text, ◌≡◌, ◌↔◌, refl, ap, arith}
use sn0int.Models.{NewEmail}
use sn0int.Models.Fields.{
  texts, flags, is_some, written, upsert_opt, clear_if_equal, written-upsert_opt,
  upsert_opt-none_iff, written_same, written-written, not-not,
}
use sn0int.Models.Entity.{Entity, EntityLaws}

pub record Email : Type 0 where
  pub id : ℕ
  pub value : Text
  pub unscoped : Bool
  pub displayname : Option Text
  pub valid : Option Bool

pub record EmailUpdate : Type 0 where
  pub id : ℕ
  pub displayname : Option Text
  pub valid : Option Bool

-- `InsertableStruct::set_scoped`
unfoldable pub set_scoped : NewEmail → Bool → NewEmail
set_scoped obj scoped = record obj { unscoped = not scoped }

-- `Scopable::scoped`
unfoldable pub scoped : Email → Bool
scoped row = not row.unscoped

-- `Upsertable::upsert`
unfoldable pub upsert : NewEmail → Email → EmailUpdate
unfolding upsert_opt
upsert obj existing = record {
  id = existing.id;
  displayname = upsert_opt texts obj.displayname existing.displayname;
  valid = upsert_opt flags obj.valid existing.valid;
}

-- `Upsert::is_dirty`
unfoldable pub is_dirty : EmailUpdate → Bool
is_dirty update = is_some update.displayname || is_some update.valid

-- `Updateable::changeset`
unfoldable pub changeset : EmailUpdate → Email → EmailUpdate
unfolding clear_if_equal
changeset update existing = record update {
  displayname = clear_if_equal texts update.displayname existing.displayname;
  valid = clear_if_equal flags update.valid existing.valid;
}

-- The row of an insertion, and the row of an update, whose empty columns diesel leaves alone.
unfoldable pub stored : ℕ → NewEmail → Email
stored i obj = record {
  id = i;
  value = obj.value;
  unscoped = obj.unscoped;
  displayname = obj.displayname;
  valid = obj.valid;
}

unfoldable pub applied : EmailUpdate → Email → Email
applied update row = record row {
  displayname = written update.displayname row.displayname;
  valid = written update.valid row.valid;
}

-- The row with each column that is given, and the others as they were.
unfoldable pub merged : NewEmail → Email → Email
merged obj row = record row {
  displayname = written obj.displayname row.displayname;
  valid = written obj.valid row.valid;
}

-- An update gives the row what is given, and leaves the rest.
pub email_applied-upsert :
    (obj : NewEmail) (row : Email) → applied (upsert obj row) row ≡ merged obj row
unfolding applied upsert merged
email_applied-upsert obj row = rw (
  written-upsert_opt texts obj.displayname row.displayname,
  written-upsert_opt flags obj.valid row.valid,
)

-- There is nothing to write exactly if that changes nothing.
pub email_is_dirty_iff :
    (obj : NewEmail) (row : Email) → (is_dirty (upsert obj row) ≡ false) ↔ (merged obj row ≡ row)
unfolding is_dirty upsert merged
email_is_dirty_iff obj row = (to, from)
  where
    to : is_dirty (upsert obj row) ≡ false → merged obj row ≡ row
    to h =
        let displayname_kept =
          (upsert_opt-none_iff texts obj.displayname row.displayname).0 (ground (arith, h)) in
        let valid_kept = (upsert_opt-none_iff flags obj.valid row.valid).0 (ground (arith, h)) in
        rw (displayname_kept, valid_kept) refl

    from : merged obj row ≡ row → is_dirty (upsert obj row) ≡ false
    from h =
        let displayname_kept =
          (upsert_opt-none_iff texts obj.displayname row.displayname).1
            (ap (λ r. r.displayname) h) in
        let valid_kept = (upsert_opt-none_iff flags obj.valid row.valid).1 (ap (λ r. r.valid) h) in
        ground (arith, displayname_kept, valid_kept)

abbrev pub entity : Entity
entity = record {
  Row = Email;
  id = λ row. row.id;
  row_value = λ row. row.value;
  scoped = scoped;
  New = NewEmail;
  value = λ obj. obj.value;
  set_scoped = set_scoped;
  stored = stored;
  Update = EmailUpdate;
  update_id = λ update. update.id;
  upsert = upsert;
  is_dirty = is_dirty;
  applied = applied;
}

pub entity-EntityLaws : EntityLaws entity
entity-EntityLaws = record {
  value-set_scoped = λ t b. unfold set_scoped in refl;
  value-stored = λ i t. unfold stored in refl;
  value-applied = λ u m. unfold applied in refl;
  scoped-stored = λ i t b. unfold stored scoped set_scoped in not-not b;
  scoped-applied = λ u m. unfold applied scoped in refl;
  id-upsert = λ t m. unfold upsert in refl;
  clean-stored = λ t i b.
      (email_is_dirty_iff t (stored i (set_scoped t b))).1
        (unfold stored set_scoped merged in simp written_same);
  clean-applied = λ t m.
      (email_is_dirty_iff t (applied (upsert t m) m)).1
        (rw (email_applied-upsert t m) (unfold merged in simp written-written));
  applied-clean = λ t m h. email_applied-upsert t m ∙ (email_is_dirty_iff t m).0 h;
}
