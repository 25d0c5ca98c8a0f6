-- ===== src/Models/PhoneNumber.antt =====
-- src/models/phonenumber.rs: the table, and what the insertion of a known phone number changes.
use sn0int.Prelude.{◌∙◌, ℕ, Bool, false, not, ◌||◌, Option, Text, ◌≡◌, ◌↔◌, refl, ap}
use sn0int.Models.{NewPhoneNumber}
use sn0int.Models.Fields.{
  texts, numbers, flags, is_some, written, upsert_opt, clear_if_equal, written-upsert_opt,
  upsert_opt-none_iff, written_same, written-written, not-not, or-false,
}
use sn0int.Models.Entity.{Entity, EntityLaws}

pub record PhoneNumber : Type 0 where
  pub id : ℕ
  pub value : Text
  pub unscoped : Bool
  pub name : Option Text
  pub valid : Option Bool
  pub last_online : Option ℕ
  pub country : Option Text
  pub carrier : Option Text
  pub line : Option Text
  pub is_ported : Option Bool
  pub last_ported : Option ℕ
  pub caller_name : Option Text
  pub caller_type : Option Text

pub record PhoneNumberUpdate : Type 0 where
  pub id : ℕ
  pub name : Option Text
  pub valid : Option Bool
  pub last_online : Option ℕ
  pub country : Option Text
  pub carrier : Option Text
  pub line : Option Text
  pub is_ported : Option Bool
  pub last_ported : Option ℕ
  pub caller_name : Option Text
  pub caller_type : Option Text

-- `InsertableStruct::set_scoped`
unfoldable pub set_scoped : NewPhoneNumber → Bool → NewPhoneNumber
set_scoped obj scoped = record obj { unscoped = not scoped }

-- `Scopable::scoped`
unfoldable pub scoped : PhoneNumber → Bool
scoped row = not row.unscoped

-- `Upsertable::upsert`
unfoldable pub upsert : NewPhoneNumber → PhoneNumber → PhoneNumberUpdate
unfolding upsert_opt
upsert obj existing = record {
  id = existing.id;
  name = upsert_opt texts obj.name existing.name;
  valid = upsert_opt flags obj.valid existing.valid;
  last_online = upsert_opt numbers obj.last_online existing.last_online;
  country = upsert_opt texts obj.country existing.country;
  carrier = upsert_opt texts obj.carrier existing.carrier;
  line = upsert_opt texts obj.line existing.line;
  is_ported = upsert_opt flags obj.is_ported existing.is_ported;
  last_ported = upsert_opt numbers obj.last_ported existing.last_ported;
  caller_name = upsert_opt texts obj.caller_name existing.caller_name;
  caller_type = upsert_opt texts obj.caller_type existing.caller_type;
}

-- `Upsert::is_dirty`
unfoldable pub is_dirty : PhoneNumberUpdate → Bool
is_dirty update =
    is_some update.name
    || is_some update.valid
    || is_some update.last_online
    || is_some update.country
    || is_some update.carrier
    || is_some update.line
    || is_some update.is_ported
    || is_some update.last_ported
    || is_some update.caller_name
    || is_some update.caller_type

-- `Updateable::changeset`
unfoldable pub changeset : PhoneNumberUpdate → PhoneNumber → PhoneNumberUpdate
unfolding clear_if_equal
changeset update existing = record update {
  name = clear_if_equal texts update.name existing.name;
  valid = clear_if_equal flags update.valid existing.valid;
  last_online = clear_if_equal numbers update.last_online existing.last_online;
  country = clear_if_equal texts update.country existing.country;
  carrier = clear_if_equal texts update.carrier existing.carrier;
  line = clear_if_equal texts update.line existing.line;
  is_ported = clear_if_equal flags update.is_ported existing.is_ported;
  last_ported = clear_if_equal numbers update.last_ported existing.last_ported;
  caller_name = clear_if_equal texts update.caller_name existing.caller_name;
  caller_type = clear_if_equal texts update.caller_type existing.caller_type;
}

-- The row of an insertion, and the row of an update, whose empty columns diesel leaves alone.
unfoldable pub stored : ℕ → NewPhoneNumber → PhoneNumber
stored i obj = record {
  id = i;
  value = obj.value;
  unscoped = obj.unscoped;
  name = obj.name;
  valid = obj.valid;
  last_online = obj.last_online;
  country = obj.country;
  carrier = obj.carrier;
  line = obj.line;
  is_ported = obj.is_ported;
  last_ported = obj.last_ported;
  caller_name = obj.caller_name;
  caller_type = obj.caller_type;
}

unfoldable pub applied : PhoneNumberUpdate → PhoneNumber → PhoneNumber
applied update row = record row {
  name = written update.name row.name;
  valid = written update.valid row.valid;
  last_online = written update.last_online row.last_online;
  country = written update.country row.country;
  carrier = written update.carrier row.carrier;
  line = written update.line row.line;
  is_ported = written update.is_ported row.is_ported;
  last_ported = written update.last_ported row.last_ported;
  caller_name = written update.caller_name row.caller_name;
  caller_type = written update.caller_type row.caller_type;
}

-- The row with each column that is given, and the others as they were.
unfoldable pub merged : NewPhoneNumber → PhoneNumber → PhoneNumber
merged obj row = record row {
  name = written obj.name row.name;
  valid = written obj.valid row.valid;
  last_online = written obj.last_online row.last_online;
  country = written obj.country row.country;
  carrier = written obj.carrier row.carrier;
  line = written obj.line row.line;
  is_ported = written obj.is_ported row.is_ported;
  last_ported = written obj.last_ported row.last_ported;
  caller_name = written obj.caller_name row.caller_name;
  caller_type = written obj.caller_type row.caller_type;
}

-- An update gives the row what is given, and leaves the rest.
pub phonenumber_applied-upsert :
    (obj : NewPhoneNumber) (row : PhoneNumber) → applied (upsert obj row) row ≡ merged obj row
unfolding applied upsert merged
phonenumber_applied-upsert obj row = rw (
  written-upsert_opt texts obj.name row.name,
  written-upsert_opt flags obj.valid row.valid,
  written-upsert_opt numbers obj.last_online row.last_online,
  written-upsert_opt texts obj.country row.country,
  written-upsert_opt texts obj.carrier row.carrier,
  written-upsert_opt texts obj.line row.line,
  written-upsert_opt flags obj.is_ported row.is_ported,
  written-upsert_opt numbers obj.last_ported row.last_ported,
  written-upsert_opt texts obj.caller_name row.caller_name,
  written-upsert_opt texts obj.caller_type row.caller_type,
)

-- There is nothing to write exactly if that changes nothing.
phonenumber_is_dirty_iff :
    (obj : NewPhoneNumber) (row : PhoneNumber)
    → (is_dirty (upsert obj row) ≡ false) ↔ (merged obj row ≡ row)
unfolding is_dirty upsert merged
phonenumber_is_dirty_iff obj row = (to, from)
  where
    to : is_dirty (upsert obj row) ≡ false → merged obj row ≡ row
    to h =
        let (h9, caller_type_none) = or-false h in
        let (h8, caller_name_none) = or-false h9 in
        let (h7, last_ported_none) = or-false h8 in
        let (h6, is_ported_none) = or-false h7 in
        let (h5, line_none) = or-false h6 in
        let (h4, carrier_none) = or-false h5 in
        let (h3, country_none) = or-false h4 in
        let (h2, last_online_none) = or-false h3 in
        let (h1, valid_none) = or-false h2 in
        let name_none = h1 in
        let name_kept = (upsert_opt-none_iff texts obj.name row.name).0 name_none in
        let valid_kept = (upsert_opt-none_iff flags obj.valid row.valid).0 valid_none in
        let last_online_kept =
          (upsert_opt-none_iff numbers obj.last_online row.last_online).0 last_online_none in
        let country_kept = (upsert_opt-none_iff texts obj.country row.country).0 country_none in
        let carrier_kept = (upsert_opt-none_iff texts obj.carrier row.carrier).0 carrier_none in
        let line_kept = (upsert_opt-none_iff texts obj.line row.line).0 line_none in
        let is_ported_kept =
          (upsert_opt-none_iff flags obj.is_ported row.is_ported).0 is_ported_none in
        let last_ported_kept =
          (upsert_opt-none_iff numbers obj.last_ported row.last_ported).0 last_ported_none in
        let caller_name_kept =
          (upsert_opt-none_iff texts obj.caller_name row.caller_name).0 caller_name_none in
        let caller_type_kept =
          (upsert_opt-none_iff texts obj.caller_type row.caller_type).0 caller_type_none in
        rw
          (
            name_kept, valid_kept, last_online_kept, country_kept, carrier_kept, line_kept,
            is_ported_kept, last_ported_kept, caller_name_kept, caller_type_kept,
          )
          refl

    from : merged obj row ≡ row → is_dirty (upsert obj row) ≡ false
    from h =
        let name_kept = (upsert_opt-none_iff texts obj.name row.name).1 (ap (λ r. r.name) h) in
        let valid_kept = (upsert_opt-none_iff flags obj.valid row.valid).1 (ap (λ r. r.valid) h) in
        let last_online_kept =
          (upsert_opt-none_iff numbers obj.last_online row.last_online).1
            (ap (λ r. r.last_online) h) in
        let country_kept =
          (upsert_opt-none_iff texts obj.country row.country).1 (ap (λ r. r.country) h) in
        let carrier_kept =
          (upsert_opt-none_iff texts obj.carrier row.carrier).1 (ap (λ r. r.carrier) h) in
        let line_kept = (upsert_opt-none_iff texts obj.line row.line).1 (ap (λ r. r.line) h) in
        let is_ported_kept =
          (upsert_opt-none_iff flags obj.is_ported row.is_ported).1 (ap (λ r. r.is_ported) h) in
        let last_ported_kept =
          (upsert_opt-none_iff numbers obj.last_ported row.last_ported).1
            (ap (λ r. r.last_ported) h) in
        let caller_name_kept =
          (upsert_opt-none_iff texts obj.caller_name row.caller_name).1
            (ap (λ r. r.caller_name) h) in
        let caller_type_kept =
          (upsert_opt-none_iff texts obj.caller_type row.caller_type).1
            (ap (λ r. r.caller_type) h) in
        rw
          (
            name_kept, valid_kept, last_online_kept, country_kept, carrier_kept, line_kept,
            is_ported_kept, last_ported_kept, caller_name_kept, caller_type_kept,
          )
          refl

abbrev pub entity : Entity
entity = record {
  Row = PhoneNumber;
  id = λ row. row.id;
  row_value = λ row. row.value;
  scoped = scoped;
  New = NewPhoneNumber;
  value = λ obj. obj.value;
  set_scoped = set_scoped;
  stored = stored;
  Update = PhoneNumberUpdate;
  update_id = λ update. update.id;
  upsert = upsert;
  is_dirty = is_dirty;
  applied = applied;
}

pub entity-EntityLaws : EntityLaws entity
entity-EntityLaws = record {
  value-set_scoped = λ t b. unfold set_scoped in refl;
  value-stored = λ i t. unfold stored in refl;
  value-applied = λ u m. unfold applied in refl;
  scoped-stored = λ i t b. unfold stored scoped set_scoped in not-not b;
  scoped-applied = λ u m. unfold applied scoped in refl;
  id-upsert = λ t m. unfold upsert in refl;
  clean-stored = λ t i b.
      (phonenumber_is_dirty_iff t (stored i (set_scoped t b))).1
        (unfold stored set_scoped merged in simp written_same);
  clean-applied = λ t m.
      (phonenumber_is_dirty_iff t (applied (upsert t m) m)).1
        (rw (phonenumber_applied-upsert t m) (unfold merged in simp written-written));
  applied-clean = λ t m h. phonenumber_applied-upsert t m ∙ (phonenumber_is_dirty_iff t m).0 h;
}
