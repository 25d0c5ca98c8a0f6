-- ===== src/Models/CryptoAddr.antt =====
-- src/models/cryptoaddr.rs: the table, and what the insertion of a known address changes.
use sn0int.Prelude.{
  ◌∙◌, ℕ, ◌⊎◌, Bool, false, not, ◌||◌, leb, ◌≤◌, Option, some, Text, ◌≡◌, ◌↔◌, refl, ap,
}
use sn0int.Models.{NewCryptoAddr}
use sn0int.Models.Fields.{
  texts, numbers, is_some, written, upsert_opt, clear_if_equal, clear_if_lower_or_equal,
  clear_if_greater_or_equal, written-upsert_opt, upsert_opt-none_iff, written_same, written-written,
  not-not, or-false, written-lower, written-greater,
}
use sn0int.Models.Entity.{Entity, EntityLaws}

pub record CryptoAddr : Type 0 where
  pub id : ℕ
  pub value : Text
  pub unscoped : Bool
  pub currency : Option Text
  pub denominator : Option ℕ
  pub balance : Option ℕ
  pub received : Option ℕ
  pub first_seen : Option ℕ
  pub last_withdrawal : Option ℕ
  pub description : Option Text

pub record CryptoAddrUpdate : Type 0 where
  pub id : ℕ
  pub currency : Option Text
  pub denominator : Option ℕ
  pub balance : Option ℕ
  pub received : Option ℕ
  pub first_seen : Option ℕ
  pub last_withdrawal : Option ℕ
  pub description : Option Text

-- `InsertableStruct::set_scoped`
unfoldable pub set_scoped : NewCryptoAddr → Bool → NewCryptoAddr
set_scoped obj scoped = record obj { unscoped = not scoped }

-- `Scopable::scoped`
unfoldable pub scoped : CryptoAddr → Bool
scoped row = not row.unscoped

-- `Upsertable::upsert`
unfoldable pub upsert : NewCryptoAddr → CryptoAddr → CryptoAddrUpdate
unfolding upsert_opt
upsert obj existing = record {
  id = existing.id;
  currency = upsert_opt texts obj.currency existing.currency;
  denominator = upsert_opt numbers obj.denominator existing.denominator;
  balance = upsert_opt numbers obj.balance existing.balance;
  received = upsert_opt numbers obj.received existing.received;
  first_seen = upsert_opt numbers obj.first_seen existing.first_seen;
  last_withdrawal = upsert_opt numbers obj.last_withdrawal existing.last_withdrawal;
  description = upsert_opt texts obj.description existing.description;
}

-- `Upsert::is_dirty`
unfoldable pub is_dirty : CryptoAddrUpdate → Bool
is_dirty update =
    is_some update.currency
    || is_some update.denominator
    || is_some update.balance
    || is_some update.received
    || is_some update.first_seen
    || is_some update.last_withdrawal
    || is_some update.description

-- `Updateable::changeset`
unfoldable pub changeset : CryptoAddrUpdate → CryptoAddr → CryptoAddrUpdate
unfolding clear_if_equal clear_if_greater_or_equal clear_if_lower_or_equal
changeset update existing = record update {
  currency = clear_if_equal texts update.currency existing.currency;
  denominator = clear_if_equal numbers update.denominator existing.denominator;
  balance = clear_if_equal numbers update.balance existing.balance;
  received = clear_if_equal numbers update.received existing.received;
  first_seen = clear_if_greater_or_equal leb update.first_seen existing.first_seen;
  last_withdrawal = clear_if_lower_or_equal leb update.last_withdrawal existing.last_withdrawal;
  description = clear_if_equal texts update.description existing.description;
}

-- The row of an insertion, and the row of an update, whose empty columns diesel leaves alone.
unfoldable pub stored : ℕ → NewCryptoAddr → CryptoAddr
stored i obj = record {
  id = i;
  value = obj.value;
  unscoped = obj.unscoped;
  currency = obj.currency;
  denominator = obj.denominator;
  balance = obj.balance;
  received = obj.received;
  first_seen = obj.first_seen;
  last_withdrawal = obj.last_withdrawal;
  description = obj.description;
}

unfoldable pub applied : CryptoAddrUpdate → CryptoAddr → CryptoAddr
applied update row = record row {
  currency = written update.currency row.currency;
  denominator = written update.denominator row.denominator;
  balance = written update.balance row.balance;
  received = written update.received row.received;
  first_seen = written update.first_seen row.first_seen;
  last_withdrawal = written update.last_withdrawal row.last_withdrawal;
  description = written update.description row.description;
}

-- The row with each column that is given, and the others as they were.
unfoldable pub merged : NewCryptoAddr → CryptoAddr → CryptoAddr
merged obj row = record row {
  currency = written obj.currency row.currency;
  denominator = written obj.denominator row.denominator;
  balance = written obj.balance row.balance;
  received = written obj.received row.received;
  first_seen = written obj.first_seen row.first_seen;
  last_withdrawal = written obj.last_withdrawal row.last_withdrawal;
  description = written obj.description row.description;
}

-- An update gives the row what is given, and leaves the rest.
pub cryptoaddr_applied-upsert :
    (obj : NewCryptoAddr) (row : CryptoAddr) → applied (upsert obj row) row ≡ merged obj row
unfolding applied upsert merged
cryptoaddr_applied-upsert obj row = rw (
  written-upsert_opt texts obj.currency row.currency,
  written-upsert_opt numbers obj.denominator row.denominator,
  written-upsert_opt numbers obj.balance row.balance,
  written-upsert_opt numbers obj.received row.received,
  written-upsert_opt numbers obj.first_seen row.first_seen,
  written-upsert_opt numbers obj.last_withdrawal row.last_withdrawal,
  written-upsert_opt texts obj.description row.description,
)

-- There is nothing to write exactly if that changes nothing.
cryptoaddr_is_dirty_iff :
    (obj : NewCryptoAddr) (row : CryptoAddr)
    → (is_dirty (upsert obj row) ≡ false) ↔ (merged obj row ≡ row)
unfolding is_dirty upsert merged
cryptoaddr_is_dirty_iff obj row = (to, from)
  where
    to : is_dirty (upsert obj row) ≡ false → merged obj row ≡ row
    to h =
        let (h6, description_none) = or-false h in
        let (h5, last_withdrawal_none) = or-false h6 in
        let (h4, first_seen_none) = or-false h5 in
        let (h3, received_none) = or-false h4 in
        let (h2, balance_none) = or-false h3 in
        let (h1, denominator_none) = or-false h2 in
        let currency_none = h1 in
        let currency_kept = (upsert_opt-none_iff texts obj.currency row.currency).0 currency_none in
        let denominator_kept =
          (upsert_opt-none_iff numbers obj.denominator row.denominator).0 denominator_none in
        let balance_kept = (upsert_opt-none_iff numbers obj.balance row.balance).0 balance_none in
        let received_kept =
          (upsert_opt-none_iff numbers obj.received row.received).0 received_none in
        let first_seen_kept =
          (upsert_opt-none_iff numbers obj.first_seen row.first_seen).0 first_seen_none in
        let last_withdrawal_kept =
          (upsert_opt-none_iff numbers obj.last_withdrawal row.last_withdrawal).0
            last_withdrawal_none in
        let description_kept =
          (upsert_opt-none_iff texts obj.description row.description).0 description_none in
        rw
          (
            currency_kept, denominator_kept, balance_kept, received_kept, first_seen_kept,
            last_withdrawal_kept, description_kept,
          )
          refl

    from : merged obj row ≡ row → is_dirty (upsert obj row) ≡ false
    from h =
        let currency_kept =
          (upsert_opt-none_iff texts obj.currency row.currency).1 (ap (λ r. r.currency) h) in
        let denominator_kept =
          (upsert_opt-none_iff numbers obj.denominator row.denominator).1
            (ap (λ r. r.denominator) h) in
        let balance_kept =
          (upsert_opt-none_iff numbers obj.balance row.balance).1 (ap (λ r. r.balance) h) in
        let received_kept =
          (upsert_opt-none_iff numbers obj.received row.received).1 (ap (λ r. r.received) h) in
        let first_seen_kept =
          (upsert_opt-none_iff numbers obj.first_seen row.first_seen).1
            (ap (λ r. r.first_seen) h) in
        let last_withdrawal_kept =
          (upsert_opt-none_iff numbers obj.last_withdrawal row.last_withdrawal).1
            (ap (λ r. r.last_withdrawal) h) in
        let description_kept =
          (upsert_opt-none_iff texts obj.description row.description).1
            (ap (λ r. r.description) h) in
        rw
          (
            currency_kept, denominator_kept, balance_kept, received_kept, first_seen_kept,
            last_withdrawal_kept, description_kept,
          )
          refl

abbrev pub entity : Entity
entity = record {
  Row = CryptoAddr;
  id = λ row. row.id;
  row_value = λ row. row.value;
  scoped = scoped;
  New = NewCryptoAddr;
  value = λ obj. obj.value;
  set_scoped = set_scoped;
  stored = stored;
  Update = CryptoAddrUpdate;
  update_id = λ update. update.id;
  upsert = upsert;
  is_dirty = is_dirty;
  applied = applied;
}

pub entity-EntityLaws : EntityLaws entity
entity-EntityLaws = record {
  value-set_scoped = λ t b. unfold set_scoped in refl;
  value-stored = λ i t. unfold stored in refl;
  value-applied = λ u m. unfold applied in refl;
  scoped-stored = λ i t b. unfold stored scoped set_scoped in not-not b;
  scoped-applied = λ u m. unfold applied scoped in refl;
  id-upsert = λ t m. unfold upsert in refl;
  clean-stored = λ t i b.
      (cryptoaddr_is_dirty_iff t (stored i (set_scoped t b))).1
        (unfold stored set_scoped merged in simp written_same);
  clean-applied = λ t m.
      (cryptoaddr_is_dirty_iff t (applied (upsert t m) m)).1
        (rw (cryptoaddr_applied-upsert t m) (unfold merged in simp written-written));
  applied-clean = λ t m h. cryptoaddr_applied-upsert t m ∙ (cryptoaddr_is_dirty_iff t m).0 h;
}

-- An update of an address of a cryptocurrency that goes through `changeset` never moves the
-- instant at which it was first seen forward, nor that of its last withdrawal back; what is stored
-- then is what was stored, or what the update has.
pub cryptoaddr_changeset-seen :
    (update : CryptoAddrUpdate) (row : CryptoAddr) (first last first' last' : ℕ)
    → row.first_seen ≡ some first
    → row.last_withdrawal ≡ some last
    → (applied (changeset update row) row).first_seen ≡ some first'
    → (applied (changeset update row) row).last_withdrawal ≡ some last'
    → ((first' ≤ first) × ((update.first_seen ≡ some first') ⊎ (first' ≡ first)))
      × ((last ≤ last') × ((update.last_withdrawal ≡ some last') ⊎ (last' ≡ last)))
unfolding applied changeset
cryptoaddr_changeset-seen update row first last first' last' was was' is is' = (
  written-greater update.first_seen first first' (rw was at is),
  written-lower update.last_withdrawal last last' (rw was' at is'),
)
