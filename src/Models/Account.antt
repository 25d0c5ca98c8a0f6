-- ===== src/Models/Account.antt =====
-- src/models/account.rs: the table, and what the insertion of a known account changes.
use sn0int.Prelude.{
  ◌∙◌, ℕ, ◌⊎◌, Bool, false, not, ◌||◌, leb, ◌≤◌, Option, some, Text, ◌≡◌, ◌↔◌, refl, ap,
}
use sn0int.Models.{NewAccount}
use sn0int.Models.Fields.{
  texts, numbers, is_some, written, upsert_opt, clear_if_equal, clear_if_lower_or_equal,
  written-upsert_opt, upsert_opt-none_iff, written_same, written-written, not-not, or-false,
  written-lower,
}
use sn0int.Models.Entity.{Entity, EntityLaws}

pub record Account : Type 0 where
  pub id : ℕ
  pub value : Text
  pub service : Text
  pub username : Text
  pub unscoped : Bool
  pub displayname : Option Text
  pub email : Option Text
  pub url : Option Text
  pub last_seen : Option ℕ
  pub birthday : Option Text
  pub phonenumber : Option Text
  pub profile_pic : Option Text

pub record AccountUpdate : Type 0 where
  pub id : ℕ
  pub displayname : Option Text
  pub email : Option Text
  pub url : Option Text
  pub last_seen : Option ℕ
  pub birthday : Option Text
  pub phonenumber : Option Text
  pub profile_pic : Option Text

-- `InsertableStruct::set_scoped`
unfoldable pub set_scoped : NewAccount → Bool → NewAccount
set_scoped obj scoped = record obj { unscoped = not scoped }

-- `Scopable::scoped`
unfoldable pub scoped : Account → Bool
scoped row = not row.unscoped

-- `Upsertable::upsert`
unfoldable pub upsert : NewAccount → Account → AccountUpdate
unfolding upsert_opt
upsert obj existing = record {
  id = existing.id;
  displayname = upsert_opt texts obj.displayname existing.displayname;
  email = upsert_opt texts obj.email existing.email;
  url = upsert_opt texts obj.url existing.url;
  last_seen = upsert_opt numbers obj.last_seen existing.last_seen;
  birthday = upsert_opt texts obj.birthday existing.birthday;
  phonenumber = upsert_opt texts obj.phonenumber existing.phonenumber;
  profile_pic = upsert_opt texts obj.profile_pic existing.profile_pic;
}

-- `Upsert::is_dirty`
unfoldable pub is_dirty : AccountUpdate → Bool
is_dirty update =
    is_some update.displayname
    || is_some update.email
    || is_some update.url
    || is_some update.last_seen
    || is_some update.birthday
    || is_some update.phonenumber
    || is_some update.profile_pic

-- `Updateable::changeset`
unfoldable pub changeset : AccountUpdate → Account → AccountUpdate
unfolding clear_if_equal clear_if_lower_or_equal
changeset update existing = record update {
  displayname = clear_if_equal texts update.displayname existing.displayname;
  email = clear_if_equal texts update.email existing.email;
  url = clear_if_equal texts update.url existing.url;
  last_seen = clear_if_lower_or_equal leb update.last_seen existing.last_seen;
  birthday = clear_if_equal texts update.birthday existing.birthday;
  phonenumber = clear_if_equal texts update.phonenumber existing.phonenumber;
  profile_pic = clear_if_equal texts update.profile_pic existing.profile_pic;
}

-- The row of an insertion, and the row of an update, whose empty columns diesel leaves alone.
unfoldable pub stored : ℕ → NewAccount → Account
stored i obj = record {
  id = i;
  value = obj.value;
  service = obj.service;
  username = obj.username;
  unscoped = obj.unscoped;
  displayname = obj.displayname;
  email = obj.email;
  url = obj.url;
  last_seen = obj.last_seen;
  birthday = obj.birthday;
  phonenumber = obj.phonenumber;
  profile_pic = obj.profile_pic;
}

unfoldable pub applied : AccountUpdate → Account → Account
applied update row = record row {
  displayname = written update.displayname row.displayname;
  email = written update.email row.email;
  url = written update.url row.url;
  last_seen = written update.last_seen row.last_seen;
  birthday = written update.birthday row.birthday;
  phonenumber = written update.phonenumber row.phonenumber;
  profile_pic = written update.profile_pic row.profile_pic;
}

-- The row with each column that is given, and the others as they were.
unfoldable pub merged : NewAccount → Account → Account
merged obj row = record row {
  displayname = written obj.displayname row.displayname;
  email = written obj.email row.email;
  url = written obj.url row.url;
  last_seen = written obj.last_seen row.last_seen;
  birthday = written obj.birthday row.birthday;
  phonenumber = written obj.phonenumber row.phonenumber;
  profile_pic = written obj.profile_pic row.profile_pic;
}

-- An update gives the row what is given, and leaves the rest.
pub account_applied-upsert :
    (obj : NewAccount) (row : Account) → applied (upsert obj row) row ≡ merged obj row
unfolding applied upsert merged
account_applied-upsert obj row = rw (
  written-upsert_opt texts obj.displayname row.displayname,
  written-upsert_opt texts obj.email row.email,
  written-upsert_opt texts obj.url row.url,
  written-upsert_opt numbers obj.last_seen row.last_seen,
  written-upsert_opt texts obj.birthday row.birthday,
  written-upsert_opt texts obj.phonenumber row.phonenumber,
  written-upsert_opt texts obj.profile_pic row.profile_pic,
)

-- There is nothing to write exactly if that changes nothing.
account_is_dirty_iff :
    (obj : NewAccount) (row : Account)
    → (is_dirty (upsert obj row) ≡ false) ↔ (merged obj row ≡ row)
unfolding is_dirty upsert merged
account_is_dirty_iff obj row = (to, from)
  where
    to : is_dirty (upsert obj row) ≡ false → merged obj row ≡ row
    to h =
        let (h6, profile_pic_none) = or-false h in
        let (h5, phonenumber_none) = or-false h6 in
        let (h4, birthday_none) = or-false h5 in
        let (h3, last_seen_none) = or-false h4 in
        let (h2, url_none) = or-false h3 in
        let (h1, email_none) = or-false h2 in
        let displayname_none = h1 in
        let displayname_kept =
          (upsert_opt-none_iff texts obj.displayname row.displayname).0 displayname_none in
        let email_kept = (upsert_opt-none_iff texts obj.email row.email).0 email_none in
        let url_kept = (upsert_opt-none_iff texts obj.url row.url).0 url_none in
        let last_seen_kept =
          (upsert_opt-none_iff numbers obj.last_seen row.last_seen).0 last_seen_none in
        let birthday_kept = (upsert_opt-none_iff texts obj.birthday row.birthday).0 birthday_none in
        let phonenumber_kept =
          (upsert_opt-none_iff texts obj.phonenumber row.phonenumber).0 phonenumber_none in
        let profile_pic_kept =
          (upsert_opt-none_iff texts obj.profile_pic row.profile_pic).0 profile_pic_none in
        rw
          (
            displayname_kept, email_kept, url_kept, last_seen_kept, birthday_kept, phonenumber_kept,
            profile_pic_kept,
          )
          refl

    from : merged obj row ≡ row → is_dirty (upsert obj row) ≡ false
    from h =
        let displayname_kept =
          (upsert_opt-none_iff texts obj.displayname row.displayname).1
            (ap (λ r. r.displayname) h) in
        let email_kept = (upsert_opt-none_iff texts obj.email row.email).1 (ap (λ r. r.email) h) in
        let url_kept = (upsert_opt-none_iff texts obj.url row.url).1 (ap (λ r. r.url) h) in
        let last_seen_kept =
          (upsert_opt-none_iff numbers obj.last_seen row.last_seen).1 (ap (λ r. r.last_seen) h) in
        let birthday_kept =
          (upsert_opt-none_iff texts obj.birthday row.birthday).1 (ap (λ r. r.birthday) h) in
        let phonenumber_kept =
          (upsert_opt-none_iff texts obj.phonenumber row.phonenumber).1
            (ap (λ r. r.phonenumber) h) in
        let profile_pic_kept =
          (upsert_opt-none_iff texts obj.profile_pic row.profile_pic).1
            (ap (λ r. r.profile_pic) h) in
        rw
          (
            displayname_kept, email_kept, url_kept, last_seen_kept, birthday_kept, phonenumber_kept,
            profile_pic_kept,
          )
          refl

abbrev pub entity : Entity
entity = record {
  Row = Account;
  id = λ row. row.id;
  row_value = λ row. row.value;
  scoped = scoped;
  New = NewAccount;
  value = λ obj. obj.value;
  set_scoped = set_scoped;
  stored = stored;
  Update = AccountUpdate;
  update_id = λ update. update.id;
  upsert = upsert;
  is_dirty = is_dirty;
  applied = applied;
}

pub entity-EntityLaws : EntityLaws entity
entity-EntityLaws = record {
  value-set_scoped = λ t b. unfold set_scoped in refl;
  value-stored = λ i t. unfold stored in refl;
  value-applied = λ u m. unfold applied in refl;
  scoped-stored = λ i t b. unfold stored scoped set_scoped in not-not b;
  scoped-applied = λ u m. unfold applied scoped in refl;
  id-upsert = λ t m. unfold upsert in refl;
  clean-stored = λ t i b.
      (account_is_dirty_iff t (stored i (set_scoped t b))).1
        (unfold stored set_scoped merged in simp written_same);
  clean-applied = λ t m.
      (account_is_dirty_iff t (applied (upsert t m) m)).1
        (rw (account_applied-upsert t m) (unfold merged in simp written-written));
  applied-clean = λ t m h. account_applied-upsert t m ∙ (account_is_dirty_iff t m).0 h;
}

-- An update of an account that goes through `changeset` never moves the instant at which it was
-- last seen back: what is stored then is what was stored, or what the update has, and not earlier.
pub account_changeset-last_seen :
    (update : AccountUpdate) (row : Account) (old new : ℕ)
    → row.last_seen ≡ some old
    → (applied (changeset update row) row).last_seen ≡ some new
    → (old ≤ new) × ((update.last_seen ≡ some new) ⊎ (new ≡ old))
unfolding applied changeset
account_changeset-last_seen update row old new was is =
    written-lower update.last_seen old new (rw was at is)
