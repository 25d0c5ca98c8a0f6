-- ===== src/Models/Url.antt =====
-- src/models/url.rs: the table of urls, and what an insertion of a known url changes.
use sn0int.Prelude.{◌∙◌, ℕ, Bool, false, not, ◌||◌, Option, Text, ◌≡◌, ◌↔◌, refl, ap, arith}
use sn0int.Models.{NewUrl}
use sn0int.Models.Fields.{
  texts, numbers, flags, is_some, written, upsert_opt, clear_if_equal, written-upsert_opt,
  upsert_opt-none_iff, written_same, written-written, not-not,
}
use sn0int.Models.Entity.{Entity, EntityLaws}

pub record Url : Type 0 where
  pub id : ℕ
  pub subdomain_id : ℕ
  pub value : Text
  pub path : Text
  pub unscoped : Bool
  pub status : Option ℕ
  pub body : Option Text
  pub online : Option Bool
  pub title : Option Text
  pub redirect : Option Text

pub record UrlChangeset : Type 0 where
  pub id : ℕ
  pub status : Option ℕ
  pub body : Option Text
  pub online : Option Bool
  pub title : Option Text
  pub redirect : Option Text

-- `InsertableStruct::set_scoped`
unfoldable pub set_scoped : NewUrl → Bool → NewUrl
set_scoped obj scoped = record obj { unscoped = not scoped }

-- `Scopable::scoped`
unfoldable pub scoped : Url → Bool
scoped row = not row.unscoped

-- `Upsertable::upsert`
unfoldable pub upsert : NewUrl → Url → UrlChangeset
unfolding upsert_opt
upsert obj existing = record {
  id = existing.id;
  status = upsert_opt numbers obj.status existing.status;
  body = upsert_opt texts obj.body existing.body;
  online = upsert_opt flags obj.online existing.online;
  title = upsert_opt texts obj.title existing.title;
  redirect = upsert_opt texts obj.redirect existing.redirect;
}

-- `Upsert::is_dirty`
unfoldable pub is_dirty : UrlChangeset → Bool
is_dirty update =
    is_some update.status
    || is_some update.body
    || is_some update.online
    || is_some update.title
    || is_some update.redirect

-- `Updateable::changeset`
unfoldable pub changeset : UrlChangeset → Url → UrlChangeset
unfolding clear_if_equal
changeset update existing = record update {
  status = clear_if_equal numbers update.status existing.status;
  body = clear_if_equal texts update.body existing.body;
  online = clear_if_equal flags update.online existing.online;
  title = clear_if_equal texts update.title existing.title;
  redirect = clear_if_equal texts update.redirect existing.redirect;
}

-- The row of an insertion, and the row of an update, whose empty columns diesel leaves alone.
unfoldable pub stored : ℕ → NewUrl → Url
stored i obj = record {
  id = i;
  subdomain_id = obj.subdomain_id;
  value = obj.value;
  path = obj.path;
  unscoped = obj.unscoped;
  status = obj.status;
  body = obj.body;
  online = obj.online;
  title = obj.title;
  redirect = obj.redirect;
}

unfoldable pub applied : UrlChangeset → Url → Url
applied update row = record row {
  status = written update.status row.status;
  body = written update.body row.body;
  online = written update.online row.online;
  title = written update.title row.title;
  redirect = written update.redirect row.redirect;
}

-- The row with each column that is given, and the others as they were.
unfoldable pub merged : NewUrl → Url → Url
merged obj row = record row {
  status = written obj.status row.status;
  body = written obj.body row.body;
  online = written obj.online row.online;
  title = written obj.title row.title;
  redirect = written obj.redirect row.redirect;
}

-- The update that the insertion of a known URL makes gives the stored row each column that the
-- insertion has, and leaves the others as they were.
pub url_applied-upsert : (obj : NewUrl) (row : Url) → applied (upsert obj row) row ≡ merged obj row
unfolding applied upsert merged
url_applied-upsert obj row = rw (
  written-upsert_opt numbers obj.status row.status,
  written-upsert_opt texts obj.body row.body,
  written-upsert_opt flags obj.online row.online,
  written-upsert_opt texts obj.title row.title,
  written-upsert_opt texts obj.redirect row.redirect,
)

-- The insertion of a known URL has nothing to write exactly if the given columns are those of the
-- stored row.
pub url_is_dirty_iff :
    (obj : NewUrl) (row : Url) → (is_dirty (upsert obj row) ≡ false) ↔ (merged obj row ≡ row)
unfolding is_dirty upsert merged
url_is_dirty_iff obj row = (to, from)
  where
    to : is_dirty (upsert obj row) ≡ false → merged obj row ≡ row
    to h =
        let status_kept =
          (upsert_opt-none_iff numbers obj.status row.status).0 (ground (arith, h)) in
        let body_kept = (upsert_opt-none_iff texts obj.body row.body).0 (ground (arith, h)) in
        let online_kept = (upsert_opt-none_iff flags obj.online row.online).0 (ground (arith, h)) in
        let title_kept = (upsert_opt-none_iff texts obj.title row.title).0 (ground (arith, h)) in
        let redirect_kept =
          (upsert_opt-none_iff texts obj.redirect row.redirect).0 (ground (arith, h)) in
        rw (status_kept, body_kept, online_kept, title_kept, redirect_kept) refl

    from : merged obj row ≡ row → is_dirty (upsert obj row) ≡ false
    from h =
        let status_kept =
          (upsert_opt-none_iff numbers obj.status row.status).1 (ap (λ r. r.status) h) in
        let body_kept = (upsert_opt-none_iff texts obj.body row.body).1 (ap (λ r. r.body) h) in
        let online_kept =
          (upsert_opt-none_iff flags obj.online row.online).1 (ap (λ r. r.online) h) in
        let title_kept = (upsert_opt-none_iff texts obj.title row.title).1 (ap (λ r. r.title) h) in
        let redirect_kept =
          (upsert_opt-none_iff texts obj.redirect row.redirect).1 (ap (λ r. r.redirect) h) in
        ground (arith, status_kept, body_kept, online_kept, title_kept, redirect_kept)

abbrev pub entity : Entity
entity = record {
  Row = Url;
  id = λ row. row.id;
  row_value = λ row. row.value;
  scoped = scoped;
  New = NewUrl;
  value = λ obj. obj.value;
  set_scoped = set_scoped;
  stored = stored;
  Update = UrlChangeset;
  update_id = λ update. update.id;
  upsert = upsert;
  is_dirty = is_dirty;
  applied = applied;
}

pub entity-EntityLaws : EntityLaws entity
entity-EntityLaws = record {
  value-set_scoped = λ t b. unfold set_scoped in refl;
  value-stored = λ i t. unfold stored in refl;
  value-applied = λ u m. unfold applied in refl;
  scoped-stored = λ i t b. unfold stored scoped set_scoped in not-not b;
  scoped-applied = λ u m. unfold applied scoped in refl;
  id-upsert = λ t m. unfold upsert in refl;
  clean-stored = λ t i b.
      (url_is_dirty_iff t (stored i (set_scoped t b))).1
        (unfold stored set_scoped merged in simp written_same);
  clean-applied = λ t m.
      (url_is_dirty_iff t (applied (upsert t m) m)).1
        (rw (url_applied-upsert t m) (unfold merged in simp written-written));
  applied-clean = λ t m h. url_applied-upsert t m ∙ (url_is_dirty_iff t m).0 h;
}
