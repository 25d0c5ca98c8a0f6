-- ===== src/Models/Image.antt =====
-- src/models/image.rs: the table, and what the insertion of a known image changes.
use sn0int.Prelude.{◌∙◌, ℕ, Bool, false, not, ◌||◌, Option, Text, ◌≡◌, ◌↔◌, refl, ap}
use sn0int.Models.{NewImage}
use sn0int.Models.Fields.{
  texts, numbers, is_some, written, upsert_opt, clear_if_equal, written-upsert_opt,
  upsert_opt-none_iff, written_same, written-written, not-not, or-false,
}
use sn0int.Models.Entity.{Entity, EntityLaws}

pub record Image : Type 0 where
  pub id : ℕ
  pub value : Text
  pub unscoped : Bool
  pub filename : Option Text
  pub mime : Option Text
  pub width : Option ℕ
  pub height : Option ℕ
  pub created : Option ℕ
  pub latitude : Option ℕ
  pub longitude : Option ℕ
  pub nudity : Option ℕ
  pub ahash : Option Text
  pub dhash : Option Text
  pub phash : Option Text

pub record ImageUpdate : Type 0 where
  pub id : ℕ
  pub filename : Option Text
  pub mime : Option Text
  pub width : Option ℕ
  pub height : Option ℕ
  pub created : Option ℕ
  pub latitude : Option ℕ
  pub longitude : Option ℕ
  pub nudity : Option ℕ
  pub ahash : Option Text
  pub dhash : Option Text
  pub phash : Option Text

-- `InsertableStruct::set_scoped`
unfoldable pub set_scoped : NewImage → Bool → NewImage
set_scoped obj scoped = record obj { unscoped = not scoped }

-- `Scopable::scoped`
unfoldable pub scoped : Image → Bool
scoped row = not row.unscoped

-- `Upsertable::upsert`
unfoldable pub upsert : NewImage → Image → ImageUpdate
unfolding upsert_opt
upsert obj existing = record {
  id = existing.id;
  filename = upsert_opt texts obj.filename existing.filename;
  mime = upsert_opt texts obj.mime existing.mime;
  width = upsert_opt numbers obj.width existing.width;
  height = upsert_opt numbers obj.height existing.height;
  created = upsert_opt numbers obj.created existing.created;
  latitude = upsert_opt numbers obj.latitude existing.latitude;
  longitude = upsert_opt numbers obj.longitude existing.longitude;
  nudity = upsert_opt numbers obj.nudity existing.nudity;
  ahash = upsert_opt texts obj.ahash existing.ahash;
  dhash = upsert_opt texts obj.dhash existing.dhash;
  phash = upsert_opt texts obj.phash existing.phash;
}

-- `Upsert::is_dirty`
unfoldable pub is_dirty : ImageUpdate → Bool
is_dirty update =
    is_some update.filename
    || is_some update.mime
    || is_some update.width
    || is_some update.height
    || is_some update.created
    || is_some update.latitude
    || is_some update.longitude
    || is_some update.nudity
    || is_some update.ahash
    || is_some update.dhash
    || is_some update.phash

-- `Updateable::changeset`
unfoldable pub changeset : ImageUpdate → Image → ImageUpdate
unfolding clear_if_equal
changeset update existing = record update {
  filename = clear_if_equal texts update.filename existing.filename;
  mime = clear_if_equal texts update.mime existing.mime;
  width = clear_if_equal numbers update.width existing.width;
  height = clear_if_equal numbers update.height existing.height;
  created = clear_if_equal numbers update.created existing.created;
  latitude = clear_if_equal numbers update.latitude existing.latitude;
  longitude = clear_if_equal numbers update.longitude existing.longitude;
  nudity = clear_if_equal numbers update.nudity existing.nudity;
  ahash = clear_if_equal texts update.ahash existing.ahash;
  dhash = clear_if_equal texts update.dhash existing.dhash;
  phash = clear_if_equal texts update.phash existing.phash;
}

-- The row of an insertion, and the row of an update, whose empty columns diesel leaves alone.
unfoldable pub stored : ℕ → NewImage → Image
stored i obj = record {
  id = i;
  value = obj.value;
  unscoped = obj.unscoped;
  filename = obj.filename;
  mime = obj.mime;
  width = obj.width;
  height = obj.height;
  created = obj.created;
  latitude = obj.latitude;
  longitude = obj.longitude;
  nudity = obj.nudity;
  ahash = obj.ahash;
  dhash = obj.dhash;
  phash = obj.phash;
}

unfoldable pub applied : ImageUpdate → Image → Image
applied update row = record row {
  filename = written update.filename row.filename;
  mime = written update.mime row.mime;
  width = written update.width row.width;
  height = written update.height row.height;
  created = written update.created row.created;
  latitude = written update.latitude row.latitude;
  longitude = written update.longitude row.longitude;
  nudity = written update.nudity row.nudity;
  ahash = written update.ahash row.ahash;
  dhash = written update.dhash row.dhash;
  phash = written update.phash row.phash;
}

-- The row with each column that is given, and the others as they were.
unfoldable pub merged : NewImage → Image → Image
merged obj row = record row {
  filename = written obj.filename row.filename;
  mime = written obj.mime row.mime;
  width = written obj.width row.width;
  height = written obj.height row.height;
  created = written obj.created row.created;
  latitude = written obj.latitude row.latitude;
  longitude = written obj.longitude row.longitude;
  nudity = written obj.nudity row.nudity;
  ahash = written obj.ahash row.ahash;
  dhash = written obj.dhash row.dhash;
  phash = written obj.phash row.phash;
}

pub image_applied-upsert :
    (obj : NewImage) (row : Image) → applied (upsert obj row) row ≡ merged obj row
unfolding applied upsert merged
image_applied-upsert obj row = rw (
  written-upsert_opt texts obj.filename row.filename,
  written-upsert_opt texts obj.mime row.mime,
  written-upsert_opt numbers obj.width row.width,
  written-upsert_opt numbers obj.height row.height,
  written-upsert_opt numbers obj.created row.created,
  written-upsert_opt numbers obj.latitude row.latitude,
  written-upsert_opt numbers obj.longitude row.longitude,
  written-upsert_opt numbers obj.nudity row.nudity,
  written-upsert_opt texts obj.ahash row.ahash,
  written-upsert_opt texts obj.dhash row.dhash,
  written-upsert_opt texts obj.phash row.phash,
)

image_is_dirty_iff :
    (obj : NewImage) (row : Image) → (is_dirty (upsert obj row) ≡ false) ↔ (merged obj row ≡ row)
unfolding is_dirty upsert merged
image_is_dirty_iff obj row = (to, from)
  where
    to : is_dirty (upsert obj row) ≡ false → merged obj row ≡ row
    to h =
        let (h10, phash_none) = or-false h in
        let (h9, dhash_none) = or-false h10 in
        let (h8, ahash_none) = or-false h9 in
        let (h7, nudity_none) = or-false h8 in
        let (h6, longitude_none) = or-false h7 in
        let (h5, latitude_none) = or-false h6 in
        let (h4, created_none) = or-false h5 in
        let (h3, height_none) = or-false h4 in
        let (h2, width_none) = or-false h3 in
        let (h1, mime_none) = or-false h2 in
        let filename_none = h1 in
        let filename_kept = (upsert_opt-none_iff texts obj.filename row.filename).0 filename_none in
        let mime_kept = (upsert_opt-none_iff texts obj.mime row.mime).0 mime_none in
        let width_kept = (upsert_opt-none_iff numbers obj.width row.width).0 width_none in
        let height_kept = (upsert_opt-none_iff numbers obj.height row.height).0 height_none in
        let created_kept = (upsert_opt-none_iff numbers obj.created row.created).0 created_none in
        let latitude_kept =
          (upsert_opt-none_iff numbers obj.latitude row.latitude).0 latitude_none in
        let longitude_kept =
          (upsert_opt-none_iff numbers obj.longitude row.longitude).0 longitude_none in
        let nudity_kept = (upsert_opt-none_iff numbers obj.nudity row.nudity).0 nudity_none in
        let ahash_kept = (upsert_opt-none_iff texts obj.ahash row.ahash).0 ahash_none in
        let dhash_kept = (upsert_opt-none_iff texts obj.dhash row.dhash).0 dhash_none in
        let phash_kept = (upsert_opt-none_iff texts obj.phash row.phash).0 phash_none in
        rw
          (
            filename_kept, mime_kept, width_kept, height_kept, created_kept, latitude_kept,
            longitude_kept, nudity_kept, ahash_kept, dhash_kept, phash_kept,
          )
          refl

    from : merged obj row ≡ row → is_dirty (upsert obj row) ≡ false
    from h =
        let filename_kept =
          (upsert_opt-none_iff texts obj.filename row.filename).1 (ap (λ r. r.filename) h) in
        let mime_kept = (upsert_opt-none_iff texts obj.mime row.mime).1 (ap (λ r. r.mime) h) in
        let width_kept =
          (upsert_opt-none_iff numbers obj.width row.width).1 (ap (λ r. r.width) h) in
        let height_kept =
          (upsert_opt-none_iff numbers obj.height row.height).1 (ap (λ r. r.height) h) in
        let created_kept =
          (upsert_opt-none_iff numbers obj.created row.created).1 (ap (λ r. r.created) h) in
        let latitude_kept =
          (upsert_opt-none_iff numbers obj.latitude row.latitude).1 (ap (λ r. r.latitude) h) in
        let longitude_kept =
          (upsert_opt-none_iff numbers obj.longitude row.longitude).1 (ap (λ r. r.longitude) h) in
        let nudity_kept =
          (upsert_opt-none_iff numbers obj.nudity row.nudity).1 (ap (λ r. r.nudity) h) in
        let ahash_kept = (upsert_opt-none_iff texts obj.ahash row.ahash).1 (ap (λ r. r.ahash) h) in
        let dhash_kept = (upsert_opt-none_iff texts obj.dhash row.dhash).1 (ap (λ r. r.dhash) h) in
        let phash_kept = (upsert_opt-none_iff texts obj.phash row.phash).1 (ap (λ r. r.phash) h) in
        rw
          (
            filename_kept, mime_kept, width_kept, height_kept, created_kept, latitude_kept,
            longitude_kept, nudity_kept, ahash_kept, dhash_kept, phash_kept,
          )
          refl

abbrev pub entity : Entity
entity = record {
  Row = Image;
  id = λ row. row.id;
  row_value = λ row. row.value;
  scoped = scoped;
  New = NewImage;
  value = λ obj. obj.value;
  set_scoped = set_scoped;
  stored = stored;
  Update = ImageUpdate;
  update_id = λ update. update.id;
  upsert = upsert;
  is_dirty = is_dirty;
  applied = applied;
}

pub entity-EntityLaws : EntityLaws entity
entity-EntityLaws = record {
  value-set_scoped = λ t b. unfold set_scoped in refl;
  value-stored = λ i t. unfold stored in refl;
  value-applied = λ u m. unfold applied in refl;
  scoped-stored = λ i t b. unfold stored scoped set_scoped in not-not b;
  scoped-applied = λ u m. unfold applied scoped in refl;
  id-upsert = λ t m. unfold upsert in refl;
  clean-stored = λ t i b.
      (image_is_dirty_iff t (stored i (set_scoped t b))).1
        (unfold stored set_scoped merged in simp written_same);
  clean-applied = λ t m.
      (image_is_dirty_iff t (applied (upsert t m) m)).1
        (rw (image_applied-upsert t m) (unfold merged in simp written-written));
  applied-clean = λ t m h. image_applied-upsert t m ∙ (image_is_dirty_iff t m).0 h;
}
