-- ===== src/Models/Subdomain.antt =====
-- src/models/subdomain.rs: the table of subdomains, and what an insertion of a known subdomain changes.
use sn0int.Prelude.{◌∙◌, ℕ, Bool, false, not, Option, Text, ◌≡◌, ◌↔◌, refl, ap, arith}
use sn0int.Models.{NewSubdomain}
use sn0int.Models.Fields.{
  flags, is_some, written, upsert_opt, clear_if_equal, written-upsert_opt, upsert_opt-none_iff,
  written_same, written-written, not-not,
}
use sn0int.Models.Entity.{Entity, EntityLaws}

pub record Subdomain : Type 0 where
  pub id : ℕ
  pub domain_id : ℕ
  pub value : Text
  pub unscoped : Bool
  pub resolvable : Option Bool

pub record SubdomainUpdate : Type 0 where
  pub id : ℕ
  pub resolvable : Option Bool

-- `InsertableStruct::set_scoped`
unfoldable pub set_scoped : NewSubdomain → Bool → NewSubdomain
set_scoped obj scoped = record obj { unscoped = not scoped }

-- `Scopable::scoped`
unfoldable pub scoped : Subdomain → Bool
scoped row = not row.unscoped

-- `Upsertable::upsert`
unfoldable pub upsert : NewSubdomain → Subdomain → SubdomainUpdate
unfolding upsert_opt
upsert obj existing = record {
  id = existing.id;
  resolvable = upsert_opt flags obj.resolvable existing.resolvable;
}

-- `Upsert::is_dirty`
unfoldable pub is_dirty : SubdomainUpdate → Bool
is_dirty update = is_some update.resolvable

-- `Updateable::changeset`
unfoldable pub changeset : SubdomainUpdate → Subdomain → SubdomainUpdate
unfolding clear_if_equal
changeset update existing = record update {
  resolvable = clear_if_equal flags update.resolvable existing.resolvable;
}

-- The row of an insertion, and the row of an update, whose empty columns diesel leaves alone.
unfoldable pub stored : ℕ → NewSubdomain → Subdomain
stored i obj = record {
  id = i;
  domain_id = obj.domain_id;
  value = obj.value;
  unscoped = obj.unscoped;
  resolvable = obj.resolvable;
}

unfoldable pub applied : SubdomainUpdate → Subdomain → Subdomain
applied update row = record row { resolvable = written update.resolvable row.resolvable }

-- The row with each column that is given, and the others as they were.
unfoldable pub merged : NewSubdomain → Subdomain → Subdomain
merged obj row = record row { resolvable = written obj.resolvable row.resolvable }

-- An update gives the row what is given, and leaves the rest.
pub subdomain_applied-upsert :
    (obj : NewSubdomain) (row : Subdomain) → applied (upsert obj row) row ≡ merged obj row
unfolding applied upsert merged
subdomain_applied-upsert obj row = rw (written-upsert_opt flags obj.resolvable row.resolvable)

-- There is nothing to write exactly if that changes nothing.
pub subdomain_is_dirty_iff :
    (obj : NewSubdomain) (row : Subdomain)
    → (is_dirty (upsert obj row) ≡ false) ↔ (merged obj row ≡ row)
unfolding is_dirty upsert merged
subdomain_is_dirty_iff obj row = (to, from)
  where
    to : is_dirty (upsert obj row) ≡ false → merged obj row ≡ row
    to h =
        let resolvable_kept =
          (upsert_opt-none_iff flags obj.resolvable row.resolvable).0 (ground (arith, h)) in
        rw (resolvable_kept) refl

    from : merged obj row ≡ row → is_dirty (upsert obj row) ≡ false
    from h =
        let resolvable_kept =
          (upsert_opt-none_iff flags obj.resolvable row.resolvable).1 (ap (λ r. r.resolvable) h) in
        ground (arith, resolvable_kept)

abbrev pub entity : Entity
entity = record {
  Row = Subdomain;
  id = λ row. row.id;
  row_value = λ row. row.value;
  scoped = scoped;
  New = NewSubdomain;
  value = λ obj. obj.value;
  set_scoped = set_scoped;
  stored = stored;
  Update = SubdomainUpdate;
  update_id = λ update. update.id;
  upsert = upsert;
  is_dirty = is_dirty;
  applied = applied;
}

pub entity-EntityLaws : EntityLaws entity
entity-EntityLaws = record {
  value-set_scoped = λ t b. unfold set_scoped in refl;
  value-stored = λ i t. unfold stored in refl;
  value-applied = λ u m. unfold applied in refl;
  scoped-stored = λ i t b. unfold stored scoped set_scoped in not-not b;
  scoped-applied = λ u m. unfold applied scoped in refl;
  id-upsert = λ t m. unfold upsert in refl;
  clean-stored = λ t i b.
      (subdomain_is_dirty_iff t (stored i (set_scoped t b))).1
        (unfold stored set_scoped merged in simp written_same);
  clean-applied = λ t m.
      (subdomain_is_dirty_iff t (applied (upsert t m) m)).1
        (rw (subdomain_applied-upsert t m) (unfold merged in simp written-written));
  applied-clean = λ t m h. subdomain_applied-upsert t m ∙ (subdomain_is_dirty_iff t m).0 h;
}
