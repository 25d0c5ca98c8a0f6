-- ===== src/Db/Generic/Outcome.antt =====
-- The insertion of any entity: the row that it leaves has the flag that the rules gave, and the other tables stay
-- as they were.
use mathlib.Core.Path.{subst}
use sn0int.Prelude.{
  ℕ, Bool, true, false, Option, Result, ok, err, ◌≡◌, ◌≢◌, refl, sym, ap, ◌∙◌, none, some,
}
use sn0int.Crates.Network.{Network}
use sn0int.Crates.Table.{TableLaws, first_by_value}
use sn0int.Autonoscope.RuleSet.{RuleSet, matches}
use sn0int.Db.Kinds.{
  Kind, entity_of, entity_of-EntityLaws, merged_of, merged_of_update, insert_of, put, put_same,
  put_other,
}
use sn0int.Db.Insert.{insert_struct}
use sn0int.Db.Insert.Again.{Outcome, Keeps, insert_struct-Outcome}
use sn0int.Db.Generic.{
  Change, answer, entity_change, Tables, Content, insert_entity, insert_scoped, with_scope,
  insert_generic,
}

answer-eq-ok :
    {A : Type 0} (f : A → Change) (a : Result (Option (A × ℕ))) {r : Option (Change × ℕ)}
    → answer f a ≡ ok r
    → (r' : Option (A × ℕ)) × (a ≡ ok r')
answer-eq-ok f (err x) e = absurd (cc)
answer-eq-ok f (ok r) e = (r, refl)

module _ (t : Tables) (laws : (k : Kind) → TableLaws (entity_of k) (t.entities k)) where
  pub insert_scoped-entity :
      (k : Kind) (obj : (entity_of k).New) (scoped : Bool) (db : Content t)
      → insert_scoped t (insert_of k obj) scoped db ≡ insert_entity t k obj scoped db
  unfolding insert_scoped
  insert_scoped-entity Kind.domain obj scoped db = refl
  insert_scoped-entity Kind.subdomain obj scoped db = refl
  insert_scoped-entity Kind.ip_addr obj scoped db = refl
  insert_scoped-entity Kind.url obj scoped db = refl
  insert_scoped-entity Kind.email obj scoped db = refl
  insert_scoped-entity Kind.phone_number obj scoped db = refl
  insert_scoped-entity Kind.device obj scoped db = refl
  insert_scoped-entity Kind.network obj scoped db = refl
  insert_scoped-entity Kind.account obj scoped db = refl
  insert_scoped-entity Kind.breach obj scoped db = refl
  insert_scoped-entity Kind.image obj scoped db = refl
  insert_scoped-entity Kind.port obj scoped db = refl
  insert_scoped-entity Kind.netblock obj scoped db = refl
  insert_scoped-entity Kind.crypto_addr obj scoped db = refl

  -- What an insertion with a flag leaves: the row of the entity, and all other tables as they were.
  pub record Inserted (k : Kind) (obj : (entity_of k).New) (scoped : Bool) (db db' : Content t)
      : Type 0 where
    pub outcome :
        Outcome
          (entity_of k)
          (entity_of-EntityLaws k)
          (t.entities k)
          (laws k)
          obj
          scoped
          (db.entities k)
          (db'.entities k)
    -- a known row in scope has what was given, and is otherwise as it was
    pub updated :
        (old : (entity_of k).Row)
        → first_by_value (entity_of k) ((entity_of k).value obj) ((laws k).rows (db.entities k))
          ≡ some old
        → (entity_of k).scoped old ≡ true
        → outcome.row ≡ merged_of k obj old
    -- a known row out of scope does not change
    pub untouched :
        (old : (entity_of k).Row)
        → first_by_value (entity_of k) ((entity_of k).value obj) ((laws k).rows (db.entities k))
          ≡ some old
        → (entity_of k).scoped old ≡ false
        → outcome.row ≡ old
    -- a new row has all columns of the insertion, and the flag of the rules
    pub stored :
        first_by_value (entity_of k) ((entity_of k).value obj) ((laws k).rows (db.entities k))
          ≡ none
        → (i : ℕ) × (outcome.row ≡ (entity_of k).stored i ((entity_of k).set_scoped obj scoped))
    pub others : (other : Kind) → k ≢ other → db'.entities other ≡ db.entities other
    pub subdomain_ip_addrs : db'.subdomain_ip_addrs ≡ db.subdomain_ip_addrs
    pub network_devices : db'.network_devices ≡ db.network_devices
    pub breach_emails : db'.breach_emails ≡ db.breach_emails

  keeps :
      (k : Kind) (obj : (entity_of k).New) (scoped : Bool) (row : (entity_of k).Row)
      (found known : Option (entity_of k).Row)
      → found ≡ known
      → Keeps (entity_of k) (entity_of-EntityLaws k) (t.entities k) (laws k) obj scoped found row
      → Keeps (entity_of k) (entity_of-EntityLaws k) (t.entities k) (laws k) obj scoped known row
  keeps k obj scoped row found known e h =
      subst
        (λ o. Keeps (entity_of k) (entity_of-EntityLaws k) (t.entities k) (laws k) obj scoped o row)
        e h

  insert_entity-Inserted :
      (k : Kind) (obj : (entity_of k).New) (scoped : Bool) (db db' : Content t)
      {r : Option (Change × ℕ)}
      → insert_entity t k obj scoped db ≡ (ok r, db')
      → Inserted k obj scoped db db'
  unfolding insert_entity
  insert_entity-Inserted k obj scoped db db' {r} h =
      let a = (insert_struct (entity_of k) (t.entities k) obj scoped (db.entities k)).0 in
      let table = (insert_struct (entity_of k) (t.entities k) obj scoped (db.entities k)).1 in
      let (r', done) = answer-eq-ok (entity_change k) a (ap (λ p. p.0) h) in
      let outcome =
        insert_struct-Outcome (entity_of k) (entity_of-EntityLaws k) (t.entities k) (laws k) obj
          scoped (db.entities k) table {r = r'} (ap (λ x. (x, table)) done) in
      let final : (record db { entities = put k table db.entities }) ≡ db' = ap (λ p. p.1) h in
      let o =
        subst
          (Outcome (entity_of k) (entity_of-EntityLaws k) (t.entities k) (laws k) obj scoped
            (db.entities k))
          (sym (put_same k table db.entities)) outcome in
      subst (Inserted k obj scoped db) final (record {
        outcome = o;
        updated = λ old known within.
            (keeps k obj scoped o.row _ _ known o.keeps).2 within ∙ merged_of_update k obj old;
        untouched = λ old known out. (keeps k obj scoped o.row _ _ known o.keeps).1 out;
        stored = λ known. (keeps k obj scoped o.row _ _ known o.keeps).1;
        others = λ other ne. put_other k other table db.entities ne;
        subdomain_ip_addrs = refl;
        network_devices = refl;
        breach_emails = refl;
      })

  -- If the rules judge an entity and its insertion by `insert_generic` returns without an error,
  -- then its table has a row for the value. If the value was known and in scope, this is the old
  -- row with each optional column that was given set to what was given, and every other column as
  -- it was; if it was known and out of scope, it is the old row unchanged. If the value was new,
  -- the row has all columns of the insertion and the flag of the rules. The tables of the other
  -- entities stay as they were.
  pub insert_generic-Inserted :
      (n : Network) (set : RuleSet n) (k : Kind) (obj : (entity_of k).New) (scoped : Bool)
      (db db' : Content t) {r : Option (Change × ℕ)}
      → matches n set (insert_of k obj) ≡ ok scoped
      → insert_generic t n set (insert_of k obj) db ≡ (ok r, db')
      → Inserted k obj scoped db db'
  unfolding insert_generic
  insert_generic-Inserted n set k obj scoped db db' judged h =
      insert_entity-Inserted k obj scoped db db' (
        sym (insert_scoped-entity k obj scoped db)
        ∙ ap (with_scope t (insert_of k obj) db) (sym judged)
        ∙ h)
