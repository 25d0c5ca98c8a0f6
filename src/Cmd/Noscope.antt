-- ===== src/Cmd/Noscope.antt =====
-- What the command noscope has taken out of scope, no later insertion changes.
use mathlib.Core.Path.{subst}
use sn0int.Prelude.{
  ℕ, Bool, true, List, filter, length, some, Text, Result, ok, err, ◌≡◌, ◌≢◌, refl, sym, ap, ◌∙◌,
  ok-injective,
}
use sn0int.Models.Ops.{Store, StoreLaws, noscope}
use sn0int.Models.Ops.Tables.{model_of, model_of-ModelLaws}
use sn0int.Models.Ops.Scope.{noscope-insert_struct}
use sn0int.Crates.Network.{Network}
use sn0int.Crates.Table.{TableLaws, first_by_value}
use sn0int.Autonoscope.RuleSet.{RuleSet, matches}
use sn0int.Db.Filter.{Filter, parse}
use sn0int.Db.Insert.{insert_struct}
use sn0int.Db.Kinds.{Kind, entity_of, insert_of, put_same, put_other}
use sn0int.Db.Generic.{Tables, Content, insert_entity, with_scope, insert_generic}
use sn0int.Db.Generic.Outcome.{insert_scoped-entity}
use sn0int.Cmd.{Target, told, updated_rows, Operation, parsed_in, parse_in, on_target, run_noscope}

-- The target of a kind.
abbrev pub target_of : Kind → List Text → Target
target_of Kind.domain args = Target.domains args
target_of Kind.subdomain args = Target.subdomains args
target_of Kind.ip_addr args = Target.ip_addrs args
target_of Kind.url args = Target.urls args
target_of Kind.email args = Target.emails args
target_of Kind.phone_number args = Target.phone_numbers args
target_of Kind.device args = Target.devices args
target_of Kind.network args = Target.networks args
target_of Kind.account args = Target.accounts args
target_of Kind.breach args = Target.breaches args
target_of Kind.image args = Target.images args
target_of Kind.port args = Target.ports args
target_of Kind.netblock args = Target.netblocks args
target_of Kind.crypto_addr args = Target.crypto_addrs args

pub told-ok :
    {D : Type 0} (line : ℕ → Text) (p : Result ℕ × D) {text : Text} {db' : D}
    → told line p ≡ (ok text, db')
    → (n : ℕ) × (p.0 ≡ ok n) × (line n ≡ text) × (p.1 ≡ db')
told-ok line (err x, db) h = absurd (cc (ap (λ p. p.0) h))
told-ok line (ok n, db) h = (n, refl, ok-injective (ap (λ p. p.0) h), ap (λ p. p.1) h)

module _ (lower : Text → Text) (t : Tables)
    (stores : (k : Kind) → Store (entity_of k) (t.entities k)) where
  pub on_target_of :
      (op : Operation lower t stores) (k : Kind) (args : List Text) (db : Content t)
      → on_target lower t stores op (target_of k args) db ≡ parse_in lower t stores op k args db
  unfolding on_target
  on_target_of op Kind.domain args db = refl
  on_target_of op Kind.subdomain args db = refl
  on_target_of op Kind.ip_addr args db = refl
  on_target_of op Kind.url args db = refl
  on_target_of op Kind.email args db = refl
  on_target_of op Kind.phone_number args db = refl
  on_target_of op Kind.device args db = refl
  on_target_of op Kind.network args db = refl
  on_target_of op Kind.account args db = refl
  on_target_of op Kind.breach args db = refl
  on_target_of op Kind.image args db = refl
  on_target_of op Kind.port args db = refl
  on_target_of op Kind.netblock args db = refl
  on_target_of op Kind.crypto_addr args db = refl

  module _ (laws : (k : Kind) → TableLaws (entity_of k) (t.entities k))
      (store_laws : (k : Kind)
        → StoreLaws (entity_of k) (model_of k) (t.entities k) (laws k) (stores k)) where
    -- An insertion of any kind, into its own table.
    insert_generic-table :
        (n : Network) (set : RuleSet n) (k : Kind) (obj : (entity_of k).New) (db : Content t)
        → ((scoped : Bool)
            → (insert_struct (entity_of k) (t.entities k) obj scoped (db.entities k)).1
              ≡ db.entities k)
        → (insert_generic t n set (insert_of k obj) db).1.entities k ≡ db.entities k
    unfolding insert_generic insert_entity
    insert_generic-table n set k obj db quiet = go (matches n set (insert_of k obj))
      where
        go : (r : Result Bool) → (with_scope t (insert_of k obj) db r).1.entities k ≡ db.entities k
        go (err x) = refl
        go (ok scoped) =
            ap (λ p. p.1.entities k) (insert_scoped-entity t laws k obj scoped db)
            ∙ put_same k (insert_struct (entity_of k) (t.entities k) obj scoped (db.entities k)).1
                db.entities
            ∙ quiet scoped

    -- After the command `noscope` has put a known row out of scope, no insertion of its value
    -- changes the table, whatever the insertion has and whatever the rules say; the command prints
    -- the number of the rows that its filter selects, and leaves the tables of the other entities
    -- as they were.
    pub run_noscope-insert_generic :
        (k : Kind) (args : List Text) (f : Filter) (db db' : Content t) (line : Text) (n : Network)
        (set : RuleSet n) (obj : (entity_of k).New) {row : (entity_of k).Row}
        → parse lower args ≡ ok f
        → run_noscope lower t stores (target_of k args) db ≡ (ok line, db')
        → first_by_value (entity_of k) ((entity_of k).value obj) ((laws k).rows (db.entities k))
          ≡ some row
        → (store_laws k).holds f.query row ≡ true
        → (line
            ≡ updated_rows
                (length (filter ((store_laws k).holds f.query) ((laws k).rows (db.entities k)))))
          × ((other : Kind) → k ≢ other → db'.entities other ≡ db.entities other)
          × ((insert_generic t n set (insert_of k obj) db').1.entities k ≡ db'.entities k)
    unfolding run_noscope parse_in
    run_noscope-insert_generic k args f db db' line n set obj {row} valid done known hit =
        let op : Operation lower t stores =
          λ k f table. noscope (entity_of k) (model_of k) (t.entities k) (stores k) f table in
        let run : told updated_rows (parsed_in lower t stores op k (ok f) db) ≡ (ok line, db') =
          ap (told updated_rows) (
            ap (λ r. parsed_in lower t stores op k r db) (sym valid)
            ∙ sym (on_target_of op k args db))
          ∙ done in
        let (rows, counted, printed, final) =
          told-ok updated_rows (parsed_in lower t stores op k (ok f) db) run in
        let table = (op k f (db.entities k)).1 in
        let same : table ≡ db'.entities k =
          sym (put_same k table db.entities) ∙ ap (λ (d : Content t). d.entities k) final in
        let kept = λ (scoped : Bool).
          noscope-insert_struct (entity_of k) (model_of k) (model_of-ModelLaws k) (t.entities k)
            (laws k) (stores k) (store_laws k) f obj scoped (db.entities k) table rows
            (ap (λ r. (r, table)) counted) known hit in
        (
          sym printed ∙ ap updated_rows (kept true).0,
          (λ other ne.
              ap (λ (d : Content t). d.entities other) (sym final)
              ∙ put_other k other table db.entities ne),
          insert_generic-table n set k obj db' (λ scoped.
              subst (λ x. (insert_struct (entity_of k) (t.entities k) obj scoped x).1 ≡ x) same
                (kept scoped).2),
        )
