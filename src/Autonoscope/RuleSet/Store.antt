-- ===== src/Autonoscope/RuleSet/Store.antt =====
-- src/autonoscope/mod.rs: the operations that change the rules in memory and in the database. They
-- run on both and return an error or a result with the state that they leave, also on an error.
use sn0int.Prelude.{Bool, Text, Result, ok, err}
use sn0int.Crates.Network.{Network}
use sn0int.Crates.Sqlite.{NewAutonoscope, Sqlite}
use sn0int.Autonoscope.Rule.{RuleType, as_str}
use sn0int.Autonoscope.Domain
use sn0int.Autonoscope.Ip
use sn0int.Autonoscope.Url
use sn0int.Autonoscope.RuleSet.{RuleSet, add_domain, add_ip, add_url, retain_other, sort_rules}

-- `Into<NewAutonoscope> for &Rule<T>`
unfoldable pub into_new : Text × Text → Bool → NewAutonoscope
into_new p scoped = record { object = p.0; value = p.1; scoped = scoped }

-- The `retain` of `delete_rule`.
unfoldable pub retain_rules : (n : Network) → RuleType → Text → RuleSet n → RuleSet n
retain_rules n RuleType.domain v set = record set {
  domains = retain_other Domain.to_string v set.domains;
}
retain_rules n RuleType.ip v set = record set { ips = retain_other (Ip.to_string n) v set.ips }
retain_rules n RuleType.url v set = record set { urls = retain_other (Url.to_string n) v set.urls }

module _ (n : Network) (s : Sqlite) where
  pub record Scope : Type 0 where
    pub set : RuleSet n
    pub db : s.Connection

  abbrev pub M : Type 0 → Type 0
  M A = Scope → Result A × Scope

  infixl 5 ◌>>=◌ ◌>>◌
  abbrev pub ◌>>=◌ : {A B : Type 0} → M A → (A → M B) → M B
  ◌>>=◌ m f st = let r = m st in elim r.0 [ ok a ↦ f a r.1 | err e ↦ (err e, r.1) ]

  abbrev pub ◌>>◌ : {B : Type 0} → M (Unit {0}) → M B → M B
  m >> k = m >>= λ _. k

  abbrev pub lift : {A : Type 0} → Result A → M A
  lift r st = (r, st)

  abbrev pub modify : (RuleSet n → RuleSet n) → M (Unit {0})
  modify f st = (ok tt, record st { set = f st.set })

  -- What a statement leaves: the new connection state, or the old one and the error.
  abbrev pub executed : Result s.Connection → M (Unit {0})
  executed (ok db) st = (ok tt, record st { db = db })
  executed (err e) st = (err e, st)

  unfoldable pub db_add : NewAutonoscope → M (Unit {0})
  db_add row st = executed (s.insert_autonoscope row st.db) st

  unfoldable pub db_delete : RuleType → Text → M (Unit {0})
  db_delete obj v st = executed (s.delete_autonoscope (as_str obj) v st.db) st

  unfoldable pub delete_rule : RuleType → Text → M (Unit {0})
  unfolding db_delete retain_rules
  delete_rule obj v = do modify (retain_rules n obj v); db_delete obj v

  -- The match of `add_rule`.
  unfoldable pub add_new : RuleType → Text → Bool → M (Unit {0})
  unfolding db_add into_new
  add_new RuleType.domain value scoped = do
    rule ← lift (Domain.try_from value)
    db_add (into_new (Domain.into_rule rule) scoped)
    modify (λ set. add_domain n set rule scoped)
  add_new RuleType.ip value scoped = do
    rule ← lift (Ip.try_from n value)
    db_add (into_new (Ip.into_rule n rule) scoped)
    modify (λ set. add_ip n set rule scoped)
  add_new RuleType.url value scoped = do
    rule ← lift (Url.try_from n value)
    db_add (into_new (Url.into_rule n rule) scoped)
    modify (λ set. add_url n set rule scoped)

  unfoldable pub add_rule : RuleType → Text → Bool → M (Unit {0})
  unfolding delete_rule add_new
  add_rule object value scoped = do
    delete_rule object value
    add_new object value scoped
    modify (sort_rules n)
