-- ===== src/Autonoscope/RuleSet/Order.antt =====
-- The lists of rules stay sorted whatever an operation returns, errors included.
use mathlib.Core.Path.{subst}
use sn0int.Prelude.{Bool, Text, Result, ok, err, Error, ◌≡◌, refl, sym, ap}
use sn0int.Crates.Network.{Network}
use sn0int.Crates.Sqlite.{NewAutonoscope, Sqlite}
use sn0int.Autonoscope.Rule.{RuleType}
use sn0int.Autonoscope.Sort.{Descends-filter}
use sn0int.Autonoscope.Domain
use sn0int.Autonoscope.Ip
use sn0int.Autonoscope.Url
use sn0int.Autonoscope.RuleSet.{RuleSet, add_domain, add_ip, add_url, sort_rules}
use sn0int.Autonoscope.RuleSet.Matching.{IsSorted, sort_rules-IsSorted}
use sn0int.Autonoscope.RuleSet.Store
use sn0int.Autonoscope.RuleSet.Store.{
  retain_rules, Scope, M, db_add, db_delete, delete_rule, add_new, add_rule, into_new,
}

module _ (n : Network) (s : Sqlite) where
  retain_rules-IsSorted :
      (obj : RuleType) (v : Text) (set : RuleSet n)
      → IsSorted n set
      → IsSorted n (retain_rules n obj v set)
  unfolding retain_rules
  retain_rules-IsSorted RuleType.domain v set h = record {
    domains_sorted = Descends-filter _ _ set.domains h.domains_sorted;
    ips_sorted = h.ips_sorted;
    urls_sorted = h.urls_sorted;
  }
  retain_rules-IsSorted RuleType.ip v set h = record {
    domains_sorted = h.domains_sorted;
    ips_sorted = Descends-filter _ _ set.ips h.ips_sorted;
    urls_sorted = h.urls_sorted;
  }
  retain_rules-IsSorted RuleType.url v set h = record {
    domains_sorted = h.domains_sorted;
    ips_sorted = h.ips_sorted;
    urls_sorted = Descends-filter _ _ set.urls h.urls_sorted;
  }

  -- A statement leaves the rules in memory alone.
  executed-set :
      (r : Result s.Connection) (st : Scope n s) → (Store.executed n s r st).1.set ≡ st.set
  executed-set (ok db) st = refl
  executed-set (err e) st = refl

  -- `delete_rule` leaves the lists of rules sorted by descending precision if they were, also when
  -- it returns an error.
  pub delete_rule-IsSorted :
      (obj : RuleType) (v : Text) (st : Scope n s)
      → IsSorted n st.set
      → IsSorted n (delete_rule n s obj v st).1.set
  unfolding delete_rule
  delete_rule-IsSorted obj v st h =
      subst (IsSorted n) (sym (executed-set _ (record st { set = retain_rules n obj v st.set })))
        (retain_rules-IsSorted obj v st.set h)

  -- An operation that fails leaves the rules as they were.
  abbrev Spares : M n s (Unit {0}) → Type 0
  Spares m = (st st' : Scope n s) (x : Error) → m st ≡ (err x, st') → st'.set ≡ st.set

  steps-Spares :
      {R : Type 0} (parsed : Result R) (new : R → NewAutonoscope) (push : R → RuleSet n → RuleSet n)
      → Spares (
          Store.◌>>=◌ n s
            (Store.lift n s parsed)
            (λ r. Store.◌>>◌ n s (db_add n s (new r)) (Store.modify n s (push r))))
  unfolding db_add
  steps-Spares (err y) new push st st' x e = ap (λ p. p.1.set) (sym e)
  steps-Spares (ok r) new push st st' x e = go (s.insert_autonoscope (new r) st.db) e
    where
      go :
          (q : Result s.Connection)
          → Store.◌>>◌ n s (Store.executed n s q) (Store.modify n s (push r)) st ≡ (err x, st')
          → st'.set ≡ st.set
      go (ok db) h = absurd (cc (ap (λ p. p.0) h))
      go (err y) h = ap (λ p. p.1.set) (sym h)

  add_new-Spares : (obj : RuleType) (v : Text) (b : Bool) → Spares (add_new n s obj v b)
  unfolding add_new
  add_new-Spares RuleType.domain v b =
      steps-Spares (Domain.try_from v) _ (λ r set. add_domain n set r b)
  add_new-Spares RuleType.ip v b = steps-Spares (Ip.try_from n v) _ (λ r set. add_ip n set r b)
  add_new-Spares RuleType.url v b = steps-Spares (Url.try_from n v) _ (λ r set. add_url n set r b)

  -- `add_rule` leaves the lists of rules sorted by descending precision if they were, also when it
  -- returns an error.
  pub add_rule-IsSorted :
      (obj : RuleType) (v : Text) (b : Bool) (st : Scope n s)
      → IsSorted n st.set
      → IsSorted n (add_rule n s obj v b st).1.set
  unfolding add_rule
  add_rule-IsSorted obj v b st h = go (delete_rule n s obj v st) (delete_rule-IsSorted obj v st h)
    where
      finish :
          (st₁ : Scope n s) (r : Result (Unit {0}) × Scope n s)
          → add_new n s obj v b st₁ ≡ r
          → IsSorted n st₁.set
          → IsSorted n (
              let k : Result (Unit {0}) × Scope n s = elim r.0 [
                | ok a ↦ Store.modify n s (sort_rules n) r.1
                | err x ↦ (err x, r.1)
              ] in
              k.1.set)
      finish st₁ (ok a, st₂) e k = sort_rules-IsSorted n st₂.set
      finish st₁ (err x, st₂) e k = subst (IsSorted n) (sym (add_new-Spares obj v b st₁ st₂ x e)) k

      go :
          (r : Result (Unit {0}) × Scope n s)
          → IsSorted n r.1.set
          → IsSorted n (
              let k : Result (Unit {0}) × Scope n s = elim r.0 [
                | ok a ↦ Store.◌>>◌ n s (add_new n s obj v b) (Store.modify n s (sort_rules n)) r.1
                | err x ↦ (err x, r.1)
              ] in
              k.1.set)
      go (ok a, st₁) k = finish st₁ (add_new n s obj v b st₁) refl k
      go (err x, st₁) k = k
