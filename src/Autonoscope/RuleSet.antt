-- ===== src/Autonoscope/RuleSet.antt =====
-- src/autonoscope/mod.rs: the set of rules, kept in memory beside the database table.
pub mod Store
pub mod Matching
pub mod Order
pub mod Reload
pub mod Sync
use sn0int.Prelude.{
  ℕ, Bool, true, false, not, List, [], ◌∷◌, ◌++◌, Option, none, some, Text, codes, text_eq, filter,
  Result, ok, err, ◌>>=◌, Error, if◌then◌else◌,
}
use sn0int.Crates.Network.{Network}
use sn0int.Crates.Sqlite.{Autonoscope, NewAutonoscope, Sqlite}
use sn0int.Models.{Insert}
use sn0int.Autonoscope.Rule.{RuleType, as_str, from_str, Rule, sort_precision_desc, sort_by}
use sn0int.Autonoscope.Domain
use sn0int.Autonoscope.Domain.{DomainRule}
use sn0int.Autonoscope.Ip
use sn0int.Autonoscope.Ip.{IpRule}
use sn0int.Autonoscope.Url
use sn0int.Autonoscope.Url.{UrlRule}

-- `Rule` borrows the precision of what it holds.
abbrev pub rule_precision {ℓ} : {T : Type ℓ} → (T → ℕ) → Rule T → ℕ
rule_precision precision r = precision r.rule

-- The first rule that matches decides; an error of a rule before it is the result.
unfoldable pub matches_any {ℓ κ} :
    {T : Type ℓ} {O : Type κ} → (T → O → Result Bool) → List (Rule T) → O → Result (Option Bool)
matches_any matches [] object = ok none
matches_any matches (r ∷ rules) object =
    let later = matches_any matches rules object in
    matches r.rule object >>= λ hit. if hit then ok (some r.scoped) else later

-- `retain(|x| x.to_string().as_str() != rule)`
abbrev pub retain_other {ℓ} : {T : Type ℓ} → (T → Text) → Text → List (Rule T) → List (Rule T)
retain_other to_string value = filter (λ x. not (text_eq (to_string x.rule) value))

-- `scoped.unwrap_or(true)`
abbrev pub unwrap_or_true : Option Bool → Bool
unwrap_or_true none = true
unwrap_or_true (some b) = b

module _ (n : Network) where
  pub record RuleSet : Type 0 where
    pub domains : List (Rule DomainRule)
    pub ips : List (Rule (IpRule n))
    pub urls : List (Rule (UrlRule n))

  -- `set.domains.push(Rule::new(rule, scoped))`, and so for the other two.
  abbrev pub add_domain : RuleSet → DomainRule → Bool → RuleSet
  add_domain set r b = record set { domains = set.domains ++ record { rule = r; scoped = b } ∷ [] }

  abbrev pub add_ip : RuleSet → IpRule n → Bool → RuleSet
  add_ip set r b = record set { ips = set.ips ++ record { rule = r; scoped = b } ∷ [] }

  abbrev pub add_url : RuleSet → UrlRule n → Bool → RuleSet
  add_url set r b = record set { urls = set.urls ++ record { rule = r; scoped = b } ∷ [] }

  abbrev pub default : RuleSet
  default = record { domains = []; ips = []; urls = [] }

  unfoldable pub sort_rules : RuleSet → RuleSet
  sort_rules set = record {
    domains = sort_by (sort_precision_desc (rule_precision Domain.precision)) set.domains;
    ips = sort_by (sort_precision_desc (rule_precision (Ip.precision n))) set.ips;
    urls = sort_by (sort_precision_desc (rule_precision (Url.precision n))) set.urls;
  }

  -- The body of the loop of `load`, on one row.
  unfoldable pub push_row : RuleSet → RuleType → Autonoscope → Result RuleSet
  push_row set RuleType.domain row = do
    rule ← Domain.try_from_row row
    ok (add_domain set rule row.scoped)
  push_row set RuleType.ip row = do rule ← Ip.try_from_row n row; ok (add_ip set rule row.scoped)
  push_row set RuleType.url row = do rule ← Url.try_from_row n row; ok (add_url set rule row.scoped)

  unfoldable pub push_rows : RuleSet → List Autonoscope → Result RuleSet
  unfolding push_row
  push_rows set [] = ok set
  push_rows set (row ∷ rows) = do
    rule_type ← from_str row.object
    next ← push_row set rule_type row
    push_rows next rows

  -- `load`, after the query.
  unfoldable pub build : List Autonoscope → Result RuleSet
  unfolding push_rows sort_rules
  build rows = do set ← push_rows default rows; ok (sort_rules set)

  -- The match of `matches`, before the default is put in.
  unfoldable pub decide : RuleSet → Insert → Result (Option Bool)
  unfolding matches_any
  decide set (Insert.domain d) = matches_any Domain.matches_domain set.domains d
  decide set (Insert.subdomain d) = matches_any Domain.matches_subdomain set.domains d
  decide set (Insert.ip_addr a) = matches_any (Ip.matches_ip_addr n) set.ips a
  decide set (Insert.url u) = do
    by_domain ← matches_any (Domain.matches_url n) set.domains u
    elim by_domain [
      | some result ↦ ok (some result)
      | none ↦ matches_any (Url.matches_url n) set.urls u
    ]
  decide set (Insert.port p) = matches_any (Ip.matches_port n) set.ips p
  decide set (Insert.netblock b) = matches_any (Ip.matches_netblock n) set.ips b
  decide set _ = ok none

  unfoldable pub matches : RuleSet → Insert → Result Bool
  unfolding decide
  matches set object = do scoped ← decide set object; ok (unwrap_or_true scoped)

-- `push_rules_display`
unfoldable pub push_rules_display {ℓ} :
    {T : Type ℓ}
    → (T → Text × Text)
    → List (Text × Text × Bool)
    → List (Rule T)
    → List (Text × Text × Bool)
push_rules_display into_rule output [] = output
push_rules_display into_rule output (r ∷ rules) =
    let pair = into_rule r.rule in
    push_rules_display into_rule (output ++ (pair.0, pair.1, r.scoped) ∷ []) rules

-- `RuleSet::rules`
unfoldable pub rules : (n : Network) → RuleSet n → List (Text × Text × Bool)
unfolding push_rules_display
rules n set =
    let a = push_rules_display Domain.into_rule [] set.domains in
    let b = push_rules_display (Ip.into_rule n) a set.ips in
    push_rules_display (Url.into_rule n) b set.urls

unfoldable pub load : (n : Network) (s : Sqlite) → s.Connection → Result (RuleSet n)
unfolding build
load n s db = do rows ← s.load_autonoscope db; build n rows
