-- ===== src/Autonoscope/RuleSet/Matching.antt =====
-- Which rule decides about an entity: the most precise one that matches.
use mathlib.Core.List.{Memᴰ}
use mathlib.Core.Path.{subst}
use sn0int.Prelude.{
  ℕ, ◌≤◌, Bool, true, false, List, [], ◌∷◌, Option, none, some, Result, ok, ok-injective, ◌>>=◌,
  >>=-eq-ok, if◌then◌else◌, ◌≡◌, refl, sym, ap, ◌∙◌, ◌⊎◌, All, All-map, arith, inl, inr,
}
use sn0int.Crates.Network.{Network}
use sn0int.Crates.Sqlite.{Autonoscope, Sqlite}
use sn0int.Models.{Insert, NewUrl}
use sn0int.Autonoscope.Rule.{Rule}
use sn0int.Autonoscope.Sort.{Descends, sort-Descends}
use sn0int.Autonoscope.Domain
use sn0int.Autonoscope.Ip
use sn0int.Autonoscope.Url
use sn0int.Autonoscope.RuleSet.{
  rule_precision, matches_any, unwrap_or_true, RuleSet, default, push_rows, sort_rules, build,
  decide, matches, load,
}

module _ {T O : Type 0} (precision : T → ℕ) (m : T → O → Result Bool) where
  -- A listed rule that matches, and that is at least as precise as every rule that matches.
  pub record Decides (rules : List (Rule T)) (object : O) (b : Bool) : Type 0 where
    pub rule : Rule T
    pub listed : Memᴰ rule rules
    pub hit : m rule.rule object ≡ ok true
    pub flag : rule.scoped ≡ b
    pub most_precise :
        All
          (λ (x : Rule T). m x.rule object ≡ ok true → precision x.rule ≤ precision rule.rule)
          rules

  -- A verdict is the flag of such a rule; there is none where every rule misses.
  abbrev pub Verdict : List (Rule T) → O → Option Bool → Type 0
  Verdict rules object none = All (λ (x : Rule T). m x.rule object ≡ ok false) rules
  Verdict rules object (some b) = Decides rules object b

  Verdict-cons :
      (r : Rule T) (rules : List (Rule T)) (object : O) (v : Option Bool)
      → m r.rule object ≡ ok false
      → Verdict rules object v
      → Verdict (r ∷ rules) object v
  Verdict-cons r rules object none miss h = (miss, h)
  Verdict-cons r rules object (some b) miss h = record {
    rule = h.rule;
    listed = Memᴰ.tail h.listed;
    hit = h.hit;
    flag = h.flag;
    most_precise = (λ hit. absurd (cc), h.most_precise);
  }

  -- The first rule that matches in a sorted list gives the verdict.
  pub matches_any-Verdict :
      (rules : List (Rule T)) (object : O) (v : Option Bool)
      → Descends (rule_precision precision) rules
      → matches_any m rules object ≡ ok v
      → Verdict rules object v
  unfolding matches_any
  matches_any-Verdict [] object v d e = subst (Verdict [] object) (ok-injective e) tt
  matches_any-Verdict (r ∷ rules) object v (below, d) e =
      let (hit, matched, chosen) = >>=-eq-ok (m r.rule object) _ e in
      go hit matched chosen (matches_any-Verdict rules object v d)
    where
      go :
          (hit : Bool)
          → m r.rule object ≡ ok hit
          → (if hit then ok (some r.scoped) else matches_any m rules object) ≡ ok v
          → (matches_any m rules object ≡ ok v → Verdict rules object v)
          → Verdict (r ∷ rules) object v
      go true matched chosen ih = subst (Verdict (r ∷ rules) object) (ok-injective chosen) (record {
        rule = r;
        listed = Memᴰ.head refl;
        hit = matched;
        flag = refl;
        most_precise = (λ _. omega arith, All-map _ _ (λ x h _. h) rules below);
      })
      go false matched chosen ih = Verdict-cons r rules object v matched (ih chosen)

  -- The flag that a verdict gives, in scope where there is none.
  abbrev pub Settled : List (Rule T) → O → Bool → Type 0
  Settled rules object b = (v : Option Bool) × Verdict rules object v × (unwrap_or_true v ≡ b)

  pub settle :
      (rules : List (Rule T)) (object : O) (b : Bool)
      → Descends (rule_precision precision) rules
      → (matches_any m rules object >>= λ v. ok (unwrap_or_true v)) ≡ ok b
      → Settled rules object b
  settle rules object b d e =
      let (v, found, out) = >>=-eq-ok (matches_any m rules object) (λ v. ok (unwrap_or_true v)) e in
      (v, matches_any-Verdict rules object v d found, ok-injective out)

module _ (n : Network) where
  -- Each list of rules is sorted by descending precision.
  pub record IsSorted (set : RuleSet n) : Type 0 where
    pub domains_sorted : Descends (rule_precision Domain.precision) set.domains
    pub ips_sorted : Descends (rule_precision (Ip.precision n)) set.ips
    pub urls_sorted : Descends (rule_precision (Url.precision n)) set.urls

  pub sort_rules-IsSorted : (set : RuleSet n) → IsSorted (sort_rules n set)
  unfolding sort_rules
  sort_rules-IsSorted set = record {
    domains_sorted = sort-Descends _ set.domains;
    ips_sorted = sort-Descends _ set.ips;
    urls_sorted = sort-Descends _ set.urls;
  }

  -- A set of rules that is loaded from rows has its three lists sorted by descending precision.
  pub build-IsSorted :
      (rows : List Autonoscope) (set : RuleSet n) → build n rows ≡ ok set → IsSorted set
  unfolding build
  build-IsSorted rows set e =
      let (raw, _, sorted) = >>=-eq-ok (push_rows n (default n) rows) _ e in
      subst IsSorted (ok-injective sorted) (sort_rules-IsSorted raw)

  -- A set of rules that `load` returns, whatever the database holds, has its three lists sorted by
  -- descending precision.
  pub load-IsSorted :
      (s : Sqlite) (db : s.Connection) (set : RuleSet n) → load n s db ≡ ok set → IsSorted set
  unfolding load
  load-IsSorted s db set e =
      let (rows, _, built) = >>=-eq-ok (s.load_autonoscope db) (build n) e in
      build-IsSorted rows set built

  -- What the flag of an entity follows from. A verdict of the domain rules comes before one of the
  -- URL rules, whatever their precision; with no verdict the entity is in scope.
  abbrev pub Judged : RuleSet n → Insert → Bool → Type 0
  Judged set (Insert.domain d) b = Settled Domain.precision Domain.matches_domain set.domains d b
  Judged set (Insert.subdomain d) b =
      Settled Domain.precision Domain.matches_subdomain set.domains d b
  Judged set (Insert.ip_addr a) b = Settled (Ip.precision n) (Ip.matches_ip_addr n) set.ips a b
  Judged set (Insert.port p) b = Settled (Ip.precision n) (Ip.matches_port n) set.ips p b
  Judged set (Insert.netblock p) b = Settled (Ip.precision n) (Ip.matches_netblock n) set.ips p b
  Judged set (Insert.url u) b =
      Decides Domain.precision (Domain.matches_url n) set.domains u b
      ⊎ (Verdict Domain.precision (Domain.matches_url n) set.domains u none
          × Settled (Url.precision n) (Url.matches_url n) set.urls u b)
  Judged set _ b = b ≡ true

  url-Judged :
      (set : RuleSet n) (u : NewUrl) (b : Bool)
      → IsSorted set
      → matches n set (Insert.url u) ≡ ok b
      → Judged set (Insert.url u) b
  unfolding matches
  url-Judged set u b h e =
      let (v, found, out) = >>=-eq-ok (decide n set (Insert.url u)) _ e in
      let (by_domain, first, rest) =
        >>=-eq-ok (matches_any (Domain.matches_url n) set.domains u) _ found in
      let verdict =
        matches_any-Verdict Domain.precision (Domain.matches_url n) set.domains u by_domain
          h.domains_sorted first in
      go v by_domain verdict rest (ok-injective out)
    where
      go :
          (v by_domain : Option Bool)
          → Verdict Domain.precision (Domain.matches_url n) set.domains u by_domain
          → (let r : Result (Option Bool) = elim by_domain [
            | some result ↦ ok (some result)
            | none ↦ matches_any (Url.matches_url n) set.urls u
          ] in
              r ≡ ok v)
          → unwrap_or_true v ≡ b
          → Judged set (Insert.url u) b
      go v (some x) verdict rest out =
          let same : x ≡ b = ap unwrap_or_true (ok-injective rest) ∙ out in
          inl (subst (Decides Domain.precision (Domain.matches_url n) set.domains u) same verdict)
      go v none verdict rest out = inr (
        verdict,
        (
          v,
          matches_any-Verdict (Url.precision n) (Url.matches_url n) set.urls u v h.urls_sorted rest,
          out,
        ),
      )

  -- With sorted lists of rules, whenever `matches` returns a flag it is the flag of a listed rule
  -- that matches the entity and is at least as precise as every listed rule that matches, or true
  -- where every rule misses; for a URL a matching domain rule comes before every URL rule, and an
  -- entity of a kind that no rule is about is in scope.
  pub matches-Judged :
      (set : RuleSet n) (object : Insert) (b : Bool)
      → IsSorted set
      → matches n set object ≡ ok b
      → Judged set object b
  unfolding matches
  matches-Judged set (Insert.domain d) b h e = settle _ _ set.domains d b h.domains_sorted e
  matches-Judged set (Insert.subdomain d) b h e = settle _ _ set.domains d b h.domains_sorted e
  matches-Judged set (Insert.ip_addr a) b h e = settle _ _ set.ips a b h.ips_sorted e
  matches-Judged set (Insert.port p) b h e = settle _ _ set.ips p b h.ips_sorted e
  matches-Judged set (Insert.netblock p) b h e = settle _ _ set.ips p b h.ips_sorted e
  matches-Judged set (Insert.url u) b h e = url-Judged set u b h e
  matches-Judged set _ b h e = sym (ok-injective e)
