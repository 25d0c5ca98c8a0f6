-- ===== src/Autonoscope/RuleSet/Reload.antt =====
-- What a reload gives when rows leave the table.
pub mod Concat
use sn0int.Prelude.{
  Bool, true, false, List, [], ◌∷◌, ◌++◌, Text, ok, ok-injective, append-nil, not, ◌&&◌, text_eq,
  text_eq_refl, filter, filter-append, if◌then◌else◌, >>=-eq-ok, ◌≡◌, refl, sym, ap, ◌∙◌, arith,
  All, Bool-cases, inl, inr,
}
use sn0int.Crates.Network.{Network}
use sn0int.Crates.Sqlite.{Autonoscope, selects}
use sn0int.Autonoscope.Rule.{RuleType, as_str, from_str, as_str_of_from_str, Rule}
use sn0int.Autonoscope.Sort.{filter-sort, sort-sort, sort-sort_concat}
use sn0int.Autonoscope.Domain
use sn0int.Autonoscope.Ip
use sn0int.Autonoscope.Url
use sn0int.Autonoscope.RuleSet.{
  retain_other, RuleSet, add_domain, add_ip, add_url, default, sort_rules, push_row, push_rows,
  build,
}
use sn0int.Autonoscope.RuleSet.Store.{retain_rules}

retain-concat {ℓ} :
    {T : Type ℓ} (to_string : T → Text) (v : Text) (xs : List (Rule T)) (r : Rule T)
    → retain_other to_string v (xs ++ r ∷ [])
      ≡ retain_other to_string v xs ++ (if text_eq (to_string r.rule) v then [] else r ∷ [])
retain-concat to_string v xs r =
    filter-append (λ x. not (text_eq (to_string x.rule) v)) xs (r ∷ []) ∙ ground arith

-- One more rule, under `retain`: `F` puts the list into a set of rules.
retain_step {ℓ κ} :
    {T : Type ℓ} {A : Type κ} (F : List (Rule T) → A) (to_string : T → Text) (v : Text)
    (xs : List (Rule T)) (r : Rule T)
    → (if not (text_eq (to_string r.rule) v)
        then ok (F (retain_other to_string v xs ++ r ∷ []))
        else ok (F (retain_other to_string v xs)))
      ≡ ok (F (retain_other to_string v (xs ++ r ∷ [])))
retain_step F to_string v xs r =
    rw (retain-concat to_string v xs r) (elim (Bool-cases (text_eq (to_string r.rule) v)) [
      | inl same ↦ rw same (ap (λ l. ok (F l)) (sym (append-nil _)))
      | inr other ↦ rw other
    ])

module _ (n : Network) where
  -- A network is written in the table as it is printed. What `add_rule` writes is so.
  abbrev pub IsCanonical : Autonoscope → Type 0
  IsCanonical row =
      from_str row.object ≡ ok RuleType.ip
      → (r : Ip.IpRule n) → Ip.try_from n row.value ≡ ok r
      → Ip.to_string n r ≡ row.value

  -- Whether `delete_rule obj v` keeps a row of kind `t`.
  abbrev hits : RuleType → RuleType → Bool
  hits RuleType.domain RuleType.domain = true
  hits RuleType.ip RuleType.ip = true
  hits RuleType.url RuleType.url = true
  hits _ _ = false

  hits_lem : (obj t : RuleType) (o : Text) → from_str o ≡ ok t → text_eq o (as_str obj) ≡ hits t obj
  hits_lem obj t o h = rw (← as_str_of_from_str o h) (same t obj)
    where
      same : (t obj : RuleType) → text_eq (as_str t) (as_str obj) ≡ hits t obj
      same RuleType.domain RuleType.domain = text_eq_refl _
      same RuleType.ip RuleType.ip = text_eq_refl _
      same RuleType.url RuleType.url = text_eq_refl _
      same RuleType.domain RuleType.ip = unfold as_str text_eq in refl
      same RuleType.domain RuleType.url = unfold as_str text_eq in refl
      same RuleType.ip RuleType.domain = unfold as_str text_eq in refl
      same RuleType.ip RuleType.url = unfold as_str text_eq in refl
      same RuleType.url RuleType.domain = unfold as_str text_eq in refl
      same RuleType.url RuleType.ip = unfold as_str text_eq in refl

  -- What a row that loads has put into the set.
  abbrev pub Pushed : RuleType → RuleSet n → Autonoscope → RuleSet n → Type 0
  Pushed RuleType.domain acc row next =
      (r : Domain.DomainRule) × (Domain.try_from_row row ≡ ok r)
      × (Domain.to_string r ≡ row.value)
      × (add_domain n acc r row.scoped ≡ next)
  Pushed RuleType.ip acc row next =
      (r : Ip.IpRule n) × (Ip.try_from_row n row ≡ ok r)
      × (Ip.to_string n r ≡ row.value)
      × (add_ip n acc r row.scoped ≡ next)
  Pushed RuleType.url acc row next =
      (r : Url.UrlRule n) × (Url.try_from_row n row ≡ ok r)
      × (Url.to_string n r ≡ row.value)
      × (add_url n acc r row.scoped ≡ next)

  pub url_value : (x : Text) {r : Url.UrlRule n} → Url.try_from n x ≡ ok r → Url.to_string n r ≡ x
  unfolding Url.try_from Url.to_string
  url_value x h =
      let (url, _, h') = >>=-eq-ok (n.parse_url x) _ h in
      let (segments, _, made) = >>=-eq-ok (Url.ok_or (n.path_segments url) _) _ h' in
      ap (λ r. r.url) (sym (ok-injective made))

  push_row-Pushed :
      (t : RuleType) (acc : RuleSet n) (row : Autonoscope) {next : RuleSet n}
      → IsCanonical row
      → from_str row.object ≡ ok t
      → push_row n acc t row ≡ ok next
      → Pushed t acc row next
  unfolding push_row
  push_row-Pushed RuleType.domain acc row c h e =
      unfold Domain.try_from_row Domain.to_string in (_, refl, refl, ok-injective e)
  push_row-Pushed RuleType.ip acc row c h e =
      let (r, parsed, pushed) =
        >>=-eq-ok (Ip.try_from_row n row) (λ r. ok (add_ip n acc r row.scoped)) e in
      (r, parsed, c h r (unfold Ip.try_from_row in parsed), ok-injective pushed)
  push_row-Pushed RuleType.url acc row c h e =
      let (r, parsed, pushed) =
        >>=-eq-ok (Url.try_from_row n row) (λ r. ok (add_url n acc r row.scoped)) e in
      (r, parsed, url_value row.value (unfold Url.try_from_row in parsed), ok-injective pushed)

  push_row-retain :
      (obj t : RuleType) (v : Text) (acc : RuleSet n) (row : Autonoscope) (next : RuleSet n)
      → Pushed t acc row next
      → (if not (hits t obj && text_eq row.value v)
          then push_row n (retain_rules n obj v acc) t row
          else ok (retain_rules n obj v acc))
        ≡ ok (retain_rules n obj v next)
  unfolding push_row retain_rules
  push_row-retain RuleType.domain RuleType.domain v acc row next (r, parsed, printed, pushed) =
      rw (← pushed, parsed, ← printed)
        (retain_step (λ l. record acc { domains = l }) Domain.to_string v acc.domains _)
  push_row-retain RuleType.ip RuleType.ip v acc row next (r, parsed, printed, pushed) =
      rw (← pushed, parsed, ← printed)
        (retain_step (λ l. record acc { ips = l }) (Ip.to_string n) v acc.ips _)
  push_row-retain RuleType.url RuleType.url v acc row next (r, parsed, printed, pushed) =
      rw (← pushed, parsed, ← printed)
        (retain_step (λ l. record acc { urls = l }) (Url.to_string n) v acc.urls _)
  push_row-retain RuleType.domain RuleType.ip v acc row next (r, parsed, printed, pushed) =
      rw (parsed, ← pushed)
  push_row-retain RuleType.domain RuleType.url v acc row next (r, parsed, printed, pushed) =
      rw (parsed, ← pushed)
  push_row-retain RuleType.ip RuleType.domain v acc row next (r, parsed, printed, pushed) =
      rw (parsed, ← pushed)
  push_row-retain RuleType.ip RuleType.url v acc row next (r, parsed, printed, pushed) =
      rw (parsed, ← pushed)
  push_row-retain RuleType.url RuleType.domain v acc row next (r, parsed, printed, pushed) =
      rw (parsed, ← pushed)
  push_row-retain RuleType.url RuleType.ip v acc row next (r, parsed, printed, pushed) =
      rw (parsed, ← pushed)

  abbrev pub keeps : RuleType → Text → Autonoscope → Bool
  keeps obj v row = not (selects (as_str obj) v row)

  push_rows-retain :
      (obj : RuleType) (v : Text) (acc : RuleSet n) (rows : List Autonoscope) {set : RuleSet n}
      → All IsCanonical rows
      → push_rows n acc rows ≡ ok set
      → push_rows n (retain_rules n obj v acc) (filter (keeps obj v) rows)
        ≡ ok (retain_rules n obj v set)
  unfolding push_rows
  push_rows-retain obj v acc [] c e = ap (λ s. ok (retain_rules n obj v s)) (ok-injective e)
  push_rows-retain obj v acc (row ∷ rows) (c, cs) e =
      let (t, typed, e') = >>=-eq-ok (from_str row.object) _ e in
      let (next, pushed, later) = >>=-eq-ok (push_row n acc t row) (λ x. push_rows n x rows) e' in
      let ih = push_rows-retain obj v next rows cs later in
      let step = push_row-retain obj t v acc row next (push_row-Pushed t acc row c typed pushed) in
      let same = hits_lem obj t row.object typed in
      rw same (elim (Bool-cases (hits t obj && text_eq row.value v)) [
        | inl gone ↦ rw (gone, ok-injective (rw gone at step)) ih
        | inr kept ↦ rw (kept, typed, rw kept at step) ih
      ])

  sort_rules-retain :
      (obj : RuleType) (v : Text) (set : RuleSet n)
      → sort_rules n (retain_rules n obj v set) ≡ retain_rules n obj v (sort_rules n set)
  unfolding sort_rules retain_rules
  sort_rules-retain RuleType.domain v set = rw filter-sort
  sort_rules-retain RuleType.ip v set = rw filter-sort
  sort_rules-retain RuleType.url v set = rw filter-sort

  retain_rules-default : (obj : RuleType) (v : Text) → retain_rules n obj v (default n) ≡ default n
  unfolding retain_rules
  retain_rules-default RuleType.domain v = refl
  retain_rules-default RuleType.ip v = refl
  retain_rules-default RuleType.url v = refl

  -- Deleting from the table and loading is loading and deleting from the set.
  pub build-retain :
      (obj : RuleType) (v : Text) (rows : List Autonoscope) {set : RuleSet n}
      → All IsCanonical rows
      → build n rows ≡ ok set
      → build n (filter (keeps obj v) rows) ≡ ok (retain_rules n obj v set)
  unfolding build
  build-retain obj v rows c e =
      let (raw, pushed, sorted) = >>=-eq-ok (push_rows n (default n) rows) _ e in
      rw (rw (retain_rules-default obj v) at (push_rows-retain obj v (default n) rows c pushed)) (
        ap ok (sort_rules-retain obj v raw)
        ∙ ap (λ s. ok (retain_rules n obj v s)) (ok-injective sorted))
