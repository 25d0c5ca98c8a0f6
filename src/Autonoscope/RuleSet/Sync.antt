-- ===== src/Autonoscope/RuleSet/Sync.antt =====
-- The rules in memory are those that a reload of the table would give.
use mathlib.Core.Path.{subst}
use sn0int.Prelude.{
  ℕ, Bool, [], ◌∷◌, ◌++◌, Text, Result, ok, err, ok-injective, ◌≡◌, refl, sym, ap, ◌∙◌, All,
  All-filter, All-append,
}
use sn0int.Crates.Network.{Network, NetworkLaws}
use sn0int.Crates.Sqlite.{Autonoscope, NewAutonoscope, stored, Sqlite, SqliteLaws}
use sn0int.Autonoscope.Rule.{RuleType, as_str, from_str, from_str-as_str}
use sn0int.Autonoscope.Domain
use sn0int.Autonoscope.Ip
use sn0int.Autonoscope.Url
use sn0int.Autonoscope.RuleSet.{RuleSet, add_domain, add_ip, add_url, build, sort_rules}
use sn0int.Autonoscope.RuleSet.Reload.Concat.{build-concat}
use sn0int.Autonoscope.RuleSet.Reload.{IsCanonical, url_value, Pushed, keeps, build-retain}
use sn0int.Autonoscope.RuleSet.Store
use sn0int.Autonoscope.RuleSet.Store.{
  retain_rules, Scope, M, db_add, db_delete, delete_rule, add_new, add_rule, into_new, ◌>>=◌, ◌>>◌,
}

module _ (n : Network) (s : Sqlite) (l : SqliteLaws s) where
  -- The set in memory is what a load of the table gives, and the table's networks are canonical.
  pub record IsSynced (st : Scope n s) : Type 0 where
    pub canonical : All (IsCanonical n) (l.rows st.db)
    pub loaded : build n (l.rows st.db) ≡ ok st.set

  -- A statement that succeeded.
  executed-ok :
      (r : Result s.Connection) (st st' : Scope n s)
      → Store.executed n s r st ≡ (ok tt, st')
      → (db : s.Connection) × (r ≡ ok db) × (record st { db = db } ≡ st')
  executed-ok (ok db) st st' e = (db, refl, ap (λ p. p.1) e)
  executed-ok (err x) st st' e = absurd (cc (ap (λ p. p.0) e))

  -- If the rules in memory are those that a load of the table gives, and the networks in the table
  -- are written as they print, then this also holds after `delete_rule` has returned with success.
  pub delete_rule-IsSynced :
      (obj : RuleType) (v : Text) (st st' : Scope n s)
      → IsSynced st
      → delete_rule n s obj v st ≡ (ok tt, st')
      → IsSynced st'
  unfolding delete_rule
  delete_rule-IsSynced obj v st st' h e =
      let (db, deleted, same) =
        executed-ok (s.delete_autonoscope (as_str obj) v st.db)
          (record st { set = retain_rules n obj v st.set }) st' e in
      let gone = l.delete_rows (as_str obj) v st.db deleted in
      rw (← same) (record {
        canonical = rw gone (All-filter (IsCanonical n) (keeps n obj v) (l.rows st.db) h.canonical);
        loaded = rw gone (build-retain n obj v (l.rows st.db) h.canonical h.loaded);
      })

  -- A chain that succeeded: its first part did.
  >>=-eq-ok_state :
      {A B : Type 0} (m : M n s A) (f : A → M n s B) (st st' : Scope n s) {b : B}
      → ◌>>=◌ n s m f st ≡ (ok b, st')
      → (a : A) × (st₁ : Scope n s) × (m st ≡ (ok a, st₁)) × (f a st₁ ≡ (ok b, st'))
  >>=-eq-ok_state {A} {B} m f st st' {b} e = go (m st) refl e
    where
      go :
          (r : Result A × Scope n s)
          → m st ≡ r
          → (let k : Result B × Scope n s = elim r.0 [ ok a ↦ f a r.1 | err x ↦ (err x, r.1) ] in
              k ≡ (ok b, st'))
          → (a : A) × (st₁ : Scope n s) × (m st ≡ (ok a, st₁)) × (f a st₁ ≡ (ok b, st'))
      go (ok a, st₁) same h = (a, st₁, same, h)
      go (err x, st₁) same h = absurd (cc (ap (λ p. p.0) h))

  -- The row that `add_new` has written, and what it has done to the set.
  abbrev Added : RuleType → Scope n s → Scope n s → Type 0
  Added obj st st' =
      (row : Autonoscope) × (l.rows st'.db ≡ l.rows st.db ++ row ∷ [])
      × (row.object ≡ as_str obj)
      × IsCanonical n row
      × Pushed n obj st.set row st'.set

  -- The three branches of `add_new` have this form.
  add_steps :
      {R : Type 0} (parsed : Result R) (new : R → NewAutonoscope) (push : R → RuleSet n → RuleSet n)
      (st st' : Scope n s)
      → ◌>>=◌ n s
          (Store.lift n s parsed)
          (λ r. ◌>>◌ n s (db_add n s (new r)) (Store.modify n s (push r)))
          st
        ≡ (ok tt, st')
      → (r : R) × (parsed ≡ ok r)
        × (i : ℕ) × (l.rows st'.db ≡ l.rows st.db ++ stored i (new r) ∷ [])
        × (push r st.set ≡ st'.set)
  unfolding db_add
  add_steps parsed new push st st' e =
      let (r, st₁, read, e₁) =
        >>=-eq-ok_state (Store.lift n s parsed)
          (λ r. ◌>>◌ n s (db_add n s (new r)) (Store.modify n s (push r))) st st' e in
      let (u, st₂, wrote, e₂) =
        >>=-eq-ok_state (db_add n s (new r)) (λ _. Store.modify n s (push r)) st₁ st' e₁ in
      let (db, inserted, same) = executed-ok (s.insert_autonoscope (new r) st₁.db) st₁ st₂ wrote in
      let unread : st ≡ st₁ = ap (λ p. p.1) read in
      let (i, longer) = l.insert_rows (new r) st₁.db inserted in
      let final = ap (λ p. p.1) e₂ in
      (
        r,
        ap (λ p. p.0) read,
        i,
        ap (λ x. l.rows x.db) (sym final)
            ∙ ap (λ x. l.rows x.db) (sym same)
            ∙ longer
            ∙ ap (λ x. l.rows x.db ++ stored i (new r) ∷ []) (sym unread),
        ap (λ x. push r x.set) unread ∙ ap (λ x. push r x.set) same ∙ ap (λ x. x.set) final,
      )

  ip_reparse : (nl : NetworkLaws n) (r : Ip.IpRule n) → Ip.try_from n (Ip.to_string n r) ≡ ok r
  unfolding Ip.try_from Ip.to_string
  ip_reparse nl r = rw (nl.parse-to_string r.network)

  -- Only the kind `ip` has a condition of its own.
  not_ip :
      (t : RuleType) {P : Type 0} → from_str (as_str t) ≡ ok RuleType.ip → (t ≡ RuleType.ip → P) → P
  not_ip t h k = k (ok-injective (sym (from_str-as_str t) ∙ h))

  add_new-Added :
      (nl : NetworkLaws n) (obj : RuleType) (v : Text) (b : Bool) (st st' : Scope n s)
      → add_new n s obj v b st ≡ (ok tt, st')
      → Added obj st st'
  unfolding add_new into_new as_str Domain.try_from_row Ip.try_from_row Url.try_from_row
      Domain.into_rule Ip.into_rule Url.into_rule
  add_new-Added nl RuleType.domain v b st st' e =
      let (r, read, i, longer, set) =
        add_steps (Domain.try_from v) (λ r. into_new (Domain.into_rule r) b)
          (λ r set. add_domain n set r b) st st' e in
      (
        stored i (into_new (Domain.into_rule r) b),
        longer,
        refl,
        λ h r' p. not_ip RuleType.domain h (λ q. absurd (cc q)),
        (
          r,
          subst (λ (r : Domain.DomainRule). Domain.try_from (Domain.to_string r) ≡ ok r)
              (ok-injective read) refl,
          refl,
          set,
        ),
      )
  add_new-Added nl RuleType.ip v b st st' e =
      let (r, _, i, longer, set) =
        add_steps (Ip.try_from n v) (λ r. into_new (Ip.into_rule n r) b) (λ r set. add_ip n set r b)
          st st' e in
      (
        stored i (into_new (Ip.into_rule n r) b),
        longer,
        refl,
        λ _ r' p. ap (Ip.to_string n) (ok-injective (sym p ∙ ip_reparse nl r)),
        (r, ip_reparse nl r, refl, set),
      )
  add_new-Added nl RuleType.url v b st st' e =
      let (r, read, i, longer, set) =
        add_steps (Url.try_from n v) (λ r. into_new (Url.into_rule n r) b)
          (λ r set. add_url n set r b) st st' e in
      (
        stored i (into_new (Url.into_rule n r) b),
        longer,
        refl,
        λ h r' p. not_ip RuleType.url h (λ q. absurd (cc q)),
        (r, rw (url_value n v read) read, refl, set),
      )

  -- If the rules in memory are those that a load of the table gives, and the networks in the table
  -- are written as they print, then this also holds after `add_rule` has returned with success,
  -- whatever the kind, the value and the flag.
  pub add_rule-IsSynced :
      (nl : NetworkLaws n) (obj : RuleType) (v : Text) (b : Bool) (st st' : Scope n s)
      → IsSynced st
      → add_rule n s obj v b st ≡ (ok tt, st')
      → IsSynced st'
  unfolding add_rule
  add_rule-IsSynced nl obj v b st st' h e =
      let (u, st₁, deleted, e₁) =
        >>=-eq-ok_state (delete_rule n s obj v)
          (λ _. ◌>>◌ n s (add_new n s obj v b) (Store.modify n s (sort_rules n))) st st' e in
      let (u', st₂, added, e₂) =
        >>=-eq-ok_state (add_new n s obj v b) (λ _. Store.modify n s (sort_rules n)) st₁ st' e₁ in
      let h₁ = delete_rule-IsSynced obj v st st₁ h deleted in
      let (row, longer, object, printed, pushed) = add_new-Added nl obj v b st₁ st₂ added in
      let typed : from_str row.object ≡ ok obj = ap from_str object ∙ from_str-as_str obj in
      let final : record st₂ { set = sort_rules n st₂.set } ≡ st' = ap (λ p. p.1) e₂ in
      subst IsSynced final (record {
        canonical =
            subst (All (IsCanonical n)) (sym longer)
              (All-append (IsCanonical n) (l.rows st₁.db) (row ∷ []) h₁.canonical (printed, tt));
        loaded =
            ap (build n) longer
            ∙ build-concat n obj (l.rows st₁.db) row st₁.set st₂.set h₁.loaded typed pushed;
      })
