-- ===== src/Cmd/Run/Allowed.antt =====
-- A module is run on entities in scope and on keys that it was granted, and on nothing else.
use sn0int.Prelude.{
  Bool, true, List, [], ◌∷◌, map, filter, Option, none, some, Text, Result, ok, err, ok-injective,
  ◌>>=◌, >>=-eq-ok, ◌≡◌, refl, sym, ap, ◌∙◌, arith, Bool-cases, inl, inr, All,
}
use mathlib.Core.Path.{subst}
use sn0int.Common.Metadata.{Source}
use sn0int.Keyring.{KeyRing, KeyRingEntry, Module, is_access_granted, get_all_for}
use sn0int.Keyring.Grants.{get_all_for-namespace}
use sn0int.Crates.Table.{TableLaws}
use sn0int.Models.Ops.{Store, StoreLaws, meets, sql, param_sql, filter_by, filter_with_param}
use sn0int.Models.Ops.Tables.{model_of}
use sn0int.Db.Filter.{Filter}
use sn0int.Db.Kinds.{Kind, entity_of}
use sn0int.Db.Generic.{Tables, Content}
use sn0int.Cmd.Run.{
  Value, Arg, blobs_of, prepare_arg, prepare_each, prepared, prepare_args, key_arg, get_args,
}

-- All that a filter keeps is as its test says.
filter_selected :
    {A : Type 0} (P : A → Type 0) (q : A → Bool)
    → ((x : A) → q x ≡ true → P x)
    → (xs : List A) → All P (filter q xs)
filter_selected P q h [] = tt
filter_selected P q h (x ∷ xs) = elim (Bool-cases (q x)) [
  | inl hit ↦ rw hit (h x hit, filter_selected P q h xs)
  | inr miss ↦ rw miss (filter_selected P q h xs)
]

module _ (Blob : Type 0) (load_blob : Text → Result Blob) (t : Tables)
    (stores : (k : Kind) → Store (entity_of k) (t.entities k)) where
  module _ (laws : (k : Kind) → TableLaws (entity_of k) (t.entities k))
      (store_laws : (k : Kind)
        → StoreLaws (entity_of k) (model_of k) (t.entities k) (laws k) (stores k))
      (ring : KeyRing) (m : Module) where
    -- An entity in scope, a key of a namespace that was granted, or no value.
    abbrev pub IsAllowed : Value → Type 0
    IsAllowed (Value.entity k row) = (entity_of k).scoped row ≡ true
    IsAllowed (Value.key x) = is_access_granted ring m x.namespace ≡ true
    IsAllowed Value.null = Unit

    abbrev pub AllAllowed : Option (Result (List (Arg Blob))) → Type 0
    AllAllowed none = ⊥
    AllAllowed (some (err x)) = Unit
    AllAllowed (some (ok args)) = All (λ (arg : Arg Blob). IsAllowed arg.value) args

    keys-Allowed :
        (namespace : Text)
        → is_access_granted ring m namespace ≡ true
        → (xs : List KeyRingEntry) → All (λ (x : KeyRingEntry). x.namespace ≡ namespace) xs
        → All (λ (arg : Arg Blob). IsAllowed arg.value) (map (key_arg Blob load_blob t stores) xs)
    keys-Allowed namespace granted [] h = tt
    keys-Allowed namespace granted (x ∷ xs) (e, h) =
        (ap (is_access_granted ring m) e ∙ granted, keys-Allowed namespace granted xs h)

    cons-Allowed :
        (a : Result (Arg Blob)) (rest : Result (List (Arg Blob)))
        → ((arg : Arg Blob) → a ≡ ok arg → IsAllowed arg.value)
        → AllAllowed (some rest)
        → AllAllowed (some (a >>= λ arg. rest >>= λ args. ok (arg ∷ args)))
    cons-Allowed (err x) rest h hs = tt
    cons-Allowed (ok arg) (err x) h hs = tt
    cons-Allowed (ok arg) (ok args) h hs = (h arg refl, hs)

    prepare_arg-Allowed :
        (k : Kind) (x : (entity_of k).Row) (arg : Arg Blob)
        → (entity_of k).scoped x ≡ true
        → prepare_arg Blob load_blob t stores k x ≡ ok arg
        → IsAllowed arg.value
    unfolding prepare_arg
    prepare_arg-Allowed k x arg p e =
        let (blobs, _, made) =
          >>=-eq-ok (blobs_of Blob load_blob t stores ((model_of k).blob x)) _ e in
        subst IsAllowed (ap (λ (a : Arg Blob). a.value) (ok-injective made)) p

    prepare_each-Allowed :
        (k : Kind) (rows : List (entity_of k).Row)
        → All (λ row. (entity_of k).scoped row ≡ true) rows
        → AllAllowed (some (prepare_each Blob load_blob t stores k rows))
    unfolding prepare_each
    prepare_each-Allowed k [] h = tt
    prepare_each-Allowed k (x ∷ xs) (p, h) =
        cons-Allowed (prepare_arg Blob load_blob t stores k x)
          (prepare_each Blob load_blob t stores k xs) (λ arg e. prepare_arg-Allowed k x arg p e)
          (prepare_each-Allowed k xs h)

    loaded-Allowed :
        (k : Kind) (r : Result (List (entity_of k).Row))
        → ((rows : List (entity_of k).Row)
            → r ≡ ok rows
            → All (λ row. (entity_of k).scoped row ≡ true) rows)
        → AllAllowed (prepared Blob load_blob t stores k (some r))
    loaded-Allowed k (err x) h = tt
    loaded-Allowed k (ok rows) h = prepare_each-Allowed k rows (h rows refl)

    module _ (f : Filter) (db : Content t)
        (in_scope : (k : Kind) (row : (entity_of k).Row)
          → (store_laws k).holds f.query row ≡ true
          → (entity_of k).scoped row ≡ true) where
      all_of : (k : Kind) → AllAllowed (prepare_args Blob load_blob t stores k f none db)
      unfolding prepare_args filter_by
      all_of k = loaded-Allowed k ((stores k).load (sql f.query) (db.entities k)) (λ rows e.
          subst (All (λ row. (entity_of k).scoped row ≡ true))
            (sym ((store_laws k).load_rows (sql f.query) (db.entities k) e))
            (filter_selected _ ((store_laws k).holds f.query) (in_scope k)
              ((laws k).rows (db.entities k))))

      -- The rows with a parameter.
      column_of :
          (k : Kind) (param : Text)
          → AllAllowed (
              prepared Blob load_blob t stores k
                (some ((stores k).load (param_sql param f.query) (db.entities k))))
      column_of k param =
          loaded-Allowed k ((stores k).load (param_sql param f.query) (db.entities k)) (λ rows e.
            subst (All (λ row. (entity_of k).scoped row ≡ true))
              (sym ((store_laws k).load_rows (param_sql param f.query) (db.entities k) e))
              (filter_selected _
                (meets (entity_of k) (model_of k) (store_laws k).holds (param_sql param f.query))
                (λ row h. in_scope k row (ground arith)) ((laws k).rows (db.entities k))))

      -- If the condition that selects the targets is met only by rows in scope, then `get_args`
      -- does not panic, and each value that it gives a module to run on is an entity in scope, a
      -- key of a namespace that the module was granted, or no value at all.
      pub get_args-Allowed :
          (source : Option Source)
          → AllAllowed (get_args Blob load_blob t stores ring m source f db)
      unfolding get_args prepare_args filter_with_param
      get_args-Allowed none = (tt, tt)
      get_args-Allowed (some Source.domains) = all_of Kind.domain
      get_args-Allowed (some Source.subdomains) = all_of Kind.subdomain
      get_args-Allowed (some Source.ip_addrs) = all_of Kind.ip_addr
      get_args-Allowed (some Source.urls) = all_of Kind.url
      get_args-Allowed (some Source.emails) = all_of Kind.email
      get_args-Allowed (some Source.phone_numbers) = all_of Kind.phone_number
      get_args-Allowed (some Source.networks) = all_of Kind.network
      get_args-Allowed (some Source.devices) = all_of Kind.device
      get_args-Allowed (some (Source.accounts none)) = all_of Kind.account
      get_args-Allowed (some (Source.accounts (some service))) = column_of Kind.account service
      get_args-Allowed (some Source.breaches) = all_of Kind.breach
      get_args-Allowed (some Source.images) = all_of Kind.image
      get_args-Allowed (some Source.ports) = all_of Kind.port
      get_args-Allowed (some Source.netblocks) = all_of Kind.netblock
      get_args-Allowed (some (Source.crypto_addrs none)) = all_of Kind.crypto_addr
      get_args-Allowed (some (Source.crypto_addrs (some currency))) =
          column_of Kind.crypto_addr currency
      get_args-Allowed (some Source.notifications) = tt
      get_args-Allowed (some (Source.key_ring namespace)) =
          elim (Bool-cases (is_access_granted ring m namespace)) [
            | inl granted ↦ rw granted (
                keys-Allowed namespace granted (get_all_for ring namespace)
                  (get_all_for-namespace ring namespace))
            | inr closed ↦ rw closed tt
          ]
