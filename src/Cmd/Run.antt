-- ===== src/Cmd/Run.antt =====
-- src/cmd/run_cmd.rs: what a module is run with: the grants of its keys, and the entities that it is run on.
-- `ask` is the question on the terminal, `quote` is how Debug writes a text, and the blobs are in `load_blob`.
pub mod Consent
pub mod Allowed
mod Tests
use sn0int.Prelude.{
  ℕ, Bool, true, false, ◌||◌, List, [], ◌∷◌, ◌++◌, map, Option, none, some, Text, text_eq, codes,
  Result, ok, err, message, ◌>>=◌, if◌then◌else◌,
}
use sn0int.Common.Metadata.{Source}
use sn0int.Keyring.{
  KeyRing, KeyRingEntry, Module, grant_access, is_access_granted, unauthorized_namespaces,
  get_all_for,
}
use sn0int.Models.Ops.{Store, filter_by, filter_with_param}
use sn0int.Models.Ops.Tables.{model_of}
use sn0int.Db.Filter.{Filter, new, and_scoped}
use sn0int.Db.Kinds.{Kind, entity_of}
use sn0int.Db.Generic.{Tables, Content}

pub record Params : Type 0 where
  pub threads : ℕ
  pub verbose : ℕ
  pub stdin : Bool
  pub grants : List Text
  pub grant_full_keyring : Bool
  pub deny_keyring : Bool
  pub exit_on_error : Bool

-- `grants.contains(namespace)`
unfoldable pub has_grant : Text → List Text → Bool
has_grant namespace [] = false
has_grant namespace (g ∷ grants) = text_eq g namespace || has_grant namespace grants

module _ (quote : Text → Text) (ask : Text → Result Bool) where
  -- Whether a namespace is granted.
  unfoldable pub decision : Params → Text → Result Bool
  unfolding has_grant
  decision p namespace =
      if p.deny_keyring
      then ok false
      else if p.grant_full_keyring || has_grant namespace p.grants
      then ok true
      else ask (codes "Grant access to " ++ quote namespace ++ codes " credentials?")

  abbrev pub next :
      (KeyRing → Result (Unit {0}) × KeyRing)
      → Module
      → Text
      → KeyRing
      → Result Bool
      → Result (Unit {0}) × KeyRing
  next rest m namespace ring (err x) = (err x, ring)
  next rest m namespace ring (ok granted) =
      rest (if granted then grant_access ring m namespace else ring)

  -- The loop over the namespaces that are not granted yet.
  unfoldable pub grant_each : Params → Module → List Text → KeyRing → Result (Unit {0}) × KeyRing
  unfolding decision grant_access
  grant_each p m [] ring = (ok tt, ring)
  grant_each p m (namespace ∷ namespaces) ring =
      next (λ ring'. grant_each p m namespaces ring') m namespace ring (decision p namespace)

  module _ (save : KeyRing → Result (Unit {0})) where
    abbrev pub saved : Result (Unit {0}) × KeyRing → Result (Unit {0}) × KeyRing
    saved (err x, ring) = (err x, ring)
    saved (ok _, ring) = (save ring, ring)

    -- `prepare_keyring`
    unfoldable pub prepare_keyring : Params → Module → KeyRing → Result (Unit {0}) × KeyRing
    unfolding grant_each unauthorized_namespaces
    prepare_keyring p m ring = saved (grant_each p m (unauthorized_namespaces ring m) ring)

-- The value that is handed to a module, which the code turns into JSON.
pub data Value : Type 0 where
  entity : (k : Kind) → (entity_of k).Row → Value
  key : KeyRingEntry → Value
  null : Value

pub record Arg (Blob : Type 0) : Type 0 where
  pub value : Value
  pub pretty : Option Text
  pub blobs : List Blob

-- `Shell::scoped_targets`
abbrev pub scoped_targets : Option Filter → Filter
scoped_targets none = new (codes "unscoped=0")
scoped_targets (some f) = and_scoped f

module _ (Blob : Type 0) (load_blob : Text → Result Blob) (t : Tables)
    (stores : (k : Kind) → Store (entity_of k) (t.entities k)) where
  abbrev pub blobs_of : Option Text → Result (List Blob)
  blobs_of none = ok []
  blobs_of (some name) = load_blob name >>= λ blob. ok (blob ∷ [])

  -- `prepare_arg`
  unfoldable pub prepare_arg : (k : Kind) → (entity_of k).Row → Result (Arg Blob)
  prepare_arg k x = blobs_of ((model_of k).blob x) >>= λ blobs.
      ok (record {
        value = Value.entity k x;
        pretty = some ((model_of k).to_string x);
        blobs = blobs;
      })

  unfoldable pub prepare_each : (k : Kind) → List (entity_of k).Row → Result (List (Arg Blob))
  unfolding prepare_arg
  prepare_each k [] = ok []
  prepare_each k (x ∷ xs) =
      let rest = prepare_each k xs in prepare_arg k x >>= λ arg. rest >>= λ args. ok (arg ∷ args)

  abbrev pub prepared :
      (k : Kind) → Option (Result (List (entity_of k).Row)) → Option (Result (List (Arg Blob)))
  prepared k none = none
  prepared k (some (err x)) = some (err x)
  prepared k (some (ok rows)) = some (prepare_each k rows)

  -- `Database::filter_with_param`, where `none` is a panic.
  abbrev pub rows_with_param :
      (k : Kind) → Filter → Option Text → Content t → Option (Result (List (entity_of k).Row))
  rows_with_param k f none db =
      some (filter_by (entity_of k) (model_of k) (t.entities k) (stores k) f (db.entities k))
  rows_with_param k f (some param) db =
      filter_with_param (entity_of k) (model_of k) (t.entities k) (stores k) f param (db.entities k)

  -- `prepare_args`
  unfoldable pub prepare_args :
      (k : Kind) → Filter → Option Text → Content t → Option (Result (List (Arg Blob)))
  unfolding prepare_each filter_by filter_with_param
  prepare_args k f param db = prepared k (rows_with_param k f param db)

  abbrev pub key_arg : KeyRingEntry → Arg Blob
  key_arg x = record {
    value = Value.key x;
    pretty = some (x.namespace ++ b':' ∷ x.access_key);
    blobs = [];
  }

  -- `get_args`
  unfoldable pub get_args :
      KeyRing → Module → Option Source → Filter → Content t → Option (Result (List (Arg Blob)))
  unfolding prepare_args is_access_granted get_all_for
  get_args ring m (some Source.domains) f db = prepare_args Kind.domain f none db
  get_args ring m (some Source.subdomains) f db = prepare_args Kind.subdomain f none db
  get_args ring m (some Source.ip_addrs) f db = prepare_args Kind.ip_addr f none db
  get_args ring m (some Source.urls) f db = prepare_args Kind.url f none db
  get_args ring m (some Source.emails) f db = prepare_args Kind.email f none db
  get_args ring m (some Source.phone_numbers) f db = prepare_args Kind.phone_number f none db
  get_args ring m (some Source.networks) f db = prepare_args Kind.network f none db
  get_args ring m (some Source.devices) f db = prepare_args Kind.device f none db
  get_args ring m (some (Source.accounts service)) f db = prepare_args Kind.account f service db
  get_args ring m (some Source.breaches) f db = prepare_args Kind.breach f none db
  get_args ring m (some Source.images) f db = prepare_args Kind.image f none db
  get_args ring m (some Source.ports) f db = prepare_args Kind.port f none db
  get_args ring m (some Source.netblocks) f db = prepare_args Kind.netblock f none db
  get_args ring m (some (Source.crypto_addrs currency)) f db =
      prepare_args Kind.crypto_addr f currency db
  get_args ring m (some Source.notifications) f db =
      some (err (message "Notification modules can't be executed like this"))
  get_args ring m (some (Source.key_ring namespace)) f db =
      if is_access_granted ring m namespace
      then some (ok (map key_arg (get_all_for ring namespace)))
      else some (ok [])
  get_args ring m none f db =
      some (ok (record { value = Value.null; pretty = none; blobs = [] } ∷ []))
