-- ===== src/Cmd/Run/Tests.antt =====
-- Examples of what a module is run with.
use mathlib.Core.List.{Memᴰ}
use sn0int.Prelude.{
  Bool, true, false, [], ◌∷◌, none, some, Text, codes, text_eq, Result, ok, ◌≡◌, ◌⊎◌, refl,
}
use sn0int.Common.Metadata.{Source}
use sn0int.Maps.{lookup, store, remove}
use sn0int.Keyring.{
  KeyRing, Module, id_eq, contains, is_access_granted, grant_access, unauthorized_namespaces,
}
use sn0int.Models.Domain.{Domain}
use sn0int.Db.Kinds.{Kind, put}
use sn0int.Db.Generic.{Content}
use sn0int.Db.Generic.Rows.{tables, tables_laws}
use sn0int.Cmd.Rows.{stores, stores_laws}
use sn0int.Cmd.Run.{
  Params, decision, grant_each, has_grant, prepare_keyring, scoped_targets, get_args,
}
use sn0int.Cmd.Run.Consent.{Consent, prepare_keyring-Consent}
use sn0int.Cmd.Run.Allowed.{AllAllowed, get_args-Allowed}

abbrev quote : Text → Text
quote s = s

abbrev yes : Text → Result Bool
yes question = ok true

abbrev saved : KeyRing → Result (Unit {0})
saved _ = ok tt

abbrev params : Params
params = record {
  threads = 1;
  verbose = 0;
  stdin = false;
  grants = [];
  grant_full_keyring = false;
  deny_keyring = false;
  exit_on_error = false;
}

abbrev scan : Module
scan = record {
  id = record { author = codes "kpcyrd"; name = codes "a" };
  keyring_access = codes "aws" ∷ [];
}

abbrev empty : KeyRing
empty = record { keys = []; grants = [] }

answered :
    is_access_granted (prepare_keyring quote yes saved params scan empty).1 scan (codes "aws")
    ≡ true
unfolding is_access_granted prepare_keyring grant_each decision has_grant unauthorized_namespaces
    grant_access contains text_eq lookup store remove
answered = refl

prepare_keyring-Consent_example :
    (is_access_granted empty scan (codes "aws") ≡ true)
    ⊎ ((id_eq scan.id scan.id ≡ true)
        × Memᴰ (codes "aws") scan.keyring_access
        × Consent quote yes params (codes "aws"))
prepare_keyring-Consent_example =
    prepare_keyring-Consent quote yes saved params scan empty scan (codes "aws") answered

abbrev nothing : (k : Kind) → (tables.entities k).Connection
nothing k = []

abbrev row : Bool → Domain
row unscoped = record { id = 0; value = codes "a.com"; unscoped = unscoped }

abbrev content : Content tables
content = record {
  entities = put Kind.domain (row true ∷ row false ∷ []) nothing;
  subdomain_ip_addrs = [];
  network_devices = [];
  breach_emails = [];
}

abbrev load_blob : Text → Result Text
load_blob name = ok name

get_args-Allowed_example :
    AllAllowed Text load_blob tables stores tables_laws stores_laws empty scan (
      get_args Text load_blob tables stores empty scan
        (some Source.domains)
        (scoped_targets none)
        content)
unfolding text_eq
get_args-Allowed_example =
    get_args-Allowed Text load_blob tables stores tables_laws stores_laws empty scan
      (scoped_targets none) content (λ k row h. h) (some Source.domains)
