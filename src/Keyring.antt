-- ===== src/Keyring.antt =====
-- src/keyring.rs: the keys of services, and which modules may use them. The keyring is written to
-- its file by `save`, which is an argument of the operations that call it.
pub mod Names
pub mod Keys
pub mod Grants
mod Tests
use sn0int.Prelude.{
  ℕ, Bool, true, false, not, ◌&&◌, ◌||◌, List, [], ◌∷◌, ◌++◌, map, Option, none, some, Text,
  text_eq, codes, is_empty, find, cut_at, filter, if◌then◌else◌, Result, ok, err, message,
}
use sn0int.Maps.{Map, lookup, store, remove}
use sn0int.Common.Id.{ModuleId}

pub record KeyName : Type 0 where
  pub namespace : Text
  pub name : Text

-- `KeyName::from_str`, behind `find` and `split_at`.
abbrev pub checked : Option (Text × Text) → Result KeyName
checked none = err (message "Missing namespace")
checked (some (namespace, name)) =
    if is_empty namespace
    then err (message "Namespace can not be empty")
    else if is_empty name
    then err (message "Name can not be empty")
    else ok (record { namespace = namespace; name = name })

unfoldable pub from_str : Text → Result KeyName
from_str x = checked (cut_at x (find b':' x))

-- `Display`
unfoldable pub to_string : KeyName → Text
to_string k = k.namespace ++ b':' ∷ k.name

abbrev pub Secrets : Type 0
Secrets = Map (Option Text)

-- `KeyName::for_each`
abbrev pub for_each : Text → Secrets → List KeyName
for_each k v = map (λ entry. record { namespace = k; name = entry.0 }) v

pub record KeyRing : Type 0 where
  pub keys : Map Secrets
  pub grants : Map (List ModuleId)

pub record KeyRingEntry : Type 0 where
  pub namespace : Text
  pub access_key : Text
  pub secret_key : Option Text

-- `unwrap_or_else(HashMap::new)`, and the same of `HashSet`.
abbrev pub or_empty {ℓ} : {A : Type ℓ} → Option (List A) → List A
or_empty none = []
or_empty (some x) = x

-- The keys of `insert`.
unfoldable pub insert_key : Map Secrets → KeyName → Option Text → Map Secrets
insert_key keys key secret =
    let x = or_empty (lookup key.namespace keys) in
    store key.namespace (store key.name secret x) (remove key.namespace keys)

-- `HashMap::insert` of what is left, if something is.
abbrev pub put_back : Text → Secrets → Map Secrets → Map Secrets
put_back namespace [] keys = keys
put_back namespace (x ∷ xs) keys = store namespace (x ∷ xs) keys

-- The keys of `delete`, in a namespace that there is.
unfoldable pub delete_key : Map Secrets → KeyName → Secrets → Map Secrets
delete_key keys key x = put_back key.namespace (remove key.name x) (remove key.namespace keys)

module _ (save : KeyRing → Result (Unit {0})) where
  unfoldable pub insert : KeyRing → KeyName → Option Text → Result (Unit {0}) × KeyRing
  unfolding insert_key
  insert ring key secret =
      let ring' = record ring { keys = insert_key ring.keys key secret } in (save ring', ring')

  abbrev pub deleted : KeyRing → KeyName → Option Secrets → Result (Unit {0}) × KeyRing
  deleted ring key none = (ok tt, ring)
  deleted ring key (some x) =
      let ring' = record ring { keys = delete_key ring.keys key x } in (save ring', ring')

  unfoldable pub delete : KeyRing → KeyName → Result (Unit {0}) × KeyRing
  unfolding delete_key
  delete ring key = deleted ring key (lookup key.namespace ring.keys)

-- `flat_map` over the namespaces.
unfoldable pub names : Map Secrets → List KeyName
names [] = []
names (entry ∷ keys) = for_each entry.0 entry.1 ++ names keys

-- `list`
unfoldable pub list : KeyRing → List KeyName
unfolding names
list ring = names ring.keys

unfoldable pub list_for : KeyRing → Text → List KeyName
unfolding names
list_for ring namespace = names (filter (λ entry. text_eq entry.0 namespace) ring.keys)

abbrev pub entry_of : KeyName → Option (Option Text) → Option KeyRingEntry
entry_of key none = none
entry_of key (some secret) =
    some (record { namespace = key.namespace; access_key = key.name; secret_key = secret })

abbrev pub get_in : KeyName → Option Secrets → Option KeyRingEntry
get_in key none = none
get_in key (some x) = entry_of key (lookup key.name x)

unfoldable pub get : KeyRing → KeyName → Option KeyRingEntry
get ring key = get_in key (lookup key.namespace ring.keys)

abbrev pub keep : Option KeyRingEntry → List KeyRingEntry → List KeyRingEntry
keep none rest = rest
keep (some entry) rest = entry ∷ rest

-- `flat_map(|x| self.get(&x))`
unfoldable pub get_each : KeyRing → List KeyName → List KeyRingEntry
unfolding get
get_each ring [] = []
get_each ring (key ∷ keys) = keep (get ring key) (get_each ring keys)

unfoldable pub get_all_for : KeyRing → Text → List KeyRingEntry
unfolding list_for get_each
get_all_for ring namespace = get_each ring (list_for ring namespace)

-- What the keyring reads of a `Module` of src/engine/mod.rs.
pub record Module : Type 0 where
  pub id : ModuleId
  pub keyring_access : List Text

-- `==` on `ModuleID`, and `HashSet::contains`.
abbrev pub id_eq : ModuleId → ModuleId → Bool
id_eq a b = text_eq a.author b.author && text_eq a.name b.name

unfoldable pub contains : List ModuleId → ModuleId → Bool
contains [] id = false
contains (x ∷ xs) id = id_eq x id || contains xs id

-- `HashSet::insert`
unfoldable pub add : List ModuleId → ModuleId → List ModuleId
unfolding contains
add ids id = if contains ids id then ids else id ∷ ids

unfoldable pub grant_access : KeyRing → Module → Text → KeyRing
unfolding add
grant_access ring m namespace =
    let grants = or_empty (lookup namespace ring.grants) in
    record ring { grants = store namespace (add grants m.id) (remove namespace ring.grants) }

abbrev pub granted_in : Module → Option (List ModuleId) → Bool
granted_in m none = false
granted_in m (some grants) = contains grants m.id

unfoldable pub is_access_granted : KeyRing → Module → Text → Bool
unfolding contains
is_access_granted ring m namespace = granted_in m (lookup namespace ring.grants)

unfoldable pub unauthorized_namespaces : KeyRing → Module → List Text
unfolding is_access_granted
unauthorized_namespaces ring m =
    filter (λ namespace. not (is_access_granted ring m namespace)) m.keyring_access

-- `flat_map(|namespace| self.list_for(namespace))`
unfoldable pub list_each : KeyRing → List Text → List KeyName
unfolding list_for
list_each ring [] = []
list_each ring (namespace ∷ namespaces) = list_for ring namespace ++ list_each ring namespaces

unfoldable pub request_keys : KeyRing → Module → List KeyRingEntry
unfolding is_access_granted list_each get_each
request_keys ring m =
    get_each ring
      (list_each ring (filter (λ namespace. is_access_granted ring m namespace) m.keyring_access))

-- `KeyRingEntry::matches`
abbrev pub matches_cut : KeyRingEntry → Text → Option (Text × Text) → Bool
matches_cut entry query none = text_eq entry.namespace query
matches_cut entry query (some (namespace, access_key)) =
    text_eq entry.namespace namespace && text_eq entry.access_key access_key

unfoldable pub matches : KeyRingEntry → Text → Bool
matches entry query = matches_cut entry query (cut_at query (find b':' query))
