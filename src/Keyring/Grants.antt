-- ===== src/Keyring/Grants.antt =====
-- Which modules may use a namespace, and what a module is given.
use mathlib.Core.List.{Memᴰ}
use sn0int.Prelude.{
  true, ◌&&◌, ◌||◌, List, [], ◌∷◌, Option, none, some, Text, text_eq, text_eq_iff, filter, ◌≡◌, ◌≢◌,
  inl, inr, refl, sym, ap, ◌∙◌, arith, Bool-cases, All, All-append, All-map, filter-All,
}
use sn0int.Maps.{Map, lookup, remove, lookup-store_same, lookup-store_other, lookup-remove_other}
use sn0int.Common.Id.{ModuleId}
use sn0int.Keyring.{
  KeyName, KeyRing, KeyRingEntry, Secrets, for_each, names, list_for, entry_of, get_in, get, keep,
  get_each, Module, id_eq, contains, add, or_empty, grant_access, granted_in, is_access_granted,
  list_each, request_keys, get_all_for,
}

contains_same :
    (ids : List ModuleId) (a b : ModuleId)
    → contains ids a ≡ true
    → id_eq a b ≡ true
    → contains ids b ≡ true
unfolding contains
contains_same [] a b h same = absurd (cc)
contains_same (x ∷ ids) a b h same =
    ground (arith, text_eq_iff a.author b.author, text_eq_iff a.name b.name, contains_same ids a b)

contains-add :
    (ids : List ModuleId) (id x : ModuleId)
    → contains (add ids id) x ≡ (contains ids x || id_eq id x)
unfolding add contains
contains-add ids id x = elim (Bool-cases (contains ids id)) [
  | inl there ↦ rw there (ground (arith, contains_same ids id x there))
  | inr missing ↦ rw missing (ground arith)
]

contains_empty :
    (m : Module) (found : Option (List ModuleId))
    → contains (or_empty found) m.id ≡ granted_in m found
unfolding contains
contains_empty m none = refl
contains_empty m (some ids) = refl

-- After `grant_access` a module has access to a namespace exactly if it had it before, or if it is
-- the module and the namespace of the grant.
pub granted-grant_access :
    (ring : KeyRing) (m other : Module) (namespace space : Text)
    → is_access_granted (grant_access ring m namespace) other space
      ≡ (is_access_granted ring other space || (text_eq namespace space && id_eq m.id other.id))
unfolding is_access_granted grant_access
granted-grant_access ring m other namespace space = elim (Bool-cases (text_eq namespace space)) [
  | inl same ↦
      let is : namespace ≡ space = (text_eq_iff namespace space).0 same in
      rw same (
        ap (λ k. granted_in other (lookup k (grant_access ring m namespace).grants)) (sym is)
        ∙ ap (granted_in other) (lookup-store_same namespace _ (remove namespace ring.grants))
        ∙ contains-add (or_empty (lookup namespace ring.grants)) m.id other.id
        ∙ ap (λ b. b || id_eq m.id other.id) (contains_empty other (lookup namespace ring.grants))
        ∙ ap (λ k. granted_in other (lookup k ring.grants) || id_eq m.id other.id) is)
  | inr apart ↦
      let differ : namespace ≢ space = λ e. cc ((text_eq_iff namespace space).1 e) in
      rw apart (
        ap (granted_in other) (
          lookup-store_other namespace space _ (remove namespace ring.grants) differ
          ∙ lookup-remove_other namespace space ring.grants differ)
        ∙ ground arith)
]

-- The keys of a namespace are of that namespace.
for_each-All : (k : Text) (v : Secrets) → All (λ (x : KeyName). x.namespace ≡ k) (for_each k v)
for_each-All k [] = tt
for_each-All k (entry ∷ v) = (refl, for_each-All k v)

list_for-All :
    (namespace : Text) (keys : Map Secrets)
    → All
        (λ (x : KeyName). x.namespace ≡ namespace)
        (names (filter (λ e. text_eq e.0 namespace) keys))
unfolding names
list_for-All namespace [] = tt
list_for-All namespace (entry ∷ keys) = elim (Bool-cases (text_eq entry.0 namespace)) [
  | inl same ↦
      let is : entry.0 ≡ namespace = (text_eq_iff entry.0 namespace).0 same in
      rw same (
        All-append _ (for_each entry.0 entry.1) _
          (All-map _ _ (λ (x : KeyName) e. e ∙ is) (for_each entry.0 entry.1)
            (for_each-All entry.0 entry.1))
          (list_for-All namespace keys))
  | inr other ↦ rw other (list_for-All namespace keys)
]

list_each-All :
    (P : Text → Type 0) (ring : KeyRing) (namespaces : List Text)
    → All P namespaces
    → All (λ (x : KeyName). P x.namespace) (list_each ring namespaces)
unfolding list_each list_for
list_each-All P ring [] h = tt
list_each-All P ring (n ∷ namespaces) (p, h) =
    All-append _ (list_for ring n) _
      (All-map _ _ (λ (x : KeyName) e. rw e p) (list_for ring n) (list_for-All n ring.keys))
      (list_each-All P ring namespaces h)

-- Each entry stands in the keyring, under the name that was asked for.
get_each-All :
    (P : Text → Type 0) (ring : KeyRing) (keys : List KeyName)
    → All (λ (x : KeyName). P x.namespace) keys
    → All
        (λ (x : KeyRingEntry).
          P x.namespace
          × (get ring (record { namespace = x.namespace; name = x.access_key }) ≡ some x))
        (get_each ring keys)
unfolding get_each
get_each-All P ring [] h = tt
get_each-All P ring (key ∷ keys) (p, h) = go (get ring key) refl (get_each-All P ring keys h)
  where
    of_lookup :
        (x : KeyRingEntry) (secret : Option (Option Text))
        → entry_of key secret ≡ some x
        → (x.namespace ≡ key.namespace) × (x.access_key ≡ key.name)
    of_lookup x none e = absurd (cc)
    of_lookup x (some s) e =
        let same = ap (λ o. elim o [ none ↦ x | some y ↦ y ]) e in
        (ap (λ y. y.namespace) (sym same), ap (λ y. y.access_key) (sym same))

    of_get :
        (x : KeyRingEntry) (found : Option Secrets)
        → get_in key found ≡ some x
        → (x.namespace ≡ key.namespace) × (x.access_key ≡ key.name)
    of_get x none e = absurd (cc)
    of_get x (some y) e = of_lookup x (lookup key.name y) e

    go :
        (found : Option KeyRingEntry)
        → get ring key ≡ found
        → All
            (λ (x : KeyRingEntry).
              P x.namespace
              × (get ring (record { namespace = x.namespace; name = x.access_key }) ≡ some x))
            (get_each ring keys)
        → All
            (λ (x : KeyRingEntry).
              P x.namespace
              × (get ring (record { namespace = x.namespace; name = x.access_key }) ≡ some x))
            (keep found (get_each ring keys))
    go none e ih = ih
    go (some x) e ih =
        let (space, name) = of_get x (lookup key.namespace ring.keys) (unfold get in e) in
        let same : record { namespace = x.namespace; name = x.access_key } ≡ key =
          rw (space, name) in
        ((rw space p, ap (get ring) same ∙ e), ih)

All-Memᴰ {ℓ} : {A : Type ℓ} (xs : List A) → All (λ x. Memᴰ x xs) xs
All-Memᴰ [] = tt
All-Memᴰ (x ∷ xs) = (Memᴰ.head refl, All-map _ _ (λ y h. Memᴰ.tail h) xs (All-Memᴰ xs))

-- Every entry that `request_keys` gives a module is of a namespace that the module declares and
-- that it was granted, and it is the entry that the keyring has under its name.
pub request_keys-granted :
    (ring : KeyRing) (m : Module)
    → All
        (λ (x : KeyRingEntry).
          ((is_access_granted ring m x.namespace ≡ true) × Memᴰ x.namespace m.keyring_access)
          × (get ring (record { namespace = x.namespace; name = x.access_key }) ≡ some x))
        (request_keys ring m)
unfolding request_keys
request_keys-granted ring m =
    let allowed = filter (λ n. is_access_granted ring m n) m.keyring_access in
    get_each-All (λ n. (is_access_granted ring m n ≡ true) × Memᴰ n m.keyring_access) ring
      (list_each ring allowed)
      (list_each-All _ ring allowed (
        filter-All (λ n. Memᴰ n m.keyring_access) (λ n. is_access_granted ring m n) m.keyring_access
          (All-Memᴰ m.keyring_access)))

-- The entries of a namespace are of that namespace.
pub get_all_for-namespace :
    (ring : KeyRing) (namespace : Text)
    → All (λ (x : KeyRingEntry). x.namespace ≡ namespace) (get_all_for ring namespace)
unfolding get_all_for list_for
get_all_for-namespace ring namespace =
    All-map _ _ (λ (x : KeyRingEntry) h. h.0) (get_all_for ring namespace)
      (get_each-All (λ n. n ≡ namespace) ring (list_for ring namespace)
        (list_for-All namespace ring.keys))
