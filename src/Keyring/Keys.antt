-- ===== src/Keyring/Keys.antt =====
-- What is found in the keyring after a key was inserted or deleted.
use sn0int.Prelude.{
  [], ◌∷◌, Option, none, some, Text, text_eq, text_eq_iff, Result, ◌≡◌, ◌≢◌, ◌⊎◌, inl, inr, refl,
  sym, ap, ◌∙◌, Bool-cases,
}
use sn0int.Maps.{
  Map, lookup, store, remove, lookup-store_same, lookup-store_other, lookup-remove_same,
  lookup-remove_other,
}
use sn0int.Keyring.{
  KeyName, KeyRing, Secrets, insert_key, delete_key, put_back, or_empty, insert, delete, deleted,
  entry_of, get_in, get,
}

-- Two different keys differ in the namespace, or else in the name.
differ :
    (key other : KeyName)
    → key ≢ other
    → (key.namespace ≢ other.namespace)
      ⊎ ((key.namespace ≡ other.namespace) × (key.name ≢ other.name))
differ key other ne = elim (Bool-cases (text_eq key.namespace other.namespace)) [
  | inl same ↦
      let space = (text_eq_iff key.namespace other.namespace).0 same in
      inr (space, λ e. ne (rw (space, e)))
  | inr apart ↦ inl (λ e. cc ((text_eq_iff key.namespace other.namespace).1 e))
]

lookup_empty :
    (key : KeyName) (found : Option Secrets)
    → entry_of key (lookup key.name (or_empty found)) ≡ get_in key found
unfolding lookup
lookup_empty key none = refl
lookup_empty key (some x) = refl

module _ (save : KeyRing → Result (Unit {0})) where
  -- After `insert`, whether the keyring could be saved or not, `get` gives the new secret for the
  -- key, and for every other key what it gave before.
  pub get-insert :
      (ring : KeyRing) (key other : KeyName) (secret : Option Text)
      → key ≢ other
      → (get (insert save ring key secret).1 key ≡ entry_of key (some secret))
        × (get (insert save ring key secret).1 other ≡ get ring other)
  unfolding get insert insert_key
  get-insert ring key other secret ne = (
    here,
    elim (differ key other ne) [
      | inl apart ↦ ap (get_in other) (
          lookup-store_other key.namespace other.namespace _ (remove key.namespace ring.keys) apart
          ∙ lookup-remove_other key.namespace other.namespace ring.keys apart)
      | inr (same, apart) ↦
          ap (λ k. get_in other (lookup k (insert_key ring.keys key secret))) (sym same)
          ∙ ap (get_in other) (lookup-store_same key.namespace _ (remove key.namespace ring.keys))
          ∙ ap (entry_of other) (
              lookup-store_other key.name other.name secret
                (or_empty (lookup key.namespace ring.keys)) apart)
          ∙ lookup_empty other (lookup key.namespace ring.keys)
          ∙ ap (λ k. get_in other (lookup k ring.keys)) same
    ],
  )
    where
      here : get (insert save ring key secret).1 key ≡ entry_of key (some secret)
      here =
          ap (get_in key) (lookup-store_same key.namespace _ (remove key.namespace ring.keys))
          ∙ ap (entry_of key)
              (lookup-store_same key.name secret (or_empty (lookup key.namespace ring.keys)))

  -- A namespace is put back with its keys, and one with no keys is as good as none.
  get_in-put_back :
      (key : KeyName) (namespace : Text) (x : Secrets) (keys : Map Secrets)
      → key.namespace ≡ namespace
      → lookup namespace keys ≡ none
      → get_in key (lookup key.namespace (put_back namespace x keys))
        ≡ entry_of key (lookup key.name x)
  unfolding lookup
  get_in-put_back key namespace [] keys same h =
      ap (λ k. get_in key (lookup k keys)) same ∙ ap (get_in key) h
  get_in-put_back key namespace (e ∷ x) keys same h =
      ap (λ k. get_in key (lookup k (store namespace (e ∷ x) keys))) same
      ∙ ap (get_in key) (lookup-store_same namespace (e ∷ x) keys)

  put_back-other :
      (namespace other : Text) (x : Secrets) (keys : Map Secrets)
      → namespace ≢ other
      → lookup other (put_back namespace x keys) ≡ lookup other keys
  put_back-other namespace other [] keys ne = refl
  put_back-other namespace other (e ∷ x) keys ne =
      lookup-store_other namespace other (e ∷ x) keys ne

  -- After `delete`, whether the keyring could be saved or not, `get` gives nothing for the key,
  -- and for every other key what it gave before.
  pub get-delete :
      (ring : KeyRing) (key other : KeyName)
      → key ≢ other
      → (get (delete save ring key).1 key ≡ none)
        × (get (delete save ring key).1 other ≡ get ring other)
  unfolding get delete delete_key
  get-delete ring key other ne = go (lookup key.namespace ring.keys) refl
    where
      go :
          (found : Option Secrets)
          → lookup key.namespace ring.keys ≡ found
          → (get (deleted save ring key found).1 key ≡ none)
            × (get (deleted save ring key found).1 other ≡ get ring other)
      go none e = (ap (get_in key) e, refl)
      go (some x) e =
          let rest = remove key.namespace ring.keys in
          let missing = lookup-remove_same key.namespace ring.keys in
          (
            get_in-put_back key key.namespace (remove key.name x) rest refl missing
                ∙ ap (entry_of key) (lookup-remove_same key.name x),
            elim (differ key other ne) [
              | inl apart ↦ ap (get_in other) (
                  put_back-other key.namespace other.namespace (remove key.name x) rest apart
                  ∙ lookup-remove_other key.namespace other.namespace ring.keys apart)
              | inr (same, apart) ↦
                  get_in-put_back other key.namespace (remove key.name x) rest (sym same) missing
                  ∙ ap (entry_of other) (lookup-remove_other key.name other.name x apart)
                  ∙ ap (get_in other) (sym e)
                  ∙ ap (λ k. get_in other (lookup k ring.keys)) same
            ],
          )
