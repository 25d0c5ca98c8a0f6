-- ===== src/Cmd/Run/Consent.antt =====
-- A module gets the keys of a namespace only with the consent of the user.
use mathlib.Core.List.{Memᴰ}
use sn0int.Prelude.{
  Bool, true, false, not, ◌&&◌, ◌||◌, List, [], ◌∷◌, filter, Text, text_eq, text_eq_iff, codes,
  ◌++◌, Result, ok, err, ok-injective, ◌≡◌, ◌⊎◌, inl, inr, refl, sym, ap, ◌∙◌, arith, Bool-cases,
}
use sn0int.Keyring.{
  KeyRing, Module, id_eq, grant_access, is_access_granted, unauthorized_namespaces,
}
use sn0int.Keyring.Grants.{granted-grant_access}
use sn0int.Cmd.Run.{Params, has_grant, decision, next, grant_each, saved, prepare_keyring}

module _ (quote : Text → Text) (ask : Text → Result Bool) where
  -- What the user has said about a namespace.
  abbrev pub Consent : Params → Text → Type 0
  Consent p namespace =
      (p.deny_keyring ≡ false)
      × ((p.grant_full_keyring ≡ true)
          ⊎ (has_grant namespace p.grants ≡ true)
          ⊎ (ask (codes "Grant access to " ++ quote namespace ++ codes " credentials?") ≡ ok true))

  decision-Consent :
      (p : Params) (namespace : Text)
      → decision quote ask p namespace ≡ ok true
      → Consent p namespace
  unfolding decision
  decision-Consent p namespace h = elim (Bool-cases p.deny_keyring) [
    | inl deny ↦ absurd (cc (ok-injective (rw deny at h)))
    | inr allowed ↦ (
      allowed,
      elim (Bool-cases p.grant_full_keyring) [
        | inl full ↦ inl full
        | inr partly ↦ inr (elim (Bool-cases (has_grant namespace p.grants)) [
          | inl listed ↦ inl listed
          | inr unlisted ↦ inr (rw allowed at (rw partly at (rw unlisted at h)))
        ])
      ],
    )
  ]

  -- What has become accessible after the loop over some namespaces.
  abbrev Opened : Params → Module → List Text → KeyRing → Module → Text → Type 0
  Opened p m namespaces ring other space =
      (is_access_granted ring other space ≡ true)
      ⊎ ((id_eq m.id other.id ≡ true) × Memᴰ space namespaces × Consent p space)

  after-one :
      (p : Params) (m : Module) (namespace : Text) (namespaces : List Text) (ring : KeyRing)
      (other : Module) (space : Text)
      → ((ring' : KeyRing)
          → is_access_granted (grant_each quote ask p m namespaces ring').1 other space ≡ true
          → Opened p m namespaces ring' other space)
      → (r : Result Bool) → decision quote ask p namespace ≡ r
      → is_access_granted
          (next quote ask (λ ring'. grant_each quote ask p m namespaces ring') m namespace ring r).1
          other
          space
        ≡ true
      → Opened p m (namespace ∷ namespaces) ring other space
  after-one p m namespace namespaces ring other space later (err x) said h = inl h
  after-one p m namespace namespaces ring other space later (ok false) said h =
      elim (later ring h) [
        | inl before ↦ inl before
        | inr (same, member, consent) ↦ inr (same, Memᴰ.tail member, consent)
      ]
  after-one p m namespace namespaces ring other space later (ok true) said h =
      elim (later (grant_access ring m namespace) h) [
        | inl before ↦ now (sym (granted-grant_access ring m other namespace space) ∙ before)
        | inr (same, member, consent) ↦ inr (same, Memᴰ.tail member, consent)
      ]
    where
      now :
          (is_access_granted ring other space || (text_eq namespace space && id_eq m.id other.id))
            ≡ true
          → Opened p m (namespace ∷ namespaces) ring other space
      now e = elim (Bool-cases (is_access_granted ring other space)) [
        | inl before ↦ inl before
        | inr closed ↦
            let same : text_eq namespace space ≡ true = ground arith in
            let is : namespace ≡ space = (text_eq_iff namespace space).0 same in
            inr (
              ground arith,
              Memᴰ.head (sym is),
              decision-Consent p space (ap (decision quote ask p) (sym is) ∙ said),
            )
      ]

  grant_each-Opened :
      (p : Params) (m : Module) (namespaces : List Text) (ring : KeyRing) (other : Module)
      (space : Text)
      → is_access_granted (grant_each quote ask p m namespaces ring).1 other space ≡ true
      → Opened p m namespaces ring other space
  unfolding grant_each
  grant_each-Opened p m [] ring other space h = inl h
  grant_each-Opened p m (namespace ∷ namespaces) ring other space h =
      after-one p m namespace namespaces ring other space
        (λ ring' h'. grant_each-Opened p m namespaces ring' other space h')
        (decision quote ask p namespace) refl h

  member-cons :
      {A : Type 0} (x y : A) (xs ys : List A)
      → (Memᴰ x xs → Memᴰ x ys)
      → Memᴰ x (y ∷ xs)
      → Memᴰ x (y ∷ ys)
  member-cons x y xs ys within (Memᴰ.head e) = Memᴰ.head e
  member-cons x y xs ys within (Memᴰ.tail h) = Memᴰ.tail (within h)

  filter_member :
      {A : Type 0} (q : A → Bool) (x : A) (xs : List A) → Memᴰ x (filter q xs) → Memᴰ x xs
  filter_member q x [] h = h
  filter_member q x (y ∷ ys) h = elim (Bool-cases (q y)) [
    | inl hit ↦ member-cons x y (filter q ys) ys (filter_member q x ys) (rw hit at h)
    | inr miss ↦ Memᴰ.tail (filter_member q x ys (rw miss at h))
  ]

  -- A module that has access to a namespace after `prepare_keyring`, whether it has returned an
  -- error or not, had it before, or it is the module that is run, it declares the namespace, the
  -- keyring was not denied, and the user has granted the whole keyring or this namespace on the
  -- command line, or has said yes to the question.
  pub prepare_keyring-Consent :
      (save : KeyRing → Result (Unit {0})) (p : Params) (m : Module) (ring : KeyRing)
      (other : Module) (space : Text)
      → is_access_granted (prepare_keyring quote ask save p m ring).1 other space ≡ true
      → (is_access_granted ring other space ≡ true)
        ⊎ ((id_eq m.id other.id ≡ true) × Memᴰ space m.keyring_access × Consent p space)
  unfolding prepare_keyring unauthorized_namespaces
  prepare_keyring-Consent save p m ring other space h =
      elim (grant_each-Opened p m (unauthorized_namespaces ring m) ring other space (
        ap (λ r. is_access_granted r other space)
          (sym (kept (grant_each quote ask p m (unauthorized_namespaces ring m) ring)))
        ∙ h)) [
          | inl before ↦ inl before
          | inr (same, member, consent) ↦ inr (
            same,
            filter_member (λ namespace. not (is_access_granted ring m namespace)) space
                m.keyring_access member,
            consent,
          )
        ]
    where
      kept : (r : Result (Unit {0}) × KeyRing) → (saved quote ask save r).1 ≡ r.1
      kept (err x, ring') = refl
      kept (ok _, ring') = refl
