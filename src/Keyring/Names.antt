-- ===== src/Keyring/Names.antt =====
-- How the names of keys are read, and which entries a query selects.
use sn0int.Prelude.{
  true, false, [], ◌∷◌, ◌++◌, Option, none, some, Text, text_eq_iff, text_eq_refl, is_empty, find,
  find-none, cut_at, cut_at_iff, ok, ok-injective, ◌≡◌, ◌≢◌, ◌↔◌, ◌⊎◌, inl, inr, refl, sym, ap,
  arith, All,
}
use sn0int.Keyring.{KeyName, checked, from_str, to_string, KeyRingEntry, matches_cut, matches}

abbrev pub IsFree : Text → Type 0
IsFree s = All (λ c. c ≢ b':') s

-- A name of a key: both parts nonempty, and no colon in the first.
abbrev pub IsKeyName : KeyName → Type 0
IsKeyName k = IsFree k.namespace × (is_empty k.namespace ≡ false) × (is_empty k.name ≡ false)

checked-ok :
    (a b : Text) (k : KeyName)
    → checked (some (a, b)) ≡ ok k
    → (a ≡ k.namespace) × (b ≡ k.name) × (is_empty a ≡ false) × (is_empty b ≡ false)
checked-ok [] b k h = absurd (cc)
checked-ok (c ∷ a) [] k h = absurd (cc)
checked-ok (c ∷ a) (d ∷ b) k h =
    let same = ok-injective h in
    (ap (λ (x : KeyName). x.namespace) same, ap (λ (x : KeyName). x.name) same, refl, refl)

-- A text is parsed as the name of a key exactly if it is that name printed, both its parts are
-- nonempty, and its namespace has no colon.
pub from_str_name_iff :
    (s : Text) (k : KeyName) → (from_str s ≡ ok k) ↔ ((s ≡ to_string k) × IsKeyName k)
unfolding from_str to_string
from_str_name_iff s k = (to (cut_at s (find b':' s)) refl, from)
  where
    to :
        (r : Option (Text × Text))
        → cut_at s (find b':' s) ≡ r
        → checked r ≡ ok k
        → (s ≡ k.namespace ++ b':' ∷ k.name) × IsKeyName k
    to none e h = absurd (cc)
    to (some (a, b)) e h =
        let (same, free) = (cut_at_iff b':' s a b).0 e in
        let (front, back, full, full') = checked-ok a b k h in
        rw (← front, ← back) (same, (free, full, full'))

    from :
        ((s ≡ k.namespace ++ b':' ∷ k.name) × IsKeyName k) → checked (cut_at s (find b':' s)) ≡ ok k
    from (same, (free, full, full')) =
        rw ((cut_at_iff b':' s k.namespace k.name).1 (same, free)) (rw full (rw full'))

-- An entry whose namespace has no colon matches a query exactly if the query is the namespace, or
-- the namespace and the access key with a colon between.
pub matches_iff :
    (entry : KeyRingEntry) (query : Text)
    → IsFree entry.namespace
    → (matches entry query ≡ true)
      ↔ ((query ≡ entry.namespace) ⊎ (query ≡ entry.namespace ++ b':' ∷ entry.access_key))
unfolding matches
matches_iff entry query free = (to (cut_at query (find b':' query)) refl, from)
  where
    to :
        (r : Option (Text × Text))
        → cut_at query (find b':' query) ≡ r
        → matches_cut entry query r ≡ true
        → (query ≡ entry.namespace) ⊎ (query ≡ entry.namespace ++ b':' ∷ entry.access_key)
    to none e h = inl (sym ((text_eq_iff entry.namespace query).0 h))
    to (some (a, b)) e h =
        let (same, _) = (cut_at_iff b':' query a b).0 e in
        let front : entry.namespace ≡ a = ground (arith, h, text_eq_iff entry.namespace a) in
        let back : entry.access_key ≡ b = ground (arith, h, text_eq_iff entry.access_key b) in
        inr (rw (front, back) same)

    from :
        ((query ≡ entry.namespace) ⊎ (query ≡ entry.namespace ++ b':' ∷ entry.access_key))
        → matches_cut entry query (cut_at query (find b':' query)) ≡ true
    from (inl same) =
        rw same (rw (find-none b':' entry.namespace free) (text_eq_refl entry.namespace))
    from (inr same) =
        rw ((cut_at_iff b':' query entry.namespace entry.access_key).1 (same, free))
          (rw (text_eq_refl entry.namespace, text_eq_refl entry.access_key))
