-- ===== src/Common/Metadata/Sources.antt =====
-- Reading and writing what a module runs on.
use mathlib.Core.Bool.{and-false}
use sn0int.Prelude.{
  ℕ, ◌∷◌, ◌++◌, Option, none, some, Text, codes, text_eq, text_eq_iff, find, find_sound, find-none,
  find-append, take, drop, take-length_append, drop-length_append, if◌then◌else◌, ok, ◌≡◌, ◌≢◌,
  refl, sym, ap, ◌∙◌, ◌↔◌, arith, All,
}
use sn0int.Common.Metadata.{
  Source, domains, accounts, crypto_addrs, key_ring, group_as_str, source_of, key_ring_of,
  parse_source, key_and_param,
}

abbrev pub param_of : Source → Option Text
param_of (accounts p) = p
param_of (crypto_addrs p) = p
param_of (key_ring p) = some p
param_of _ = none

abbrev pub join : Text → Option Text → Text
join key none = key
join key (some p) = key ++ b':' ∷ p

-- How a source is written: its group, and its parameter behind a colon.
abbrev pub source_text : Source → Text
source_text x = join (group_as_str x) (param_of x)

source_of-group : (x : Source) → source_of (group_as_str x) (param_of x) ≡ ok x
unfolding source_of group_as_str text_eq
source_of-group domains = refl
source_of-group _ = refl

-- The arms with no parameter.
source_of-none :
    (key : Text) (x : Source)
    → source_of key none ≡ ok x
    → (key ≡ group_as_str x) × (none ≡ param_of x)
unfolding source_of group_as_str
source_of-none key x h = ground (
  arith,
  text_eq_iff key (codes "domains"),
  text_eq_iff key (codes "subdomains"),
  text_eq_iff key (codes "ipaddrs"),
  text_eq_iff key (codes "urls"),
  text_eq_iff key (codes "emails"),
  text_eq_iff key (codes "phonenumbers"),
  text_eq_iff key (codes "networks"),
  text_eq_iff key (codes "devices"),
  text_eq_iff key (codes "accounts"),
  text_eq_iff key (codes "breaches"),
  text_eq_iff key (codes "images"),
  text_eq_iff key (codes "ports"),
  text_eq_iff key (codes "netblocks"),
  text_eq_iff key (codes "cryptoaddrs"),
  text_eq_iff key (codes "notifications"),
)

-- With a parameter, only three arms are left.
source_of_param :
    (key p : Text)
    → source_of key (some p) ≡ (
        if text_eq key (codes "accounts")
        then ok (accounts (some p))
        else if text_eq key (codes "cryptoaddrs")
        then ok (crypto_addrs (some p))
        else key_ring_of key (some p))
unfolding source_of
source_of_param key p = simp and-false

source_of-some :
    (key p : Text) (x : Source)
    → source_of key (some p) ≡ ok x
    → (key ≡ group_as_str x) × (some p ≡ param_of x)
unfolding group_as_str
source_of-some key p x h =
    let h' = sym (source_of_param key p) ∙ h in
    ground (
      arith,
      h',
      text_eq_iff key (codes "accounts"),
      text_eq_iff key (codes "cryptoaddrs"),
      text_eq_iff key (codes "keyring"),
    )

-- No group has a colon.
group-free : (x : Source) → All (λ c. c ≢ b':') (group_as_str x)
unfolding group_as_str
group-free domains = omega arith
group-free _ = omega arith

key_and_param-join :
    (key : Text) (param : Option Text)
    → All (λ c. c ≢ b':') key
    → key_and_param (join key param) (find b':' (join key param)) ≡ (key, param)
key_and_param-join key none free = rw (find-none b':' key free)
key_and_param-join key (some p) free =
    rw (find-append b':' key p free) (rw (take-length_append, drop-length_append))

-- A text is parsed as a source exactly if it is how that source is written: the name of its group,
-- and its parameter, if it has one, behind a colon.
pub parse_source_iff : (s : Text) (x : Source) → (parse_source s ≡ ok x) ↔ (s ≡ source_text x)
unfolding parse_source
parse_source_iff s x = (
  to (find b':' s) refl,
  λ e. rw e (
      ap (λ p. source_of p.0 p.1) (key_and_param-join (group_as_str x) (param_of x) (group-free x))
      ∙ source_of-group x),
)
  where
    to :
        (found : Option ℕ)
        → find b':' s ≡ found
        → (let p = key_and_param s found in source_of p.0 p.1) ≡ ok x
        → s ≡ source_text x
    to none e h = let (k, p) = source_of-none s x h in k ∙ ap (join (group_as_str x)) p
    to (some i) e h =
        let (same, _) = find_sound b':' s i e in
        let (k, p) = source_of-some (take i s) (drop 1 (drop i s)) x h in
        same ∙ ap (λ t. join t (some (drop 1 (drop i s)))) k ∙ ap (join (group_as_str x)) p
