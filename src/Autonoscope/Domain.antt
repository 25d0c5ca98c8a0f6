-- ===== src/Autonoscope/Domain.antt =====
-- src/autonoscope/domain.rs: rules on domain names, and what they match.
use mathlib.Core.List.{reverse}
use sn0int.Prelude.{
  ℕ, Bool, true, false, List, ◌++◌, none, some, Text, codes, split, nonempty, length, ltb,
  if◌then◌else◌, Result, ok, ◌>>=◌, ◌≡◌, ◌↔◌,
}
use sn0int.Crates.Network.{Network}
use sn0int.Crates.Sqlite.{Autonoscope}
use sn0int.Models.{NewDomain, NewSubdomain, NewUrl}
use sn0int.Autonoscope.Segments.{zip_all_eq, prefix_test_iff, length-reverse, reverse_prefix_iff}

pub record DomainRule : Type 0 where
  pub value : Text
  pub fragments : List Text

unfoldable pub to_string : DomainRule → Text
to_string r = r.value

-- `rule.split('.').filter(|x| !x.is_empty())`
abbrev pub labels : Text → List Text
labels s = nonempty (split b'.' s)

unfoldable pub try_from : Text → Result DomainRule
try_from rule = ok (record { value = rule; fragments = reverse (labels rule) })

unfoldable pub try_from_row : Autonoscope → Result DomainRule
unfolding try_from
try_from_row row = try_from row.value

-- `AutoRule<str>`
unfoldable pub matches_str : DomainRule → Text → Result Bool
unfolding zip_all_eq
matches_str r domain =
    let frags = labels domain in
    if ltb (length frags) (length r.fragments)
    then ok false
    else ok (zip_all_eq r.fragments (reverse frags))

unfoldable pub matches_domain : DomainRule → NewDomain → Result Bool
unfolding matches_str
matches_domain r domain = matches_str r domain.value

unfoldable pub matches_subdomain : DomainRule → NewSubdomain → Result Bool
unfolding matches_str
matches_subdomain r subdomain = matches_str r subdomain.value

unfoldable pub matches_url : (n : Network) → DomainRule → NewUrl → Result Bool
unfolding matches_str
matches_url n r url = do
  parsed ← n.parse_url url.value
  elim (n.url_domain parsed) [ none ↦ ok false | some domain ↦ matches_str r domain ]

unfoldable pub precision : DomainRule → ℕ
precision r = length r.fragments

unfoldable pub into_rule : DomainRule → Text × Text
unfolding to_string
into_rule r = (codes "domain", to_string r)

-- A domain rule made from one text matches another exactly if the nonempty labels of the other end
-- with the nonempty labels of the rule.
pub domain_rule_iff :
    (value domain : Text)
    → ((try_from value >>= λ r. matches_str r domain) ≡ ok true)
      ↔ ((front : List Text) × (labels domain ≡ front ++ labels value))
unfolding try_from matches_str
domain_rule_iff value domain =
    let test = prefix_test_iff (reverse (labels value)) (reverse (labels domain)) in
    let turned = reverse_prefix_iff (labels value) (labels domain) in
    (
      λ h. turned.0 (test.0 (rw (length-reverse (labels domain)) h)),
      λ h. rw (length-reverse (labels domain)) at (test.1 (turned.1 h)),
    )
