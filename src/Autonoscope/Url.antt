-- ===== src/Autonoscope/Url.antt =====
-- src/autonoscope/url.rs: rules on an origin and a path, over the crate url.
use sn0int.Prelude.{
  ℕ, Bool, true, false, not, List, ◌++◌, Option, none, some, Text, String, codes, nonempty, length,
  ltb, if◌then◌else◌, Result, ok, err, message, ◌>>=◌, ◌≡◌, refl, ◌↔◌, Bool-cases, inl, inr,
}
use sn0int.Crates.Network.{Network}
use sn0int.Crates.Sqlite.{Autonoscope}
use sn0int.Models.{NewUrl}
use sn0int.Autonoscope.Segments.{zip_all_eq, prefix_test_iff}

-- `ok_or_else`
abbrev pub ok_or {ℓ} : {A : Type ℓ} → Option A → String → Result A
ok_or none e = err (message e)
ok_or (some a) e = ok a

module _ (n : Network) where
  open n use {Url, Origin}

  pub record UrlRule : Type 0 where
    pub url : Text
    pub origin : Origin
    pub segments : List Text

  unfoldable pub to_string : UrlRule → Text
  to_string r = r.url

  unfoldable pub try_from : Text → Result UrlRule
  try_from x = do
    url ← n.parse_url x
    segments ← ok_or (n.path_segments url) "url can't have a base"
    ok (record { url = x; origin = n.url_origin url; segments = nonempty segments })

  unfoldable pub try_from_row : Autonoscope → Result UrlRule
  unfolding try_from
  try_from_row row = try_from row.value

  -- `AutoRule<str>`
  unfoldable pub matches_str : UrlRule → Text → Result Bool
  unfolding zip_all_eq
  matches_str r s = do
    url ← n.parse_url s
    if not (n.origin_eq (n.url_origin url) r.origin) then ok false else do
      found ← ok_or (n.path_segments url) "url can't have a base"
      let segments = nonempty found
      if ltb (length segments) (length r.segments)
          then ok false
          else ok (zip_all_eq r.segments segments)

  unfoldable pub matches_url : UrlRule → NewUrl → Result Bool
  unfolding matches_str
  matches_url r url = matches_str r url.value

  unfoldable pub precision : UrlRule → ℕ
  precision r = length r.segments

  unfoldable pub into_rule : UrlRule → Text × Text
  unfolding to_string
  into_rule r = (codes "url", to_string r)

  -- A URL rule matches a URL that parses and has a path exactly if the origins are equal and the
  -- nonempty segments of the path begin with the segments of the rule.
  pub url_rule_iff :
      (r : UrlRule) (s : Text) {url : Url} {found : List Text}
      → n.parse_url s ≡ ok url
      → n.path_segments url ≡ some found
      → (matches_str r s ≡ ok true) ↔ (
          (n.origin_eq (n.url_origin url) r.origin ≡ true)
          × (rest : List Text) × (nonempty found ≡ r.segments ++ rest))
  unfolding matches_str
  url_rule_iff r s {url} {found} p q =
      let test = prefix_test_iff r.segments (nonempty found) in
      rw (p, q)
        (elim (Bool-cases (n.origin_eq (n.url_origin url) r.origin)) [
          | inl same ↦ rw same (λ h. (refl, (test.0 h).0, (test.0 h).1), λ t. test.1 (t.1, t.2))
          | inr other ↦ rw other (λ h. cc, λ t. cc)
        ])
