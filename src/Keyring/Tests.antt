-- ===== src/Keyring/Tests.antt =====
-- Examples of a keyring.
use mathlib.Core.List.{Memᴰ}
use sn0int.Prelude.{
  true, [], ◌∷◌, none, some, codes, text_eq, text_eq_iff, Result, ok, ◌≡◌, ◌≢◌, ap, All,
}
use sn0int.Keyring.{
  KeyName, KeyRing, KeyRingEntry, insert, get, entry_of, Module, is_access_granted, request_keys,
}
use sn0int.Keyring.Keys.{get-insert}
use sn0int.Keyring.Grants.{request_keys-granted}

abbrev aws_key : KeyName
aws_key = record { namespace = codes "aws"; name = codes "AKIA" }

abbrev shodan_key : KeyName
shodan_key = record { namespace = codes "shodan"; name = codes "me" }

abbrev aws_entry : KeyRingEntry
aws_entry = record {
  namespace = codes "aws";
  access_key = codes "AKIA";
  secret_key = some (codes "s3");
}

abbrev ring : KeyRing
ring = record {
  keys =
      (codes "aws", (codes "AKIA", some (codes "s3")) ∷ [])
      ∷ (codes "shodan", (codes "me", none) ∷ [])
      ∷ [];
  grants = (codes "shodan", record { author = codes "kpcyrd"; name = codes "a" } ∷ []) ∷ [];
}

abbrev saved : KeyRing → Result (Unit {0})
saved _ = ok tt

other_key : aws_key ≢ shodan_key
unfolding text_eq
other_key e =
    absurd
      (cc ((text_eq_iff (codes "aws") (codes "shodan")).1 (ap (λ (k : KeyName). k.namespace) e)))

get-insert_example :
    (get (insert saved ring aws_key none).1 aws_key ≡ entry_of aws_key (some none))
    × (get (insert saved ring aws_key none).1 shodan_key ≡ get ring shodan_key)
get-insert_example = get-insert saved ring aws_key shodan_key none other_key

abbrev scan : Module
scan = record {
  id = record { author = codes "kpcyrd"; name = codes "a" };
  keyring_access = codes "aws" ∷ codes "shodan" ∷ [];
}

request_keys-granted_example :
    All
      (λ (x : KeyRingEntry).
        ((is_access_granted ring scan x.namespace ≡ true) × Memᴰ x.namespace scan.keyring_access)
        × (get ring (record { namespace = x.namespace; name = x.access_key }) ≡ some x))
      (request_keys ring scan)
request_keys-granted_example = request_keys-granted ring scan
