-- ===== src/Models/Tests.antt =====
-- Examples of entities: a port, an account and an address, and what is found out about them later.
use sn0int.Prelude.{ℕ, refl, none, some, codes, false, ◌≡◌, ◌↔◌}
use sn0int.Models.{NewPort}
use sn0int.Models.Account
use sn0int.Models.Account.{Account, AccountUpdate}
use sn0int.Models.CryptoAddr
use sn0int.Models.CryptoAddr.{CryptoAddr, CryptoAddrUpdate}
use sn0int.Models.Fields.{clear_if_lower_or_equal, clear_if_greater_or_equal}
use sn0int.Models.Port
use sn0int.Models.Port.{Port}

abbrev http : Port
http = record {
  id = 7;
  ip_addr_id = 1;
  value = codes "tcp/10.0.0.1:80";
  ip_addr = codes "10.0.0.1";
  port = 80;
  protocol = codes "tcp";
  unscoped = false;
  status = some (codes "open");
  banner = none;
  service = some (codes "http");
  version = none;
}

abbrev nginx : NewPort
nginx = record {
  ip_addr_id = 1;
  value = codes "tcp/10.0.0.1:80";
  ip_addr = codes "10.0.0.1";
  port = 80;
  protocol = codes "tcp";
  status = none;
  banner = none;
  service = some (codes "nginx");
  version = some (codes "1.18");
  unscoped = false;
}

port_is_dirty_iff_example :
    (Port.is_dirty (Port.upsert nginx http) ≡ false) ↔ (Port.merged nginx http ≡ http)
port_is_dirty_iff_example = Port.port_is_dirty_iff nginx http

abbrev seen_again : AccountUpdate
seen_again = record {
  id = 1;
  displayname = none;
  email = none;
  url = none;
  last_seen = some 20;
  birthday = none;
  phonenumber = none;
  profile_pic = none;
}

abbrev account : Account
account = record {
  id = 1;
  value = codes "github.com/kpcyrd";
  service = codes "github.com";
  username = codes "kpcyrd";
  unscoped = false;
  displayname = none;
  email = none;
  url = none;
  last_seen = some 30;
  birthday = none;
  phonenumber = none;
  profile_pic = none;
}

kept : (Account.applied (Account.changeset seen_again account) account).last_seen ≡ some 30
unfolding Account.applied Account.changeset clear_if_lower_or_equal
kept = refl

abbrev last : ℕ
last = 30

abbrev coins : CryptoAddrUpdate
coins = record {
  id = 1;
  currency = none;
  denominator = none;
  balance = some 5;
  received = none;
  first_seen = some 3;
  last_withdrawal = some 40;
  description = none;
}

abbrev address : CryptoAddr
address = record {
  id = 1;
  value = codes "1A";
  unscoped = false;
  currency = none;
  denominator = none;
  balance = none;
  received = none;
  first_seen = some 4;
  last_withdrawal = some 50;
  description = none;
}

first_written :
    (CryptoAddr.applied (CryptoAddr.changeset coins address) address).first_seen ≡ some 3
unfolding CryptoAddr.applied CryptoAddr.changeset clear_if_greater_or_equal
first_written = refl

last_kept :
    (CryptoAddr.applied (CryptoAddr.changeset coins address) address).last_withdrawal ≡ some 50
unfolding CryptoAddr.applied CryptoAddr.changeset clear_if_lower_or_equal
last_kept = refl

abbrev first_before : ℕ
first_before = 4

abbrev first_after : ℕ
first_after = 3

abbrev withdrawal : ℕ
withdrawal = 50
