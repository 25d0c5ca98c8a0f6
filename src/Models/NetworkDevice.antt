-- ===== src/Models/NetworkDevice.antt =====
-- src/models/network_device.rs: the links of networks and devices.
use sn0int.Prelude.{ℕ, ◌==◌, Bool, ◌&&◌, arith, ◌||◌, Option, Text}
use sn0int.Models.{NewNetworkDevice}
use sn0int.Models.Fields.{texts, numbers, is_some, upsert_opt, clear_if_equal}
use sn0int.Models.Links.{Link, LinkLaws}

pub record NetworkDevice : Type 0 where
  pub id : ℕ
  pub network_id : ℕ
  pub device_id : ℕ
  pub ipaddr : Option Text
  pub last_seen : Option ℕ

pub record NetworkDeviceUpdate : Type 0 where
  pub id : ℕ
  pub ipaddr : Option Text
  pub last_seen : Option ℕ

-- `NetworkDevice::get_opt`
unfoldable pub selects : ℕ × ℕ → NetworkDevice → Bool
selects (a, b) row = row.network_id == a && row.device_id == b

abbrev pub link : Link
link = record {
  Row = NetworkDevice;
  id = λ row. row.id;
  New = NewNetworkDevice;
  Key = ℕ × ℕ;
  key = λ obj. (obj.network_id, obj.device_id);
  selects = selects;
  stored = λ i obj. record {
    id = i;
    network_id = obj.network_id;
    device_id = obj.device_id;
    ipaddr = obj.ipaddr;
    last_seen = obj.last_seen;
  };
}

-- `Upsertable::upsert`
unfoldable pub upsert : NewNetworkDevice → NetworkDevice → NetworkDeviceUpdate
unfolding upsert_opt
upsert obj existing = record {
  id = existing.id;
  ipaddr = upsert_opt texts obj.ipaddr existing.ipaddr;
  last_seen = upsert_opt numbers obj.last_seen existing.last_seen;
}

-- `Upsert::is_dirty`
unfoldable pub is_dirty : NetworkDeviceUpdate → Bool
is_dirty update = is_some update.ipaddr || is_some update.last_seen

-- `Updateable::changeset`
unfoldable pub changeset : NetworkDeviceUpdate → NetworkDevice → NetworkDeviceUpdate
unfolding clear_if_equal
changeset update existing = record update {
  ipaddr = clear_if_equal texts update.ipaddr existing.ipaddr;
  last_seen = clear_if_equal numbers update.last_seen existing.last_seen;
}

pub link-LinkLaws : LinkLaws link
link-LinkLaws = record { selects-stored = λ i obj. unfold selects in ground arith }
