-- ===== src/Models/Ops/Tables.antt =====
-- src/models: what each table of entities has for the operations of Model and Scopable.
use sn0int.Prelude.{none, some, refl}
use sn0int.Models.Ops.{Model, ModelLaws}
use sn0int.Db.Kinds.{Kind, entity_of}
use sn0int.Models.Domain
use sn0int.Models.Subdomain
use sn0int.Models.IpAddr
use sn0int.Models.Url
use sn0int.Models.Email
use sn0int.Models.PhoneNumber
use sn0int.Models.Device
use sn0int.Models.Network
use sn0int.Models.Account
use sn0int.Models.Breach
use sn0int.Models.Image
use sn0int.Models.Port
use sn0int.Models.Netblock
use sn0int.Models.CryptoAddr

abbrev pub domain_model : Model Domain.entity
domain_model = record {
  to_string = λ row. row.value;
  with_unscoped = λ unscoped row. record row { unscoped = unscoped };
  param = none;
  blob = λ row. none;
}

pub domain_model-ModelLaws : ModelLaws Domain.entity domain_model
unfolding Domain.scoped
domain_model-ModelLaws = record {
  scoped-with_unscoped = λ _ _. refl;
  value-with_unscoped = λ _ _. refl;
  id-with_unscoped = λ _ _. refl;
}

abbrev pub subdomain_model : Model Subdomain.entity
subdomain_model = record {
  to_string = λ row. row.value;
  with_unscoped = λ unscoped row. record row { unscoped = unscoped };
  param = none;
  blob = λ row. none;
}

pub subdomain_model-ModelLaws : ModelLaws Subdomain.entity subdomain_model
unfolding Subdomain.scoped
subdomain_model-ModelLaws = record {
  scoped-with_unscoped = λ _ _. refl;
  value-with_unscoped = λ _ _. refl;
  id-with_unscoped = λ _ _. refl;
}

abbrev pub ip_addr_model : Model IpAddr.entity
ip_addr_model = record {
  to_string = λ row. row.value;
  with_unscoped = λ unscoped row. record row { unscoped = unscoped };
  param = none;
  blob = λ row. none;
}

pub ip_addr_model-ModelLaws : ModelLaws IpAddr.entity ip_addr_model
unfolding IpAddr.scoped
ip_addr_model-ModelLaws = record {
  scoped-with_unscoped = λ _ _. refl;
  value-with_unscoped = λ _ _. refl;
  id-with_unscoped = λ _ _. refl;
}

abbrev pub url_model : Model Url.entity
url_model = record {
  to_string = λ row. row.value;
  with_unscoped = λ unscoped row. record row { unscoped = unscoped };
  param = none;
  blob = λ row. none;
}

pub url_model-ModelLaws : ModelLaws Url.entity url_model
unfolding Url.scoped
url_model-ModelLaws = record {
  scoped-with_unscoped = λ _ _. refl;
  value-with_unscoped = λ _ _. refl;
  id-with_unscoped = λ _ _. refl;
}

abbrev pub email_model : Model Email.entity
email_model = record {
  to_string = λ row. row.value;
  with_unscoped = λ unscoped row. record row { unscoped = unscoped };
  param = none;
  blob = λ row. none;
}

pub email_model-ModelLaws : ModelLaws Email.entity email_model
unfolding Email.scoped
email_model-ModelLaws = record {
  scoped-with_unscoped = λ _ _. refl;
  value-with_unscoped = λ _ _. refl;
  id-with_unscoped = λ _ _. refl;
}

abbrev pub phone_number_model : Model PhoneNumber.entity
phone_number_model = record {
  to_string = λ row. row.value;
  with_unscoped = λ unscoped row. record row { unscoped = unscoped };
  param = none;
  blob = λ row. none;
}

pub phone_number_model-ModelLaws : ModelLaws PhoneNumber.entity phone_number_model
unfolding PhoneNumber.scoped
phone_number_model-ModelLaws = record {
  scoped-with_unscoped = λ _ _. refl;
  value-with_unscoped = λ _ _. refl;
  id-with_unscoped = λ _ _. refl;
}

abbrev pub device_model : Model Device.entity
device_model = record {
  to_string = λ row. row.value;
  with_unscoped = λ unscoped row. record row { unscoped = unscoped };
  param = none;
  blob = λ row. none;
}

pub device_model-ModelLaws : ModelLaws Device.entity device_model
unfolding Device.scoped
device_model-ModelLaws = record {
  scoped-with_unscoped = λ _ _. refl;
  value-with_unscoped = λ _ _. refl;
  id-with_unscoped = λ _ _. refl;
}

abbrev pub network_model : Model Network.entity
network_model = record {
  to_string = λ row. row.value;
  with_unscoped = λ unscoped row. record row { unscoped = unscoped };
  param = none;
  blob = λ row. none;
}

pub network_model-ModelLaws : ModelLaws Network.entity network_model
unfolding Network.scoped
network_model-ModelLaws = record {
  scoped-with_unscoped = λ _ _. refl;
  value-with_unscoped = λ _ _. refl;
  id-with_unscoped = λ _ _. refl;
}

abbrev pub account_model : Model Account.entity
account_model = record {
  to_string = λ row. row.value;
  with_unscoped = λ unscoped row. record row { unscoped = unscoped };
  param = some (λ row. some row.service);
  blob = λ row. none;
}

pub account_model-ModelLaws : ModelLaws Account.entity account_model
unfolding Account.scoped
account_model-ModelLaws = record {
  scoped-with_unscoped = λ _ _. refl;
  value-with_unscoped = λ _ _. refl;
  id-with_unscoped = λ _ _. refl;
}

abbrev pub breach_model : Model Breach.entity
breach_model = record {
  to_string = λ row. row.value;
  with_unscoped = λ unscoped row. record row { unscoped = unscoped };
  param = none;
  blob = λ row. none;
}

pub breach_model-ModelLaws : ModelLaws Breach.entity breach_model
unfolding Breach.scoped
breach_model-ModelLaws = record {
  scoped-with_unscoped = λ _ _. refl;
  value-with_unscoped = λ _ _. refl;
  id-with_unscoped = λ _ _. refl;
}

abbrev pub image_model : Model Image.entity
image_model = record {
  to_string = λ row. row.value;
  with_unscoped = λ unscoped row. record row { unscoped = unscoped };
  param = none;
  blob = λ row. some row.value;
}

pub image_model-ModelLaws : ModelLaws Image.entity image_model
unfolding Image.scoped
image_model-ModelLaws = record {
  scoped-with_unscoped = λ _ _. refl;
  value-with_unscoped = λ _ _. refl;
  id-with_unscoped = λ _ _. refl;
}

abbrev pub port_model : Model Port.entity
port_model = record {
  to_string = λ row. row.value;
  with_unscoped = λ unscoped row. record row { unscoped = unscoped };
  param = none;
  blob = λ row. none;
}

pub port_model-ModelLaws : ModelLaws Port.entity port_model
unfolding Port.scoped
port_model-ModelLaws = record {
  scoped-with_unscoped = λ _ _. refl;
  value-with_unscoped = λ _ _. refl;
  id-with_unscoped = λ _ _. refl;
}

abbrev pub netblock_model : Model Netblock.entity
netblock_model = record {
  to_string = λ row. row.value;
  with_unscoped = λ unscoped row. record row { unscoped = unscoped };
  param = none;
  blob = λ row. none;
}

pub netblock_model-ModelLaws : ModelLaws Netblock.entity netblock_model
unfolding Netblock.scoped
netblock_model-ModelLaws = record {
  scoped-with_unscoped = λ _ _. refl;
  value-with_unscoped = λ _ _. refl;
  id-with_unscoped = λ _ _. refl;
}

abbrev pub crypto_addr_model : Model CryptoAddr.entity
crypto_addr_model = record {
  to_string = λ row. row.value;
  with_unscoped = λ unscoped row. record row { unscoped = unscoped };
  param = some (λ row. row.currency);
  blob = λ row. none;
}

pub crypto_addr_model-ModelLaws : ModelLaws CryptoAddr.entity crypto_addr_model
unfolding CryptoAddr.scoped
crypto_addr_model-ModelLaws = record {
  scoped-with_unscoped = λ _ _. refl;
  value-with_unscoped = λ _ _. refl;
  id-with_unscoped = λ _ _. refl;
}

-- The table of each kind.
abbrev pub model_of : (k : Kind) → Model (entity_of k)
model_of Kind.domain = domain_model
model_of Kind.subdomain = subdomain_model
model_of Kind.ip_addr = ip_addr_model
model_of Kind.url = url_model
model_of Kind.email = email_model
model_of Kind.phone_number = phone_number_model
model_of Kind.device = device_model
model_of Kind.network = network_model
model_of Kind.account = account_model
model_of Kind.breach = breach_model
model_of Kind.image = image_model
model_of Kind.port = port_model
model_of Kind.netblock = netblock_model
model_of Kind.crypto_addr = crypto_addr_model

pub model_of-ModelLaws : (k : Kind) → ModelLaws (entity_of k) (model_of k)
model_of-ModelLaws Kind.domain = domain_model-ModelLaws
model_of-ModelLaws Kind.subdomain = subdomain_model-ModelLaws
model_of-ModelLaws Kind.ip_addr = ip_addr_model-ModelLaws
model_of-ModelLaws Kind.url = url_model-ModelLaws
model_of-ModelLaws Kind.email = email_model-ModelLaws
model_of-ModelLaws Kind.phone_number = phone_number_model-ModelLaws
model_of-ModelLaws Kind.device = device_model-ModelLaws
model_of-ModelLaws Kind.network = network_model-ModelLaws
model_of-ModelLaws Kind.account = account_model-ModelLaws
model_of-ModelLaws Kind.breach = breach_model-ModelLaws
model_of-ModelLaws Kind.image = image_model-ModelLaws
model_of-ModelLaws Kind.port = port_model-ModelLaws
model_of-ModelLaws Kind.netblock = netblock_model-ModelLaws
model_of-ModelLaws Kind.crypto_addr = crypto_addr_model-ModelLaws
