-- ===== src/Models/BreachEmail.antt =====
-- src/models/breach_email.rs: the links of breaches and email addresses. A link that is asked for with a
-- password may be one with no password as well.
use sn0int.Prelude.{
  ℕ, ◌==◌, Bool, true, ◌&&◌, Option, none, some, Text, text_eq, text_eq_refl, arith, ◌≡◌, refl,
}
use sn0int.Models.{NewBreachEmail}
use sn0int.Models.Fields.{texts, is_some, written, upsert_opt, clear_if_equal}
use sn0int.Models.Links.{Link, LinkLaws}

pub record BreachEmail : Type 0 where
  pub id : ℕ
  pub breach_id : ℕ
  pub email_id : ℕ
  pub password : Option Text

pub record BreachEmailUpdate : Type 0 where
  pub id : ℕ
  pub password : Option Text

-- `password.is_null().or(password.eq(my_password))`
abbrev pub null_or_eq : Text → Option Text → Bool
null_or_eq mine none = true
null_or_eq mine (some password) = text_eq password mine

abbrev pub password_fits : Option Text → Option Text → Bool
password_fits none password = true
password_fits (some mine) password = null_or_eq mine password

-- `BreachEmail::get_opt`
unfoldable pub selects : ℕ × ℕ × Option Text → BreachEmail → Bool
selects (breach, email, password) row =
    row.breach_id == breach && row.email_id == email && password_fits password row.password

abbrev pub link : Link
link = record {
  Row = BreachEmail;
  id = λ row. row.id;
  New = NewBreachEmail;
  Key = ℕ × ℕ × Option Text;
  key = λ obj. (obj.breach_id, obj.email_id, obj.password);
  selects = selects;
  stored = λ i obj. record {
    id = i;
    breach_id = obj.breach_id;
    email_id = obj.email_id;
    password = obj.password;
  };
}

-- `Upsertable::upsert`
unfoldable pub upsert : NewBreachEmail → BreachEmail → BreachEmailUpdate
unfolding upsert_opt
upsert obj existing = record {
  id = existing.id;
  password = upsert_opt texts obj.password existing.password;
}

-- `Upsert::is_dirty`
unfoldable pub is_dirty : BreachEmailUpdate → Bool
is_dirty update = is_some update.password

-- The row of an update, whose empty column diesel leaves alone.
unfoldable pub applied : BreachEmailUpdate → BreachEmail → BreachEmail
applied update row = record row { password = written update.password row.password }

-- `Updateable::changeset`
unfoldable pub changeset : BreachEmailUpdate → BreachEmail → BreachEmailUpdate
unfolding clear_if_equal
changeset update existing = record update {
  password = clear_if_equal texts update.password existing.password;
}

pub password_fits_same : (password : Option Text) → password_fits password password ≡ true
password_fits_same none = refl
password_fits_same (some mine) = text_eq_refl mine

link_stored :
    (i : ℕ) (obj : NewBreachEmail) → link.selects (link.key obj) (link.stored i obj) ≡ true
unfolding selects
link_stored i obj = ground (arith, password_fits_same obj.password)

pub link-LinkLaws : LinkLaws link
link-LinkLaws = record { selects-stored = link_stored }
