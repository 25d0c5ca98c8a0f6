-- ===== src/Cmd.antt =====
-- src/cmd: the commands delete, scope and noscope, with src/filters.rs, what they are about. The result is the line
-- that is printed.
pub mod Noscope
pub mod Delete
pub mod Run
pub mod Rows
mod Tests
use sn0int.Prelude.{ℕ, ◌++◌, List, Text, codes, Result, ok, err}
use sn0int.Prelude.Numbers.{decimal}
use sn0int.Models.Ops.{Store}
use sn0int.Models.Ops
use sn0int.Models.Ops.Tables.{model_of}
use sn0int.Db.Filter.{Filter, parse}
use sn0int.Db.Kinds.{Kind, entity_of, put}
use sn0int.Db.Generic.{Tables, Content}

pub data Target : Type 0 where
  domains subdomains ip_addrs urls emails phone_numbers devices networks accounts breaches images
        ports netblocks crypto_addrs :
      List Text → Target

-- `Deleted {} rows` and `Updated {} rows`
abbrev pub deleted_rows : ℕ → Text
deleted_rows n = codes "Deleted " ++ decimal n ++ codes " rows"

abbrev pub updated_rows : ℕ → Text
updated_rows n = codes "Updated " ++ decimal n ++ codes " rows"

-- `?`, and then the line that is printed.
abbrev pub told {ℓ} : {D : Type ℓ} → (ℕ → Text) → Result ℕ × D → Result Text × D
told line (err x, db) = (err x, db)
told line (ok n, db) = (ok (line n), db)

module _ (to_lowercase : Text → Text) (t : Tables)
    (stores : (k : Kind) → Store (entity_of k) (t.entities k)) where
  -- An operation of the table of one kind.
  abbrev pub Operation : Type 0
  Operation = (k : Kind) → Filter → (t.entities k).Connection → Result ℕ × (t.entities k).Connection

  abbrev pub parsed_in : Operation → (k : Kind) → Result Filter → Content t → Result ℕ × Content t
  parsed_in op k (err x) db = (err x, db)
  parsed_in op k (ok f) db =
      let (rows, table) = op k f (db.entities k) in
      (rows, record db { entities = put k table db.entities })

  -- `filter.parse()?`, and then the operation.
  unfoldable pub parse_in : Operation → (k : Kind) → List Text → Content t → Result ℕ × Content t
  unfolding put
  parse_in op k args db = parsed_in op k (parse to_lowercase args) db

  -- The `match` of the three commands.
  unfoldable pub on_target : Operation → Target → Content t → Result ℕ × Content t
  unfolding parse_in
  on_target op (Target.domains args) db = parse_in op Kind.domain args db
  on_target op (Target.subdomains args) db = parse_in op Kind.subdomain args db
  on_target op (Target.ip_addrs args) db = parse_in op Kind.ip_addr args db
  on_target op (Target.urls args) db = parse_in op Kind.url args db
  on_target op (Target.emails args) db = parse_in op Kind.email args db
  on_target op (Target.phone_numbers args) db = parse_in op Kind.phone_number args db
  on_target op (Target.devices args) db = parse_in op Kind.device args db
  on_target op (Target.networks args) db = parse_in op Kind.network args db
  on_target op (Target.accounts args) db = parse_in op Kind.account args db
  on_target op (Target.breaches args) db = parse_in op Kind.breach args db
  on_target op (Target.images args) db = parse_in op Kind.image args db
  on_target op (Target.ports args) db = parse_in op Kind.port args db
  on_target op (Target.netblocks args) db = parse_in op Kind.netblock args db
  on_target op (Target.crypto_addrs args) db = parse_in op Kind.crypto_addr args db

  -- `run` of delete_cmd.rs
  unfoldable pub run_delete : Target → Content t → Result Text × Content t
  unfolding on_target Ops.delete
  run_delete target db = told deleted_rows (
      on_target
        (λ k f table. Ops.delete (entity_of k) (model_of k) (t.entities k) (stores k) f table)
        target db)

  -- `run` of scope_cmd.rs
  unfoldable pub run_scope : Target → Content t → Result Text × Content t
  unfolding on_target Ops.scope
  run_scope target db = told updated_rows (
      on_target
        (λ k f table. Ops.scope (entity_of k) (model_of k) (t.entities k) (stores k) f table) target
        db)

  -- `run` of noscope_cmd.rs
  unfoldable pub run_noscope : Target → Content t → Result Text × Content t
  unfolding on_target Ops.noscope
  run_noscope target db = told updated_rows (
      on_target
        (λ k f table. Ops.noscope (entity_of k) (model_of k) (t.entities k) (stores k) f table)
        target db)
