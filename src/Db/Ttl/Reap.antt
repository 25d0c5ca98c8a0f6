-- ===== src/Db/Ttl/Reap.antt =====
-- What the reaping of the expired entities does, step by step.
use mathlib.Core.Path.{subst}
use sn0int.Prelude.{
  ℕ, ◌==◌, false, not, List, [], ◌∷◌, filter, Option, none, some, Text, codes, ok, ◌>>=◌, >>=-eq-ok,
  ltb, ◌≡◌, refl, sym, ap, ◌∙◌, ok-injective,
}
use sn0int.Db.Names.{Table, table_as_str, parse_table, parse_table-some}
use sn0int.Db.Ttl.{
  Ttl, TtlDb, TtlDbLaws, parsed, delete_of_table, delete, expired, reap, reap_expired, subject,
  topic,
}

abbrev pub late : ℕ → List Ttl → List Ttl
late now rows = filter (λ row. ltb row.expire now) rows

parsed-some : (p : Option Table) {t : Table} → parsed p ≡ ok t → p ≡ some t
parsed-some none e = absurd (cc)
parsed-some (some t) e = ap some (ok-injective e)

module _ (d : TtlDb) where
  -- Each arm deletes from the table that it is named for.
  delete_of_table_lem :
      (t : Table) (id : ℕ) (db : d.Connection)
      → delete_of_table d t id db ≡ d.delete_where (codes (table_as_str t)) id db
  unfolding delete_of_table table_as_str
  delete_of_table_lem Table.domains id db = refl
  delete_of_table_lem Table.subdomains id db = refl
  delete_of_table_lem Table.ipaddrs id db = refl
  delete_of_table_lem Table.subdomain_ipaddrs id db = refl
  delete_of_table_lem Table.urls id db = refl
  delete_of_table_lem Table.emails id db = refl
  delete_of_table_lem Table.phonenumbers id db = refl
  delete_of_table_lem Table.devices id db = refl
  delete_of_table_lem Table.networks id db = refl
  delete_of_table_lem Table.network_devices id db = refl
  delete_of_table_lem Table.accounts id db = refl
  delete_of_table_lem Table.breaches id db = refl
  delete_of_table_lem Table.breach_emails id db = refl
  delete_of_table_lem Table.images id db = refl
  delete_of_table_lem Table.ports id db = refl
  delete_of_table_lem Table.netblocks id db = refl
  delete_of_table_lem Table.cryptoaddrs id db = refl

module _ (d : TtlDb) (laws : TtlDbLaws d) where
  -- What the deletion of an expired entity does: the table that the expiry names no longer has the
  -- entity, the expiry is gone and the others are left, and no table has got an entity.
  pub record Deleted (row : Ttl) (db db' : d.Connection) : Type 0 where
    pub gone : laws.has row.family row.key db' ≡ false
    pub left : laws.rows db' ≡ filter (λ r. not (r.id == row.id)) (laws.rows db)
    pub stay : (t : Text) (id : ℕ) → laws.has t id db ≡ false → laws.has t id db' ≡ false

  delete-Deleted :
      (row : Ttl) (db db' : d.Connection) → delete d row db ≡ ok db' → Deleted row db db'
  unfolding delete
  delete-Deleted row db db' h =
      let (t, named, rest) =
        >>=-eq-ok (parsed (parse_table row.family))
          (λ family. delete_of_table d family row.key db >>= λ db'. d.delete_ttl row.id db') h in
      let (db₁, removed, last) =
        >>=-eq-ok (delete_of_table d t row.key db) (λ db'. d.delete_ttl row.id db') rest in
      let family : row.family ≡ codes (table_as_str t) =
        parse_table-some row.family (parsed-some (parse_table row.family) named) in
      let deleted : d.delete_where (codes (table_as_str t)) row.key db ≡ ok db₁ =
        sym (delete_of_table_lem d t row.key db) ∙ removed in
      let taken : d.delete_where row.family row.key db ≡ ok db₁ =
        ap (λ s. d.delete_where s row.key db) family ∙ deleted in
      record {
        gone =
            laws.has-delete_ttl row.family row.id row.key db₁ last
              (laws.has-delete_where row.family row.key db taken);
        left =
            laws.delete_rows row.id db₁ last
            ∙ ap (filter (λ r. not (r.id == row.id))) (laws.rows-delete_where t row.key db deleted);
        stay = λ t' id none_there.
            laws.has-delete_ttl t' row.id id db₁ last
              (laws.has-delete_where_other row.family t' row.key id db taken none_there);
      }

  -- The steps of the loop: a deletion, and then its notification, which may change anything.
  module _ (quote : Text → Text) where
    pub data Reaps : List Ttl → d.Connection → d.Connection → Type 0 where
      done : {db : d.Connection} → Reaps [] db db
      next :
          {row : Ttl} {rows : List Ttl} {db db₁ db' : d.Connection}
          → Deleted row db db₁
          → Reaps rows (d.notify (subject d quote row) (topic d row) db₁) db'
          → Reaps (row ∷ rows) db db'

    reap-Reaps :
        (rows : List Ttl) (db db' : d.Connection)
        → reap d quote rows db ≡ ok db'
        → Reaps rows db db'
    unfolding reap
    reap-Reaps [] db db' h = subst (λ x. Reaps [] db x) (ok-injective h) done
    reap-Reaps (row ∷ rows) db db' h =
        let (db₁, deleted, rest) =
          >>=-eq-ok (delete d row db)
            (λ db₁. reap d quote rows (d.notify (subject d quote row) (topic d row) db₁)) h in
        next (delete-Deleted row db db₁ deleted)
          (reap-Reaps rows (d.notify (subject d quote row) (topic d row) db₁) db' rest)

    -- A `reap_expired` that returns without an error goes through the expiries that were in the
    -- past when it began, one after the other, none left out. Each time the table that the expiry
    -- names has no longer the entity, the expiry itself is removed and the other expiries stay,
    -- and no table gets an entity; then the notification of this expiry runs, of which nothing is
    -- assumed: the next deletion starts from the database that it leaves.
    pub reap_expired-Reaps :
        (now : ℕ) (db db' : d.Connection)
        → reap_expired d quote now db ≡ ok db'
        → Reaps (late now (laws.rows db)) db db'
    unfolding reap_expired expired
    reap_expired-Reaps now db db' h =
        let (gone, asked, rest) =
          >>=-eq-ok (d.expired_ttls now db) (λ rows. reap d quote rows db) h in
        subst (λ rows. Reaps rows db db') (laws.expired_rows now db asked)
          (reap-Reaps gone db db' rest)
