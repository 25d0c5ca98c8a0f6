-- ===== src/Db/Insert/Others.antt =====
-- An insertion leaves the rows of every other value as they are.
use sn0int.Prelude.{
  ◌==◌, Bool, false, Option, none, some, Text, text_eq, text_eq_iff, Result, ok, err, ◌≡◌, ◌≢◌,
  refl, sym, ap, ◌∙◌, arith, Bool-cases, inl, inr,
}
use sn0int.Models.Entity.{Entity, EntityLaws}
use sn0int.Crates.Table.{Table, TableLaws, first_by_value}
use sn0int.Db.Insert.{apply, inserted, upsert_known, insert_unknown, insert_found, insert_struct}
use sn0int.Db.Insert.Frame.{first-concat_other, first-map, updated_first}
use sn0int.Db.Insert.Again.{known}

module _ (e : Entity) (l : EntityLaws e) (t : Table e) (tl : TableLaws e t) where
  -- `id` is the primary key: the rows of two different values have different ids.
  abbrev pub IsKeyed : t.Connection → Type 0
  IsKeyed db =
      (a b : Text) (row row' : e.Row)
      → known e l t tl a db ≡ some row
      → known e l t tl b db ≡ some row'
      → e.id row ≡ e.id row'
      → a ≡ b

  updated_other :
      (obj : e.New) (existing : e.Row) (found : Option e.Row)
      → ((row : e.Row) → found ≡ some row → e.id row ≢ e.id existing)
      → updated_first e l (e.upsert obj existing) found ≡ found
  updated_other obj existing none h = refl
  updated_other obj existing (some row) h =
      let apart : (e.id row == e.update_id (e.upsert obj existing)) ≡ false =
        ground (arith, l.id-upsert obj existing, h row refl) in
      rw apart

  upsert_known-others :
      (obj : e.New) (existing : e.Row) (db : t.Connection) (query : Text)
      → IsKeyed db
      → query ≢ e.value obj
      → known e l t tl (e.value obj) db ≡ some existing
      → known e l t tl query (upsert_known e t obj existing db).1 ≡ known e l t tl query db
  unfolding upsert_known
  upsert_known-others obj existing db query keyed ne k = elim (Bool-cases (e.scoped existing)) [
    | inr out ↦ rw out
    | inl within ↦ rw within (elim (Bool-cases (e.is_dirty (e.upsert obj existing))) [
      | inr clean ↦ rw clean
      | inl dirty ↦ rw dirty (go (t.update (e.upsert obj existing) db) refl)
    ])
  ]
    where
      go :
          (w : Result t.Connection)
          → t.update (e.upsert obj existing) db ≡ w
          → known e l t tl query (apply e t db existing (e.upsert obj existing) w).1
            ≡ known e l t tl query db
      go (err x) wrote = refl
      go (ok db') wrote =
          ap (first_by_value e query) (tl.update_rows (e.upsert obj existing) db wrote)
          ∙ first-map e l query (e.upsert obj existing) (tl.rows db)
          ∙ updated_other obj existing (known e l t tl query db)
              (λ row found same. ne (keyed query (e.value obj) row existing found k same))

  insert_unknown-others :
      (obj : e.New) (scoped : Bool) (db : t.Connection) (query : Text)
      → query ≢ e.value obj
      → known e l t tl query (insert_unknown e t obj scoped db).1 ≡ known e l t tl query db
  unfolding insert_unknown
  insert_unknown-others obj scoped db query ne = go (t.insert (e.set_scoped obj scoped) db) refl
    where
      go :
          (w : Result t.Connection)
          → t.insert (e.set_scoped obj scoped) db ≡ w
          → known e l t tl query (inserted e t (e.set_scoped obj scoped) db w).1
            ≡ known e l t tl query db
      go (err x) wrote = refl
      go (ok db') wrote =
          let (i, longer) = tl.insert_rows (e.set_scoped obj scoped) db wrote in
          let row = e.stored i (e.set_scoped obj scoped) in
          let same : e.row_value row ≡ e.value obj =
            l.value-stored i (e.set_scoped obj scoped) ∙ l.value-set_scoped obj scoped in
          let apart : text_eq (e.row_value row) query ≡ false =
            ground (arith, same, text_eq_iff (e.row_value row) query) in
          ap (first_by_value e query) longer ∙ first-concat_other e l query (tl.rows db) row apart

  -- If the rows of different values have different ids, an insertion leaves the row of every other
  -- value as it was, whatever it returns.
  pub insert_struct-others :
      (obj : e.New) (scoped : Bool) (db : t.Connection) (query : Text)
      → IsKeyed db
      → query ≢ e.value obj
      → known e l t tl query (insert_struct e t obj scoped db).1 ≡ known e l t tl query db
  unfolding insert_struct
  insert_struct-others obj scoped db query keyed ne = go (t.get_opt (e.value obj) db) refl
    where
      go :
          (q : Result (Option e.Row))
          → t.get_opt (e.value obj) db ≡ q
          → known e l t tl query (insert_found e t obj scoped db q).1 ≡ known e l t tl query db
      go (err x) read = refl
      go (ok (some existing)) read =
          upsert_known-others obj existing db query keyed ne
            (sym (tl.get_opt_rows (e.value obj) db read))
      go (ok none) read = insert_unknown-others obj scoped db query ne
