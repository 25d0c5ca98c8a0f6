-- ===== src/Db/Insert/Again.antt =====
-- The row that an insertion leaves for its value, and the same insertion again.
use sn0int.Prelude.{
  ℕ, ◌==◌, Bool, true, false, [], ◌∷◌, ◌++◌, Option, none, some, Text, Result, ok, err, ◌≡◌, refl,
  sym, ap, ◌∙◌, ◌⊎◌, Bool-cases, inl, inr, ==_iff,
}
use sn0int.Models.Entity.{Entity, EntityLaws}
use sn0int.Crates.Table.{Table, TableLaws, first_by_value}
use sn0int.Db.Insert.{
  DbChange, apply, inserted, upsert_known, insert_unknown, insert_found, insert_struct,
}
use sn0int.Db.Insert.Frame.{first-concat_same, first-map, updated_first}

module _ (e : Entity) (l : EntityLaws e) (t : Table e) (tl : TableLaws e t) where
  abbrev pub known : Text → t.Connection → Option e.Row
  known query db = first_by_value e query (tl.rows db)

  -- Nothing is left to write for `obj` into the row: it is out of scope, or it has what is given.
  abbrev pub IsDone : e.New → e.Row → Type 0
  IsDone obj row = (e.scoped row ≡ false) ⊎ (e.is_dirty (e.upsert obj row) ≡ false)

  -- A known entity keeps its flag, and its whole row where it is out of scope; where it is in scope its
  -- row is what the update makes of it. A new one is the row of the insertion, with the flag of the rules.
  abbrev pub Keeps : e.New → Bool → Option e.Row → e.Row → Type 0
  Keeps obj scoped none row =
      (e.scoped row ≡ scoped) × ((i : ℕ) × (row ≡ e.stored i (e.set_scoped obj scoped)))
  Keeps obj scoped (some old) row =
      (e.scoped row ≡ e.scoped old)
      × (e.scoped old ≡ false → row ≡ old)
      × (e.scoped old ≡ true → row ≡ e.applied (e.upsert obj old) old)

  pub record Outcome (obj : e.New) (scoped : Bool) (db db' : t.Connection) : Type 0 where
    pub row : e.Row
    pub found : known (e.value obj) db' ≡ some row
    pub done : IsDone obj row
    pub keeps : Keeps obj scoped (known (e.value obj) db) row

  -- With the row that the query found.
  upsert_known-Outcome :
      (obj : e.New) (scoped : Bool) (existing : e.Row) (db db' : t.Connection)
      {r : Option (DbChange e × ℕ)}
      → known (e.value obj) db ≡ some existing
      → upsert_known e t obj existing db ≡ (ok r, db')
      → Outcome obj scoped db db'
  unfolding upsert_known
  upsert_known-Outcome obj scoped existing db db' {r} k h = elim (Bool-cases (e.scoped existing)) [
    | inr out ↦ same (inl out) (λ within. absurd (cc)) (ap (λ p. p.1) (rw out at h))
    | inl within ↦ elim (Bool-cases (e.is_dirty (e.upsert obj existing))) [
      | inr clean ↦
          same (inr clean) (λ _. sym (l.applied-clean obj existing clean))
            (ap (λ p. p.1) (rw clean at (rw within at h)))
      | inl dirty ↦
          dirty_case within (t.update (e.upsert obj existing) db) refl
            (rw dirty at (rw within at h))
    ]
  ]
    where
      same :
          IsDone obj existing
          → (e.scoped existing ≡ true → existing ≡ e.applied (e.upsert obj existing) existing)
          → db ≡ db'
          → Outcome obj scoped db db'
      same d current unchanged = record {
        row = existing;
        found = rw (← unchanged) k;
        done = d;
        keeps = rw k (refl, (λ _. refl), current);
      }

      dirty_case :
          e.scoped existing ≡ true
          → (w : Result t.Connection) → t.update (e.upsert obj existing) db ≡ w
          → apply e t db existing (e.upsert obj existing) w ≡ (ok r, db')
          → Outcome obj scoped db db'
      dirty_case within (err x) wrote e' = absurd (cc (ap (λ p. p.0) e'))
      dirty_case within (ok db₁) wrote e' =
          let u = e.upsert obj existing in
          let final : db₁ ≡ db' = ap (λ p. p.1) e' in
          let hits : (e.id existing == e.update_id u) ≡ true =
            (==_iff (e.id existing) (e.update_id u)).1 (sym (l.id-upsert obj existing)) in
          record {
            row = e.applied u existing;
            found =
                ap (known (e.value obj)) (sym final)
                ∙ ap (first_by_value e (e.value obj)) (tl.update_rows u db wrote)
                ∙ first-map e l (e.value obj) u (tl.rows db)
                ∙ ap (updated_first e l u) k
                ∙ rw hits;
            done = inr (l.clean-applied obj existing);
            keeps = rw k (l.scoped-applied u existing, (λ out. absurd (cc)), λ _. refl);
          }

  insert_unknown-Outcome :
      (obj : e.New) (scoped : Bool) (db db' : t.Connection) {r : Option (DbChange e × ℕ)}
      → known (e.value obj) db ≡ none
      → insert_unknown e t obj scoped db ≡ (ok r, db')
      → Outcome obj scoped db db'
  unfolding insert_unknown
  insert_unknown-Outcome obj scoped db db' {r} k h =
      go (t.insert (e.set_scoped obj scoped) db) refl h
    where
      go :
          (w : Result t.Connection)
          → t.insert (e.set_scoped obj scoped) db ≡ w
          → inserted e t (e.set_scoped obj scoped) db w ≡ (ok r, db')
          → Outcome obj scoped db db'
      go (err x) wrote e' = absurd (cc (ap (λ p. p.0) e'))
      go (ok db₁) wrote e' =
          let (i, longer) = tl.insert_rows (e.set_scoped obj scoped) db wrote in
          let row = e.stored i (e.set_scoped obj scoped) in
          let same : e.row_value row ≡ e.value obj =
            l.value-stored i (e.set_scoped obj scoped) ∙ l.value-set_scoped obj scoped in
          let final : db₁ ≡ db' = ap (λ p. p.1) e' in
          let missing : first_by_value e (e.row_value row) (tl.rows db) ≡ none =
            ap (λ v. first_by_value e v (tl.rows db)) same ∙ k in
          record {
            row = row;
            found =
                ap (known (e.value obj)) (sym final)
                ∙ ap (first_by_value e (e.value obj)) longer
                ∙ ap (λ v. first_by_value e v (tl.rows db ++ row ∷ [])) (sym same)
                ∙ first-concat_same e l (tl.rows db) row missing;
            done = inr (l.clean-stored obj i scoped);
            keeps = rw k (l.scoped-stored i obj scoped, (i, refl));
          }

  -- After an insertion that returned without an error the table has a row for the value. That row
  -- is out of scope, or nothing that was given is left to write into it; if the value was known,
  -- the row keeps its scope, and does not change at all if it is out of scope; if it is new, it is
  -- in scope exactly if the rules said so.
  pub insert_struct-Outcome :
      (obj : e.New) (scoped : Bool) (db db' : t.Connection) {r : Option (DbChange e × ℕ)}
      → insert_struct e t obj scoped db ≡ (ok r, db')
      → Outcome obj scoped db db'
  unfolding insert_struct
  insert_struct-Outcome obj scoped db db' {r} h = go (t.get_opt (e.value obj) db) refl h
    where
      go :
          (q : Result (Option e.Row))
          → t.get_opt (e.value obj) db ≡ q
          → insert_found e t obj scoped db q ≡ (ok r, db')
          → Outcome obj scoped db db'
      go (err x) read e' = absurd (cc (ap (λ p. p.0) e'))
      go (ok (some existing)) read e' =
          upsert_known-Outcome obj scoped existing db db'
            (sym (tl.get_opt_rows (e.value obj) db read)) e'
      go (ok none) read e' =
          insert_unknown-Outcome obj scoped db db' (sym (tl.get_opt_rows (e.value obj) db read)) e'

  -- Where nothing is left to write, an insertion leaves the database as it is.
  insert_struct-done :
      (obj : e.New) (scoped : Bool) (db : t.Connection) (row : e.Row)
      → known (e.value obj) db ≡ some row
      → IsDone obj row
      → (insert_struct e t obj scoped db).1 ≡ db
  unfolding insert_struct upsert_known
  insert_struct-done obj scoped db row k d = go (t.get_opt (e.value obj) db) refl
    where
      idle : IsDone obj row → (upsert_known e t obj row db).1 ≡ db
      idle (inl out) = rw out
      idle (inr clean) = elim (Bool-cases (e.scoped row)) [
        | inl within ↦ rw within (rw clean)
        | inr out ↦ rw out
      ]

      go :
          (q : Result (Option e.Row))
          → t.get_opt (e.value obj) db ≡ q
          → (insert_found e t obj scoped db q).1 ≡ db
      go (err x) read = refl
      go (ok none) read = absurd (cc (tl.get_opt_rows (e.value obj) db read ∙ k))
      go (ok (some existing)) read =
          let same : existing ≡ row =
            ap (λ o. elim o [ none ↦ row | some x ↦ x ])
              (tl.get_opt_rows (e.value obj) db read ∙ k) in
          rw same (idle d)

  -- After an insertion that returned without an error, the same insertion again leaves the
  -- database as it is, whatever the rules say then.
  pub insert_struct-again :
      (obj : e.New) (scoped again : Bool) (db db' : t.Connection) {r : Option (DbChange e × ℕ)}
      → insert_struct e t obj scoped db ≡ (ok r, db')
      → (insert_struct e t obj again db').1 ≡ db'
  insert_struct-again obj scoped again db db' h =
      let o = insert_struct-Outcome obj scoped db db' h in
      insert_struct-done obj again db' o.row o.found o.done
