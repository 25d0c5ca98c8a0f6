-- ===== src/Cmd/Delete.antt =====
-- What the command delete leaves, and what is found again after it.
use sn0int.Prelude.{
  ℕ, Bool, not, List, filter, length, Option, some, Text, ok, ◌≡◌, sym, ap, ◌∙◌, All,
}
use sn0int.Models.Ops.{Store, StoreLaws, delete}
use sn0int.Models.Ops.Tables.{model_of}
use sn0int.Models.Ops.Delete.{IsSelected, delete-insert_struct}
use sn0int.Crates.Table.{TableLaws, first_by_value}
use sn0int.Db.Filter.{Filter, parse}
use sn0int.Db.Insert.{DbChange, insert, insert_struct}
use sn0int.Db.Kinds.{Kind, entity_of, entity_of-EntityLaws, put_same}
use sn0int.Db.Generic.{Tables, Content}
use sn0int.Cmd.{told, deleted_rows, Operation, parsed_in, parse_in, run_delete}
use sn0int.Cmd.Noscope.{target_of, told-ok, on_target_of}

module _ (lower : Text → Text) (t : Tables)
    (stores : (k : Kind) → Store (entity_of k) (t.entities k))
    (laws : (k : Kind) → TableLaws (entity_of k) (t.entities k))
    (store_laws : (k : Kind)
      → StoreLaws (entity_of k) (model_of k) (t.entities k) (laws k) (stores k)) where
  -- After the command `delete` with a valid filter has returned with success, the line that it
  -- prints has the number of rows that its filter selects, and the rows that are left in the table
  -- are exactly the others, in their order. If the filter selected all rows of a value, an
  -- insertion of that value that then returns without an error reports an insertion, and the row
  -- that is found for the value has the flag of the rules.
  pub run_delete-insert_struct :
      (k : Kind) (args : List Text) (f : Filter) (db db' : Content t) (line : Text)
      (obj : (entity_of k).New) (scoped : Bool) (table : (t.entities k).Connection)
      {o : Option (DbChange (entity_of k) × ℕ)}
      → parse lower args ≡ ok f
      → run_delete lower t stores (target_of k args) db ≡ (ok line, db')
      → All
          (IsSelected (entity_of k) ((store_laws k).holds f.query) ((entity_of k).value obj))
          ((laws k).rows (db.entities k))
      → insert_struct (entity_of k) (t.entities k) obj scoped (db'.entities k) ≡ (ok o, table)
      → (line
          ≡ deleted_rows
              (length (filter ((store_laws k).holds f.query) ((laws k).rows (db.entities k)))))
        × ((laws k).rows (db'.entities k)
            ≡ filter
                (λ row. not ((store_laws k).holds f.query row))
                ((laws k).rows (db.entities k)))
        × ((id : ℕ) × (o ≡ some (insert, id)))
        × ((row : (entity_of k).Row) × (first_by_value
                (entity_of k)
                ((entity_of k).value obj)
                ((laws k).rows table)
              ≡ some row)
            × ((entity_of k).scoped row ≡ scoped))
  unfolding run_delete parse_in
  run_delete-insert_struct k args f db db' line obj scoped table valid done selected added =
      let op : Operation lower t stores =
        λ k f table. delete (entity_of k) (model_of k) (t.entities k) (stores k) f table in
      let run : told deleted_rows (parsed_in lower t stores op k (ok f) db) ≡ (ok line, db') =
        ap (told deleted_rows) (
          ap (λ r. parsed_in lower t stores op k r db) (sym valid)
          ∙ sym (on_target_of lower t stores op k args db))
        ∙ done in
      let (rows, counted, printed, final) =
        told-ok deleted_rows (parsed_in lower t stores op k (ok f) db) run in
      let left = (op k f (db.entities k)).1 in
      let same : left ≡ db'.entities k =
        sym (put_same k left db.entities) ∙ ap (λ (d : Content t). d.entities k) final in
      let (count, kept, new, found) =
        delete-insert_struct (entity_of k) (entity_of-EntityLaws k) (model_of k) (t.entities k)
          (laws k) (stores k) (store_laws k) f obj scoped (db.entities k) left table rows
          (ap (λ r. (r, left)) counted) selected
          (ap (insert_struct (entity_of k) (t.entities k) obj scoped) same ∙ added) in
      (sym printed ∙ ap deleted_rows count, ap (laws k).rows (sym same) ∙ kept, new, found)
