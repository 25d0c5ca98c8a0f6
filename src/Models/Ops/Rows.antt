-- ===== src/Models/Ops/Rows.antt =====
-- The operations on a table in memory, with a condition in SQL that is given.
use sn0int.Prelude.{Bool, not, map, filter, length, Text, ok, ok-injective, if◌then◌else◌, ap, sym}
use sn0int.Models.Entity.{Entity}
use sn0int.Models.Ops.{Model, meets, first_of, Store, StoreLaws}
use sn0int.Crates.Table.Rows.{table, table-TableLaws}

module _ (e : Entity) (m : Model e) (holds : Text → e.Row → Bool) where
  abbrev pub store : Store e (table e)
  store = record {
    load = λ q rows. ok (filter (meets e m holds q) rows);
    first = λ q rows. ok (first_of (meets e m holds q) rows);
    delete = λ q rows. ok (
      length (filter (meets e m holds q) rows),
      filter (λ row. not (meets e m holds q row)) rows,
    );
    set_unscoped = λ q unscoped rows. ok (
      length (filter (meets e m holds q) rows),
      map (λ row. if meets e m holds q row then m.with_unscoped unscoped row else row) rows,
    );
  }

  abbrev pub store-StoreLaws : StoreLaws e m (table e) (table-TableLaws e) store
  store-StoreLaws = record {
    holds = holds;
    load_rows = λ q db h. sym (ok-injective h);
    first_rows = λ q db h. sym (ok-injective h);
    delete_rows =
        λ q db h. (ap (λ p. p.0) (sym (ok-injective h)), ap (λ p. p.1) (sym (ok-injective h)));
    unscoped_rows = λ q unscoped db h.
        (ap (λ p. p.0) (sym (ok-injective h)), ap (λ p. p.1) (sym (ok-injective h)));
  }
