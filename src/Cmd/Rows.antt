-- ===== src/Cmd/Rows.antt =====
-- The tables in memory, with two kinds of conditions in SQL: what is in scope, and a value that is given.
use sn0int.Prelude.{Bool, ◌++◌, Text, codes, text_eq, if◌then◌else◌}
use sn0int.Models.Ops.{Store, StoreLaws}
use sn0int.Models.Ops.Tables.{model_of}
use sn0int.Models.Ops.Rows.{store, store-StoreLaws}
use sn0int.Db.Kinds.{Kind, entity_of}
use sn0int.Db.Generic.Rows.{tables, tables_laws}

abbrev pub holds : (k : Kind) → Text → (entity_of k).Row → Bool
holds k condition row =
    if text_eq condition (codes "unscoped=0")
    then (entity_of k).scoped row
    else text_eq condition (codes " value = '" ++ (entity_of k).row_value row ++ codes "'")

abbrev pub stores : (k : Kind) → Store (entity_of k) (tables.entities k)
stores k = store (entity_of k) (model_of k) (holds k)

abbrev pub stores_laws :
    (k : Kind) → StoreLaws (entity_of k) (model_of k) (tables.entities k) (tables_laws k) (stores k)
stores_laws k = store-StoreLaws (entity_of k) (model_of k) (holds k)
