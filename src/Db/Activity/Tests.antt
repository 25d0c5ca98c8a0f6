-- ===== src/Db/Activity/Tests.antt =====
-- Examples of logged activity, in a list of rows.
use sn0int.Prelude.{List, [], ◌∷◌, ◌++◌, length, none, some, codes, ok, ok-injective, sym, arith}
use sn0int.Models.Activity.{Activity, NewActivity, Activities}
use sn0int.Db.Activity.{insert_activity}
use sn0int.Db.Activity.Once.{
  ActivitiesLaws, first_tagged, tags, stored, IsOnce, insert_activity-IsOnce,
}

abbrev log : Activities
log = record {
  Connection = List Activity;
  load = λ conditions order rows. ok rows;
  first = λ conditions order rows. ok none;
  first_uniq = λ tag rows. ok (first_tagged tag rows);
  insert = λ obj rows. ok (rows ++ stored (length rows) obj ∷ []);
}

log-ActivitiesLaws : ActivitiesLaws log
log-ActivitiesLaws = record {
  rows = λ db. db;
  uniq_rows = λ tag db h. sym (ok-injective h);
  insert_rows = λ obj db h. (length db, sym (ok-injective h));
}

abbrev seen : NewActivity
seen = record {
  topic = codes "mail";
  time = 5;
  uniq = some (codes "a");
  latitude = none;
  longitude = none;
  radius = none;
  content = [];
}

nothing-IsOnce : IsOnce log log-ActivitiesLaws []
unfolding tags log-ActivitiesLaws
nothing-IsOnce tag = omega arith

insert_activity-IsOnce_example : IsOnce log log-ActivitiesLaws (insert_activity log seen []).1
insert_activity-IsOnce_example =
    insert_activity-IsOnce log log-ActivitiesLaws seen [] nothing-IsOnce
