-- ===== src/Db/Ttl/Tests.antt =====
-- Examples of entities that expire, in a database in memory.
use sn0int.Prelude.{
  ℕ, ◌+◌, ◌==◌, ==_iff, Bool, true, false, not, ◌&&◌, List, [], ◌∷◌, ◌++◌, map, filter, length,
  none, some, Text, codes, text_eq, text_eq_refl, ok, ok-injective, ltb, if◌then◌else◌, ◌≡◌, refl,
  ◌∙◌, ap, sym, arith,
}
use sn0int.Prelude.Int.{ℤ, pos, negsuc}
use sn0int.Models.{Insert}
use sn0int.Db.Names.{table, table_of, table_as_str, first_named, parse_table}
use sn0int.Db.Ttl.{
  Ttl, TtlDb, TtlDbLaws, first_ttl, updated, find, bump, delete_of_table, delete, expired, reap,
  reap_expired,
}
use sn0int.Db.Ttl.Reap.{late, Reaps, reap_expired-Reaps}
use sn0int.Db.Ttl.Bump.{longer, ttl_of, bump-longer}

record Memory : Type 0 where
  ttls : List Ttl
  stored : Text → ℕ → Bool

-- The entity of a table and an id.
abbrev is_entity : Text → ℕ → Text → ℕ → Bool
is_entity t id t' id' = text_eq t t' && id == id'

abbrev forget : Text → ℕ → (Text → ℕ → Bool) → Text → ℕ → Bool
forget t id stored t' id' = if is_entity t id t' id' then false else stored t' id'

abbrev seconds : ℕ → ℤ → ℕ
seconds now (pos n) = now + n
seconds now (negsuc n) = now

abbrev memory : TtlDb
memory = record {
  Connection = Memory;
  find_ttl = λ family key db. ok (first_ttl family key db.ttls);
  expired_ttls = λ now db. ok (filter (λ row. ltb row.expire now) db.ttls);
  insert_ttl = λ obj db. ok (record db {
    ttls =
        db.ttls
        ++ record {
          id = length db.ttls;
          family = obj.family;
          key = obj.key;
          value = obj.value;
          expire = obj.expire;
        }
          ∷ [];
  });
  update_ttl = λ u db. ok (record db { ttls = map (updated u) db.ttls });
  delete_ttl = λ id db. ok (record db { ttls = filter (λ row. not (row.id == id)) db.ttls });
  delete_where = λ t id db. ok (record db { stored = forget t id db.stored });
  add_seconds = seconds;
  notify = λ subject topic db. db;
}

forget_same : (t : Text) (id : ℕ) (stored : Text → ℕ → Bool) → forget t id stored t id ≡ false
forget_same t id stored = rw (text_eq_refl t, (==_iff id id).1 refl)

forget_other :
    (t t' : Text) (id id' : ℕ) (stored : Text → ℕ → Bool)
    → stored t' id' ≡ false
    → forget t id stored t' id' ≡ false
forget_other t t' id id' stored none_there = ground arith

memory-TtlDbLaws : TtlDbLaws memory
memory-TtlDbLaws = record {
  rows = λ db. db.ttls;
  find_rows = λ family key db h. sym (ok-injective h);
  expired_rows = λ now db h. sym (ok-injective h);
  update_rows = λ u db h. ap (λ (m : Memory). m.ttls) (sym (ok-injective h));
  delete_rows = λ id db h. ap (λ (m : Memory). m.ttls) (sym (ok-injective h));
  has = λ t id db. db.stored t id;
  has-delete_where = λ t id db h. rw (← ok-injective h) (forget_same t id db.stored);
  has-delete_where_other = λ t t' id id' db h none_there.
      rw (← ok-injective h) (forget_other t t' id id' db.stored none_there);
  rows-delete_where = λ t id db h. ap (λ (m : Memory). m.ttls) (sym (ok-injective h));
  has-delete_ttl = λ t id id' db h none_there.
      ap (λ (m : Memory). m.stored t id') (sym (ok-injective h)) ∙ none_there;
}

abbrev old : Ttl
old = record { id = 0; family = codes "domains"; key = 4; value = codes "a.com"; expire = 10 }

abbrev young : Ttl
young = record { id = 1; family = codes "urls"; key = 4; value = codes "http://a.com"; expire = 90 }

abbrev all : Text → ℕ → Bool
all t id = true

abbrev before : Memory
before = record { ttls = old ∷ young ∷ []; stored = all }

abbrev after : Memory
after = record { ttls = young ∷ []; stored = forget (codes "domains") 4 all }

reaped : reap_expired memory (λ s. s) 50 before ≡ ok after
unfolding reap_expired expired reap delete delete_of_table parse_table first_named table_as_str
    text_eq
reaped = refl

reap_expired-Reaps_example :
    Reaps memory memory-TtlDbLaws (λ s. s) (late 50 (memory-TtlDbLaws.rows before)) before after
reap_expired-Reaps_example =
    reap_expired-Reaps memory memory-TtlDbLaws (λ s. s) 50 before after reaped

abbrev a_com : Insert
a_com = Insert.domain (record { value = codes "a.com"; unscoped = false })

abbrev bumped : Memory
bumped = record { ttls = record old { expire = 30 } ∷ young ∷ []; stored = all }

bump_old : bump memory a_com 4 (pos 25) 5 before ≡ ok bumped
unfolding bump find table table_of table_as_str first_ttl text_eq
bump_old = refl

bump-longer_example :
    (ttl_of memory memory-TtlDbLaws a_com 4 before ≡ none → bumped ≡ before)
    × ((o : Ttl)
        → ttl_of memory memory-TtlDbLaws a_com 4 before ≡ some o
        → (row : Ttl) × (ttl_of memory memory-TtlDbLaws a_com 4 bumped ≡ some row)
          × (row.id ≡ o.id)
          × (row.expire ≡ longer o.expire (memory.add_seconds 5 (pos 25))))
bump-longer_example = bump-longer memory memory-TtlDbLaws a_com 4 (pos 25) 5 before bumped bump_old
