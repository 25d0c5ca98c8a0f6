-- ===== src/Models/Activity.antt =====
-- src/models/activity.rs: the log of activity. The queries are those that diesel builds: conditions, all of
-- which a row has to meet, and an order.
use sn0int.Prelude.{
  ℕ, ◌≤◌, Bool, true, false, List, [], ◌∷◌, ◌++◌, Option, none, some, Text, text_eq, Result, ltb,
  leb, if◌then◌else◌, All,
}

pub record Activity : Type 0 where
  pub id : ℕ
  pub topic : Text
  pub time : ℕ
  pub uniq : Option Text
  pub latitude : Option ℕ
  pub longitude : Option ℕ
  pub radius : Option ℕ
  pub content : Text

pub record NewActivity : Type 0 where
  pub topic : Text
  pub time : ℕ
  pub uniq : Option Text
  pub latitude : Option ℕ
  pub longitude : Option ℕ
  pub radius : Option ℕ
  pub content : Text

pub record ActivityFilter : Type 0 where
  pub topic : Option Text
  pub since : Option ℕ
  pub until : Option ℕ
  pub location : Bool

-- The conditions of a query.
pub data Condition : Type 0 where
  topic_eq : Text → Condition
  time_le time_ge time_lt : ℕ → Condition
  latitude_not_null longitude_not_null : Condition

pub data Order : Type 0 where
  time_id_asc time_id_desc : Order

abbrev is_some_number : Option ℕ → Bool
is_some_number none = false
is_some_number (some _) = true

-- Whether a row meets a condition.
unfoldable pub meets : Condition → Activity → Bool
meets (topic_eq t) row = text_eq row.topic t
meets (time_le t) row = leb row.time t
meets (time_ge t) row = leb t row.time
meets (time_lt t) row = ltb row.time t
meets latitude_not_null row = is_some_number row.latitude
meets longitude_not_null row = is_some_number row.longitude

abbrev for_some {ℓ} : {A : Type ℓ} → Option A → (A → Condition) → List Condition
for_some none f = []
for_some (some x) f = f x ∷ []

-- `Activity::build_query_except_since`
unfoldable pub build_query_except_since : ActivityFilter → List Condition
build_query_except_since filter =
    for_some filter.topic topic_eq
    ++ for_some filter.until time_le
    ++ (if filter.location then latitude_not_null ∷ longitude_not_null ∷ [] else [])

pub record Activities : Type 1 where
  pub Connection : Type 0
  pub load : List Condition → Order → Connection → Result (List Activity)
  pub first : List Condition → Order → Connection → Result (Option Activity)
  pub first_uniq : Text → Connection → Result (Option Activity)
  pub insert : NewActivity → Connection → Result Connection

-- Rows in the order of their times.
abbrev pub InOrder : Activity → Activity → Type 0
InOrder a b = a.time ≤ b.time

abbrev pub IsOrdered : List Activity → Type 0
IsOrdered [] = Unit
IsOrdered (row ∷ rows) = All (InOrder row) rows × IsOrdered rows

module _ (a : Activities) where
  -- `Activity::query`
  unfoldable pub query : ActivityFilter → a.Connection → Result (List Activity)
  unfolding build_query_except_since
  query filter db =
      a.load (build_query_except_since filter ++ for_some filter.since time_ge) time_id_asc db

  -- `Activity::previous`
  unfoldable pub previous : Activity → ActivityFilter → a.Connection → Result (Option Activity)
  unfolding build_query_except_since
  previous activity filter db =
      a.first (build_query_except_since filter ++ time_lt activity.time ∷ []) time_id_desc db

  -- `Activity::uniq`
  unfoldable pub uniq : Text → a.Connection → Result (Option Activity)
  uniq my_uniq db = a.first_uniq my_uniq db
