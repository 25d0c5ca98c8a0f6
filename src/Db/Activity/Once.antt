-- ===== src/Db/Activity/Once.antt =====
-- A unique tag is logged at most once.
use sn0int.Prelude.{
  ℕ, ◌+◌, ◌≤◌, Bool, false, List, [], ◌∷◌, ◌++◌, Option, none, some, Text, text_eq, text_eq_iff,
  Result, ok, err, if◌then◌else◌, ◌≡◌, refl, sym, ap, arith, Bool-cases, inl, inr,
}
use sn0int.Models.Activity.{Activity, NewActivity, Activities, uniq}
use sn0int.Db.Activity.{logged, unless_known, insert_tagged, insert_activity}

abbrev pub tagged : Text → Option Text → Bool
tagged tag none = false
tagged tag (some t) = text_eq t tag

-- `filter(uniq.eq(..)).first()`, on a list of rows.
unfoldable pub first_tagged : Text → List Activity → Option Activity
first_tagged tag [] = none
first_tagged tag (row ∷ rows) =
    let later = first_tagged tag rows in if tagged tag row.uniq then some row else later

-- The number of rows with a tag.
unfoldable pub tags : Text → List Activity → ℕ
tags tag [] = 0
tags tag (row ∷ rows) = (if tagged tag row.uniq then 1 else 0) + tags tag rows

abbrev pub stored : ℕ → NewActivity → Activity
stored i obj = record {
  id = i;
  topic = obj.topic;
  time = obj.time;
  uniq = obj.uniq;
  latitude = obj.latitude;
  longitude = obj.longitude;
  radius = obj.radius;
  content = obj.content;
}

pub record ActivitiesLaws (a : Activities) : Type 0 where
  pub rows : a.Connection → List Activity
  pub uniq_rows :
      (tag : Text) (db : a.Connection) {found : Option Activity}
      → a.first_uniq tag db ≡ ok found
      → found ≡ first_tagged tag (rows db)
  pub insert_rows :
      (obj : NewActivity) (db : a.Connection) {db' : a.Connection}
      → a.insert obj db ≡ ok db'
      → (i : ℕ) × (rows db' ≡ rows db ++ stored i obj ∷ [])

tags-append :
    (tag : Text) (rows : List Activity) (row : Activity)
    → tags tag (rows ++ row ∷ []) ≡ tags tag rows + (if tagged tag row.uniq then 1 else 0)
unfolding tags
tags-append tag [] row = ground arith
tags-append tag (x ∷ rows) row = ground (arith, tags-append tag rows row)

tags-none : (tag : Text) (rows : List Activity) → first_tagged tag rows ≡ none → tags tag rows ≡ 0
unfolding tags first_tagged
tags-none tag [] e = refl
tags-none tag (x ∷ rows) e = elim (Bool-cases (tagged tag x.uniq)) [
  | inl hit ↦ absurd (cc (rw hit at e))
  | inr miss ↦ rw miss (omega (arith, tags-none tag rows (rw miss at e)))
]

module _ (a : Activities) (laws : ActivitiesLaws a) where
  -- No tag stands in more than one row.
  abbrev pub IsOnce : a.Connection → Type 0
  IsOnce db = (tag : Text) → tags tag (laws.rows db) ≤ 1

  -- If no unique tag stands in more than one row of the log, this also holds after an insertion,
  -- whatever it returns.
  pub insert_activity-IsOnce :
      (obj : NewActivity) (db : a.Connection) → IsOnce db → IsOnce (insert_activity a obj db).1
  unfolding insert_activity uniq
  insert_activity-IsOnce obj db once = tagged_case obj.uniq refl
    where
      added :
          (tag : Text) (db' : a.Connection)
          → tags tag (laws.rows db) + (if tagged tag obj.uniq then 1 else 0) ≤ 1
          → a.insert obj db ≡ ok db'
          → tags tag (laws.rows db') ≤ 1
      added tag db' room wrote =
          let (i, appended) = laws.insert_rows obj db wrote in
          rw appended (rw (tags-append tag (laws.rows db) (stored i obj)) room)

      log_case :
          (w : Result a.Connection)
          → a.insert obj db ≡ w
          → ((tag : Text) → tags tag (laws.rows db) + (if tagged tag obj.uniq then 1 else 0) ≤ 1)
          → IsOnce (logged a w db).1
      log_case (err x) wrote room = once
      log_case (ok db') wrote room = λ tag. added tag db' (room tag) wrote

      room :
          (t : Text)
          → obj.uniq ≡ some t
          → tags t (laws.rows db) ≡ 0
          → (tag : Text) → tags tag (laws.rows db) + (if tagged tag obj.uniq then 1 else 0) ≤ 1
      room t is empty tag = elim (Bool-cases (text_eq t tag)) [
        | inl same ↦
            rw is (
              rw same (omega (arith, ap (λ k. tags k (laws.rows db)) ((text_eq_iff t tag).0 same))))
        | inr other ↦ rw is (rw other (omega (arith, once tag)))
      ]

      known_case :
          (t : Text) (r : Result (Option Activity))
          → obj.uniq ≡ some t
          → a.first_uniq t db ≡ r
          → IsOnce (unless_known a obj db r).1
      known_case t (err x) is asked = once
      known_case t (ok (some _)) is asked = once
      known_case t (ok none) is asked =
          log_case (a.insert obj db) refl
            (room t is (tags-none t (laws.rows db) (sym (laws.uniq_rows t db asked))))

      tagged_case : (u : Option Text) → obj.uniq ≡ u → IsOnce (insert_tagged a obj db u).1
      tagged_case none is = log_case (a.insert obj db) refl (λ tag. rw is (omega (arith, once tag)))
      tagged_case (some t) is = known_case t (a.first_uniq t db) is refl
