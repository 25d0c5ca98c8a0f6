-- ===== src/Cal/Graph.antt =====
-- src/cal: the loop of `setup_graph_map`, which date.rs and time.rs have alike: the number of
-- events for each date, or for each slice, and the greatest of these numbers. An event is given
-- by its key.
pub mod Counts
pub mod Greatest
use sn0int.Prelude.{
  ℕ, suc, ◌+◌, ◌≤◌, ◌<◌, ◌==◌, Bool, true, false, List, [], ◌∷◌, Option, none, some, ltb, All,
  if◌then◌else◌, ◌≡◌, ◌≢◌, ◌⊎◌, inl, inr, refl, arith, Bool-cases,
}

-- The variables of the loop.
pub record Graph (K : Type 0) : Type 0 where
  pub cur : Option K
  pub ctr : ℕ
  pub max : ℕ
  pub entries : List (K × ℕ)

abbrev pub raised : ℕ → ℕ → ℕ
raised ctr max = if ltb max ctr then ctr else max

module _ {K : Type 0} (eq : K → K → Bool) where
  -- `HashMap::insert` and `HashMap::get`
  unfoldable pub insert : K → ℕ → List (K × ℕ) → List (K × ℕ)
  insert key n [] = (key, n) ∷ []
  insert key n (entry ∷ entries) =
      let later = insert key n entries in
      if eq entry.0 key then (key, n) ∷ entries else entry ∷ later

  unfoldable pub get : K → List (K × ℕ) → Option ℕ
  get key [] = none
  get key (entry ∷ entries) =
      let later = get key entries in if eq entry.0 key then some entry.1 else later

  abbrev pub start : Graph K
  start = record { cur = none; ctr = 0; max = 0; entries = [] }

  -- One round of the loop.
  abbrev pub visit_at : Option K → K → Graph K → Graph K
  visit_at none key g = record g { cur = some key; ctr = 1 }
  visit_at (some cur) key g = if eq key cur then record g { ctr = g.ctr + 1 } else record {
    cur = some key;
    ctr = 1;
    max = raised g.ctr g.max;
    entries = insert cur g.ctr g.entries;
  }

  unfoldable pub visit : K → Graph K → Graph K
  visit key g = visit_at g.cur key g

  unfoldable pub visit_all : List K → Graph K → Graph K
  visit_all [] g = g
  visit_all (key ∷ keys) g = visit_all keys (visit key g)

  -- What follows the loop.
  abbrev pub finish_at : Option K → Graph K → List (K × ℕ) × ℕ
  finish_at none g = (g.entries, g.max)
  finish_at (some cur) g =
      if ltb 0 g.ctr then (insert cur g.ctr g.entries, raised g.ctr g.max) else (g.entries, g.max)

  unfoldable pub graph_map : List K → List (K × ℕ) × ℕ
  unfolding visit visit_all insert
  graph_map keys = let g = visit_all keys start in finish_at g.cur g

  -- The number of events with a key.
  unfoldable pub count : K → List K → ℕ
  count key [] = 0
  count key (x ∷ keys) = (if eq x key then 1 else 0) + count key keys
