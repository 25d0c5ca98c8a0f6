-- ===== src/Models/Links.antt =====
-- src/models: the tables that link two entities, as far as the insertion of a link uses them.
use sn0int.Prelude.{ℕ, Bool, true, ◌≡◌}

-- A table of links: the rows, the structs to insert, and what a link is found by.
pub record Link : Type 1 where
  pub Row : Type 0
  pub id : Row → ℕ
  pub New : Type 0
  pub Key : Type 0
  pub key : New → Key
  pub selects : Key → Row → Bool
  -- the row of an insertion
  pub stored : ℕ → New → Row

-- What the insertion relies on: a link is found by its own key.
pub record LinkLaws (l : Link) : Type 0 where
  pub selects-stored : (i : ℕ) (obj : l.New) → l.selects (l.key obj) (l.stored i obj) ≡ true
