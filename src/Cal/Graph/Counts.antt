-- ===== src/Cal/Graph/Counts.antt =====
-- `setup_graph_map` counts the events of each key, if the events come in the order of their keys.
use sn0int.Prelude.{
  ℕ, ◌+◌, ◌≤◌, ◌<◌, ◌==◌, Bool, true, false, List, [], ◌∷◌, Option, none, some, All, All-map,
  if◌then◌else◌, ◌≡◌, inl, inr, refl, ap, ◌∙◌, arith, Bool-cases,
}
use sn0int.Cal.Graph.{Graph, insert, get, visit, visit_all, finish_at, count, raised}

abbrev pub counted : ℕ → Option ℕ
counted n = if n == 0 then none else some n

module _ {K : Type 0} (rank : K → ℕ) where
  abbrev pub IsSorted : List K → Type 0
  IsSorted [] = Unit
  IsSorted (key ∷ keys) = All (λ k. rank key ≤ rank k) keys × IsSorted keys

module _ {K : Type 0} where
  abbrev pub running : K → ℕ → ℕ → List (K × ℕ) → Graph K
  running c n max entries = record { cur = some c; ctr = n; max = max; entries = entries }

  abbrev pub after : (K → K → Bool) → List K → Graph K → List (K × ℕ) × ℕ
  after eq keys g = let g' = visit_all eq keys g in finish_at eq g'.cur g'

module _ {K : Type 0} (eq : K → K → Bool) (rank : K → ℕ)
    (eq_rank : (a b : K) → eq a b ≡ (rank a == rank b)) where
  get-insert :
      (key k : K) (n : ℕ) (entries : List (K × ℕ))
      → get eq k (insert eq key n entries) ≡ (if eq key k then some n else get eq k entries)
  unfolding get insert
  get-insert key k n [] = refl
  get-insert key k n (entry ∷ entries) =
      ground
        (arith, get-insert key k n entries, eq_rank entry.0 key, eq_rank entry.0 k, eq_rank key k)

  count-below : (k : K) (keys : List K) → All (λ x. rank k < rank x) keys → count eq k keys ≡ 0
  unfolding count
  count-below k [] h = refl
  count-below k (x ∷ keys) (h, hs) = ground (arith, count-below k keys hs, eq_rank x k)

  pub visit_same :
      (x c : K) (n max : ℕ) (entries : List (K × ℕ))
      → eq x c ≡ true
      → visit eq x (running c n max entries) ≡ running c (n + 1) max entries
  unfolding visit
  visit_same x c n max entries e = rw e

  pub visit_other :
      (x c : K) (n max : ℕ) (entries : List (K × ℕ))
      → eq x c ≡ false
      → visit eq x (running c n max entries) ≡ running x 1 (raised n max) (insert eq c n entries)
  unfolding visit
  visit_other x c n max entries e = rw e

  -- A key whose run is over does not come again.
  pub count_past :
      (k c x : K) (keys : List K)
      → eq x c ≡ false
      → rank c ≤ rank x
      → All (λ y. rank x ≤ rank y) keys
      → eq c k ≡ true
      → count eq k keys ≡ 0
  count_past k c x keys other le sorted same = count-below k keys (
      All-map (λ y. rank x ≤ rank y) (λ y. rank k < rank y)
        (λ y h. ground (arith, eq_rank x c, eq_rank c k)) keys sorted)

  -- What a key has after eq a run of other keys, and after eq the keys that follow.
  next_run :
      (k c x : K) (n : ℕ) (entries : List (K × ℕ)) (keys : List K)
      → eq x c ≡ false
      → rank c ≤ rank x
      → All (λ y. rank x ≤ rank y) keys
      → (if eq x k
          then some (1 + count eq k keys)
          else if count eq k keys == 0
          then get eq k (insert eq c n entries)
          else some (count eq k keys))
        ≡ (if eq c k
            then some (n + count eq k (x ∷ keys))
            else if count eq k (x ∷ keys) == 0
            then get eq k entries
            else some (count eq k (x ∷ keys)))
  unfolding count
  next_run k c x n entries keys other le sorted = elim (Bool-cases (eq c k)) [
    | inl same ↦
        let zero_left : count eq k keys ≡ 0 = count_past k c x keys other le sorted same in
        ground (arith, get-insert c k n entries, eq_rank x k, eq_rank c k, eq_rank x c)
    | inr differs ↦ ground (arith, get-insert c k n entries, eq_rank x k, eq_rank c k, eq_rank x c)
  ]

  pub get-after :
      (k c : K) (n max : ℕ) (entries : List (K × ℕ)) (keys : List K)
      → 0 < n
      → IsSorted rank (c ∷ keys)
      → get eq k (after eq keys (running c n max entries)).0 ≡ (
          if eq c k
          then some (n + count eq k keys)
          else if count eq k keys == 0
          then get eq k entries
          else some (count eq k keys))
  unfolding visit visit_all count
  get-after k c n max entries [] pos h = ground (arith, get-insert c k n entries)
  get-after k c n max entries (x ∷ keys) pos ((cx, ck), (xk, ks)) = elim (Bool-cases (eq x c)) [
    | inl same ↦
        ap (λ g. get eq k (after eq keys g).0) (visit_same x c n max entries same)
        ∙ get-after k c (n + 1) max entries keys (omega arith) (ck, ks)
        ∙ ground (arith, eq_rank x c, eq_rank x k, eq_rank c k)
    | inr other ↦
        ap (λ g. get eq k (after eq keys g).0) (visit_other x c n max entries other)
        ∙ get-after k x 1 (raised n max) (insert eq c n entries) keys (omega arith) (xk, ks)
        ∙ next_run k c x n entries keys other cx xk
  ]
