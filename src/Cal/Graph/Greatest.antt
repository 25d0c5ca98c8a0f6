-- ===== src/Cal/Graph/Greatest.antt =====
-- `setup_graph_map` finds the greatest number of events that a key has, if the events come in the
-- order of their keys.
use sn0int.Prelude.{
  ℕ, ◌+◌, ◌≤◌, ◌==◌, Bool, true, false, List, [], ◌∷◌, ltb, if◌then◌else◌, ◌≡◌, ◌⊎◌, inl, inr, refl,
  ap, ◌∙◌, arith, Bool-cases,
}
use sn0int.Cal.Graph.{insert, get, visit, visit_all, graph_map, count, raised}
use sn0int.Cal.Graph.Counts.{
  counted, IsSorted, running, after, count_past, visit_same, visit_other, get-after,
}

module _ {K : Type 0} (eq : K → K → Bool) (rank : K → ℕ)
    (eq_rank : (a b : K) → eq a b ≡ (rank a == rank b)) where
  abbrev greatest : K → ℕ → ℕ → List (K × ℕ) → List K → ℕ
  greatest c n max entries keys = (after eq keys (running c n max entries)).1

  greatest_nil :
      (c : K) (n max : ℕ) (entries : List (K × ℕ)) → greatest c n max entries [] ≡ raised n max
  unfolding visit_all
  greatest_nil c n max entries = ground arith

  greatest_same :
      (x c : K) (n max : ℕ) (entries : List (K × ℕ)) (keys : List K)
      → eq x c ≡ true
      → greatest c n max entries (x ∷ keys) ≡ greatest c (n + 1) max entries keys
  unfolding visit_all
  greatest_same x c n max entries keys e =
      ap (λ g. (after eq keys g).1) (visit_same eq rank eq_rank x c n max entries e)

  greatest_other :
      (x c : K) (n max : ℕ) (entries : List (K × ℕ)) (keys : List K)
      → eq x c ≡ false
      → greatest c n max entries (x ∷ keys)
        ≡ greatest x 1 (raised n max) (insert eq c n entries) keys
  unfolding visit_all
  greatest_other x c n max entries keys e =
      ap (λ g. (after eq keys g).1) (visit_other eq rank eq_rank x c n max entries e)

  after-bound :
      (k c : K) (n max : ℕ) (entries : List (K × ℕ)) (keys : List K)
      → IsSorted rank (c ∷ keys)
      → (max ≤ greatest c n max entries keys)
        × ((if eq c k then n else 0) + count eq k keys ≤ greatest c n max entries keys)
  unfolding count
  after-bound k c n max entries [] h = rw (greatest_nil c n max entries) (ground arith)
  after-bound k c n max entries (x ∷ keys) ((cx, ck), (xk, ks)) = elim (Bool-cases (eq x c)) [
    | inl same ↦
        let (old, new) = after-bound k c (n + 1) max entries keys (ck, ks) in
        rw (greatest_same x c n max entries keys same)
          (old, ground (arith, new, eq_rank x c, eq_rank x k, eq_rank c k))
    | inr other ↦
        let (old, new) = after-bound k x 1 (raised n max) (insert eq c n entries) keys (xk, ks) in
        rw (greatest_other x c n max entries keys other) (
          ground (arith, old),
          ground (
            arith,
            old,
            new,
            eq_rank x k,
            eq_rank c k,
            eq_rank x c,
            count_past eq rank eq_rank k c x keys,
          ),
        )
  ]

  -- The greatest number is that of a key.
  after-attained :
      (c : K) (n max : ℕ) (entries : List (K × ℕ)) (keys : List K)
      → IsSorted rank (c ∷ keys)
      → (greatest c n max entries keys ≡ max)
        ⊎ ((k : K) × (greatest c n max entries keys ≡ (if eq c k then n else 0) + count eq k keys))
  unfolding count
  after-attained c n max entries [] h = elim (Bool-cases (ltb max n)) [
    | inl more ↦ inr (c, ground (arith, greatest_nil c n max entries, eq_rank c c))
    | inr less ↦ inl (ground (arith, greatest_nil c n max entries))
  ]
  after-attained c n max entries (x ∷ keys) ((cx, ck), (xk, ks)) = elim (Bool-cases (eq x c)) [
    | inl same ↦ elim (after-attained c (n + 1) max entries keys (ck, ks)) [
      | inl e ↦ inl (greatest_same x c n max entries keys same ∙ e)
      | inr (k, e) ↦ inr (
        k,
        greatest_same x c n max entries keys same
            ∙ e
            ∙ ground (arith, eq_rank x c, eq_rank x k, eq_rank c k),
      )
    ]
    | inr other ↦ elim (after-attained x 1 (raised n max) (insert eq c n entries) keys (xk, ks)) [
      | inl e ↦ from_raised other (greatest_other x c n max entries keys other ∙ e)
      | inr (k, e) ↦ from_key other k (greatest_other x c n max entries keys other ∙ e)
    ]
  ]
    where
      from_raised :
          eq x c ≡ false
          → greatest c n max entries (x ∷ keys) ≡ raised n max
          → (greatest c n max entries (x ∷ keys) ≡ max)
            ⊎ ((k : K) × (greatest c n max entries (x ∷ keys)
                  ≡ (if eq c k then n else 0) + count eq k (x ∷ keys)))
      from_raised other e = elim (Bool-cases (ltb max n)) [
        | inl more ↦
            inr (
              c,
              ground (arith, e, eq_rank c c, eq_rank x c, count_past eq rank eq_rank c c x keys),
            )
        | inr less ↦ inl (ground (arith, e))
      ]

      from_key :
          eq x c ≡ false
          → (k : K)
          → greatest c n max entries (x ∷ keys) ≡ (if eq x k then 1 else 0) + count eq k keys
          → (greatest c n max entries (x ∷ keys) ≡ max)
            ⊎ ((k : K) × (greatest c n max entries (x ∷ keys)
                  ≡ (if eq c k then n else 0) + count eq k (x ∷ keys)))
      from_key other k e = elim (Bool-cases (eq c k)) [
        | inl same ↦ inl (
            ground (
              arith,
              e,
              eq_rank x k,
              eq_rank c k,
              eq_rank x c,
              count_past eq rank eq_rank k c x keys,
              after-bound k c n max entries (x ∷ keys) ((cx, ck), (xk, ks)),
            ))
        | inr differs ↦ inr (k, e ∙ ground arith)
      ]

  -- The number of events of each key, and the greatest of these numbers.
  pub graph_map-counts :
      (keys : List K)
      → IsSorted rank keys
      → ((k : K) → get eq k (graph_map eq keys).0 ≡ counted (count eq k keys))
        × ((k : K) → count eq k keys ≤ (graph_map eq keys).1)
        × (((graph_map eq keys).1 ≡ 0) ⊎ ((k : K) × ((graph_map eq keys).1 ≡ count eq k keys)))
  unfolding graph_map visit_all visit get count
  graph_map-counts [] h = ((λ k. refl), (λ k. ground arith), inl refl)
  graph_map-counts (x ∷ keys) h = (
    (λ k. get-after eq rank eq_rank k x 1 0 [] keys (omega arith) h ∙ ground arith),
    (λ k. (after-bound k x 1 0 [] keys h).1),
    after-attained x 1 0 [] keys h,
  )
