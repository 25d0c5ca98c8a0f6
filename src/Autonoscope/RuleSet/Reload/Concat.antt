-- ===== src/Autonoscope/RuleSet/Reload/Concat.antt =====
-- What a reload gives when a row is added at the end of the table.
use sn0int.Prelude.{List, [], ◌∷◌, ◌++◌, ok, ok-injective, >>=-eq-ok, ◌≡◌, refl, sym, ap, ◌∙◌}
use sn0int.Crates.Network.{Network}
use sn0int.Crates.Sqlite.{Autonoscope}
use sn0int.Autonoscope.Rule.{RuleType, from_str}
use sn0int.Autonoscope.Sort.{sort-sort, sort-sort_concat}
use sn0int.Autonoscope.RuleSet.{
  RuleSet, add_domain, add_ip, add_url, default, sort_rules, push_row, push_rows, build,
}
use sn0int.Autonoscope.RuleSet.Reload.{Pushed}

module _ (n : Network) where
  push_rows-concat :
      (acc : RuleSet n) (rows : List Autonoscope) (row : Autonoscope) {set : RuleSet n}
      → push_rows n acc rows ≡ ok set
      → push_rows n acc (rows ++ row ∷ []) ≡ push_rows n set (row ∷ [])
  unfolding push_rows
  push_rows-concat acc [] row e = rw (ok-injective e)
  push_rows-concat acc (r ∷ rows) row e =
      let (t, typed, e') = >>=-eq-ok (from_str r.object) _ e in
      let (next, pushed, later) = >>=-eq-ok (push_row n acc t r) (λ x. push_rows n x rows) e' in
      rw (typed, pushed) (push_rows-concat next rows row later)

  sort_rules-Pushed :
      (t : RuleType) (raw : RuleSet n) (row : Autonoscope) (next wide : RuleSet n)
      → Pushed n t raw row next
      → Pushed n t (sort_rules n raw) row wide
      → sort_rules n wide ≡ sort_rules n next
  unfolding sort_rules
  sort_rules-Pushed RuleType.domain raw row next wide (r, parsed, _, pushed)
        (r', parsed', _, pushed') =
      rw (← pushed, ← pushed', ok-injective (sym parsed' ∙ parsed))
        (simp (sort-sort_concat, sort-sort))
  sort_rules-Pushed RuleType.ip raw row next wide (r, parsed, _, pushed) (r', parsed', _, pushed') =
      rw (← pushed, ← pushed', ok-injective (sym parsed' ∙ parsed))
        (simp (sort-sort_concat, sort-sort))
  sort_rules-Pushed RuleType.url raw row next wide (r, parsed, _, pushed)
        (r', parsed', _, pushed') =
      rw (← pushed, ← pushed', ok-injective (sym parsed' ∙ parsed))
        (simp (sort-sort_concat, sort-sort))

  push_row_of_Pushed :
      (t : RuleType) (acc : RuleSet n) (row : Autonoscope) (next : RuleSet n)
      → Pushed n t acc row next
      → push_row n acc t row ≡ ok next
  unfolding push_row
  push_row_of_Pushed RuleType.domain acc row next (r, parsed, _, pushed) = rw (parsed, pushed)
  push_row_of_Pushed RuleType.ip acc row next (r, parsed, _, pushed) = rw (parsed, pushed)
  push_row_of_Pushed RuleType.url acc row next (r, parsed, _, pushed) = rw (parsed, pushed)

  -- The same row, on another set.
  rebase :
      (t : RuleType) (acc acc' : RuleSet n) (row : Autonoscope) (wide : RuleSet n)
      → Pushed n t acc row wide
      → (next : RuleSet n) × Pushed n t acc' row next
  rebase RuleType.domain acc acc' row wide (r, parsed, printed, _) =
      (add_domain n acc' r row.scoped, (r, parsed, printed, refl))
  rebase RuleType.ip acc acc' row wide (r, parsed, printed, _) =
      (add_ip n acc' r row.scoped, (r, parsed, printed, refl))
  rebase RuleType.url acc acc' row wide (r, parsed, printed, _) =
      (add_url n acc' r row.scoped, (r, parsed, printed, refl))

  -- Adding to the table and loading is loading, adding to the set and sorting.
  pub build-concat :
      (t : RuleType) (rows : List Autonoscope) (row : Autonoscope) (set wide : RuleSet n)
      → build n rows ≡ ok set
      → from_str row.object ≡ ok t
      → Pushed n t set row wide
      → build n (rows ++ row ∷ []) ≡ ok (sort_rules n wide)
  unfolding build push_rows
  build-concat t rows row set wide e typed p =
      let (raw, pushed, sorted) = >>=-eq-ok (push_rows n (default n) rows) _ e in
      let (next, q) = rebase t set raw row wide p in
      let p' = rw (← ok-injective sorted) at p in
      rw (push_rows-concat (default n) rows row pushed) (
        rw (typed, push_row_of_Pushed t raw row next q)
          (ap ok (sym (sort_rules-Pushed t raw row next wide q p'))))
