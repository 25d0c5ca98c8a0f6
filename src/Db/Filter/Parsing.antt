-- ===== src/Db/Filter/Parsing.antt =====
-- What the arguments of a command become.
use sn0int.Prelude.{
  ℕ, Bool, true, false, List, [], ◌∷◌, ◌++◌, Text, codes, text_eq, text_eq_iff, find-none,
  find-append, append-nil, take-length_append, drop-length_append, ok, ◌≡◌, ◌≢◌, ◌↔◌, refl, sym, ap,
  ◌∙◌, All, append_assoc, Bool-cases, inl, inr,
}
use sn0int.Db.Filter.{
  Filter, new, escape, is_operator, Progress, push_value, push_pair, push_arg, push_args, parse,
}

-- One part of a condition: a comparison by an operator, one in the form `key=value`, or a word
-- such as AND.
pub data Part : Type 0 where
  compared : Text → Text → Text → Part
  paired : Text → Text → Part
  word : Text → Part

-- The arguments of a part, and the SQL that it means.
abbrev pub args_of : List Part → List Text
args_of [] = []
args_of (compared key op value ∷ parts) = key ∷ op ∷ value ∷ args_of parts
args_of (paired key value ∷ parts) = (key ++ b'=' ∷ value) ∷ args_of parts
args_of (word w ∷ parts) = w ∷ args_of parts

abbrev pub sql_of : List Part → Text
sql_of [] = []
sql_of (compared key op value ∷ parts) =
    b' ' ∷ (key ++ (b' ' ∷ (op ++ (b' ' ∷ (escape value ++ sql_of parts)))))
sql_of (paired key value ∷ parts) = b' ' ∷ (key ++ (codes " = " ++ (escape value ++ sql_of parts)))
sql_of (word w ∷ parts) = b' ' ∷ (w ++ sql_of parts)

abbrev pub HasNoEquals : Text → Type 0
HasNoEquals s = All (λ c. c ≢ b'=') s

module _ (to_lowercase : Text → Text) where
  -- A list of arguments is parsed as a filter exactly if its first argument is, in lower case, the
  -- word where.
  pub parse-ok_iff :
      (args : List Text)
      → ((f : Filter) × (parse to_lowercase args ≡ ok f)) ↔ (
          (first : Text) × (rest : List Text) × (args ≡ first ∷ rest)
          × (to_lowercase first ≡ codes "where"))
  unfolding parse
  parse-ok_iff [] = (λ h. absurd (cc h.1), λ h. absurd (cc h.2))
  parse-ok_iff (first ∷ args) = (to, from)
    where
      to :
          ((f : Filter) × (parse to_lowercase (first ∷ args) ≡ ok f))
          → (h : Text) × (t : List Text) × (first ∷ args ≡ h ∷ t) × (to_lowercase h ≡ codes "where")
      to (f, e) = elim (Bool-cases (text_eq (to_lowercase first) (codes "where"))) [
        | inl same ↦ (first, args, refl, (text_eq_iff _ _).0 same)
        | inr other ↦ absurd (cc (rw other at e))
      ]

      from :
          ((h : Text) × (t : List Text) × (first ∷ args ≡ h ∷ t) × (to_lowercase h ≡ codes "where"))
          → (f : Filter) × (parse to_lowercase (first ∷ args) ≡ ok f)
      from (h, t, same, keyword) =
          let head : first ≡ h = cc in
          (
            new (push_args to_lowercase (record { query = []; expect_value = false }) args).query,
            rw ((text_eq_iff _ _).1 (ap to_lowercase head ∙ keyword)),
          )

  -- An argument that is taken as it stands, or escaped where a value is expected.
  abbrev pub IsWord : Text → Type 0
  IsWord s = (is_operator (to_lowercase s) ≡ false) × HasNoEquals s

  abbrev pub IsOperator : Text → Type 0
  IsOperator s = is_operator (to_lowercase s) ≡ true

  abbrev pub IsPart : Part → Type 0
  IsPart (compared key op value) = IsWord key × IsOperator op × IsWord value
  IsPart (paired [] value) = ⊥
  IsPart (paired (c ∷ key) value) =
      HasNoEquals (c ∷ key) × (is_operator (to_lowercase ((c ∷ key) ++ b'=' ∷ value)) ≡ false)
  IsPart (word w) = IsWord w

  abbrev at : Text → Bool → Progress
  at query expect_value = record { query = query; expect_value = expect_value }

  push_word :
      (q w : Text) → IsWord w → push_arg to_lowercase (at q false) w ≡ at (q ++ b' ' ∷ w) false
  unfolding push_arg push_pair push_value
  push_word q w (plain, free) = rw (plain, find-none b'=' w free)

  push_operator :
      (q op : Text) (b : Bool)
      → IsOperator op
      → push_arg to_lowercase (at q b) op ≡ at (q ++ b' ' ∷ op) true
  unfolding push_arg
  push_operator q op b h = rw h

  push_expected :
      (q v : Text)
      → IsWord v
      → push_arg to_lowercase (at q true) v ≡ at (q ++ b' ' ∷ escape v) false
  unfolding push_arg push_pair push_value
  push_expected q v (plain, free) = rw (plain, find-none b'=' v free)

  push_key_value :
      (q : Text) (c : ℕ) (key value : Text) (b : Bool)
      → IsPart (paired (c ∷ key) value)
      → push_arg to_lowercase (at q b) ((c ∷ key) ++ b'=' ∷ value)
        ≡ at (q ++ b' ' ∷ ((c ∷ key) ++ (codes " = " ++ escape value))) b
  unfolding push_arg push_pair
  push_key_value q c key value b (free, plain) =
      rw (plain, find-append b'=' (c ∷ key) value free)
        (rw (take-length_append, drop-length_append))

  push_args-parts :
      (q : Text) (parts : List Part)
      → All IsPart parts
      → push_args to_lowercase (at q false) (args_of parts) ≡ at (q ++ sql_of parts) false
  unfolding push_args
  push_args-parts q [] _ = ap (λ t. at t false) (sym (append-nil q))
  push_args-parts q (compared key op value ∷ parts) ((k, o, v), h) =
      let push = push_arg to_lowercase in
      let q₁ = q ++ b' ' ∷ key in
      let q₂ = q₁ ++ b' ' ∷ op in
      let q₃ = q₂ ++ b' ' ∷ escape value in
      ap (λ p. push_args to_lowercase (push (push p op) value) (args_of parts)) (push_word q key k)
      ∙ ap (λ p. push_args to_lowercase (push p value) (args_of parts))
          (push_operator q₁ op false o)
      ∙ ap (λ p. push_args to_lowercase p (args_of parts)) (push_expected q₂ value v)
      ∙ push_args-parts q₃ parts h
      ∙ ap (λ t. at t false) (simp append_assoc)
  push_args-parts q (paired [] value ∷ parts) (p, h) = absurd p
  push_args-parts q (paired (c ∷ key) value ∷ parts) (p, h) =
      ap (λ p. push_args to_lowercase p (args_of parts)) (push_key_value q c key value false p)
      ∙ push_args-parts (q ++ b' ' ∷ ((c ∷ key) ++ (codes " = " ++ escape value))) parts h
      ∙ ap (λ t. at t false) (simp append_assoc)
  push_args-parts q (word w ∷ parts) (p, h) =
      ap (λ p. push_args to_lowercase p (args_of parts)) (push_word q w p)
      ∙ push_args-parts (q ++ b' ' ∷ w) parts h
      ∙ ap (λ t. at t false) (append_assoc q (b' ' ∷ w) (sql_of parts))

  -- A filter made of the word WHERE and of comparisons, `key=value` pairs and plain words is
  -- parsed as the SQL of these parts in their order, each value of a comparison or pair as an
  -- escaped literal. The condition is that the keys and values of comparisons and the plain words
  -- are no operators and have no equals sign, that their operators are operators, and that the
  -- pairs are no operators and have nonempty keys without an equals sign.
  pub parse-parts :
      (keyword : Text) (parts : List Part)
      → to_lowercase keyword ≡ codes "where"
      → All IsPart parts
      → parse to_lowercase (keyword ∷ args_of parts) ≡ ok (new (sql_of parts))
  unfolding parse
  parse-parts keyword parts w h =
      rw ((text_eq_iff _ _).1 w) (ap (λ p. ok (new p.query)) (push_args-parts [] parts h))

  -- In a filter of one comparison whose key is a plain word, a value with an equals sign that is
  -- not its first character, and which is no operator, is not taken as one value: it is split at
  -- its first equals sign, and what stands before that enters the SQL without an escape.
  pub parse_value_with_equals :
      (keyword key op : Text) (c : ℕ) (a b : Text)
      → to_lowercase keyword ≡ codes "where"
      → IsWord key
      → IsOperator op
      → IsPart (paired (c ∷ a) b)
      → parse to_lowercase (keyword ∷ key ∷ op ∷ ((c ∷ a) ++ b'=' ∷ b) ∷ [])
        ≡ ok
            (new (b' ' ∷ (key ++ (b' ' ∷ (op ++ (b' ' ∷ ((c ∷ a) ++ (codes " = " ++ escape b))))))))
  unfolding parse push_args
  parse_value_with_equals keyword key op c a b w k o p =
      let push = push_arg to_lowercase in
      let q₁ = b' ' ∷ key in
      let q₂ = q₁ ++ b' ' ∷ op in
      rw ((text_eq_iff _ _).1 w) (
        ap (λ x. ok (new (push (push x op) ((c ∷ a) ++ b'=' ∷ b)).query)) (push_word [] key k)
        ∙ ap (λ x. ok (new (push x ((c ∷ a) ++ b'=' ∷ b)).query)) (push_operator q₁ op false o)
        ∙ ap (λ x. ok (new x.query)) (push_key_value q₂ c a b true p)
        ∙ ap (λ t. ok (new t)) (simp append_assoc))
