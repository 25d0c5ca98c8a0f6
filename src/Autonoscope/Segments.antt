-- ===== src/Autonoscope/Segments.antt =====
-- The loop that domain rules and URL rules share: compare parts pairwise up to the shorter list.
use mathlib.Core.List.{reverse, reverse-cons, reverse-append, reverse-reverse}
use sn0int.Prelude.{
  ◌≤◌, Bool, true, false, List, [], ◌∷◌, ◌++◌, Text, text_eq, text_eq_iff, length, ltb,
  if◌then◌else◌, ◌&&◌, ◌≡◌, refl, ap, ◌↔◌, arith, length-append, ok, le→ltb, sym, ◌∙◌,
}

-- `for (rule, part) in rules.zip(parts) { if rule != part { return Ok(false) } } Ok(true)`
unfoldable pub zip_all_eq : List Text → List Text → Bool
zip_all_eq (a ∷ as') (b ∷ bs) = text_eq a b && zip_all_eq as' bs
zip_all_eq _ _ = true

-- With the length test in front, the loop decides the prefix order.
pub zip_all_eq_sound :
    (as' bs : List Text)
    → length as' ≤ length bs
    → zip_all_eq as' bs ≡ true
    → (rest : List Text) × (bs ≡ as' ++ rest)
unfolding zip_all_eq
zip_all_eq_sound [] bs h e = (bs, refl)
zip_all_eq_sound (a ∷ as') [] h e = absurd (omega arith)
zip_all_eq_sound (a ∷ as') (b ∷ bs) h e =
    let (rest, ih) = zip_all_eq_sound as' bs (omega arith) (ground arith) in
    (rest, ground (arith, text_eq_iff a b))

pub zip_all_eq_append : (as' rest : List Text) → zip_all_eq as' (as' ++ rest) ≡ true
unfolding zip_all_eq
zip_all_eq_append [] rest = refl
zip_all_eq_append (a ∷ as') rest = ground (arith, text_eq_iff a a, zip_all_eq_append as' rest)

-- The length test and the loop together decide the prefix order.
pub prefix_test_iff :
    (rules parts : List Text)
    → ((if ltb (length parts) (length rules) then ok false else ok (zip_all_eq rules parts))
        ≡ ok true)
      ↔ ((rest : List Text) × (parts ≡ rules ++ rest))
prefix_test_iff rules parts = (to, from)
  where
    to :
        (if ltb (length parts) (length rules) then ok false else ok (zip_all_eq rules parts))
          ≡ ok true
        → (rest : List Text) × (parts ≡ rules ++ rest)
    to h = zip_all_eq_sound rules parts (ground arith) (ground arith)

    from :
        ((rest : List Text) × (parts ≡ rules ++ rest))
        → (if ltb (length parts) (length rules) then ok false else ok (zip_all_eq rules parts))
          ≡ ok true
    from (rest, e) = rw e (
        rw
          (le→ltb (length rules) (length (rules ++ rest)) (omega (arith, length-append rules rest)))
          (rw zip_all_eq_append))

-- For domains the compared list is reversed.
pub length-reverse : (xs : List Text) → length (reverse xs) ≡ length xs
length-reverse [] = refl
length-reverse (x ∷ xs) =
    rw reverse-cons (omega (arith, length-append (reverse xs) (x ∷ []), length-reverse xs))

pub reverse_prefix_iff :
    (a b : List Text)
    → ((rest : List Text) × (reverse b ≡ reverse a ++ rest))
      ↔ ((front : List Text) × (b ≡ front ++ a))
reverse_prefix_iff a b = (
  λ t. (
    reverse t.0,
    sym (reverse-reverse b) ∙ ap reverse t.1 ∙ rw (reverse-append) (rw reverse-reverse),
  ),
  λ t. (reverse t.0, rw t.1 (reverse-append t.0 a)),
)
