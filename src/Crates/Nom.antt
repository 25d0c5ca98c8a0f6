-- ===== src/Crates/Nom.antt =====
-- The crate nom, version 5: parsers over text, as far as the program uses them.
pub mod Reference
use sn0int.Prelude.{
  ℕ, Bool, true, false, List, [], ◌∷◌, ◌++◌, Text, ◌≡◌, refl, ◌≢◌, ◌&&◌, ◌||◌, leb, All, length,
  ◌≤◌, ◌<◌, Result, ok, err,
}

-- nom::Err
pub data Failure : Type 0 where
  incomplete error failure : Failure

-- nom::IResult<&str, A>
pub data IResult {ℓ} (A : Type ℓ) : Type ℓ where
  done : Text → A → IResult A
  failed : Failure → IResult A

-- The sequence of two parsers: the second reads what the first leaves.
abbrev pub and_then {ℓ κ} :
    {A : Type ℓ} {B : Type κ} → IResult A → (Text → A → IResult B) → IResult B
and_then (done rest a) k = k rest a
and_then (failed f) k = failed f

pub and_then_assoc {ℓ κ μ} :
    {A : Type ℓ} {B : Type κ} {C : Type μ} (r : IResult A) (f : Text → A → IResult B)
    (g : Text → B → IResult C)
    → and_then (and_then r f) g ≡ and_then r (λ s a. and_then (f s a) g)
and_then_assoc (done s a) f g = refl
and_then_assoc (failed x) f g = refl

abbrev pub within : ℕ → ℕ → ℕ → Bool
within lo hi c = leb lo c && leb c hi

-- The longest match ends here: at the end of the input, or before a character that does not match.
abbrev pub Stops : (ℕ → Bool) → Text → Type 0
Stops p [] = Unit
Stops p (c ∷ _) = p c ≡ false

-- `p` does not start earlier in `a ++ p ++ rest` than behind `a`.
abbrev pub IsFirst : Text → Text → Text → Type 0
IsFirst p a rest = (u v : Text) → a ++ (p ++ rest) ≡ u ++ (p ++ v) → length a ≤ length u

abbrev pub converted {ℓ} : {B : Type ℓ} → Text → Result B → IResult B
converted rest (ok b) = done rest b
converted rest (err _) = failed error

abbrev pub map_result {ℓ κ} : {A : Type ℓ} {B : Type κ} → IResult A → (A → Result B) → IResult B
map_result (failed f) g = failed f
map_result (done rest a) g = converted rest (g a)

pub record Nom : Type 1 where
  -- nom::character::is_alphanumeric, on a byte
  pub is_alphanumeric : ℕ → Bool
  -- nom::bytes::complete
  pub take_while1 : (ℕ → Bool) → Text → IResult Text
  pub tag : Text → Text → IResult Text
  -- nom::sequence::tuple, of three
  pub tuple :
      (Text → IResult Text)
      → (Text → IResult Text)
      → (Text → IResult Text)
      → Text
      → IResult (Text × Text × Text)
  -- the macros tag! and take_until!, which read a stream: they may ask for more input
  pub tag_stream : Text → Text → IResult Text
  pub take_until : Text → Text → IResult Text
  -- map_res!, and fold_many0! with a vector that collects the items
  pub map_res : {A B : Type 0} → (Text → IResult A) → (A → Result B) → Text → IResult B
  pub fold_many0 : {A : Type 0} → (Text → IResult A) → Text → IResult (List A)

pub record NomLaws (n : Nom) : Type 1 where
  pub is_alphanumeric_lem :
      (c : ℕ)
      → n.is_alphanumeric c ≡ (within b'0' b'9' c || (within b'A' b'Z' c || within b'a' b'z' c))
  -- the longest run of at least one matching character
  pub take_while1_run :
      (p : ℕ → Bool) (c : ℕ) (run rest : Text)
      → All (λ x. p x ≡ true) (c ∷ run)
      → Stops p rest
      → n.take_while1 p ((c ∷ run) ++ rest) ≡ done rest (c ∷ run)
  pub take_while1_none : (p : ℕ → Bool) (s : Text) → Stops p s → n.take_while1 p s ≡ failed error
  pub tag_here : (t rest : Text) → n.tag t (t ++ rest) ≡ done rest t
  pub tag_none : (t s : Text) → ((rest : Text) → s ≢ t ++ rest) → n.tag t s ≡ failed error
  pub tuple_lem :
      (p q r : Text → IResult Text) (s : Text)
      → n.tuple p q r s
        ≡ and_then
            (p s)
            (λ s₁ a. and_then (q s₁) (λ s₂ b. and_then (r s₂) (λ s₃ c. done s₃ (a, b, c))))
  pub tag_stream_here : (t rest : Text) → n.tag_stream t (t ++ rest) ≡ done rest t
  pub tag_stream_other :
      (c d : ℕ) (t s : Text) → c ≢ d → n.tag_stream (c ∷ t) (d ∷ s) ≡ failed error
  pub take_until_first :
      (p a rest : Text) → IsFirst p a rest → n.take_until p (a ++ (p ++ rest)) ≡ done (p ++ rest) a
  pub map_res_lem :
      {A B : Type 0} (p : Text → IResult A) (g : A → Result B) (s : Text)
      → n.map_res p g s ≡ map_result (p s) g
  -- An item that fails ends the fold; an item that is read has to take something.
  pub fold_many0_stop :
      {A : Type 0} (p : Text → IResult A) (s : Text)
      → p s ≡ failed error
      → n.fold_many0 p s ≡ done s []
  pub fold_many0_more :
      {A : Type 0} (p : Text → IResult A) (s rest : Text) (a : A)
      → p s ≡ done rest a
      → length rest < length s
      → n.fold_many0 p s ≡ and_then (n.fold_many0 p rest) (λ r items. done r (a ∷ items))
