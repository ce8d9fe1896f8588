-- ===== src/Files/Like.antt =====
-- The LIKE patterns of the SQL statements in internal/repository/files.go. A text is the list of its
-- characters: `%` stands for any text, `_` for one character, and `\` takes the next one literally.
use pentaract.Prelude.{
  ℕ, ◌≡◌, refl, ap, sym, ◌∙◌, Bool, true, false, ◌&&◌, ◌||◌, not, Option, none, some, List, [], ◌∷◌,
  ◌++◌, ◌==◌, if◌then◌else◌, arith, inl, inr, Option-cases, append_assoc, bytes,
}

pub data Token : Type 0 where
  any_text any_char : Token
  literal : ℕ → Token

unfoldable pub tokens_of : Bool → List ℕ → List Token
tokens_of escaped [] = []
tokens_of true (c ∷ p) = literal c ∷ tokens_of false p
tokens_of false (c ∷ p) =
    let rest = tokens_of (c == b'\\') p in
    if c == b'\\'
    then rest
    else (if c == b'%' then any_text else if c == b'_' then any_char else literal c) ∷ rest

-- The text or one of its ends satisfies a test.
unfoldable pub some_end : (List ℕ → Bool) → List ℕ → Bool
some_end f [] = f []
some_end f (x ∷ t) = f (x ∷ t) || some_end f t

unfoldable pub accepts : List Token → List ℕ → Bool
unfolding some_end
accepts [] [] = true
accepts [] (x ∷ t) = false
accepts (any_text ∷ p) t = some_end (accepts p) t
accepts (any_char ∷ p) [] = false
accepts (any_char ∷ p) (x ∷ t) = accepts p t
accepts (literal c ∷ p) [] = false
accepts (literal c ∷ p) (x ∷ t) = x == c && accepts p t

-- `text LIKE pattern`.
unfoldable pub like : List ℕ → List ℕ → Bool
unfolding accepts tokens_of
like text pattern = accepts (tokens_of false pattern) text

-- The characters that a pattern does not take as they are.
unfoldable pub is_special : ℕ → Bool
is_special c = c == b'%' || c == b'_' || c == b'\\'

unfoldable pub is_plain : List ℕ → Bool
unfolding is_special
is_plain [] = true
is_plain (c ∷ p) = not (is_special c) && is_plain p

-- What follows a prefix.
unfoldable pub strip : List ℕ → List ℕ → Option (List ℕ)
strip [] t = some t
strip (c ∷ p) [] = none
strip (c ∷ p) (x ∷ t) = let rest = strip p t in if x == c then rest else none

pub strip-append : (p t : List ℕ) → strip p (p ++ t) ≡ some t
unfolding strip
strip-append [] t = refl
strip-append (c ∷ p) t = ground (arith, strip-append p t)

pub strip_sound : (p t rest : List ℕ) → strip p t ≡ some rest → t ≡ p ++ rest
unfolding strip
strip_sound [] t rest h = ground arith
strip_sound (c ∷ p) [] rest h = absurd (ground arith)
strip_sound (c ∷ p) (x ∷ t) rest h = ground (arith, strip_sound p t rest)

abbrev pub is_some {ℓ} : {A : Type ℓ} → Option A → Bool
is_some none = false
is_some (some x) = true

pub some_end_all : (t : List ℕ) → some_end (accepts []) t ≡ true
unfolding some_end accepts
some_end_all [] = refl
some_end_all (x ∷ t) = some_end_all t

-- A plain prefix and `%`: what begins with the prefix.
pub like_prefix : (p t : List ℕ) → is_plain p ≡ true → like t (p ++ b'%' ∷ []) ≡ is_some (strip p t)
unfolding like is_plain strip tokens_of accepts
like_prefix [] t h = some_end_all t
like_prefix (c ∷ p) [] h = ground arith
like_prefix (c ∷ p) (x ∷ t) h = ground (arith, like_prefix p t)

is_plain-append : (p q : List ℕ) → is_plain p ≡ true → is_plain q ≡ true → is_plain (p ++ q) ≡ true
unfolding is_plain
is_plain-append [] q h k = k
is_plain-append (c ∷ p) q h k = ground (arith, is_plain-append p q)

-- A plain folder and `/%`: what lies below the folder.
pub like_below :
    (p t : List ℕ)
    → is_plain p ≡ true
    → like t (p ++ bytes "/%") ≡ is_some (strip (p ++ b'/' ∷ []) t)
unfolding is_plain is_special
like_below p t h =
    ap (like t) (sym (append_assoc p (b'/' ∷ []) (b'%' ∷ [])))
    ∙ like_prefix (p ++ b'/' ∷ []) t (is_plain-append p (b'/' ∷ []) h refl)

pub below_sound :
    (p t : List ℕ)
    → is_plain p ≡ true
    → like t (p ++ bytes "/%") ≡ true
    → (rest : List ℕ) × (t ≡ p ++ b'/' ∷ rest)
below_sound p t h e = elim (Option-cases (strip (p ++ b'/' ∷ []) t)) [
  | inl n ↦ absurd (ground (arith, like_below p t h))
  | inr (rest, n) ↦ (rest, strip_sound (p ++ b'/' ∷ []) t rest n ∙ append_assoc p (b'/' ∷ []) rest)
]

pub below_complete :
    (p rest : List ℕ) → is_plain p ≡ true → like (p ++ b'/' ∷ rest) (p ++ bytes "/%") ≡ true
below_complete p rest h =
    like_below p (p ++ b'/' ∷ rest) h
    ∙ ap (λ t. is_some (strip (p ++ b'/' ∷ []) t)) (sym (append_assoc p (b'/' ∷ []) rest))
    ∙ ap is_some (strip-append (p ++ b'/' ∷ []) rest)

-- An underscore in the folder's name matches any character.
pub like_underscore :
    (p q rest : List ℕ) (c : ℕ)
    → is_plain p ≡ true
    → is_plain q ≡ true
    → like (p ++ (c ∷ q ++ b'/' ∷ rest)) ((p ++ b'_' ∷ q) ++ bytes "/%") ≡ true
unfolding like accepts tokens_of is_plain is_special
like_underscore [] q rest c h k = unfold like in below_complete q rest k
like_underscore (d ∷ p) q rest c h k = ground (arith, like_underscore p q rest c)
