-- ===== src/Common/Texts.antt =====
-- Texts by their characters: prefixes, slices, lengths and the order of their codes.
use Prim.Native.Nat.{ℕ, zero, suc}
use Prim.Native.Char.{Char, code}
use Prim.Native.String.{String}
use mathlib.Core.Path.{◌≡◌, refl}
use mathlib.Core.Bool.{Bool, true, false, ◌&&◌, ◌||◌}
use mathlib.Core.List.{List, [], ◌∷◌}
use native.Mathlib.Omega.{arith}
use qmk_web_app.Common.Tests.{ltb, ◌==◌}
use qmk_web_app.Common.Lists.{All}

-- `text.startsWith(prefix)`
unfoldable pub starts_with : (prefix text : String) → Bool
starts_with String.[] t = true
starts_with (String.◌∷◌ c s) String.[] = false
starts_with (String.◌∷◌ c s) (String.◌∷◌ d t) = code c == code d && starts_with s t

-- `text.slice(n)` and `text.slice(0, n)`
unfoldable pub slice_from : ℕ → String → String
slice_from zero t = t
slice_from (suc n) String.[] = String.[]
slice_from (suc n) (String.◌∷◌ c t) = slice_from n t

unfoldable pub slice_to : ℕ → String → String
slice_to zero t = String.[]
slice_to (suc n) String.[] = String.[]
slice_to (suc n) (String.◌∷◌ c t) = String.◌∷◌ c (slice_to n t)

unfoldable pub text_length : String → ℕ
text_length String.[] = 0
text_length (String.◌∷◌ c t) = suc (text_length t)

-- `a < b` on texts.
unfoldable pub text_before : (a b : String) → Bool
text_before a String.[] = false
text_before String.[] (String.◌∷◌ d t) = true
text_before (String.◌∷◌ c s) (String.◌∷◌ d t) =
    let rest = text_before s t in ltb (code c) (code d) || (code c == code d && rest)

unfoldable pub every_char : (Char → Bool) → String → Bool
every_char p String.[] = true
every_char p (String.◌∷◌ c t) = p c && every_char p t

-- A test of every element of a list.
unfoldable pub all {ℓ} : {A : Type ℓ} → (A → Bool) → List A → Bool
all p [] = true
all p (x ∷ xs) = p x && all p xs

pub all-All {ℓ} :
    {A : Type ℓ} (p : A → Bool) (xs : List A) → all p xs ≡ true → All (λ x. p x ≡ true) xs
unfolding all
all-All p [] h = tt
all-All p (x ∷ xs) h = (ground arith, all-All p xs (ground arith))

pub slice_to_all : (n : ℕ) (t : String) → ltb n (text_length t) ≡ false → slice_to n t ≡ t
unfolding slice_to text_length
slice_to_all zero String.[] h = refl
slice_to_all zero (String.◌∷◌ c t) h = absurd (ground arith)
slice_to_all (suc n) String.[] h = refl
slice_to_all (suc n) (String.◌∷◌ c t) h = rw (slice_to_all n t (ground arith)) refl

-- What passes the test has a property, for every element.
pub all-imply {ℓ κ} :
    {A : Type ℓ} (p : A → Bool) (Q : A → Type κ)
    → ((x : A) → p x ≡ true → Q x)
    → (xs : List A) → all p xs ≡ true
    → All Q xs
unfolding all
all-imply p Q f [] h = tt
all-imply p Q f (x ∷ xs) h = (f x (ground arith), all-imply p Q f xs (ground arith))
