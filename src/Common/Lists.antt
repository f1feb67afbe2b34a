-- ===== src/Common/Lists.antt =====
-- Lists measured by native numbers, filtered and searched by Boolean tests.
use Prim.Native.Nat.{ℕ, zero, suc, ◌+◌, ◌-◌, ◌≤◌, min}
use mathlib.Core.Path.{◌≡◌, refl, ap, subst}
use mathlib.Core.Bool.{Bool, true, false, ◌||◌}
use mathlib.Core.List.{List, [], ◌∷◌, ◌++◌}
use mathlib.Core.Option.{Option, none, some}
use native.Mathlib.Omega.{arith}
use qmk_web_app.Common.Tests.{if◌then◌else◌, Bool-cases}
use mathlib.Core.Logic.{inl, inr}

module _ {ℓ} {A : Type ℓ} where
  abbrev pub length : List A → ℕ
  length [] = 0
  length (x ∷ xs) = suc (length xs)

  abbrev pub filter : (A → Bool) → List A → List A
  filter p [] = []
  filter p (x ∷ xs) = let rest = filter p xs in if p x then x ∷ rest else rest

  abbrev pub find : (A → Bool) → List A → Option A
  find p [] = none
  find p (x ∷ xs) = if p x then some x else find p xs

  abbrev pub any : (A → Bool) → List A → Bool
  any p [] = false
  any p (x ∷ xs) = p x || any p xs

  abbrev pub head? : List A → Option A
  head? [] = none
  head? (x ∷ xs) = some x

  abbrev pub take : ℕ → List A → List A
  take zero xs = []
  take (suc n) [] = []
  take (suc n) (x ∷ xs) = x ∷ take n xs

  abbrev pub drop : ℕ → List A → List A
  drop zero xs = xs
  drop (suc n) [] = []
  drop (suc n) (x ∷ xs) = drop n xs

  pub length-append : (xs ys : List A) → length (xs ++ ys) ≡ length xs + length ys
  length-append [] ys = omega arith
  length-append (x ∷ xs) ys = omega (arith, length-append xs ys)

module _ {ℓ} {A : Type ℓ} where
  pub length-take : (n : ℕ) (xs : List A) → length (take n xs) ≡ min n (length xs)
  length-take zero xs = omega arith
  length-take (suc n) [] = omega arith
  length-take (suc n) (x ∷ xs) = omega (arith, length-take n xs)

  pub take-append-drop : (n : ℕ) (xs : List A) → take n xs ++ drop n xs ≡ xs
  take-append-drop zero xs = refl
  take-append-drop (suc n) [] = refl
  take-append-drop (suc n) (x ∷ xs) = ap (◌∷◌ x) (take-append-drop n xs)

  pub length-drop : (n : ℕ) (xs : List A) → length (drop n xs) ≡ length xs - n
  length-drop zero xs = omega arith
  length-drop (suc n) [] = omega arith
  length-drop (suc n) (x ∷ xs) = omega (arith, length-drop n xs)

  pub drop_all : (n : ℕ) (xs : List A) → length xs ≤ n → drop n xs ≡ []
  drop_all zero [] h = refl
  drop_all zero (x ∷ xs) h = absurd (omega arith)
  drop_all (suc n) [] h = refl
  drop_all (suc n) (x ∷ xs) h = drop_all n xs (omega arith)

module _ {ℓ κ} {A : Type ℓ} (P : A → Type κ) where
  abbrev pub All : List A → Type κ
  All [] = Unit
  All (x ∷ xs) = P x × All xs

  -- What holds of every element that is kept.
  pub All-filter : (p : A → Bool) (xs : List A) → All xs → All (filter p xs)
  All-filter p [] h = h
  All-filter p (x ∷ xs) (q, h) = ground (arith, All-filter p xs h)

  pub All-head? : (xs : List A) {x : A} → All xs → head? xs ≡ some x → P x
  All-head? [] h e = cc
  All-head? (x ∷ xs) {x = y} (p, h) e = let same : x ≡ y = cc in subst P same p

module _ {ℓ} {A : Type ℓ} (p : A → Bool) where
  pub filter_sound : (xs : List A) → All (λ x. p x ≡ true) (filter p xs)
  filter_sound [] = tt
  filter_sound (x ∷ xs) = elim (Bool-cases (p x)) [
    | inl e ↦ rw e (e, filter_sound xs)
    | inr e ↦ rw e (filter_sound xs)
  ]

  -- What holds of every element that is kept, back to the list.
  pub filter-All {κ} :
      (P : A → Type κ) (xs : List A) → All P (filter p xs) → All (λ x. p x ≡ true → P x) xs
  filter-All P [] h = tt
  filter-All P (x ∷ xs) h = elim (Bool-cases (p x)) [
    | inl e ↦ let (q, rest) = rw e at h in ((λ _. q), filter-All P xs rest)
    | inr e ↦ ((λ e'. absurd (ground arith)), filter-All P xs (rw e at h))
  ]

-- A list without entries has parts without entries.
pub append-nil {ℓ} : {A : Type ℓ} (xs ys : List A) → xs ++ ys ≡ [] → (xs ≡ []) × (ys ≡ [])
append-nil [] ys e = (refl, e)
append-nil (x ∷ xs) ys e = cc

pub All-imply {ℓ κ μ} :
    {A : Type ℓ} (P : A → Type κ) (Q : A → Type μ)
    → ((x : A) → P x → Q x)
    → (xs : List A) → All P xs
    → All Q xs
All-imply P Q f [] h = tt
All-imply P Q f (x ∷ xs) (p, h) = (f x p, All-imply P Q f xs h)

module _ {ℓ} {A : Type ℓ} (p : A → Bool) where
  -- What is found passes the test.
  pub find_sound : (xs : List A) {x : A} → find p xs ≡ some x → p x ≡ true
  find_sound [] e = absurd cc
  find_sound (y ∷ ys) {x} e = elim (Bool-cases (p y)) [
    | inl hit ↦ let same : y ≡ x = ground arith in subst (λ z. p z ≡ true) same hit
    | inr miss ↦ find_sound ys (ground arith)
  ]
