-- ===== src/Common/Sort.antt =====
-- `Array.prototype.sort` with a comparison: a stable sort, of which there is one for each order.
use qmk_web_app.Common.Tests.{if◌then◌else◌, Bool-cases}
use qmk_web_app.Common.Lists.{All, filter, All-filter, length, any}
use Prim.Native.Nat.{suc}
use native.Mathlib.Omega.{arith}
use mathlib.Core.Path.{◌≡◌, refl, ap, ◌∙◌}
use mathlib.Core.Logic.{inl, inr}
use mathlib.Core.Bool.{Bool, true, false, ◌||◌}
use mathlib.Core.List.{List, [], ◌∷◌}

module _ {ℓ} {A : Type ℓ} (before : A → A → Bool) where
  -- `x` stood in front of the list, so it goes behind those that are strictly smaller only.
  unfoldable pub insert : A → List A → List A
  insert x [] = x ∷ []
  insert x (y ∷ ys) = if before y x then y ∷ insert x ys else x ∷ y ∷ ys

  unfoldable pub sort : List A → List A
  sort [] = []
  sort (x ∷ xs) = insert x (sort xs)

  module _ {κ} (P : A → Type κ) where
    All-insert : (x : A) (xs : List A) → P x → All P xs → All P (insert x xs)
    unfolding insert
    All-insert x [] p h = (p, h)
    All-insert x (y ∷ ys) p (q, h) = elim (Bool-cases (before y x)) [
      | inl e ↦ rw e (q, All-insert x ys p h)
      | inr e ↦ rw e (p, (q, h))
    ]

    -- What holds of every element holds of every element of the sorted list, and back.
    pub All-sort : (xs : List A) → All P xs → All P (sort xs)
    unfolding sort
    All-sort [] h = h
    All-sort (x ∷ xs) (p, h) = All-insert x (sort xs) p (All-sort xs h)

    insert-All : (x : A) (xs : List A) → All P (insert x xs) → P x × All P xs
    unfolding insert
    insert-All x [] h = h
    insert-All x (y ∷ ys) h = elim (Bool-cases (before y x)) [
      | inl e ↦
          let (q, rest) = rw e at h in let (p, others) = insert-All x ys rest in (p, (q, others))
      | inr e ↦ rw e at h
    ]

    pub sort-All : (xs : List A) → All P (sort xs) → All P xs
    unfolding sort
    sort-All [] h = h
    sort-All (x ∷ xs) h = let (p, rest) = insert-All x (sort xs) h in (p, sort-All xs rest)

  -- No element goes before one that stands in front of it.
  abbrev pub IsSorted : List A → Type 0
  IsSorted [] = Unit {0}
  IsSorted (x ∷ xs) = All (λ y. before y x ≡ false) xs × IsSorted xs

  pub filter-IsSorted : (p : A → Bool) (xs : List A) → IsSorted xs → IsSorted (filter p xs)
  filter-IsSorted p [] s = s
  filter-IsSorted p (x ∷ xs) (h, s) = elim (Bool-cases (p x)) [
    | inl e ↦ rw e (All-filter (λ y. before y x ≡ false) p xs h, filter-IsSorted p xs s)
    | inr e ↦ rw e (filter-IsSorted p xs s)
  ]

  insert_front : (x : A) (xs : List A) → All (λ y. before y x ≡ false) xs → insert x xs ≡ x ∷ xs
  unfolding insert
  insert_front x [] h = refl
  insert_front x (y ∷ ys) (e, h) = rw e

  -- A sorted list is left as it is.
  pub sort_of_IsSorted : (xs : List A) → IsSorted xs → sort xs ≡ xs
  unfolding sort
  sort_of_IsSorted [] s = refl
  sort_of_IsSorted (x ∷ xs) (h, s) = rw (sort_of_IsSorted xs s) (insert_front x xs h)

  -- The comparison is a strict order whose incomparable elements may be exchanged.
  module _ (asym : (x y : A) → before x y ≡ true → before y x ≡ false)
      (chain : (x y z : A) → before y x ≡ false → before z y ≡ false → before z x ≡ false) where
    All-chain :
        (x y : A) (xs : List A)
        → before y x ≡ false
        → All (λ z. before z y ≡ false) xs
        → All (λ z. before z x ≡ false) xs
    All-chain x y [] e h = h
    All-chain x y (z ∷ zs) e (f, h) = (chain x y z e f, All-chain x y zs e h)

    insert-IsSorted : (x : A) (xs : List A) → IsSorted xs → IsSorted (insert x xs)
    unfolding insert
    insert-IsSorted x [] s = (tt, tt)
    insert-IsSorted x (y ∷ ys) (h, s) = elim (Bool-cases (before y x)) [
      | inl e ↦
          rw e (All-insert (λ z. before z y ≡ false) x ys (asym y x e) h, insert-IsSorted x ys s)
      | inr e ↦ rw e ((e, All-chain x y ys e h), (h, s))
    ]

    pub sort-IsSorted : (xs : List A) → IsSorted (sort xs)
    unfolding sort
    sort-IsSorted [] = tt
    sort-IsSorted (x ∷ xs) = insert-IsSorted x (sort xs) (sort-IsSorted xs)

module _ {ℓ} {A : Type ℓ} (before : A → A → Bool) where
  length-insert : (x : A) (xs : List A) → length (insert before x xs) ≡ suc (length xs)
  unfolding insert
  length-insert x [] = refl
  length-insert x (y ∷ ys) = ground (arith, length-insert x ys)

  -- The sorted list has the length of the list.
  pub length-sort : (xs : List A) → length (sort before xs) ≡ length xs
  unfolding sort
  length-sort [] = refl
  length-sort (x ∷ xs) = omega (arith, length-insert x (sort before xs), length-sort xs)

  any-insert : (p : A → Bool) (x : A) (xs : List A) → any p (insert before x xs) ≡ p x || any p xs
  unfolding insert
  any-insert p x [] = refl
  any-insert p x (y ∷ ys) = ground (arith, any-insert p x ys)

  -- And the same elements.
  pub any-sort : (p : A → Bool) (xs : List A) → any p (sort before xs) ≡ any p xs
  unfolding sort
  any-sort p [] = refl
  any-sort p (x ∷ xs) = any-insert p x (sort before xs) ∙ ap (λ b. p x || b) (any-sort p xs)
