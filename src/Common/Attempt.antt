-- ===== src/Common/Attempt.antt =====
-- Code that may throw: its value, or what it throws.
use Prim.Native.Nat.{suc}
use mathlib.Core.Path.{◌≡◌, refl, ap}
use mathlib.Core.Logic.{◌⊎◌, inl, inr}
use mathlib.Core.List.{List, [], ◌∷◌}
use qmk_web_app.Common.Lists.{All, length}

pub data Attempt (E A : Type 0) : Type 0 where
  done : A → Attempt E A
  thrown : E → Attempt E A

module _ {E : Type 0} where
  infixl 5 ◌>>=◌
  abbrev pub ◌>>=◌ : {A B : Type 0} → Attempt E A → (A → Attempt E B) → Attempt E B
  done a >>= f = f a
  thrown e >>= f = thrown e

  -- The value of the first part, where both are.
  pub bind-done :
      {A B : Type 0} (t : Attempt E A) (f : A → Attempt E B) {b : B}
      → (t >>= f) ≡ done b
      → (a : A) × (t ≡ done a) × (f a ≡ done b)
  bind-done (done a) f h = (a, refl, h)
  bind-done (thrown e) f h = cc

  -- The same, with what is to be shown of the value.
  pub bind-then :
      {A B R : Type 0} (t : Attempt E A) (f : A → Attempt E B) {b : B}
      → (t >>= f) ≡ done b
      → ((a : A) → t ≡ done a → f a ≡ done b → R)
      → R
  bind-then (done a) f h k = k a refl h
  bind-then (thrown e) f h k = absurd cc

  abbrev pub done_as : {A : Type 0} → A → Attempt E A
  done_as = done

  pub done_injective : {A : Type 0} {x y : A} → done_as x ≡ done_as y → x ≡ y
  done_injective e = cc

  pub Attempt-cases :
      {A : Type 0} (t : Attempt E A) → ((a : A) × (t ≡ done a)) ⊎ ((e : E) × (t ≡ thrown e))
  Attempt-cases (done a) = inl (a, refl)
  Attempt-cases (thrown e) = inr (e, refl)

  abbrev pub Returns : {A : Type 0} → Attempt E A → Type 0
  Returns {A} t = (a : A) × (t ≡ done a)

  pub bind-Returns :
      {A B : Type 0} (t : Attempt E A) (f : A → Attempt E B)
      → Returns t
      → ((a : A) → t ≡ done a → Returns (f a))
      → Returns (t >>= f)
  bind-Returns (done a) f r k = k a refl
  bind-Returns (thrown e) f (a, h) k = absurd cc

-- Two lists of one length whose entries are related.
module _ {A B : Type 0} (R : A → B → Type 0) where
  abbrev pub Pointwise : List A → List B → Type 0
  Pointwise [] [] = Unit {0}
  Pointwise (x ∷ xs) (y ∷ ys) = R x y × Pointwise xs ys
  Pointwise [] (y ∷ ys) = ⊥
  Pointwise (x ∷ xs) [] = ⊥

  pub Pointwise-length : (xs : List A) (ys : List B) → Pointwise xs ys → length ys ≡ length xs
  Pointwise-length [] [] h = refl
  Pointwise-length [] (y ∷ ys) h = absurd h
  Pointwise-length (x ∷ xs) [] h = absurd h
  Pointwise-length (x ∷ xs) (y ∷ ys) (_, h) = ap (λ n. suc n) (Pointwise-length xs ys h)

  -- What a related entry has, every entry of the second list has.
  pub Pointwise-All :
      (P : A → Type 0) (Q : B → Type 0)
      → ((x : A) (y : B) → P x → R x y → Q y)
      → (xs : List A) (ys : List B) → All P xs
      → Pointwise xs ys
      → All Q ys
  Pointwise-All P Q f [] [] p h = tt
  Pointwise-All P Q f [] (y ∷ ys) p h = absurd h
  Pointwise-All P Q f (x ∷ xs) [] p h = absurd h
  Pointwise-All P Q f (x ∷ xs) (y ∷ ys) (p, ps) (r, h) = (f x y p r, Pointwise-All P Q f xs ys ps h)

module _ {A B : Type 0} (R S : A → B → Type 0) where
  pub Pointwise-imply :
      ((x : A) (y : B) → R x y → S x y)
      → (xs : List A) (ys : List B) → Pointwise R xs ys
      → Pointwise S xs ys
  Pointwise-imply f [] [] h = tt
  Pointwise-imply f [] (y ∷ ys) h = absurd h
  Pointwise-imply f (x ∷ xs) [] h = absurd h
  Pointwise-imply f (x ∷ xs) (y ∷ ys) (r, h) = (f x y r, Pointwise-imply f xs ys h)

-- `Array.prototype.map` with a function that may throw: the first one thrown ends it.
module _ {E A B : Type 0} (f : A → Attempt E B) where
  unfoldable pub map_each : List A → Attempt E (List B)
  map_each [] = done []
  map_each (x ∷ xs) = f x >>= λ y. map_each xs >>= λ ys. done (y ∷ ys)

  pub map_each-Pointwise :
      (xs : List A) (ys : List B) → map_each xs ≡ done ys → Pointwise (λ x y. f x ≡ done y) xs ys
  unfolding map_each
  map_each-Pointwise [] [] h = tt
  map_each-Pointwise [] (y ∷ ys) h = absurd cc
  map_each-Pointwise (x ∷ xs) [] h =
      let (y, e, h') = bind-done (f x) _ h in
      let (rest, e', h'') = bind-done (map_each xs) _ h' in absurd cc
  map_each-Pointwise (x ∷ xs) (z ∷ zs) h =
      let (y, e, h') = bind-done (f x) _ h in
      let (rest, e', h'') = bind-done (map_each xs) _ h' in (cc, map_each-Pointwise xs zs cc)

  -- Where no call throws, there is a result.
  pub map_each-Returns : (xs : List A) → All (λ x. Returns (f x)) xs → Returns (map_each xs)
  unfolding map_each
  map_each-Returns [] h = ([], refl)
  map_each-Returns (x ∷ xs) ((y, e), h) =
      let (ys, e') = map_each-Returns xs h in (y ∷ ys, rw (e, e') refl)
