-- ===== src/Common/Dict.antt =====
-- JavaScript's `Map` and `Set`: entries in insertion order, the first entry of a key counts.
use qmk_web_app.Common.Tests.{if◌then◌else◌, ◌===◌, Bool-cases}
use qmk_web_app.Common.Lists.{All}
use mathlib.Core.Logic.{inl, inr}
use Prim.Native.String.{String}
use mathlib.Core.Path.{◌≡◌, refl, subst}
use mathlib.Core.Bool.{Bool, false, ◌||◌}
use mathlib.Core.List.{List, [], ◌∷◌, ◌++◌}
use mathlib.Core.Option.{Option, none, some}
use native.Mathlib.Omega.{arith}

abbrev pub Dict {ℓ} : Type ℓ → Type ℓ
Dict V = List (String × V)

module _ {ℓ} {V : Type ℓ} where
  unfoldable pub get : String → Dict V → Option V
  get k [] = none
  get k ((j, v) ∷ m) = if j === k then some v else get k m

  unfoldable pub put : String → V → Dict V → Dict V
  put k v [] = (k, v) ∷ []
  put k v ((j, w) ∷ m) = if j === k then (j, v) ∷ m else (j, w) ∷ put k v m

  unfoldable pub delete : String → Dict V → Dict V
  delete k [] = []
  delete k ((j, w) ∷ m) = if j === k then delete k m else (j, w) ∷ delete k m

  abbrev pub values : Dict V → List V
  values [] = []
  values ((k, v) ∷ m) = v ∷ values m

  pub get-put :
      (k j : String) (v : V) (m : Dict V)
      → get j (put k v m) ≡ (if k === j then some v else get j m)
  unfolding get put
  get-put k j v [] = refl
  get-put k j v ((i, w) ∷ m) = ground (arith, get-put k j v m)

  pub get-delete :
      (k j : String) (m : Dict V) → get j (delete k m) ≡ (if k === j then none else get j m)
  unfolding get delete
  get-delete k j [] = ground arith
  get-delete k j ((i, w) ∷ m) = ground (arith, get-delete k j m)

-- What holds of every value, after a write and after a deletion.
module _ {ℓ κ} {V : Type ℓ} (P : V → Type κ) where
  pub All-put :
      (k : String) (v : V) (m : Dict V) → P v → All P (values m) → All P (values (put k v m))
  unfolding put
  All-put k v [] p h = (p, tt)
  All-put k v ((j, w) ∷ m) p (q, h) = elim (Bool-cases (j === k)) [
    | inl hit ↦ rw hit (p, h)
    | inr miss ↦ rw miss (q, All-put k v m p h)
  ]

  pub All-delete : (k : String) (m : Dict V) → All P (values m) → All P (values (delete k m))
  unfolding delete
  All-delete k [] h = h
  All-delete k ((j, w) ∷ m) (q, h) = elim (Bool-cases (j === k)) [
    | inl hit ↦ rw hit (All-delete k m h)
    | inr miss ↦ rw miss (q, All-delete k m h)
  ]

-- What holds of every value holds of one that is found.
pub get-All {ℓ κ} :
    {V : Type ℓ} (P : V → Type κ) (k : String) (m : Dict V) {v : V}
    → get k m ≡ some v
    → All P (values m)
    → P v
unfolding get
get-All P k [] e h = absurd cc
get-All P k ((j, w) ∷ m) {v} e (p, h) = elim (Bool-cases (j === k)) [
  | inl hit ↦ let same : w ≡ v = ground arith in subst P same p
  | inr miss ↦ get-All P k m (ground arith) h
]

-- A `Set` of texts.
unfoldable pub has : String → List String → Bool
has k [] = false
has k (j ∷ js) = j === k || has k js

unfoldable pub add : String → List String → List String
unfolding has
add k js = if has k js then js else js ++ k ∷ []
