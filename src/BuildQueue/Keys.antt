-- ===== src/BuildQueue/Keys.antt =====
-- The builds of the store stand under their own ids, each id once.
use qmk_web_app.Common.{
  String, ◌≡◌, refl, arith, none, some, [], ◌∷◌, All, Bool-cases, ◌===◌, inl, inr,
}
use qmk_web_app.Common.Dict.{Dict, get, put, values, get-put}
use qmk_web_app.Domain.Build.{BuildRecord}

abbrev pub WellKeyed : Dict BuildRecord → Type 0
WellKeyed [] = Unit {0}
WellKeyed ((k, b) ∷ m) = (b.id ≡ k) × (get k m ≡ none) × WellKeyed m

-- Each of these builds is the one that a map has under its id.
abbrev pub AtHome : Dict BuildRecord → BuildRecord → Type 0
AtHome m b = get b.id m ≡ some b

AtHome-cons :
    (k : String) (b : BuildRecord) (m n : Dict BuildRecord)
    → get k m ≡ none
    → WellKeyed n
    → All (AtHome m) (values n)
    → All (AtHome ((k, b) ∷ m)) (values n)
unfolding get
AtHome-cons k b m [] fresh w h = tt
AtHome-cons k b m ((j, c) ∷ n) fresh w (at, h) = (ground arith, AtHome-cons k b m n fresh w.2 h)

pub values-AtHome : (m : Dict BuildRecord) → WellKeyed m → All (AtHome m) (values m)
unfolding get
values-AtHome [] w = tt
values-AtHome ((k, b) ∷ m) w = (ground arith, AtHome-cons k b m m w.1 w.2 (values-AtHome m w.2))

-- A build that is not there yet.
pub put-WellKeyed :
    (b : BuildRecord) (m : Dict BuildRecord)
    → get b.id m ≡ none
    → WellKeyed m
    → WellKeyed (put b.id b m)
unfolding get put
put-WellKeyed b [] fresh w = (refl, refl, tt)
put-WellKeyed b ((k, c) ∷ m) fresh w = elim (Bool-cases (k === b.id)) [
  | inl hit ↦ absurd (ground arith)
  | inr miss ↦
      rw miss (w.0, ground (arith, get-put b.id k b m), put-WellKeyed b m (ground arith) w.2)
]

pub get-id :
    (k : String) (m : Dict BuildRecord) {b : BuildRecord}
    → WellKeyed m
    → get k m ≡ some b
    → b.id ≡ k
unfolding get
get-id k [] w e = cc
get-id k ((j, c) ∷ m) {b} w e = elim (Bool-cases (j === k)) [
  | inl hit ↦ ground arith
  | inr miss ↦ get-id k m {b = b} w.2 (ground arith)
]
