-- ===== src/Configurations/Tidy.antt =====
-- Repositories whose records stand under their own ids, each once.
use qmk_web_app.Common.{
  ◌≡◌, refl, sym, ap, ◌∙◌, arith, String, ◌===◌, Bool, false, none, some, [], ◌∷◌, filter,
  Bool-cases, inl, inr,
}
use qmk_web_app.Common.Dict.{Dict, get, put, delete, values, get-put, get-delete}
use qmk_web_app.Configurations.Repository.{ConfigurationRecord}

-- Each record stands under its own id, and once.
abbrev pub Tidy : Dict ConfigurationRecord → Type 0
Tidy [] = Unit {0}
Tidy ((k, r) ∷ m) = (r.id ≡ k) × (get k m ≡ none) × Tidy m

pub Tidy-id :
    (k : String) (m : Dict ConfigurationRecord) {r : ConfigurationRecord}
    → Tidy m
    → get k m ≡ some r
    → r.id ≡ k
unfolding get
Tidy-id k [] w e = absurd cc
Tidy-id k ((j, q) ∷ m) {r} (own, once, w) e = elim (Bool-cases (j === k)) [
  | inl hit ↦ let same : q ≡ r = ground arith in ap (λ x. x.id) (sym same) ∙ ground arith
  | inr miss ↦ Tidy-id k m {r = r} w (ground arith)
]

pub Tidy-put :
    (k : String) (r : ConfigurationRecord) (m : Dict ConfigurationRecord)
    → r.id ≡ k
    → Tidy m
    → Tidy (put k r m)
unfolding put get
Tidy-put k r [] own w = (own, refl, tt)
Tidy-put k r ((j, q) ∷ m) own (own', once, w) = elim (Bool-cases (j === k)) [
  | inl hit ↦ rw hit (ground arith, once, w)
  | inr miss ↦ rw miss (own', ground (arith, get-put k j r m), Tidy-put k r m own w)
]

pub Tidy-delete : (k : String) (m : Dict ConfigurationRecord) → Tidy m → Tidy (delete k m)
unfolding delete
Tidy-delete k [] w = tt
Tidy-delete k ((j, q) ∷ m) (own, once, w) = elim (Bool-cases (j === k)) [
  | inl hit ↦ rw hit (Tidy-delete k m w)
  | inr miss ↦ rw miss (own, ground (arith, get-delete k j m), Tidy-delete k m w)
]

module _ (p : ConfigurationRecord → Bool) where
  -- A write under a key changes nothing of what passes a test that neither the old value passes nor
  -- the new one.
  pub filter-put :
      (k : String) (r : ConfigurationRecord) (m : Dict ConfigurationRecord)
      → p r ≡ false
      → ((q : ConfigurationRecord) → get k m ≡ some q → p q ≡ false)
      → filter p (values (put k r m)) ≡ filter p (values m)
  unfolding put get
  filter-put k r [] new old = rw new refl
  filter-put k r ((j, q) ∷ m) new old = elim (Bool-cases (j === k)) [
    | inl hit ↦ let gone = old q (rw hit refl) in rw (hit, new, gone) refl
    | inr miss ↦ let rest = filter-put k r m new (λ x e. old x (rw miss e)) in rw (miss, rest) refl
  ]

  pub filter-delete :
      (k : String) (m : Dict ConfigurationRecord)
      → Tidy m
      → ((q : ConfigurationRecord) → get k m ≡ some q → p q ≡ false)
      → filter p (values (delete k m)) ≡ filter p (values m)
  unfolding delete get
  filter-delete k [] w old = refl
  filter-delete k ((j, q) ∷ m) (own, once, w) old = elim (Bool-cases (j === k)) [
    | inl hit ↦
        let gone = old q (rw hit refl) in
        let rest = filter-delete k m w (λ x e. absurd (ground arith)) in rw (hit, gone, rest) refl
    | inr miss ↦ let rest = filter-delete k m w (λ x e. old x (rw miss e)) in rw (miss, rest) refl
  ]
