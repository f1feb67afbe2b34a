-- ===== src/BuildQueue/Evolution.antt =====
-- How the builds of the store change: entry by entry, along the transition table, with the
-- request that a build records left as it is.
pub mod Calls
pub mod Loops
use qmk_web_app.Common.{
  ℕ, String, ◌≡◌, refl, sym, ap, subst, ◌∙◌, arith, Option, none, some, List, [], ◌∷◌, Bool-cases,
  ◌===◌, true, holds, String-discrete, Bool, inl, inr, if◌then◌else◌,
}
use qmk_web_app.Common.Dict.{Dict, get, put}
use qmk_web_app.Domain.Build.{BuildRecord}
use qmk_web_app.BuildQueue.Keys.{WellKeyed}
use qmk_web_app.Domain.Build.Graph.{◌⟶*◌, here, ⟶*_trans}

-- What a build records of the request for it.
pub record Request : Type 0 where
  pub id : String
  pub owner_id : Option String
  pub configuration_id : String
  pub configuration_revision : ℕ
  pub catalog_version : String
  pub qmk_commit : String
  pub idempotency_key : String
  pub requested_at : ℕ

abbrev pub request_of : BuildRecord → Request
request_of b = record {
  id = b.id;
  owner_id = b.owner_id;
  configuration_id = b.configuration_id;
  configuration_revision = b.configuration_revision;
  catalog_version = b.catalog_version;
  qmk_commit = b.qmk_commit;
  idempotency_key = b.idempotency_key;
  requested_at = b.requested_at;
}

-- The request stays, and the status goes along the table.
pub record Advances (b b' : BuildRecord) : Type 0 where
  pub same_request : request_of b' ≡ request_of b
  pub moves : b.status ⟶* b'.status

pub Advances-refl : (b : BuildRecord) → Advances b b
Advances-refl b = record { same_request = refl; moves = here }

pub Advances-trans : {a b c : BuildRecord} → Advances a b → Advances b c → Advances a c
Advances-trans p q = record {
  same_request = q.same_request ∙ p.same_request;
  moves = ⟶*_trans p.moves q.moves;
}

-- The same builds under the same keys, each having advanced.
abbrev pub Evolves : Dict BuildRecord → Dict BuildRecord → Type 0
Evolves [] [] = Unit {0}
Evolves [] (e ∷ m') = ⊥
Evolves (e ∷ m) [] = ⊥
Evolves ((k, b) ∷ m) ((k', b') ∷ m') = (k' ≡ k) × Advances b b' × Evolves m m'

pub Evolves-refl : (m : Dict BuildRecord) → Evolves m m
Evolves-refl [] = tt
Evolves-refl ((k, b) ∷ m) = (refl, Advances-refl b, Evolves-refl m)

pub Evolves-trans : (l m n : Dict BuildRecord) → Evolves l m → Evolves m n → Evolves l n
Evolves-trans [] [] n p q = q
Evolves-trans [] (e ∷ m) n p q = absurd p
Evolves-trans (e ∷ l) [] n p q = absurd p
Evolves-trans ((i, a) ∷ l) ((j, b) ∷ m) [] p q = absurd q
Evolves-trans ((i, a) ∷ l) ((j, b) ∷ m) ((k, c) ∷ n) p q =
    (q.0 ∙ p.0, Advances-trans p.1 q.1, Evolves-trans l m n p.2 q.2)

-- A write to an entry that is there.
pub Evolves-put :
    (k : String) (b b' : BuildRecord) (m : Dict BuildRecord)
    → get k m ≡ some b
    → Advances b b'
    → Evolves m (put k b' m)
unfolding get put
Evolves-put k b b' [] e a = cc
Evolves-put k b b' ((j, c) ∷ m) e a = elim (Bool-cases (j === k)) [
  | inl hit ↦
      let same : b ≡ c = ground arith in
      rw hit (refl, subst (λ x. Advances x b') same a, Evolves-refl m)
  | inr miss ↦ rw miss (refl, Advances-refl c, Evolves-put k b b' m (ground arith) a)
]

-- The same keys, each with a build that has advanced, or no build before and after.
pub data SameBuild (k : String) (m m' : Dict BuildRecord) : Type 0 where
  missing : get k m ≡ none → get k m' ≡ none → SameBuild k m m'
  kept :
      (b b' : BuildRecord)
      → get k m ≡ some b
      → get k m' ≡ some b'
      → Advances b b'
      → SameBuild k m m'

pub Evolves-get : (k : String) (m m' : Dict BuildRecord) → Evolves m m' → SameBuild k m m'
unfolding get
Evolves-get k [] [] e = missing refl refl
Evolves-get k [] (x ∷ m') e = absurd e
Evolves-get k (x ∷ m) [] e = absurd e
Evolves-get k ((i, b) ∷ m) ((j, b') ∷ m') (same, a, e) = elim (Bool-cases (i === k)) [
  | inl hit ↦ kept b b' (ground arith) (ground arith) a
  | inr miss ↦ elim (Evolves-get k m m' e) [
    | missing p q ↦ missing (ground arith) (ground arith)
    | kept c c' p q a' ↦ kept c c' (ground arith) (ground arith) a'
  ]
]

pub Evolves-WellKeyed : (m m' : Dict BuildRecord) → Evolves m m' → WellKeyed m → WellKeyed m'
Evolves-WellKeyed [] [] e w = w
Evolves-WellKeyed [] (x ∷ m') e w = absurd e
Evolves-WellKeyed (x ∷ m) [] e w = absurd e
Evolves-WellKeyed ((i, b) ∷ m) ((j, b') ∷ m') (same, a, e) (at, fresh, w) = (
  ap (λ r. r.id) a.same_request ∙ at ∙ sym same,
  absent (Evolves-get i m m' e),
  Evolves-WellKeyed m m' e w,
)
  where
    absent : SameBuild i m m' → get j m' ≡ none
    absent (missing p q) = subst (λ k. get k m' ≡ none) (sym same) q
    absent (kept c c' p q a') = cc
