-- ===== src/BuildQueue/History/Counts.antt =====
-- How the counts that admission reads change.
use qmk_web_app.Common.{
  ◌+◌, ◌≤◌, String, ◌≡◌, arith, Option, none, Bool, true, ◌&&◌, [], ◌∷◌, if◌then◌else◌, Bool-cases,
  inl, inr, ap,
}
use qmk_web_app.Common.Dict.{Dict, get, put}
use qmk_web_app.Domain.Build.{BuildRecord, is_terminal}
use qmk_web_app.Domain.Build.Graph.{terminal-⟶*}
use qmk_web_app.BuildQueue.Store.{count_builds, is_active, owned_by, same_owner}
use qmk_web_app.BuildQueue.Evolution.{Request, Advances, Evolves}

-- A test that no build comes to pass.
abbrev pub Falls : (BuildRecord → Bool) → Type 0
Falls p = (b b' : BuildRecord) → Advances b b' → p b' ≡ true → p b ≡ true

pub count_builds-Evolves :
    (p : BuildRecord → Bool)
    → Falls p
    → (m m' : Dict BuildRecord) → Evolves m m'
    → count_builds p m' ≤ count_builds p m
count_builds-Evolves p falls [] [] e = omega arith
count_builds-Evolves p falls [] (x ∷ m') e = absurd e
count_builds-Evolves p falls (x ∷ m) [] e = absurd e
count_builds-Evolves p falls ((k, b) ∷ m) ((k', b') ∷ m') e =
    ground (arith, count_builds-Evolves p falls m m' e.2, falls b b' e.1)

pub count_builds-put :
    (p : BuildRecord → Bool) (k : String) (b : BuildRecord) (m : Dict BuildRecord)
    → get k m ≡ none
    → count_builds p (put k b m) ≡ count_builds p m + (if p b then 1 else 0)
unfolding get put
count_builds-put p k b [] fresh = ground arith
count_builds-put p k b ((j, c) ∷ m) fresh = ground (arith, count_builds-put p k b m)

pub is_active-Falls : Falls is_active
is_active-Falls b b' a h = elim (Bool-cases (is_terminal b.status)) [
  | inl done ↦ absurd (ground (arith, terminal-⟶* done a.moves))
  | inr live ↦ rw live
]

pub owned_active-Falls : (owner : Option String) → Falls (λ b. owned_by owner b && is_active b)
owned_active-Falls owner b b' a h = ground (
  arith,
  is_active-Falls b b' a,
  ap (λ (r : Request). same_owner owner r.owner_id) a.same_request,
)
