-- ===== src/BuildQueue/Reap.antt =====
-- What `reap` deletes.
use qmk_web_app.Common.{
  ℕ, ◌≡◌, refl, ap, ◌∙◌, arith, String, none, some, Bool, false, not, ◌&&◌, inl, inr, ◌===◌,
  Bool-cases, List, [], ◌∷◌, if◌then◌else◌, ltb, any, filter, map,
}
use qmk_web_app.Common.Dict.{Dict, get, delete, get-delete, values}
use qmk_web_app.Domain.Build.{BuildRecord, ArtifactRecord}
use qmk_web_app.BuildQueue.Store.{Store}
use qmk_web_app.BuildQueue.Store.Retention.{expire_in, reap_artifacts, reap}

-- The retention time of an artifact is over.
abbrev pub is_over : ℕ → ArtifactRecord → Bool
is_over now a = not (ltb now a.expires_at)

reap_artifacts-keys :
    (now : ℕ) (old : List ArtifactRecord) (m : Dict BuildRecord) (artifacts : Dict ArtifactRecord)
    → (reap_artifacts now old m artifacts).artifact_keys
      ≡ map (λ a. a.storage_key) (filter (is_over now) old)
unfolding reap_artifacts
reap_artifacts-keys now [] m artifacts = refl
reap_artifacts-keys now (a ∷ old) m artifacts = elim (Bool-cases (ltb now a.expires_at)) [
  | inl e ↦ rw e (reap_artifacts-keys now old m artifacts)
  | inr e ↦ rw e (ap (◌∷◌ a.storage_key) (reap_artifacts-keys now old _ _))
]

-- An artifact of this id is over.
abbrev over_id : ℕ → String → List ArtifactRecord → Bool
over_id now id old = any (λ a. is_over now a && a.id === id) old

get-reap_artifacts :
    (now : ℕ) (id : String) (old : List ArtifactRecord) (m : Dict BuildRecord)
    (artifacts : Dict ArtifactRecord)
    → get id (reap_artifacts now old m artifacts).artifacts
      ≡ (if over_id now id old then none else get id artifacts)
unfolding reap_artifacts
get-reap_artifacts now id [] m artifacts = refl
get-reap_artifacts now id (a ∷ old) m artifacts = elim (Bool-cases (ltb now a.expires_at)) [
  | inl e ↦ rw e (get-reap_artifacts now id old m artifacts)
  | inr e ↦ rw e (
      get-reap_artifacts now id old (expire_in a.build_id (get a.build_id m) m)
        (delete a.id artifacts)
      ∙ ground (arith, get-delete a.id id artifacts))
]

-- The artifacts stand under their own ids, each id once.
abbrev pub KeyedArtifacts : Dict ArtifactRecord → Type 0
KeyedArtifacts [] = Unit {0}
KeyedArtifacts ((k, a) ∷ m) = (a.id ≡ k) × (get k m ≡ none) × KeyedArtifacts m

over_id-none :
    (now : ℕ) (id : String) (m : Dict ArtifactRecord)
    → KeyedArtifacts m
    → get id m ≡ none
    → over_id now id (values m) ≡ false
unfolding get
over_id-none now id [] w e = refl
over_id-none now id ((k, a) ∷ m) w e = ground (arith, over_id-none now id m w.2)

over_id-get :
    (now : ℕ) (id : String) (m : Dict ArtifactRecord) {a : ArtifactRecord}
    → KeyedArtifacts m
    → get id m ≡ some a
    → over_id now id (values m) ≡ is_over now a
unfolding get
over_id-get now id [] w e = cc
over_id-get now id ((k, c) ∷ m) {a} w e = elim (Bool-cases (k === id)) [
  | inl hit ↦ ground (arith, over_id-none now id m w.2)
  | inr miss ↦ ground (arith, over_id-get now id m {a = a} w.2)
]

-- Where the artifacts stand under their own ids, exactly those whose time is over are gone after
-- `reap`, and the storage keys of exactly those, in their order, are returned for the caller to
-- delete.
pub reap_artifacts_lem :
    (now log_retention : ℕ) (s : Store)
    → KeyedArtifacts s.artifacts
    → ((id : String) (a : ArtifactRecord)
        → get id s.artifacts ≡ some a
        → get id (reap now log_retention s).1.artifacts ≡ (if is_over now a then none else some a))
      × ((id : String)
          → get id s.artifacts ≡ none
          → get id (reap now log_retention s).1.artifacts ≡ none)
      × ((reap now log_retention s).0.artifact_keys
          ≡ map (λ a. a.storage_key) (filter (is_over now) (values s.artifacts)))
unfolding reap
reap_artifacts_lem now log_retention s w = (
  (λ id a e.
      get-reap_artifacts now id (values s.artifacts) s.builds s.artifacts
      ∙ ground (arith, over_id-get now id s.artifacts w e)),
  (λ id e.
      get-reap_artifacts now id (values s.artifacts) s.builds s.artifacts
      ∙ ground (arith, over_id-none now id s.artifacts w e)),
  reap_artifacts-keys now (values s.artifacts) s.builds s.artifacts,
)
