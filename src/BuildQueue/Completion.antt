-- ===== src/BuildQueue/Completion.antt =====
-- The calls that bring a claimed build to its success.
use qmk_web_app.Common.{ℕ, ◌≡◌, refl, ap, subst, arith, String, true, some, Bool-cases, inl, inr}
use qmk_web_app.Common.Dict.{get}
use qmk_web_app.Domain.Build.{
  preparing, building, uploading, succeeded, ArtifactRecord, can_transition,
}
use qmk_web_app.BuildQueue.Types.{ClaimedBuild, CompleteBuildArgs}
use qmk_web_app.BuildQueue.Store.{Store, ok}
use qmk_web_app.BuildQueue.Store.Queue.{
  claim, advance, finish, complete, completed_build, artifact_record,
}
use qmk_web_app.BuildQueue.Keys.{WellKeyed}
use qmk_web_app.BuildQueue.Leases.{claim_oldest}
use qmk_web_app.BuildQueue.Held.{Holding, Ended, advance-Holding, complete-Holding, get-put-same}

claim-preparing :
    (now : ℕ) (worker : String) (lease_ms : ℕ) (s : Store) (c : ClaimedBuild) (s' : Store)
    → WellKeyed s.builds
    → claim now worker lease_ms s ≡ ok (some c, s')
    → Holding c.build_id worker preparing s'
claim-preparing now worker lease_ms s c s' w e =
    let (b, at, claimable, oldest, attempt, held) = claim_oldest now worker lease_ms s c s' w e in
    (_, held, refl)

-- The artifact of a build, as it was handed in.
abbrev pub Stored : CompleteBuildArgs → Store → Type 0
Stored args s =
    (a : ArtifactRecord) × (get args.artifact.id s.artifacts ≡ some a)
    × (a.build_id ≡ args.build_id)
    × (a.storage_key ≡ args.artifact.storage_key)
    × (a.sha256 ≡ args.artifact.sha256)

complete-Stored :
    (now : ℕ) (args : CompleteBuildArgs) (s t : Store)
    → complete now args s ≡ (true, t)
    → Stored args t
unfolding complete
complete-Stored now args s t e =
    let done = finish args.build_id args.worker_id succeeded (completed_build now args) s in
    let a = artifact_record now args.build_id args.artifact in
    let put_there = get-put-same args.artifact.id a done.1.artifacts in
    elim (Bool-cases done.0) [
      | inl finished ↦
          let there : get args.artifact.id t.artifacts ≡ some a =
            subst (λ x. get args.artifact.id x.artifacts ≡ some a)
              (ap (λ r. r.1) (rw finished at e)) put_there in
          (a, there, refl, refl, refl)
      | inr refused ↦ absurd (ground arith)
    ]

-- In a store whose builds stand under their own ids, the worker that claims a build can bring it to its
-- success: its calls `advance` to building, `advance` to uploading and `complete` are accepted one after
-- another, at any time and for any artifact; then the build has succeeded and the artifact is stored.
pub claimed_completes :
    (now now' : ℕ) (worker : String) (lease_ms : ℕ) (s : Store) (c : ClaimedBuild) (s' : Store)
    (asked : CompleteBuildArgs)
    → WellKeyed s.builds
    → claim now worker lease_ms s ≡ ok (some c, s')
    → let args = record asked { build_id = c.build_id; worker_id = worker } in
      (t : Store) × (u : Store) × (v : Store) × (advance c.build_id worker preparing building s'
        ≡ ok (true, t))
      × (advance c.build_id worker building uploading t ≡ ok (true, u))
      × (complete now' args u ≡ (true, v))
      × Ended c.build_id succeeded v
      × Stored args v
unfolding can_transition
claimed_completes now now' worker lease_ms s c s' asked w e =
    let args = record asked { build_id = c.build_id; worker_id = worker } in
    let (t, first, builds) =
      advance-Holding c.build_id worker preparing building s' refl
        (claim-preparing now worker lease_ms s c s' w e) in
    let (u, second, uploads) = advance-Holding c.build_id worker building uploading t refl builds in
    let (v, third, ended) = complete-Holding uploading now' args u refl uploads in
    (t, u, v, first, second, third, ended, complete-Stored now' args u v third)
