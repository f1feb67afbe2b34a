-- ===== src/Worker/Runner/Ends/Branches.antt =====
-- The branches of a turn, for a worker that holds the build and whose store is left alone.
use qmk_web_app.Common.{
  ℕ, ◌≡◌, refl, String, Bool, true, false, Option, none, some, ltb, if◌then◌else◌,
}
use qmk_web_app.Common.Attempt.{Attempt, done, thrown}
use qmk_web_app.Domain.Build.{
  BuildStatus, preparing, building, uploading, failed, generation_failed, sandbox_error,
  is_terminal, can_transition,
}
use qmk_web_app.Domain.Configuration.{Configuration}
use qmk_web_app.Domain.Catalog.{SupportedCatalogKeyboard, Catalog}
use qmk_web_app.Domain.Validate.{Validated, refused, accepted, validate_configuration}
use qmk_web_app.BuildQueue.Types.{ClaimedBuild, BuildInput}
use qmk_web_app.BuildQueue.Store.{Store}
use qmk_web_app.Worker.Keys.{is_uuid, artifact_key}
use qmk_web_app.Worker.World.{
  WorkerError, lease_lost, unavailable, of_transition, of_objects, of_run, Action, pure, lift,
  ◌>>=◌, put_object,
}
use qmk_web_app.Worker.World.Calm.{
  IsCalm, IsOther, Meets, bind-Meets, catching-Meets, weaken-Meets, on_objects-Meets,
}
use qmk_web_app.Worker.Collect.{CollectedArtifact}
use qmk_web_app.Worker.Options.{
  RunDetails, RunBuildResult, run_succeeded, run_failed, details, no_revision, unexpected_failure,
  no_catalog, invalid_configuration, ProcessOutcome, failed_run, Options,
}
use qmk_web_app.Worker.Runner.{
  ran, fail_run, fail_quietly, publish, record_result, cancel_after, after_run, run_validated,
  run_input, recover,
}
use qmk_web_app.Worker.Runner.Calls.{
  EndsAs, put_object-Fine, cancel_requested-Meets, cancel_run-Meets, delete_if-Meets,
  store_log-Meets, fail_held-Meets, fail_run-Meets, failed-Meets, advance_held-Meets,
  beat_while-Meets, complete_held-Meets,
}
use qmk_web_app.BuildQueue.Held.{Holding, Ended}

-- The worker holds the build, and the build may fail.
abbrev pub Failable : Options → (id : String) → Store → Type 0
Failable o id s =
    (st : BuildStatus) × (can_transition st failed ≡ true) × Holding id o.worker_id st s

module _ (o : Options) (calm : IsCalm o.env) (id : String) (uuid : is_uuid id ≡ true) where
  abbrev H : BuildStatus → Store → Type 0
  H = Holding id o.worker_id

  publish-Meets :
      (attempts : ℕ) (a : CollectedArtifact) (log : Option String) (d : RunDetails)
      (version : String) (socd_version : Option String)
      → Meets
          (H building)
          (publish o id attempts a log d version socd_version)
          (EndsAs id)
          (Failable o id)
  unfolding publish artifact_key can_transition
  publish-Meets attempts a log d version socd_version =
      let may_fail : (s : Store) → H uploading s → Failable o id s = λ s h. (uploading, refl, h) in
      bind-Meets (advance_held-Meets o calm id uuid building uploading refl) λ u.
        bind-Meets {Q = λ key s. H uploading s} (record { after = λ w h. rw uuid h })
          λ key.
            bind-Meets
              (weaken-Meets may_fail
                (delete_if-Meets o calm id uuid (H uploading) (ltb 1 attempts) key))
              λ v.
                bind-Meets
                  (weaken-Meets may_fail (
                    on_objects-Meets calm (put_object key a.contents)
                      (put_object-Fine key a.contents)))
                  λ x. complete_held-Meets o calm id uuid key a log d version socd_version

  record_result-Meets :
      (attempts : ℕ) (r : RunBuildResult) (log : Option String)
      → Meets (H building) (record_result o id attempts r log) (EndsAs id) (Failable o id)
  unfolding record_result can_transition
  record_result-Meets attempts (run_failed code d version) log =
      bind-Meets (fail_held-Meets o calm id uuid building _ refl refl refl)
        λ u. record { after = λ w ended. ended }
  record_result-Meets attempts (run_succeeded a d version socd_version) log =
      publish-Meets attempts a log d version socd_version

  cancel_after-Meets :
      (cancelling : Bool) {R : Store → Type 0}
      → Meets (H building) (cancel_after o cancelling id) (λ c s. H building s) R
  unfolding cancel_after is_terminal
  cancel_after-Meets true = record { after = λ w h. h }
  cancel_after-Meets false = cancel_requested-Meets o calm id uuid building refl

  pub if-Meets :
      {P : Store → Type 0} {Q : ProcessOutcome → Store → Type 0} {R : Store → Type 0}
      {m n : Action ProcessOutcome} (b : Bool)
      → Meets P m Q R
      → Meets P n Q R
      → Meets P (if b then m else n) Q R
  if-Meets true p q = p
  if-Meets false p q = q

  after_run-Meets :
      (attempts : ℕ) (cancelling : Bool) (r : RunBuildResult)
      → Meets (H building) (after_run o id attempts cancelling r) (EndsAs id) (Failable o id)
  unfolding after_run can_transition
  after_run-Meets attempts cancelling r = bind-Meets (cancel_after-Meets cancelling) λ stop.
      bind-Meets (store_log-Meets o calm id uuid (H building) (details r).log attempts) λ log.
        if-Meets stop (cancel_run-Meets o calm id uuid building log refl)
          (record_result-Meets attempts r log)

  ran-Meets :
      (t : Attempt String RunBuildResult)
      → Meets (H building) (lift (ran t)) (λ r s. H building s) (Failable o id)
  unfolding can_transition
  ran-Meets (done r) = record { after = λ w h. h }
  ran-Meets (thrown m) = record { after = λ w h. (tt, (building, refl, h)) }

  run_validated-Meets :
      (attempts : ℕ) (c : Configuration) (k : SupportedCatalogKeyboard)
      → Meets (H preparing) (run_validated o id attempts c k) (EndsAs id) (Failable o id)
  unfolding run_validated can_transition
  run_validated-Meets attempts c k =
      bind-Meets (advance_held-Meets o calm id uuid preparing building refl) λ u.
        bind-Meets (beat_while-Meets o calm id uuid o.beats false) λ flags. record {
          after = λ w (there, h). rw there (
              (bind-Meets (ran-Meets (o.runs id c k)) (after_run-Meets attempts flags.1)).after w
                h);
        }

  validated-Meets :
      (attempts : ℕ) (v : Validated)
      → Meets
          (H preparing)
          (elim v as (λ x. Action ProcessOutcome) [
            | refused code errors ↦
                fail_run o id generation_failed (invalid_configuration code errors) >>= λ u.
                pure failed_run
            | accepted c k ↦ run_validated o id attempts c k
          ])
          (EndsAs id)
          (Failable o id)
  unfolding can_transition
  validated-Meets attempts (refused code errors) =
      failed-Meets o calm id uuid preparing generation_failed _ refl
  validated-Meets attempts (accepted c k) = run_validated-Meets attempts c k

  run_input-Meets :
      (attempts : ℕ) (input : BuildInput Configuration)
      → Meets (H preparing) (run_input o id attempts input) (EndsAs id) (Failable o id)
  unfolding run_input can_transition
  run_input-Meets attempts input =
      with_catalog (o.catalogs input.catalog_version input.configuration.keyboard_id)
    where
      with_catalog :
          (found : Option Catalog)
          → Meets
              (H preparing)
              (elim found as (λ x. Action ProcessOutcome) [
                | none ↦ fail_run o id generation_failed (no_catalog input.catalog_version) >>= λ u.
                    pure failed_run
                | some catalog ↦ elim (validate_configuration catalog input.configuration) [
                  | refused code errors ↦
                      fail_run o id generation_failed (invalid_configuration code errors) >>= λ u.
                      pure failed_run
                  | accepted c k ↦ run_validated o id attempts c k
                ]
              ])
              (EndsAs id)
              (Failable o id)
      with_catalog none = failed-Meets o calm id uuid preparing generation_failed _ refl
      with_catalog (some catalog) =
          validated-Meets attempts (validate_configuration catalog input.configuration)

  pub found-Meets :
      (claimed : ClaimedBuild) (found : Option (BuildInput Configuration))
      → Meets
          (H preparing)
          (elim found as (λ x. Action ProcessOutcome) [
            | none ↦ fail_run o id generation_failed no_revision >>= λ u. pure failed_run
            | some input ↦ run_input o id claimed.attempt_count input
          ])
          (EndsAs id)
          (Failable o id)
  unfolding can_transition
  found-Meets claimed none =
      failed-Meets o calm id uuid preparing generation_failed no_revision refl
  found-Meets claimed (some input) = run_input-Meets claimed.attempt_count input

  fail_quietly-Meets :
      (st : BuildStatus) {R : Store → Type 0}
      → can_transition st failed ≡ true
      → Meets
          (H st)
          (fail_quietly o id sandbox_error unexpected_failure)
          (λ u s. Ended id failed s)
          R
  unfolding fail_quietly
  fail_quietly-Meets st legal =
      catching-Meets {R' = λ s. ⊥}
        (fail_run-Meets o calm id uuid st sandbox_error unexpected_failure legal)
        λ e other. record { after = λ w none. absurd none }

  quietly-Meets :
      {R : Store → Type 0}
      → Meets
          (Failable o id)
          (fail_quietly o id sandbox_error unexpected_failure >>= λ u. pure failed_run)
          (EndsAs id)
          R
  quietly-Meets =
      bind-Meets {Q = λ u s. Ended id failed s}
        (record { after = λ w (st, legal, h). (fail_quietly-Meets st legal).after w h })
        λ u. record { after = λ w ended. ended }

  pub recover-Meets :
      (e : WorkerError) {R : Store → Type 0}
      → IsOther e
      → Meets (Failable o id) (recover o id e) (EndsAs id) R
  unfolding recover
  recover-Meets lease_lost other = absurd other
  recover-Meets unavailable other = quietly-Meets
  recover-Meets (of_transition from to) other = quietly-Meets
  recover-Meets (of_objects e) other = quietly-Meets
  recover-Meets (of_run m) other = quietly-Meets
