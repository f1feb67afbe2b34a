-- ===== src/Worker/Runner.antt =====
-- services/worker/src/queue-runner.ts: claim a build, run it, record the result. Logs and metrics are
-- left out.
pub mod Truth
pub mod Calls
pub mod Ends
pub mod Sweep
use qmk_web_app.Worker.Options.{
  FailMessage, Options, ProcessOutcome, RunBuildResult, RunDetails, abandoned_run, cancelled_run,
  details, failed_run, idle_run, invalid_configuration, no_catalog, no_revision, run_failed,
  run_succeeded, succeeded_run, unexpected_failure,
}
use qmk_web_app.Common.{
  ℕ, zero, suc, ◌+◌, String, Bool, true, false, not, Option, none, some, List, [], ◌∷◌, ◌++◌, ltb,
  if◌then◌else◌, length,
}
use qmk_web_app.Common.Dict.{Dict}
use qmk_web_app.Common.Attempt.{Attempt, done, thrown}
use qmk_web_app.Domain.Limits.{artifact_retention_ms, max_build_attempts, log_retention_ms}
use qmk_web_app.Domain.Build.{
  BuildStatus, preparing, building, uploading, BuildFailureCode, generation_failed, sandbox_error,
}
use qmk_web_app.Domain.Configuration.{Configuration}
use qmk_web_app.Domain.Catalog.{SupportedCatalogKeyboard, Catalog, ErrorCode}
use qmk_web_app.Domain.Validate.{FieldError, Validated, refused, accepted, validate_configuration}
use qmk_web_app.BuildQueue.Types.{
  ClaimedBuild, NewArtifact, CompleteBuildArgs, FailBuildArgs, BuildInput, ReapResult,
}
use qmk_web_app.BuildQueue.Store.{Store}
use qmk_web_app.BuildQueue.Store.Queue.{
  claim, heartbeat, advance, get_build_input, complete, fail, cancel,
}
use qmk_web_app.BuildQueue.Store.Retention.{reclaim_expired_leases, reap}
use qmk_web_app.Worker.Collect.{CollectedArtifact}
use qmk_web_app.Worker.Keys.{ArtifactStoreError, artifact_key, log_key, build_id_from_key}
use qmk_web_app.Worker.World.{
  WorkerError, lease_lost, of_objects, of_run, Turn, Action, pure, raise, lift, catching, ◌>>=◌,
  checked, answered, on_queue, on_objects, put_object, delete_object,
}

abbrev pub keyed : Attempt ArtifactStoreError String → Attempt WorkerError String
keyed (done k) = done k
keyed (thrown e) = thrown (of_objects e)

abbrev pub ran : Attempt String RunBuildResult → Attempt WorkerError RunBuildResult
ran (done r) = done r
ran (thrown m) = thrown (of_run m)

module _ (o : Options) where
  abbrev pub beat : (build_id : String) → Action (Option Bool)
  beat id = on_queue o.env λ now s. answered (heartbeat now id o.worker_id o.lease_ms s)

  unfoldable pub cancel_requested : (build_id : String) → Action Bool
  cancel_requested id = beat id >>= λ b. elim b [ none ↦ raise lease_lost | some c ↦ pure c ]

  unfoldable pub cancel_run :
      (build_id : String) → (log_reference : Option String) → Action ProcessOutcome
  cancel_run id log =
      on_queue o.env (λ now s. answered (cancel now id o.worker_id log s)) >>= λ held.
      if held then pure cancelled_run else raise lease_lost

  unfoldable pub delete_if : Bool → (key : String) → Action (Unit {0})
  delete_if true key = on_objects o.env (delete_object key) >>= λ existed. pure tt
  delete_if false key = pure tt

  unfoldable pub store_log :
      (build_id contents : String) → (attempt_count : ℕ) → Action (Option String)
  store_log id contents attempts = lift (keyed (log_key id)) >>= λ key.
      catching
        (delete_if (ltb 1 attempts) key >>= λ u.
          on_objects o.env (put_object key contents) >>= λ v. pure (some key))
        (λ e. pure none)

  -- `queue.fail`, which must find the lease held.
  unfoldable pub fail_held : FailBuildArgs → Action (Unit {0})
  fail_held args = on_queue o.env (λ now s. answered (fail now args s)) >>= λ held.
      if held then pure tt else raise lease_lost

  unfoldable pub fail_run : (build_id : String) → BuildFailureCode → FailMessage → Action (Unit {0})
  fail_run id code message = store_log id (o.redacted message) 1 >>= λ log. fail_held (record {
    build_id = id;
    worker_id = o.worker_id;
    failure_code = code;
    log_reference = log;
    build_image_ref = none;
    build_image_digest = none;
    generator_version = none;
  })

  unfoldable pub fail_quietly :
      (build_id : String) → BuildFailureCode → FailMessage → Action (Unit {0})
  fail_quietly id code message = catching (fail_run id code message) (λ e. pure tt)

  -- What the timer's heartbeats have seen: whether the lease is there, and whether cancellation is
  -- asked for. A call that fails tells nothing.
  unfoldable pub seen : Option Bool → (lease_seen cancel_seen : Bool) → Bool × Bool
  seen none lease cancelling = (false, cancelling)
  seen (some true) lease cancelling = (lease, true)
  seen (some false) lease cancelling = (lease, cancelling)

  unfoldable pub beat_while :
      (beats : ℕ) (build_id : String) (lease_seen cancel_seen : Bool) → Action (Bool × Bool)
  beat_while zero id lease cancelling = pure (lease, cancelling)
  beat_while (suc n) id lease cancelling =
      catching (beat id >>= λ b. pure (seen b lease cancelling)) (λ e. pure (lease, cancelling))
      >>= λ flags. beat_while n id flags.0 flags.1

  unfoldable pub advance_held : (build_id : String) (from to : BuildStatus) → Action (Unit {0})
  advance_held id from to =
      on_queue o.env (λ now s. checked s (advance id o.worker_id from to s)) >>= λ moved.
      if moved then pure tt else raise lease_lost

  unfoldable pub completion :
      (now : ℕ) (build_id key : String)
      → CollectedArtifact
      → (log_reference : Option String) → RunDetails
      → (generator_version : String) → (socd_module_version : Option String) → CompleteBuildArgs
  completion now id key a log d version socd_version = record {
    build_id = id;
    worker_id = o.worker_id;
    artifact = record {
      id = o.uuid;
      storage_key = key;
      original_filename = a.filename;
      byte_size = a.byte_size;
      sha256 = a.sha256;
      content_type = a.content_type;
      expires_at = now + artifact_retention_ms;
    };
    output_format = a.extension;
    log_reference = log;
    build_image_ref = d.image_ref;
    build_image_digest = d.image_digest;
    generator_version = version;
    socd_module_version = socd_version;
  }

  -- From `queue.complete` on; what was uploaded for nothing is taken away again.
  unfoldable pub complete_held :
      (build_id key : String)
      → CollectedArtifact
      → (log_reference : Option String) → RunDetails
      → (generator_version : String) → (socd_module_version : Option String) → Action ProcessOutcome
  complete_held id key a log d version socd_version =
      on_queue o.env
        (λ now s. answered (complete now (completion now id key a log d version socd_version) s))
      >>= λ completed.
          if completed
          then pure succeeded_run
          else (catching (delete_if true key) (λ e. pure tt) >>= λ u. raise lease_lost)

  unfoldable pub publish :
      (build_id : String) (attempt_count : ℕ)
      → CollectedArtifact
      → (log_reference : Option String) → RunDetails
      → (generator_version : String) → (socd_module_version : Option String) → Action ProcessOutcome
  publish id attempts a log d version socd_version = advance_held id building uploading >>= λ u.
      lift (keyed (artifact_key id)) >>= λ key. delete_if (ltb 1 attempts) key >>= λ v.
      on_objects o.env (put_object key a.contents) >>= λ w.
      complete_held id key a log d version socd_version

  -- What is done with the result of the compile, after its log has been stored.
  unfoldable pub record_result :
      (build_id : String) (attempt_count : ℕ)
      → RunBuildResult
      → (log_reference : Option String) → Action ProcessOutcome
  record_result id attempts (run_failed code d version) log =
      fail_held (record {
        build_id = id;
        worker_id = o.worker_id;
        failure_code = code;
        log_reference = log;
        build_image_ref = some d.image_ref;
        build_image_digest = some d.image_digest;
        generator_version = version;
      })
      >>= λ u. pure failed_run
  record_result id attempts (run_succeeded a d version socd_version) log =
      publish id attempts a log d version socd_version

  -- `cancelSeen || (await this.#cancelRequested(buildId))`
  unfoldable pub cancel_after : (cancel_seen : Bool) (build_id : String) → Action Bool
  cancel_after true id = pure true
  cancel_after false id = cancel_requested id

  unfoldable pub after_run :
      (build_id : String) (attempt_count : ℕ) (cancel_seen : Bool)
      → RunBuildResult
      → Action ProcessOutcome
  after_run id attempts cancelling r = cancel_after cancelling id >>= λ stop.
      store_log id (details r).log attempts >>= λ log.
      if stop then cancel_run id log else record_result id attempts r log

  unfoldable pub run_validated :
      (build_id : String) (attempt_count : ℕ)
      → Configuration
      → SupportedCatalogKeyboard
      → Action ProcessOutcome
  run_validated id attempts c k = advance_held id preparing building >>= λ u.
      beat_while o.beats id true false >>= λ flags. lift (ran (o.runs id c k)) >>= λ r.
      if flags.0 then after_run id attempts flags.1 r else raise lease_lost

  -- The stored configuration has the shape that `parseConfiguration` checks, so that of validation only
  -- the part behind it is left.
  unfoldable pub run_input :
      (build_id : String) (attempt_count : ℕ) → BuildInput Configuration → Action ProcessOutcome
  run_input id attempts input =
      elim (o.catalogs input.catalog_version input.configuration.keyboard_id) [
        | none ↦ fail_run id generation_failed (no_catalog input.catalog_version) >>= λ u.
            pure failed_run
        | some catalog ↦ elim (validate_configuration catalog input.configuration) [
          | refused code errors ↦
              fail_run id generation_failed (invalid_configuration code errors) >>= λ u.
              pure failed_run
          | accepted c k ↦ run_validated id attempts c k
        ]
      ]

  unfoldable pub process : ClaimedBuild → Action ProcessOutcome
  process claimed = cancel_requested claimed.build_id >>= λ stop.
      if stop
      then cancel_run claimed.build_id none
      else (on_queue o.env (λ now s. (done (get_build_input o.lookup claimed.build_id s), s))
          >>= λ found. elim found [
            | none ↦
                fail_run claimed.build_id generation_failed no_revision >>= λ u. pure failed_run
            | some input ↦ run_input claimed.build_id claimed.attempt_count input
          ])

  unfoldable pub recover : (build_id : String) → WorkerError → Action ProcessOutcome
  recover id lease_lost = pure abandoned_run
  recover id _ = fail_quietly id sandbox_error unexpected_failure >>= λ u. pure failed_run

  unfoldable pub run_once : Action ProcessOutcome
  run_once = on_queue o.env (λ now s. checked s (claim now o.worker_id o.lease_ms s)) >>= λ found.
      elim found [
        | none ↦ pure idle_run
        | some claimed ↦ catching (process claimed) (recover claimed.build_id)
      ]
