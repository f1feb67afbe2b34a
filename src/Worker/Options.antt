-- ===== src/Worker/Options.antt =====
-- services/worker/src/queue-runner.ts and run-build.ts: what the runner is given, what a compile returns
-- and how a turn ends.
use qmk_web_app.Common.{ℕ, String, Option, List}
use qmk_web_app.Common.Attempt.{Attempt}
use qmk_web_app.Domain.Build.{BuildFailureCode}
use qmk_web_app.Domain.Configuration.{Configuration}
use qmk_web_app.Domain.Catalog.{SupportedCatalogKeyboard, Catalog, ErrorCode}
use qmk_web_app.Domain.Validate.{FieldError}
use qmk_web_app.Worker.Collect.{CollectedArtifact}
use qmk_web_app.Worker.World.{Turn}

-- RunBuildResult of run-build.ts, without the duration.
pub record RunDetails : Type 0 where
  pub log : String
  pub image_ref : String
  pub image_digest : Option String

pub data RunBuildResult : Type 0 where
  run_succeeded :
      CollectedArtifact
      → RunDetails
      → (generator_version : String) → (socd_module_version : Option String) → RunBuildResult
  run_failed : BuildFailureCode → RunDetails → (generator_version : Option String) → RunBuildResult

abbrev pub details : RunBuildResult → RunDetails
details (run_succeeded a d g m) = d
details (run_failed c d g) = d

-- The messages of builds that fail before the compile, or by an error that nobody caught.
pub data FailMessage : Type 0 where
  no_revision unexpected_failure : FailMessage
  no_catalog : (version : String) → FailMessage
  invalid_configuration : ErrorCode → List FieldError → FailMessage

pub data ProcessOutcome : Type 0 where
  idle_run succeeded_run failed_run cancelled_run abandoned_run : ProcessOutcome

-- QueueRunnerOptions. `runs` is `runBuild` with its sandbox; `redacted` is a message after redactLog;
-- `uuid` is what `randomUUID` returns; `beats` is how often the heartbeat's timer fires in a compile.
pub record Options : Type 0 where
  pub worker_id : String
  pub lease_ms : ℕ
  pub lookup : String → ℕ → Option Configuration
  pub catalogs : (catalog_version keyboard_id : String) → Option Catalog
  pub runs : String → Configuration → SupportedCatalogKeyboard → Attempt String RunBuildResult
  pub redacted : FailMessage → String
  pub uuid : String
  pub beats : ℕ
  pub env : ℕ → Turn
