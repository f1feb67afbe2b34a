-- ===== src/BuildQueue/Types.antt =====
-- packages/build-queue/src/types.ts: what the two interfaces take and return.
use qmk_web_app.Common.{ℕ, String, Option, List}
use qmk_web_app.Domain.Build.{BuildStatus, BuildFailureCode, BuildRecord}

pub record ListPage (A : Type 0) : Type 0 where
  pub items : List A
  pub page : ℕ
  pub page_size : ℕ
  pub total_items : ℕ
  pub total_pages : ℕ

-- The `artifact` field of a summary.
pub record ArtifactSummary : Type 0 where
  pub filename : String
  pub byte_size : ℕ
  pub sha256 : String
  pub content_type : String
  pub expires_at : ℕ

pub record BuildSummary : Type 0 where
  pub id : String
  pub configuration_id : String
  pub configuration_revision : ℕ
  pub status : BuildStatus
  pub failure_code : Option BuildFailureCode
  pub requested_at : ℕ
  pub started_at : Option ℕ
  pub completed_at : Option ℕ
  pub attempt_count : ℕ
  pub catalog_version : String
  pub qmk_commit : String
  pub generator_version : String
  pub socd_module_version : Option String
  pub artifact : Option ArtifactSummary

pub data BuildAdmissionCap : Type 0 where
  global_active owner_active owner_hourly : BuildAdmissionCap

pub data CreateBuildResult : Type 0 where
  created : BuildRecord → CreateBuildResult
  replayed : BuildRecord → CreateBuildResult
  rejected : BuildAdmissionCap → (observed limit : ℕ) → CreateBuildResult

pub data CancelOutcome : Type 0 where
  outright requested already_finished : CancelOutcome

-- What `getArtifact` returns.
pub record StoredArtifact : Type 0 where
  pub storage_key : String
  pub original_filename : String
  pub byte_size : ℕ
  pub sha256 : String
  pub content_type : String
  pub expires_at : ℕ

pub record ClaimedBuild : Type 0 where
  pub build_id : String
  pub configuration_id : String
  pub configuration_revision : ℕ
  pub catalog_version : String
  pub qmk_commit : String
  pub attempt_count : ℕ
  pub lease_expires_at : ℕ

-- The `artifact` field of `CompleteBuildArgs`.
pub record NewArtifact : Type 0 where
  pub id : String
  pub storage_key : String
  pub original_filename : String
  pub byte_size : ℕ
  pub sha256 : String
  pub content_type : String
  pub expires_at : ℕ

pub record CompleteBuildArgs : Type 0 where
  pub build_id : String
  pub worker_id : String
  pub artifact : NewArtifact
  pub output_format : String
  pub log_reference : Option String
  pub build_image_ref : String
  pub build_image_digest : Option String
  pub generator_version : String
  pub socd_module_version : Option String

-- `build_image_digest` may be left out or be null, and both differ; the other optional fields are
-- read the same way in both cases.
pub record FailBuildArgs : Type 0 where
  pub build_id : String
  pub worker_id : String
  pub failure_code : BuildFailureCode
  pub log_reference : Option String
  pub build_image_ref : Option String
  pub build_image_digest : Option (Option String)
  pub generator_version : Option String

pub record ReapResult : Type 0 where
  pub artifact_keys : List String
  pub log_keys : List String
  pub builds_expired : ℕ

-- `getBuildInput`; the configuration is what the revision log holds.
pub record BuildInput (Configuration : Type 0) : Type 0 where
  pub configuration : Configuration
  pub catalog_version : String
  pub qmk_commit : String
