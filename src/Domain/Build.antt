-- ===== src/Domain/Build.antt =====
-- packages/domain/src/build.ts: build and artifact records, and the build state machine.
-- An ISO timestamp is the number of milliseconds that it stands for.
pub mod Graph
use qmk_web_app.Common.{ℕ, String, Bool, true, false, ◌||◌, Option, List, [], ◌∷◌, any, holds}

pub data BuildStatus : Type 0 where
  queued preparing building uploading succeeded failed cancelled expired : BuildStatus

unfoldable pub BuildStatus-discrete : Discrete BuildStatus
BuildStatus-discrete = hlevel

-- Two statuses compared by `===`.
abbrev pub is_status : BuildStatus → BuildStatus → Bool
is_status s t = holds (BuildStatus-discrete s t)

-- The table TRANSITIONS.
unfoldable pub transitions : BuildStatus → List BuildStatus
transitions queued = preparing ∷ cancelled ∷ failed ∷ []
transitions preparing = building ∷ queued ∷ cancelled ∷ failed ∷ []
transitions building = uploading ∷ queued ∷ cancelled ∷ failed ∷ []
transitions uploading = succeeded ∷ queued ∷ failed ∷ []
transitions succeeded = expired ∷ []
transitions failed = []
transitions cancelled = []
transitions expired = []

unfoldable pub can_transition : BuildStatus → BuildStatus → Bool
unfolding transitions BuildStatus-discrete
can_transition from to = any (λ s. is_status s to) (transitions from)

is_empty : List BuildStatus → Bool
is_empty [] = true
is_empty (s ∷ ss) = false

unfoldable pub is_terminal : BuildStatus → Bool
unfolding transitions is_empty BuildStatus-discrete
is_terminal s = is_empty (transitions s) || is_status s succeeded

pub data BuildFailureCode : Type 0 where
  compile_failed timeout resource_limit generation_failed : BuildFailureCode
  artifact_not_produced artifact_rejected sandbox_error cancelled_code : BuildFailureCode

pub record BuildRecord : Type 0 where
  pub id : String
  pub configuration_id : String
  pub configuration_revision : ℕ
  pub owner_id : Option String
  pub catalog_version : String
  pub qmk_commit : String
  pub generator_version : String
  pub socd_module_version : Option String
  pub build_image_ref : String
  pub build_image_digest : Option String
  pub status : BuildStatus
  pub idempotency_key : String
  pub requested_at : ℕ
  pub started_at : Option ℕ
  pub completed_at : Option ℕ
  pub attempt_count : ℕ
  pub artifact_id : Option String
  pub output_format : Option String
  pub log_reference : Option String
  pub failure_code : Option BuildFailureCode

pub record ArtifactRecord : Type 0 where
  pub id : String
  pub build_id : String
  pub storage_key : String
  pub original_filename : String
  pub byte_size : ℕ
  pub sha256 : String
  pub content_type : String
  pub expires_at : ℕ
  pub created_at : ℕ
