-- ===== src/Worker/Maintain.antt =====
-- services/worker/src/queue-runner.ts: `maintain`, which sweeps expired leases and old objects. Logs and
-- metrics are left out.
use qmk_web_app.Worker.Options.{Options}
use qmk_web_app.Common.{
  ℕ, suc, ◌+◌, String, Bool, true, false, Option, none, some, List, [], ◌∷◌, ◌++◌, ltb,
  if◌then◌else◌, length,
}
use qmk_web_app.Domain.Limits.{max_build_attempts, log_retention_ms}
use qmk_web_app.BuildQueue.Types.{ReapResult}
use qmk_web_app.BuildQueue.Store.Retention.{reclaim_expired_leases, reap}
use qmk_web_app.Worker.Keys.{build_id_from_key}
use qmk_web_app.Worker.World.{
  Action, pure, catching, ◌>>=◌, answered, on_queue, on_objects, delete_object,
}

-- RetentionOutcome and RetentionObjectRecord; the kind is a flag, and the record of a
-- sweep goes without its time, `deletedAt`; a key that does not give a
-- build id gives `none`.
pub data RetentionOutcome : Type 0 where
  was_deleted already_absent not_deleted : RetentionOutcome

pub data ObjectKind : Type 0 where
  artifact_object log_object : ObjectKind

pub record RetentionObjectRecord : Type 0 where
  pub build_id : Option String
  pub kind : ObjectKind
  pub outcome : RetentionOutcome

pub record RetentionRecord : Type 0 where
  pub builds_expired : ℕ
  pub objects : List RetentionObjectRecord

pub record Maintenance : Type 0 where
  pub requeued : ℕ
  pub failed_count : ℕ
  pub objects_deleted : ℕ
  pub retention : Option RetentionRecord

abbrev pub of_kind : ObjectKind → List String → List (String × ObjectKind)
of_kind kind [] = []
of_kind kind (k ∷ ks) = (k, kind) ∷ of_kind kind ks

abbrev pub deleted_or_absent : Bool → RetentionOutcome
deleted_or_absent true = was_deleted
deleted_or_absent false = already_absent

abbrev pub count_deleted : RetentionOutcome → ℕ → ℕ
count_deleted was_deleted n = suc n
count_deleted already_absent n = n
count_deleted not_deleted n = n

-- `reaped.artifactKeys.length + reaped.logKeys.length + reaped.buildsExpired > 0`
unfoldable pub anything_reaped : ReapResult → Bool
anything_reaped r = ltb 0 (length r.artifact_keys + length r.log_keys + r.builds_expired)

module _ (o : Options) where
  unfoldable pub delete_outcome : (key : String) → Action RetentionOutcome
  delete_outcome key =
      catching (on_objects o.env (delete_object key) >>= λ there. pure (deleted_or_absent there))
        (λ e. pure not_deleted)

  -- The loop over the objects: their records, and how many were deleted.
  unfoldable pub delete_reaped :
      List (String × ObjectKind) → Action (List RetentionObjectRecord × ℕ)
  delete_reaped [] = pure ([], 0)
  delete_reaped ((key, kind) ∷ rest) = delete_outcome key >>= λ outcome.
      delete_reaped rest >>= λ (records, n). pure (
        record { build_id = build_id_from_key key; kind = kind; outcome = outcome } ∷ records,
        count_deleted outcome n,
      )

  unfoldable pub maintain : Action Maintenance
  maintain =
      on_queue o.env (λ now s. answered (reclaim_expired_leases now max_build_attempts s))
      >>= λ reclaimed.
          on_queue o.env (λ now s. answered (reap now log_retention_ms s)) >>= λ reaped.
          delete_reaped
            (of_kind artifact_object reaped.artifact_keys ++ of_kind log_object reaped.log_keys)
          >>= λ (records, n). pure (record {
            requeued = reclaimed.0;
            failed_count = reclaimed.1;
            objects_deleted = n;
            retention =
                if anything_reaped reaped
                then some (record { builds_expired = reaped.builds_expired; objects = records })
                else none;
          })
