-- ===== src/BuildQueue/Store/Retention.antt =====
-- memory-store.ts: expired leases, artifacts and logs.
use qmk_web_app.Common.{
  ℕ, suc, ◌+◌, String, Bool, true, false, Option, none, some, List, [], ◌∷◌, leb, ltb,
  if◌then◌else◌, any,
}
use qmk_web_app.Common.Dict.{Dict, get, put, delete, values}
use qmk_web_app.Domain.Build.{
  BuildStatus, queued, preparing, building, uploading, succeeded, failed, expired, sandbox_error,
  BuildRecord, ArtifactRecord, is_status,
}
use qmk_web_app.BuildQueue.Types.{ReapResult}
use qmk_web_app.BuildQueue.Store.{Lease, Store, truthy}

-- IN_FLIGHT
unfoldable pub is_in_flight : BuildStatus → Bool
is_in_flight s = any (is_status s) (preparing ∷ building ∷ uploading ∷ [])

unfoldable pub is_held : (now : ℕ) → Option Lease → Bool
is_held now none = false
is_held now (some lease) = ltb now lease.lease_expires_at

-- The body of the loop for a build that nobody holds.
unfoldable pub reclaim_build : (now max_attempts : ℕ) → BuildRecord → BuildRecord
reclaim_build now max_attempts b =
    if leb max_attempts b.attempt_count
    then record b { status = failed; failure_code = some sandbox_error; completed_at = some now }
    else record b { status = queued }

-- `continue`, for a build that the loop skips.
unfoldable pub is_skipped : (now : ℕ) → Dict Lease → BuildRecord → Bool
is_skipped now leases b = if is_in_flight b.status then is_held now (get b.id leases) else true

pub record Reclaimed : Type 0 where
  pub builds : Dict BuildRecord
  pub leases : Dict Lease
  pub requeued : ℕ
  pub failed_count : ℕ

unfoldable pub reclaim_loop : (now max_attempts : ℕ) → Dict BuildRecord → Dict Lease → Reclaimed
reclaim_loop now max_attempts [] leases = record {
  builds = [];
  leases = leases;
  requeued = 0;
  failed_count = 0;
}
reclaim_loop now max_attempts ((k, b) ∷ rest) leases =
    let skip = is_skipped now leases b in
    let r = reclaim_loop now max_attempts rest (if skip then leases else delete b.id leases) in
    record {
      builds = (k, if skip then b else reclaim_build now max_attempts b) ∷ r.builds;
      leases = r.leases;
      requeued =
          if skip
          then r.requeued
          else if leb max_attempts b.attempt_count
          then r.requeued
          else suc r.requeued;
      failed_count =
          if skip
          then r.failed_count
          else if leb max_attempts b.attempt_count
          then suc r.failed_count
          else r.failed_count;
    }

-- The result is the number of builds requeued and the number failed.
unfoldable pub reclaim_expired_leases : (now max_attempts : ℕ) → Store → (ℕ × ℕ) × Store
reclaim_expired_leases now max_attempts s =
    let r = reclaim_loop now max_attempts s.builds s.leases in
    ((r.requeued, r.failed_count), record s { builds = r.builds; leases = r.leases })

-- What the loops of `reap` carry: the maps that they change, and what they return.
pub record Reaping : Type 0 where
  pub builds : Dict BuildRecord
  pub artifacts : Dict ArtifactRecord
  pub artifact_keys : List String
  pub builds_expired : ℕ

unfoldable pub expire_build : BuildRecord → BuildRecord
expire_build b =
    if is_status b.status succeeded
    then record b { artifact_id = none; status = expired }
    else record b { artifact_id = none }

abbrev pub expired_count : Option BuildRecord → ℕ
expired_count none = 0
expired_count (some b) = if is_status b.status succeeded then 1 else 0

abbrev pub expire_in : String → Option BuildRecord → Dict BuildRecord → Dict BuildRecord
expire_in id none builds = builds
expire_in id (some b) builds = put id (expire_build b) builds

-- The loop over a copy of the artifacts.
unfoldable pub reap_artifacts :
    (now : ℕ) → List ArtifactRecord → Dict BuildRecord → Dict ArtifactRecord → Reaping
reap_artifacts now [] builds artifacts = record {
  builds = builds;
  artifacts = artifacts;
  artifact_keys = [];
  builds_expired = 0;
}
reap_artifacts now (a ∷ rest) builds artifacts =
    let skip = ltb now a.expires_at in
    let found = get a.build_id builds in
    let r =
      reap_artifacts now rest (if skip then builds else expire_in a.build_id found builds)
        (if skip then artifacts else delete a.id artifacts) in
    record {
      builds = r.builds;
      artifacts = r.artifacts;
      artifact_keys = if skip then r.artifact_keys else a.storage_key ∷ r.artifact_keys;
      builds_expired = if skip then r.builds_expired else expired_count found + r.builds_expired;
    }

-- The log to drop: the reference of a build that was completed by the cutoff. The retention is
-- added to the completion, so that nothing is taken from `now`.
unfoldable pub old_log : (now log_retention : ℕ) → BuildRecord → Option String
old_log now log_retention b = elim b.completed_at [
  | none ↦ none
  | some at ↦ if ltb now (at + log_retention) then none else truthy b.log_reference
]

abbrev pub drop_log : Option String → BuildRecord → BuildRecord
drop_log none b = b
drop_log (some l) b = record b { log_reference = none }

abbrev pub log_keys_with : Option String → List String → List String
log_keys_with none keys = keys
log_keys_with (some l) keys = l ∷ keys

unfoldable pub reap_logs :
    (now log_retention : ℕ) → Dict BuildRecord → Dict BuildRecord × List String
reap_logs now log_retention [] = ([], [])
reap_logs now log_retention ((k, b) ∷ rest) =
    let log = old_log now log_retention b in
    let (builds, keys) = reap_logs now log_retention rest in
    ((k, drop_log log b) ∷ builds, log_keys_with log keys)

unfoldable pub reap : (now log_retention : ℕ) → Store → ReapResult × Store
reap now log_retention s =
    let r = reap_artifacts now (values s.artifacts) s.builds s.artifacts in
    let (builds, log_keys) = reap_logs now log_retention r.builds in
    (
      record {
        artifact_keys = r.artifact_keys;
        log_keys = log_keys;
        builds_expired = r.builds_expired;
      },
      record s { builds = builds; artifacts = r.artifacts },
    )
