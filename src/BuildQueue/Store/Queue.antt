-- ===== src/BuildQueue/Store/Queue.antt =====
-- memory-store.ts: the calls of a worker.
use qmk_web_app.Common.{
  ℕ, suc, ◌+◌, String, ◌===◌, Bool, true, false, not, ◌&&◌, Option, none, some, ltb, if◌then◌else◌,
  filter, head?,
}
use qmk_web_app.Common.Dict.{get, put, delete, values, has}
use qmk_web_app.Common.Sort.{sort}
use qmk_web_app.Domain.Build.{
  BuildStatus, queued, preparing, succeeded, failed, cancelled, cancelled_code, BuildRecord,
  ArtifactRecord, is_status, is_terminal, can_transition,
}
use qmk_web_app.BuildQueue.Types.{
  ClaimedBuild, NewArtifact, CompleteBuildArgs, FailBuildArgs, BuildInput,
}
use qmk_web_app.BuildQueue.Store.{Store, Result, ok, ◌>>◌, assert_transition}

abbrev pub oldest_first : BuildRecord → BuildRecord → Bool
oldest_first a b = ltb a.requested_at b.requested_at

-- A build that a worker may take.
abbrev pub is_claimable : Store → BuildRecord → Bool
is_claimable s b = is_status b.status queued && not (has b.id s.cancel_requested)

unfoldable pub next_build : Store → Option BuildRecord
next_build s = head? (sort oldest_first (filter (is_claimable s) (values s.builds)))

abbrev pub or_else {ℓ} : {A : Type ℓ} → Option A → A → A
or_else none d = d
or_else (some a) d = a

abbrev pub claimed_build : (now : ℕ) → BuildRecord → BuildRecord
claimed_build now b = record b {
  status = preparing;
  attempt_count = suc b.attempt_count;
  started_at = some (or_else b.started_at now);
}

unfoldable pub lease_build :
    (now : ℕ) → String → (lease_ms : ℕ) → BuildRecord → Store → Option ClaimedBuild × Store
lease_build now worker_id lease_ms b s = (
  some (record {
    build_id = b.id;
    configuration_id = b.configuration_id;
    configuration_revision = b.configuration_revision;
    catalog_version = b.catalog_version;
    qmk_commit = b.qmk_commit;
    attempt_count = suc b.attempt_count;
    lease_expires_at = now + lease_ms;
  }),
  record s {
    builds = put b.id (claimed_build now b) s.builds;
    leases =
        put b.id (record { claimed_by = worker_id; lease_expires_at = now + lease_ms }) s.leases;
  },
)

unfoldable pub claim :
    (now : ℕ) → String → (lease_ms : ℕ) → Store → Result (Option ClaimedBuild × Store)
claim now worker_id lease_ms s = elim (next_build s) [
  | none ↦ ok (none, s)
  | some b ↦ assert_transition b.status preparing >> ok (lease_build now worker_id lease_ms b s)
]

-- The build, if this worker holds its lease.
unfoldable pub held_build : String → String → Store → Option BuildRecord
held_build build_id worker_id s = elim (get build_id s.builds) [
  | none ↦ none
  | some b ↦ elim (get build_id s.leases) [
    | none ↦ none
    | some lease ↦ if lease.claimed_by === worker_id then some b else none
  ]
]

-- The result is whether cancellation was requested, or `none` when the lease is not held.
unfoldable pub heartbeat :
    (now : ℕ) → String → String → (lease_ms : ℕ) → Store → Option Bool × Store
heartbeat now build_id worker_id lease_ms s = elim (held_build build_id worker_id s) [
  | none ↦ (none, s)
  | some b ↦ if is_terminal b.status then (none, s) else (
    some (has build_id s.cancel_requested),
    record s {
      leases =
          put build_id (record { claimed_by = worker_id; lease_expires_at = now + lease_ms })
            s.leases;
    },
  )
]

unfoldable pub advance : String → String → (from to : BuildStatus) → Store → Result (Bool × Store)
advance build_id worker_id from to s =
    assert_transition from to
    >> ok (elim (held_build build_id worker_id s) [
      | none ↦ (false, s)
      | some b ↦
          if is_status b.status from
          then (true, record s { builds = put build_id (record b { status = to }) s.builds })
          else (false, s)
    ])

-- `lookup` is the revision log that the store is made with.
unfoldable pub get_build_input :
    {Configuration : Type 0}
    → (String → ℕ → Option Configuration)
    → String
    → Store
    → Option (BuildInput Configuration)
get_build_input lookup build_id s = elim (get build_id s.builds) [
  | none ↦ none
  | some b ↦ elim (lookup b.configuration_id b.configuration_revision) [
    | none ↦ none
    | some c ↦ some (record {
      configuration = c;
      catalog_version = b.catalog_version;
      qmk_commit = b.qmk_commit;
    })
  ]
]

abbrev pub artifact_record : (now : ℕ) → String → NewArtifact → ArtifactRecord
artifact_record now build_id a = record {
  id = a.id;
  build_id = build_id;
  storage_key = a.storage_key;
  original_filename = a.original_filename;
  byte_size = a.byte_size;
  sha256 = a.sha256;
  content_type = a.content_type;
  expires_at = a.expires_at;
  created_at = now;
}

abbrev pub completed_build : (now : ℕ) → CompleteBuildArgs → BuildRecord → BuildRecord
completed_build now args b = record b {
  status = succeeded;
  artifact_id = some args.artifact.id;
  output_format = some args.output_format;
  log_reference = args.log_reference;
  build_image_ref = args.build_image_ref;
  build_image_digest = args.build_image_digest;
  generator_version = args.generator_version;
  socd_module_version = args.socd_module_version;
  completed_at = some now;
}

-- What the worker's last call does to a build that it holds: the change, if the status allows it.
unfoldable pub finish :
    String → String → (to : BuildStatus) → (BuildRecord → BuildRecord) → Store → Bool × Store
finish build_id worker_id to change s = elim (held_build build_id worker_id s) [
  | none ↦ (false, s)
  | some b ↦
      if can_transition b.status to
      then (
        true,
        record s { builds = put build_id (change b) s.builds; leases = delete build_id s.leases },
      )
      else (false, s)
]

unfoldable pub complete : (now : ℕ) → CompleteBuildArgs → Store → Bool × Store
complete now args s =
    let (done, s') = finish args.build_id args.worker_id succeeded (completed_build now args) s in
    (
      done,
      if done
          then record s' {
            artifacts =
                put args.artifact.id (artifact_record now args.build_id args.artifact) s'.artifacts;
          }
          else s',
    )

abbrev pub failed_build : (now : ℕ) → FailBuildArgs → BuildRecord → BuildRecord
failed_build now args b = record b {
  status = failed;
  failure_code = some args.failure_code;
  log_reference = args.log_reference;
  build_image_ref = or_else args.build_image_ref b.build_image_ref;
  build_image_digest = or_else args.build_image_digest b.build_image_digest;
  generator_version = or_else args.generator_version b.generator_version;
  completed_at = some now;
}

unfoldable pub fail : (now : ℕ) → FailBuildArgs → Store → Bool × Store
fail now args s = finish args.build_id args.worker_id failed (failed_build now args) s

abbrev pub cancelled_build : (now : ℕ) → Option String → BuildRecord → BuildRecord
cancelled_build now log_reference b = record b {
  status = cancelled;
  failure_code = some cancelled_code;
  log_reference = elim log_reference [ none ↦ b.log_reference | some l ↦ some l ];
  completed_at = some now;
}

unfoldable pub cancel : (now : ℕ) → String → String → Option String → Store → Bool × Store
cancel now build_id worker_id log_reference s =
    finish build_id worker_id cancelled (cancelled_build now log_reference) s
