-- ===== src/BuildQueue/Store.antt =====
-- packages/build-queue/src/memory-store.ts: the state of the store, its admission and its reads.
-- `now` is what `Date.now()` returns in a call; each call runs to its end without interleaving.
pub mod Queue
pub mod Retention
pub mod Cases
use qmk_web_app.Common.{
  ℕ, ◌+◌, ◌-◌, ◌*◌, ◌/◌, min, max, String, ◌===◌, Bool, true, false, not, ◌&&◌, Option, none, some,
  List, [], map, ltb, leb, if◌then◌else◌, length, filter, find, take, drop, holds, String-discrete,
}
use qmk_web_app.Common.Dict.{Dict, get, put, values, has, add}
use qmk_web_app.Common.Sort.{sort}
use qmk_web_app.Domain.Limits.{
  max_global_active_builds, max_active_builds_per_owner, max_builds_per_owner_per_hour,
}
use qmk_web_app.Domain.Build.{
  BuildStatus, queued, cancelled, BuildRecord, ArtifactRecord, cancelled_code, is_status,
  is_terminal, can_transition,
}
use qmk_web_app.BuildQueue.Types.{
  ListPage, ArtifactSummary, BuildSummary, BuildAdmissionCap, global_active, owner_active,
  owner_hourly, CreateBuildResult, created, replayed, rejected, CancelOutcome, outright, requested,
  already_finished, StoredArtifact,
}

pub record Lease : Type 0 where
  pub claimed_by : String
  pub lease_expires_at : ℕ

pub record Store : Type 0 where
  pub builds : Dict BuildRecord
  pub artifacts : Dict ArtifactRecord
  pub leases : Dict Lease
  pub cancel_requested : List String

abbrev pub empty : Store
empty = record { builds = []; artifacts = []; leases = []; cancel_requested = [] }

-- An `Error` thrown by `assertTransition`.
pub data Result (A : Type 0) : Type 0 where
  ok : A → Result A
  illegal_transition : (from to : BuildStatus) → Result A

infixl 5 ◌>>◌
abbrev pub ◌>>◌ : {A : Type 0} → Result (Unit {0}) → Result A → Result A
ok u >> k = k
illegal_transition s t >> k = illegal_transition s t

unfoldable pub assert_transition : BuildStatus → BuildStatus → Result (Unit {0})
assert_transition from to = if can_transition from to then ok tt else illegal_transition from to

-- `b.ownerId === ownerId`, where either side may be null.
abbrev pub same_owner : Option String → Option String → Bool
same_owner none none = true
same_owner (some a) (some b) = b === a
same_owner _ _ = false

abbrev pub owned_by : Option String → BuildRecord → Bool
owned_by owner b = same_owner owner b.owner_id

abbrev pub is_active : BuildRecord → Bool
is_active b = not (is_terminal b.status)

abbrev pub count_builds : (BuildRecord → Bool) → Dict BuildRecord → ℕ
count_builds p builds = length (filter p (values builds))

unfoldable pub count_active_global : Store → ℕ
count_active_global s = count_builds is_active s.builds

unfoldable pub count_active_for_owner : Option String → Store → ℕ
count_active_for_owner owner s = count_builds (λ b. owned_by owner b && is_active b) s.builds

-- `since` is added to both sides, so that nothing is taken from `now`.
unfoldable pub count_requested_since : Option String → (now window : ℕ) → Store → ℕ
count_requested_since owner now window s =
    count_builds (λ b. owned_by owner b && leb now (b.requested_at + window)) s.builds

unfoldable pub first_rejection :
    (global_count owner_count hourly_count : ℕ) → Option CreateBuildResult
first_rejection global_count owner_count hourly_count =
    if leb max_global_active_builds global_count
    then some (rejected global_active global_count max_global_active_builds)
    else if leb max_active_builds_per_owner owner_count
    then some (rejected owner_active owner_count max_active_builds_per_owner)
    else if leb max_builds_per_owner_per_hour hourly_count
    then some (rejected owner_hourly hourly_count max_builds_per_owner_per_hour)
    else none

-- An earlier build for the same owner under the same idempotency key.
abbrev pub same_request : BuildRecord → BuildRecord → Bool
same_request asked b = owned_by asked.owner_id b && b.idempotency_key === asked.idempotency_key

abbrev pub hour_ms : ℕ
hour_ms = 60 * 60 * 1000

-- The part of `create` behind the replay check.
unfoldable pub admit : (now : ℕ) → BuildRecord → Store → CreateBuildResult × Store
admit now asked s =
    elim (first_rejection (count_active_global s) (count_active_for_owner asked.owner_id s)
      (count_requested_since asked.owner_id now hour_ms s)) [
        | some rejection ↦ (rejection, s)
        | none ↦ (created asked, record s { builds = put asked.id asked s.builds })
      ]

unfoldable pub create : (now : ℕ) → BuildRecord → Store → CreateBuildResult × Store
create now asked s = elim (find (same_request asked) (values s.builds)) [
  | some existing ↦ (replayed existing, s)
  | none ↦ admit now asked s
]

-- The build of this id, if this owner has it.
unfoldable pub get_build : String → String → Store → Option BuildRecord
get_build id owner s = elim (get id s.builds) [
  | none ↦ none
  | some b ↦ if owned_by (some owner) b then some b else none
]

-- An empty text counts as absent where the code tests for one.
abbrev pub truthy : Option String → Option String
truthy none = none
truthy (some t) = if t === "" then none else some t

unfoldable pub stored_artifact : ArtifactRecord → StoredArtifact
stored_artifact a = record {
  storage_key = a.storage_key;
  original_filename = a.original_filename;
  byte_size = a.byte_size;
  sha256 = a.sha256;
  content_type = a.content_type;
  expires_at = a.expires_at;
}

unfoldable pub get_artifact : String → String → Store → Option StoredArtifact
get_artifact build_id owner s = elim (get_build build_id owner s) [
  | none ↦ none
  | some b ↦ elim (truthy b.artifact_id) [
    | none ↦ none
    | some artifact_id ↦ elim (get artifact_id s.artifacts) [
      | none ↦ none
      | some a ↦ some (stored_artifact a)
    ]
  ]
]

unfoldable pub to_summary : BuildRecord → Option StoredArtifact → BuildSummary
to_summary b artifact = record {
  id = b.id;
  configuration_id = b.configuration_id;
  configuration_revision = b.configuration_revision;
  status = b.status;
  failure_code = b.failure_code;
  requested_at = b.requested_at;
  started_at = b.started_at;
  completed_at = b.completed_at;
  attempt_count = b.attempt_count;
  catalog_version = b.catalog_version;
  qmk_commit = b.qmk_commit;
  generator_version = b.generator_version;
  socd_module_version = b.socd_module_version;
  artifact = elim artifact [
    | none ↦ none
    | some a ↦ some (record {
      filename = a.original_filename;
      byte_size = a.byte_size;
      sha256 = a.sha256;
      content_type = a.content_type;
      expires_at = a.expires_at;
    })
  ];
}

unfoldable pub summarize : BuildRecord → String → Store → BuildSummary
summarize b owner s = to_summary b (get_artifact b.id owner s)

abbrev pub newest_first : BuildRecord → BuildRecord → Bool
newest_first a b = ltb b.requested_at a.requested_at

-- `Math.ceil(totalItems / pageSize)`, at least 1; the page size is not 0.
unfoldable pub page_count : (total page_size : ℕ) → ℕ
page_count total page_size = max ((total + page_size - 1) / page_size) 1

-- A page of a list that is sorted already.
unfoldable pub paginate : {A : Type 0} → List A → (page page_size : ℕ) → ListPage A
paginate xs page page_size =
    let total_pages = page_count (length xs) page_size in
    let shown = min (max page 1) total_pages in
    record {
      items = take page_size (drop ((shown - 1) * page_size) xs);
      page = shown;
      page_size = page_size;
      total_items = length xs;
      total_pages = total_pages;
    }

-- The builds that a listing pages through, newest first.
unfoldable pub builds_of : String → String → Store → List BuildRecord
builds_of configuration_id owner s = sort newest_first (
    filter (λ b. owned_by (some owner) b && b.configuration_id === configuration_id)
      (values s.builds))

unfoldable pub list_for_configuration :
    String → String → (page page_size : ℕ) → Store → ListPage BuildSummary
list_for_configuration configuration_id owner page page_size s =
    let found = paginate (builds_of configuration_id owner s) page page_size in
    record {
      items = map (λ b. summarize b owner s) found.items;
      page = found.page;
      page_size = found.page_size;
      total_items = found.total_items;
      total_pages = found.total_pages;
    }

-- The branches of `requestCancellation` for a build that the owner has.
unfoldable pub cancel_build :
    (now : ℕ) → String → BuildRecord → Store → Result (Option CancelOutcome × Store)
cancel_build now id b s =
    if is_terminal b.status
    then ok (some already_finished, s)
    else if is_status b.status queued
    then assert_transition b.status cancelled
      >> ok (
        some outright,
        record s {
          builds =
              put id
                (record b {
                  status = cancelled;
                  failure_code = some cancelled_code;
                  completed_at = some now;
                })
                s.builds;
          cancel_requested = add id s.cancel_requested;
        },
      )
    else ok (some requested, record s { cancel_requested = add id s.cancel_requested })

unfoldable pub request_cancellation :
    (now : ℕ) → String → String → Store → Result (Option CancelOutcome × Store)
request_cancellation now id owner s = elim (get_build id owner s) [
  | none ↦ ok (none, s)
  | some b ↦ cancel_build now id b s
]
