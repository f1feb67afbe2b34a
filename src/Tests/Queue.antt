-- ===== src/Tests/Queue.antt =====
-- The build queue on a store with two builds.
use qmk_web_app.Common.{
  arith, ◌===◌, false, ℕ, ◌≡◌, ◌≢◌, ◌≤◌, refl, ap, sym, subst, String, true, false, Option, none,
  some, [], ◌∷◌, All, suc, String-discrete,
}
use qmk_web_app.Common.Dict.{get, put, values, has}
use qmk_web_app.Common.Sort.{sort, insert}
use qmk_web_app.Domain.Limits.{max_global_active_builds, max_active_builds_per_owner}
use qmk_web_app.Domain.Build.{
  uploading, queued, preparing, building, succeeded, BuildRecord, BuildStatus-discrete, transitions,
  can_transition, is_terminal, compile_failed,
}
use qmk_web_app.BuildQueue.Types.{created, replayed, ClaimedBuild, CompleteBuildArgs, FailBuildArgs}
use qmk_web_app.BuildQueue.Store.{
  Lease, Store, empty, ok, create, admit, first_rejection, count_active_global,
  count_active_for_owner, count_requested_since, assert_transition,
}
use qmk_web_app.BuildQueue.Store.Queue.{
  claim, next_build, lease_build, claimed_build, held_build, heartbeat, advance, complete, fail,
  cancel, is_claimable,
}
use qmk_web_app.BuildQueue.Keys.{WellKeyed}
use qmk_web_app.BuildQueue.Evolution.{Advances}
use qmk_web_app.BuildQueue.History.{
  Step, creates, claims, Reach, start, next, Later, Reach-Later, ended-Reach,
}
use qmk_web_app.BuildQueue.History.Admission.{reachable_WithinCaps}
use qmk_web_app.BuildQueue.Held.{Ended}
use qmk_web_app.BuildQueue.Completion.{Stored, claimed_completes}
use qmk_web_app.Domain.Build.Graph.{EndsIn, stays_succeeded}
use qmk_web_app.BuildQueue.Replay.{create_replayed}
use qmk_web_app.BuildQueue.Leases.{unheld_calls, claim_oldest, taken, claim_twice_differs}

abbrev pub build : (id key : String) (requested_at : ℕ) → BuildRecord
build id key requested_at = record {
  id = id;
  configuration_id = "c1";
  configuration_revision = 1;
  owner_id = some "ann";
  catalog_version = "v1";
  qmk_commit = "abc";
  generator_version = "g1";
  socd_module_version = none;
  build_image_ref = "image";
  build_image_digest = none;
  status = queued;
  idempotency_key = key;
  requested_at = requested_at;
  started_at = none;
  completed_at = none;
  attempt_count = 0;
  artifact_id = none;
  output_format = none;
  log_reference = none;
  failure_code = none;
}

abbrev pub first : BuildRecord
first = build "b1" "k1" 1000

abbrev pub second : BuildRecord
second = build "b2" "k2" 1500

abbrev pub one : Store
one = record empty { builds = ("b1", first) ∷ [] }

abbrev pub two : Store
two = record empty { builds = ("b1", first) ∷ ("b2", second) ∷ [] }

abbrev pub lease : Lease
lease = record { claimed_by = "w1"; lease_expires_at = 122000 }

abbrev pub after_claim : Store
after_claim = record empty {
  builds = ("b1", claimed_build 2000 first) ∷ ("b2", second) ∷ [];
  leases = ("b1", lease) ∷ [];
}

abbrev ticket : (id : String) (expires : ℕ) → ClaimedBuild
ticket id expires = record {
  build_id = id;
  configuration_id = "c1";
  configuration_revision = 1;
  catalog_version = "v1";
  qmk_commit = "abc";
  attempt_count = 1;
  lease_expires_at = expires;
}

claim_first : claim 2000 "w1" 120000 two ≡ ok (some (ticket "b1" 122000), after_claim)
unfolding claim next_build lease_build assert_transition can_transition transitions
    BuildStatus-discrete String-discrete sort insert get put has
claim_first = refl

create-first : create 1000 first empty ≡ (created first, one)
unfolding create admit first_rejection count_active_global count_active_for_owner
    count_requested_since put
create-first = refl

create-second : create 1500 second one ≡ (created second, two)
unfolding create admit first_rejection count_active_global count_active_for_owner
    count_requested_since put is_terminal transitions BuildStatus-discrete String-discrete
create-second = refl

abbrev after_second_claim : Store
after_second_claim = record empty {
  builds = ("b1", claimed_build 2000 first) ∷ ("b2", claimed_build 2100 second) ∷ [];
  leases = ("b1", lease) ∷ ("b2", record { claimed_by = "w2"; lease_expires_at = 122100 }) ∷ [];
}

claim_second :
    claim 2100 "w2" 120000 after_claim ≡ ok (some (ticket "b2" 122100), after_second_claim)
unfolding claim next_build lease_build assert_transition can_transition transitions
    BuildStatus-discrete String-discrete sort insert get put has
claim_second = refl

abbrev finished : CompleteBuildArgs
finished = record {
  build_id = "b1";
  worker_id = "w1";
  artifact = record {
    id = "a1";
    storage_key = "s1";
    original_filename = "left.uf2";
    byte_size = 4096;
    sha256 = "00";
    content_type = "application/octet-stream";
    expires_at = 604803000;
  };
  output_format = "uf2";
  log_reference = some "log1";
  build_image_ref = "image";
  build_image_digest = none;
  generator_version = "g1";
  socd_module_version = none;
}

abbrev gave_up : FailBuildArgs
gave_up = record {
  build_id = "b1";
  worker_id = "w1";
  failure_code = compile_failed;
  log_reference = none;
  build_image_ref = none;
  build_image_digest = none;
  generator_version = none;
}

two_WellKeyed : WellKeyed two.builds
unfolding get String-discrete
two_WellKeyed = (refl, refl, (refl, refl, tt))

made : Reach empty two
unfolding get String-discrete
made =
    next (next start (creates 1000 first refl refl (ap (λ r. r.1) create-first)))
      (creates 1500 second refl refl (ap (λ r. r.1) create-second))

claimed-Step : Step two after_claim
claimed-Step = claims 2000 "w1" 120000 (some (ticket "b1" 122000)) claim_first

after_create : Reach (create 1000 first empty).1 after_claim
after_create =
    subst (λ r. Reach r.1 after_claim) (sym create-first)
      (next
        (next start (
          creates 1500 second refl (unfold get String-discrete in refl)
            (ap (λ r. r.1) create-second)))
        claimed-Step)

create_replayed_example :
    (b : BuildRecord) × (get "b1" after_claim.builds ≡ some b)
    × Advances first b
    × (create 9000 (build "b9" "k1" 9000) after_claim ≡ (replayed b, after_claim))
create_replayed_example =
    create_replayed 1000 9000 first (build "b9" "k1" 9000) start (unfold get in refl) refl
      (ap (λ r. r.0) create-first) after_create refl refl

reachable_WithinCaps_example :
    (count_active_global two ≤ max_global_active_builds)
    × ((owner : Option String) → count_active_for_owner owner two ≤ max_active_builds_per_owner)
reachable_WithinCaps_example = reachable_WithinCaps made

first_in_two : get "b1" two.builds ≡ some first
unfolding get String-discrete
first_in_two = refl

Reach-Later_example : Later "b1" first after_claim
Reach-Later_example = Reach-Later "b1" first two_WellKeyed first_in_two (next start claimed-Step)

abbrev succeeded_first : BuildRecord
succeeded_first = record first { status = succeeded }

abbrev done : Store
done = record empty { builds = ("b1", succeeded_first) ∷ ("b2", second) ∷ [] }

abbrev done_claimed : Store
done_claimed = record empty {
  builds = ("b1", succeeded_first) ∷ ("b2", claimed_build 2100 second) ∷ [];
  leases = ("b2", record { claimed_by = "w2"; lease_expires_at = 122100 }) ∷ [];
}

claim_past_done : claim 2100 "w2" 120000 done ≡ ok (some (ticket "b2" 122100), done_claimed)
unfolding claim next_build lease_build assert_transition can_transition transitions
    BuildStatus-discrete String-discrete sort insert get put has
claim_past_done = refl

ended-Reach_example :
    (b' : BuildRecord) × (get "b1" done_claimed.builds ≡ some b') × EndsIn succeeded b'.status
ended-Reach_example =
    ended-Reach "b1" succeeded_first {s = done} {s' = done_claimed}
      (unfold get String-discrete in (refl, refl, (refl, refl, tt)))
      (unfold get String-discrete in refl) stays_succeeded
      (next start (claims 2100 "w2" 120000 (some (ticket "b2" 122100)) claim_past_done))

first_not_second :
    (l : Lease) → get "b1" after_claim.leases ≡ some l → l.claimed_by === "w2" ≡ false
unfolding get String-discrete
first_not_second l e =
    let same : lease ≡ l = ground arith in subst (λ x. x.claimed_by === "w2" ≡ false) same refl

unheld_calls_example :
    (heartbeat 2000 "b1" "w2" 120000 after_claim ≡ (none, after_claim))
    × (advance "b1" "w2" preparing building after_claim ≡ ok (false, after_claim))
    × (complete 2000 (record finished { build_id = "b1"; worker_id = "w2" }) after_claim
        ≡ (false, after_claim))
    × (fail 2000 (record gave_up { build_id = "b1"; worker_id = "w2" }) after_claim
        ≡ (false, after_claim))
    × (cancel 2000 "b1" "w2" none after_claim ≡ (false, after_claim))
unheld_calls_example =
    unheld_calls "b1" "w2" after_claim 2000 120000 preparing building none finished gave_up
      first_not_second (unfold can_transition transitions BuildStatus-discrete in refl)

claim_oldest_example :
    (b : BuildRecord) × (get "b1" two.builds ≡ some b)
    × (is_claimable two b ≡ true)
    × All (λ d. is_claimable two d ≡ true → b.requested_at ≤ d.requested_at) (values two.builds)
    × (1 ≡ suc b.attempt_count)
    × (held_build "b1" "w1" after_claim ≡ some (taken 2000 b))
claim_oldest_example =
    claim_oldest 2000 "w1" 120000 two (ticket "b1" 122000) after_claim two_WellKeyed claim_first

claimed_completes_example :
    let args = record finished { build_id = "b1"; worker_id = "w1" } in
    (t : Store) × (u : Store) × (v : Store) × (advance "b1" "w1" preparing building after_claim
      ≡ ok (true, t))
    × (advance "b1" "w1" building uploading t ≡ ok (true, u))
    × (complete 3000 args u ≡ (true, v))
    × Ended "b1" succeeded v
    × Stored args v
claimed_completes_example =
    claimed_completes 2000 3000 "w1" 120000 two (ticket "b1" 122000) after_claim finished
      two_WellKeyed claim_first

claim_twice_differs_example : ◌≢◌ {A = String} "b2" "b1"
claim_twice_differs_example =
    claim_twice_differs 2000 2100 "w1" "w2" 120000 120000 two after_claim after_second_claim
      (ticket "b1" 122000) (ticket "b2" 122100) two_WellKeyed claim_first claim_second
