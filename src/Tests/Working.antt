-- ===== src/Tests/Working.antt =====
-- A worker that takes the one build of a store, and its housekeeping.
use qmk_web_app.Common.{
  ℕ, ◌+◌, ◌≡◌, refl, ◌⊎◌, ◌↔◌, String, String-discrete, true, none, some, [], ◌∷◌,
}
use qmk_web_app.Common.Dict.{get, put, delete, has}
use qmk_web_app.Common.Sort.{sort, insert}
use qmk_web_app.Common.Decimal.{decimal}
use qmk_web_app.Common.Texts.{starts_with, slice_from, slice_to, text_length, every_char}
use qmk_web_app.Common.Attempt.{done}
use qmk_web_app.Domain.Build.{
  BuildRecord, BuildStatus-discrete, transitions, can_transition, is_terminal, failed,
}
use qmk_web_app.Domain.Socd.{is_pair, socd_available}
use qmk_web_app.Domain.Validate.{
  number_from, is_position, binding_errors, layer_errors, direction_errors, pair_errors, is_bound,
  bound_errors, finish_validation, validate_fields, require_supported_keyboard, validate_layout,
  validate_configuration,
}
use qmk_web_app.Domain.Identifiers.{is_hex}
use qmk_web_app.BuildQueue.Store.{empty, assert_transition}
use qmk_web_app.BuildQueue.Store.Queue.{
  claim, next_build, lease_build, held_build, heartbeat, advance, get_build_input, finish, complete,
}
use qmk_web_app.BuildQueue.Store.Retention.{
  is_in_flight, is_held, is_skipped, reclaim_build, reclaim_loop, reclaim_expired_leases, reap,
  reap_artifacts, reap_logs, old_log, expire_build,
}
use qmk_web_app.Worker.Keys.{
  is_dash_place, matches_uuid_from, is_uuid, artifact_key, log_key, is_id_char, matched_id,
  assert_valid_key, build_id_from_key,
}
use qmk_web_app.Worker.Keys.Inverse.{build_id_from_key_lem}
use qmk_web_app.Worker.World.{
  works, Turn, World, catching, ◌>>=◌, on_queue, on_objects, put_object, delete_object,
}
use qmk_web_app.Worker.World.Calm.{IsCalm}
use qmk_web_app.Worker.Options.{
  RunBuildResult, run_succeeded, ProcessOutcome, succeeded_run, Options,
}
use qmk_web_app.Worker.Maintain.{
  Maintenance, log_object, already_absent, anything_reaped, delete_outcome, delete_reaped, maintain,
}
use qmk_web_app.Worker.Runner.{
  cancel_requested, delete_if, store_log, seen, beat_while, advance_held, completion, complete_held,
  publish, record_result, cancel_after, after_run, run_validated, run_input, process, run_once,
}
use qmk_web_app.Worker.Runner.Truth.{Honest, run_once-Honest}
use qmk_web_app.Worker.Runner.Calls.{EndsAs}
use qmk_web_app.Worker.Runner.Ends.{run_once-Ends}
use qmk_web_app.Worker.Runner.Sweep.{Summary, maintain-Recorded}
use qmk_web_app.Tests.Targets.{catalog, gaming}
use qmk_web_app.Tests.Queue.{build}

abbrev id : String
id = "0a1b2c3d-0000-4000-8000-000000000007"

abbrev waiting : BuildRecord
waiting = record (build id "k1" 1000) { catalog_version = "0.33.13-3" }

abbrev world : World
world = record { store = record empty { builds = (id, waiting) ∷ [] }; objects = []; turn = 0 }

abbrev quiet_turn : ℕ → Turn
quiet_turn k = record {
  now = 2000 + k;
  queue_fate = works;
  object_fate = works;
  others = λ s. s;
  other_objects = λ d. d;
}

abbrev firmware : RunBuildResult
firmware =
    run_succeeded
      (record {
        filename = "crkbd_rev1.uf2";
        extension = "uf2";
        byte_size = 3;
        sha256 = "9f";
        content_type = "application/octet-stream";
        contents = "FFF";
      })
      (record { log = "ok"; image_ref = "image"; image_digest = none }) "1.1.0" (some "1.0.0")

abbrev options : Options
options = record {
  worker_id = "w1";
  lease_ms = 120000;
  lookup = λ c r. some (gaming "0.33.13-3");
  catalogs = λ version keyboard. some (catalog "0.33.13-3");
  runs = λ b c k. done firmware;
  redacted = λ m. "failed";
  uuid = "a1";
  beats = 2;
  env = quiet_turn;
}

quiet : IsCalm quiet_turn
quiet = record { alone = λ k s. refl; queue_works = λ k. refl }

id_fits : is_uuid id ≡ true
unfolding is_uuid matches_uuid_from is_dash_place is_hex
id_fits = refl

id_waits : next_build world.store ≡ some waiting
unfolding next_build sort insert has BuildStatus-discrete String-discrete
id_waits = refl

builds_firmware : (run_once options world).0 ≡ done succeeded_run
unfolding run_once ◌>>=◌ catching on_queue on_objects claim next_build sort insert has lease_build
    assert_transition can_transition transitions BuildStatus-discrete String-discrete get put delete
    process cancel_requested heartbeat held_build is_terminal get_build_input run_input
    validate_configuration validate_layout validate_fields require_supported_keyboard
    finish_validation layer_errors binding_errors number_from is_position direction_errors
    pair_errors is_pair bound_errors is_bound socd_available decimal run_validated advance_held
    advance beat_while seen after_run cancel_after store_log log_key is_uuid matches_uuid_from
    is_dash_place is_hex delete_if put_object assert_valid_key matched_id starts_with slice_from
    slice_to text_length every_char is_id_char record_result publish artifact_key complete_held
    complete completion finish
builds_firmware = refl

run_once-Ends_example :
    (outcome : ProcessOutcome) × ((run_once options world).0 ≡ done outcome)
    × EndsAs id outcome (run_once options world).1.store
run_once-Ends_example = run_once-Ends options world waiting quiet id_waits id_fits

run_once-Honest_example : Honest options world succeeded_run (run_once options world).1.store
run_once-Honest_example = run_once-Honest options world succeeded_run builds_firmware

build_id_from_key_lem_example :
    ((artifact_key id ≡ done "builds/0a1b2c3d-0000-4000-8000-000000000007/log")
      ⊎ (log_key id ≡ done "builds/0a1b2c3d-0000-4000-8000-000000000007/log"))
    ↔ (build_id_from_key "builds/0a1b2c3d-0000-4000-8000-000000000007/log" ≡ some id)
build_id_from_key_lem_example =
    build_id_from_key_lem "builds/0a1b2c3d-0000-4000-8000-000000000007/log" id

abbrev old_log_key : String
old_log_key = "builds/0a1b2c3d-0000-4000-8000-000000000007/log"

-- A build that failed long ago, whose log is not there any more, and a queue that is late.
abbrev old_world : World
old_world = record {
  store = record empty {
    builds =
        (
          id,
          record waiting {
            status = failed;
            completed_at = some 5;
            log_reference = some old_log_key;
          },
        )
        ∷ [];
  };
  objects = [];
  turn = 700000000;
}

abbrev cleaned : Maintenance
cleaned = record {
  requeued = 0;
  failed_count = 0;
  objects_deleted = 0;
  retention = some (record {
    builds_expired = 0;
    objects = record { build_id = some id; kind = log_object; outcome = already_absent } ∷ [];
  });
}

maintain-old : (maintain options old_world).0 ≡ done cleaned
unfolding maintain ◌>>=◌ catching on_queue on_objects reclaim_expired_leases reclaim_loop is_skipped
    is_in_flight is_held reclaim_build reap reap_artifacts reap_logs old_log expire_build get put
    delete BuildStatus-discrete String-discrete delete_reaped delete_outcome delete_object
    anything_reaped assert_valid_key build_id_from_key matched_id starts_with slice_from slice_to
    text_length every_char is_id_char is_hex is_uuid matches_uuid_from is_dash_place
maintain-old = refl

maintain-Recorded_example : Summary options old_world cleaned
maintain-Recorded_example = maintain-Recorded options old_world cleaned maintain-old
