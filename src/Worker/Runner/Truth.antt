-- ===== src/Worker/Runner/Truth.antt =====
-- The outcome that a worker reports is true.
pub mod Branches
use qmk_web_app.Common.{
  ℕ, String, ◌≡◌, refl, sym, ap, ◌∙◌, subst, arith, Option, Bool, true, false, none, some, inl, inr,
  ◌⊎◌, if◌then◌else◌,
}
use qmk_web_app.Common.Attempt.{Attempt, done, thrown, done_injective, Attempt-cases}
use qmk_web_app.Domain.Build.{BuildStatus, BuildRecord, succeeded, cancelled, generation_failed}
use qmk_web_app.Domain.Configuration.{Configuration}
use qmk_web_app.Domain.Catalog.{SupportedCatalogKeyboard, Catalog}
use qmk_web_app.Domain.Validate.{Validated, refused, accepted, validate_configuration}
use qmk_web_app.BuildQueue.Types.{ClaimedBuild, BuildInput, CompleteBuildArgs}
use qmk_web_app.BuildQueue.Store.{Store, Result, ok, illegal_transition}
use qmk_web_app.BuildQueue.Store.Queue.{
  get_build_input, claim, finish, complete, completed_build, cancel, cancelled_build,
}
use qmk_web_app.BuildQueue.Store.Cases.{finish_cases}
use qmk_web_app.Common.Dict.{get}
use qmk_web_app.BuildQueue.Held.{Ended, get-put-same}
use qmk_web_app.Worker.Runner.Truth.Branches.{
  done_by, Truly, cancel_run-Truly, found-Truly, recover-Truly,
}
use qmk_web_app.Worker.World.{
  WorkerError, lease_lost, unavailable, of_transition, of_objects, of_run, World, Action, pure,
  raise, catching, ◌>>=◌, checked, answered, on_queue,
}
use qmk_web_app.Worker.World.Outcomes.{
  Holds, Ensures, bind-Ensures, lift-Ensures, catching-Ensures, queue-Ensures,
}
use qmk_web_app.Worker.Collect.{CollectedArtifact}
use qmk_web_app.Worker.Options.{
  Options, RunDetails, RunBuildResult, run_succeeded, run_failed, ProcessOutcome, idle_run,
  succeeded_run, failed_run, cancelled_run, abandoned_run, no_revision, no_catalog,
  invalid_configuration,
}
use qmk_web_app.Worker.Runner.{
  ran, completion, cancel_run, delete_if, fail_run, complete_held, publish, record_result,
  after_run, run_validated, run_input, process, recover, run_once,
}

process-Truly : (o : Options) (c : ClaimedBuild) → Ensures (Truly o c.build_id) (process o c)
unfolding process
process-Truly o c = bind-Ensures (Truly o c.build_id) _ _ λ stop. stopped stop
  where
    stopped :
        (stop : Bool)
        → Ensures (Truly o c.build_id) (
            if stop
            then cancel_run o c.build_id none
            else (on_queue o.env (λ now s. (done (get_build_input o.lookup c.build_id s), s))
                >>= λ found. elim found as (λ x. Action ProcessOutcome) [
                  | none ↦
                      fail_run o c.build_id generation_failed no_revision >>= λ u. pure failed_run
                  | some input ↦ run_input o c.build_id c.attempt_count input
                ]))
    stopped true = cancel_run-Truly o c.build_id none
    stopped false =
        bind-Ensures (Truly o c.build_id) _ _
          λ found. found-Truly o c.build_id c.attempt_count found

-- What a turn's outcome says: there was nothing to claim and the worker was idle, or it has claimed a
-- build and the outcome is true of that build.
abbrev pub Honest : Options → World → ProcessOutcome → Store → Type 0
Honest o w outcome s =
    let t = o.env w.turn in
    let claims = claim t.now o.worker_id o.lease_ms (t.others w.store) in
    ((outcome ≡ idle_run) × (claims ≡ ok (none, s)))
    ⊎ ((c : ClaimedBuild) × (s' : Store) × (claims ≡ ok (some c, s'))
        × Truly o c.build_id outcome s)

run_once-Holds : (o : Options) (w : World) → Holds (Honest o w) (run_once o w)
unfolding run_once
run_once-Holds o w =
    queue-Ensures (Honest o w) o.env _ _ w λ found v e. claimed found v (of_checked _ e)
  where
    of_checked :
        {A : Type 0} (s : Store) {r : Result (A × Store)} {a : A} {s' : Store}
        → checked s r ≡ (done_by a, s')
        → r ≡ ok (a, s')
    of_checked s {r = ok (b, t)} e =
        λ i. ok (done_injective {E = WorkerError} (ap (λ x. x.0) e) i, (e i).1)
    of_checked s {r = illegal_transition from to} e = cc

    told :
        (c : ClaimedBuild) (s : Store)
        → let t = o.env w.turn in
          claim t.now o.worker_id o.lease_ms (t.others w.store) ≡ ok (some c, s)
          → (x : Attempt WorkerError ProcessOutcome × World) → Holds (Truly o c.build_id) x
          → Holds (Honest o w) x
    told c s e (done outcome, v) h = inr (c, s, e, h)
    told c s e (thrown x, v) h = tt

    claimed :
        (found : Option ClaimedBuild) (v : World)
        → let t = o.env w.turn in
          claim t.now o.worker_id o.lease_ms (t.others w.store) ≡ ok (found, v.store)
          → Holds (Honest o w) (
              (elim found as (λ x. Action ProcessOutcome) [
                | none ↦ pure idle_run
                | some c ↦ catching (process o c) (recover o c.build_id)
              ])
                v)
    claimed none v e = inl (refl, e)
    claimed (some c) v e = told c v.store e (catching (process o c) (recover o c.build_id) v) (
        catching-Ensures (Truly o c.build_id) (process o c) (recover o c.build_id)
          (process-Truly o c) (recover-Truly o c.build_id) v)

-- The outcome of a turn, if it has one, is true of the store that the turn leaves, whatever other
-- processes do between the calls of the worker and whichever of these calls fail. If it is idle, there
-- was nothing to claim. If not, the worker has claimed a build: where it reports a success, a validated
-- configuration was compiled for this build, the compile has succeeded and the build has succeeded in
-- the store; where it reports a cancellation, the build is cancelled in the store. Of a failure and of
-- a build that was given up nothing more is stated.
pub run_once-Honest :
    (o : Options) (w : World) (outcome : ProcessOutcome)
    → (run_once o w).0 ≡ done outcome
    → Honest o w outcome (run_once o w).1.store
run_once-Honest o w outcome e = told (run_once o w) (run_once-Holds o w) e
  where
    told :
        (x : Attempt WorkerError ProcessOutcome × World)
        → Holds (Honest o w) x
        → x.0 ≡ done outcome
        → Honest o w outcome x.1.store
    told (done y, v) h e = subst (λ y. Honest o w y v.store) (done_injective e) h
    told (thrown y, v) h e = absurd cc
