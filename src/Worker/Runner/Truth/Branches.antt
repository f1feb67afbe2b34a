-- ===== src/Worker/Runner/Truth/Branches.antt =====
-- Each branch of a turn has an outcome that is true.
use qmk_web_app.Common.{
  ℕ, String, ◌≡◌, refl, sym, ap, ◌∙◌, subst, arith, Option, Bool, true, false, none, some, inl, inr,
  if◌then◌else◌,
}
use qmk_web_app.Common.Attempt.{Attempt, done, done_injective, Attempt-cases}
use qmk_web_app.Domain.Build.{BuildStatus, BuildRecord, succeeded, cancelled, generation_failed}
use qmk_web_app.Domain.Configuration.{Configuration}
use qmk_web_app.Domain.Catalog.{SupportedCatalogKeyboard, Catalog}
use qmk_web_app.Domain.Validate.{Validated, refused, accepted, validate_configuration}
use qmk_web_app.BuildQueue.Types.{BuildInput, CompleteBuildArgs}
use qmk_web_app.BuildQueue.Store.{Store}
use qmk_web_app.BuildQueue.Store.Queue.{finish, complete, completed_build, cancel, cancelled_build}
use qmk_web_app.BuildQueue.Store.Cases.{finish_cases}
use qmk_web_app.Common.Dict.{get}
use qmk_web_app.BuildQueue.Held.{Ended, get-put-same}
use qmk_web_app.Worker.World.{
  WorkerError, lease_lost, unavailable, of_transition, of_objects, of_run, World, Action, pure,
  raise, catching, ◌>>=◌, answered,
}
use qmk_web_app.Worker.World.Outcomes.{Holds, Ensures, bind-Ensures, lift-Ensures, queue-Ensures}
use qmk_web_app.Worker.Collect.{CollectedArtifact}
use qmk_web_app.Worker.Options.{
  Options, RunDetails, RunBuildResult, run_succeeded, run_failed, ProcessOutcome, idle_run,
  succeeded_run, failed_run, cancelled_run, abandoned_run, no_revision, no_catalog,
  invalid_configuration,
}
use qmk_web_app.Worker.Runner.{
  ran, completion, cancel_run, delete_if, fail_run, complete_held, publish, record_result,
  after_run, run_validated, run_input, recover,
}

abbrev pub done_by : {A : Type 0} → A → Attempt WorkerError A
done_by = done

answer_of :
    {A : Type 0} {r : A × Store} {a : A} {s : Store} → answered r ≡ (done_by a, s) → r ≡ (a, s)
answer_of e = λ i. (done_injective {E = WorkerError} (ap (λ x. x.0) e) i, (e i).1)

finish-Ended :
    (id worker : String) (to : BuildStatus) (change : BuildRecord → BuildRecord) (s : Store)
    → ((b : BuildRecord) → (change b).status ≡ to)
    → (finish id worker to change s).0 ≡ true
    → Ended id to (finish id worker to change s).1
finish-Ended id worker to change s ends e = elim (finish_cases id worker to change s) [
  | inl not_held ↦ absurd (ground arith)
  | inr (b, (held, legal, after)) ↦
      subst (λ r. Ended id to r.1) (sym after)
        (change b, get-put-same id (change b) s.builds, ends b)
]

complete-Ended :
    (now : ℕ) (args : CompleteBuildArgs) (s t : Store)
    → complete now args s ≡ (true, t)
    → Ended args.build_id succeeded t
unfolding complete
complete-Ended now args s t e =
    let r = finish args.build_id args.worker_id succeeded (completed_build now args) s in
    let finished : r.0 ≡ true = ap (λ x. x.0) e in
    let (b, at, status) =
      finish-Ended args.build_id args.worker_id succeeded (completed_build now args) s (λ b. refl)
        finished in
    let same : r.1.builds ≡ t.builds = ap (λ x. x.1.builds) (rw finished at e) in
    (b, ap (get args.build_id) (sym same) ∙ at, status)

cancel-Ended :
    (now : ℕ) (id worker : String) (log : Option String) (s t : Store)
    → cancel now id worker log s ≡ (true, t)
    → Ended id cancelled t
unfolding cancel
cancel-Ended now id worker log s t e =
    subst (λ r. Ended id cancelled r) (ap (λ r. r.1) e)
      (finish-Ended id worker cancelled (cancelled_build now log) s (λ b. refl) (ap (λ r. r.0) e))

module _ (o : Options) (id : String) where
  -- A configuration that passed validation was compiled, and the compile has succeeded.
  abbrev pub Compiled : Configuration → SupportedCatalogKeyboard → Type 0
  Compiled c k =
      ((catalog : Catalog) × (asked : Configuration) × (validate_configuration catalog asked
          ≡ accepted c k))
      × ((a : CollectedArtifact) × (d : RunDetails) × (version : String) × (socd_version : Option
            String)
          × (o.runs id c k ≡ done (run_succeeded a d version socd_version)))

  -- What an outcome says of the build and the store.
  abbrev pub Truly : ProcessOutcome → Store → Type 0
  Truly idle_run s = ⊥
  Truly succeeded_run s =
      Ended id succeeded s × ((c : Configuration) × (k : SupportedCatalogKeyboard) × Compiled c k)
  Truly failed_run s = Unit {0}
  Truly cancelled_run s = Ended id cancelled s
  Truly abandoned_run s = Unit {0}

  pub cancel_run-Truly : (log : Option String) → Ensures Truly (cancel_run o id log)
  unfolding cancel_run
  cancel_run-Truly log w = queue-Ensures Truly o.env _ _ w λ held v e. answer held v e
    where
      answer :
          (held : Bool) (v : World)
          → let t = o.env w.turn in
            answered (cancel t.now id o.worker_id log (t.others w.store)) ≡ (done held, v.store)
            → Holds Truly ((if held then pure cancelled_run else raise lease_lost) v)
      answer true v e = cancel-Ended (o.env w.turn).now id o.worker_id log _ v.store (answer_of e)
      answer false v e = tt

  failing-Ensures : (m : Action (Unit {0})) → Ensures Truly (m >>= λ u. pure failed_run)
  failing-Ensures m = bind-Ensures Truly m _ λ u w. tt

  module _ (c : Configuration) (k : SupportedCatalogKeyboard) (compiled : Compiled c k) where
    complete_held-Truly :
        (key : String) (a : CollectedArtifact) (log : Option String) (d : RunDetails)
        (version : String) (socd_version : Option String)
        → Ensures Truly (complete_held o id key a log d version socd_version)
    unfolding complete_held completion
    complete_held-Truly key a log d version socd_version w =
        queue-Ensures Truly o.env _ _ w λ completed v e. answer completed v e
      where
        answer :
            (completed : Bool) (v : World)
            → let t = o.env w.turn in
              let args = completion o t.now id key a log d version socd_version in
              answered (complete t.now args (t.others w.store)) ≡ (done completed, v.store)
              → Holds Truly (
                  (if completed
                      then pure succeeded_run
                      else (catching (delete_if o true key) (λ e. pure tt) >>= λ u.
                          raise lease_lost))
                    v)
        answer true v e = (
          complete-Ended (o.env w.turn).now
              (completion o (o.env w.turn).now id key a log d version socd_version) _ v.store
              (answer_of e),
          (c, k, compiled),
        )
        answer false v e =
            bind-Ensures Truly (catching (delete_if o true key) (λ e. pure tt)) _ (λ u w. tt) v

    publish-Truly :
        (attempts : ℕ) (a : CollectedArtifact) (log : Option String) (d : RunDetails)
        (version : String) (socd_version : Option String)
        → Ensures Truly (publish o id attempts a log d version socd_version)
    unfolding publish
    publish-Truly attempts a log d version socd_version = bind-Ensures Truly _ _ λ u.
        bind-Ensures Truly _ _ λ key.
          bind-Ensures Truly _ _
            λ v. bind-Ensures Truly _ _ λ w. complete_held-Truly key a log d version socd_version

  -- A validated configuration and its keyboard.
  module _ (c : Configuration) (k : SupportedCatalogKeyboard)
      (valid : (catalog : Catalog) × (asked : Configuration) × (validate_configuration catalog asked
          ≡ accepted c k)) where
    record_result-Truly :
        (attempts : ℕ) (r : RunBuildResult) (log : Option String)
        → o.runs id c k ≡ done r
        → Ensures Truly (record_result o id attempts r log)
    unfolding record_result
    record_result-Truly attempts (run_failed code d version) log e = failing-Ensures _
    record_result-Truly attempts (run_succeeded a d version socd_version) log e =
        publish-Truly c k (valid, (a, d, version, socd_version, e)) attempts a log d version
          socd_version

    stopped_or :
        (stop : Bool) (attempts : ℕ) (r : RunBuildResult) (log : Option String)
        → o.runs id c k ≡ done r
        → Ensures Truly (if stop then cancel_run o id log else record_result o id attempts r log)
    stopped_or true attempts r log e = cancel_run-Truly log
    stopped_or false attempts r log e = record_result-Truly attempts r log e

    after_run-Truly :
        (attempts : ℕ) (cancelling : Bool) (r : RunBuildResult)
        → o.runs id c k ≡ done r
        → Ensures Truly (after_run o id attempts cancelling r)
    unfolding after_run
    after_run-Truly attempts cancelling r e =
        bind-Ensures Truly _ _
          λ stop. bind-Ensures Truly _ _ λ log. stopped_or stop attempts r log e

    ran-done : (r : RunBuildResult) → ran (o.runs id c k) ≡ done r → o.runs id c k ≡ done r
    ran-done r e = elim (Attempt-cases (o.runs id c k)) [
      | inl (a, h) ↦ h ∙ ap done (done_injective (rw h at e))
      | inr (m, h) ↦ absurd (cc (rw h at e))
    ]

    going_on :
        (lease_there : Bool) (attempts : ℕ) (cancelling : Bool) (r : RunBuildResult)
        → o.runs id c k ≡ done r
        → Ensures Truly
            (if lease_there then after_run o id attempts cancelling r else raise lease_lost)
    going_on true attempts cancelling r e = after_run-Truly attempts cancelling r e
    going_on false attempts cancelling r e = λ w. tt

    run_validated-Truly : (attempts : ℕ) → Ensures Truly (run_validated o id attempts c k)
    unfolding run_validated
    run_validated-Truly attempts = bind-Ensures Truly _ _ λ u. bind-Ensures Truly _ _ λ flags.
        lift-Ensures Truly (ran (o.runs id c k)) _
          λ r e. going_on flags.0 attempts flags.1 r (ran-done r e)

  validated-Truly :
      (attempts : ℕ) (catalog : Catalog) (asked : Configuration) (v : Validated)
      → validate_configuration catalog asked ≡ v
      → Ensures Truly (elim v as (λ x. Action ProcessOutcome) [
        | refused code errors ↦
            fail_run o id generation_failed (invalid_configuration code errors) >>= λ u.
            pure failed_run
        | accepted c k ↦ run_validated o id attempts c k
      ])
  validated-Truly attempts catalog asked (refused code errors) e = failing-Ensures _
  validated-Truly attempts catalog asked (accepted c k) e =
      run_validated-Truly c k (catalog, asked, e) attempts

  run_input-Truly :
      (attempts : ℕ) (input : BuildInput Configuration)
      → Ensures Truly (run_input o id attempts input)
  unfolding run_input
  run_input-Truly attempts input =
      with_catalog (o.catalogs input.catalog_version input.configuration.keyboard_id)
    where
      with_catalog :
          (found : Option Catalog)
          → Ensures Truly (elim found as (λ x. Action ProcessOutcome) [
            | none ↦ fail_run o id generation_failed (no_catalog input.catalog_version) >>= λ u.
                pure failed_run
            | some catalog ↦ elim (validate_configuration catalog input.configuration) [
              | refused code errors ↦
                  fail_run o id generation_failed (invalid_configuration code errors) >>= λ u.
                  pure failed_run
              | accepted c k ↦ run_validated o id attempts c k
            ]
          ])
      with_catalog none = failing-Ensures _
      with_catalog (some catalog) =
          validated-Truly attempts catalog input.configuration
            (validate_configuration catalog input.configuration) refl

  pub found-Truly :
      (attempts : ℕ) (found : Option (BuildInput Configuration))
      → Ensures Truly (elim found as (λ x. Action ProcessOutcome) [
        | none ↦ fail_run o id generation_failed no_revision >>= λ u. pure failed_run
        | some input ↦ run_input o id attempts input
      ])
  found-Truly attempts none = failing-Ensures _
  found-Truly attempts (some input) = run_input-Truly attempts input

  pub recover-Truly : (e : WorkerError) → Ensures Truly (recover o id e)
  unfolding recover
  recover-Truly lease_lost = λ w. tt
  recover-Truly unavailable = failing-Ensures _
  recover-Truly (of_transition from to) = failing-Ensures _
  recover-Truly (of_objects e) = failing-Ensures _
  recover-Truly (of_run m) = failing-Ensures _
