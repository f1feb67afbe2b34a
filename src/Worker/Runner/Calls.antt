-- ===== src/Worker/Runner/Calls.antt =====
-- The parts of a turn, for a worker that holds the build and whose store is left alone.
use qmk_web_app.Common.{
  ℕ, zero, suc, ◌≡◌, refl, ap, subst, String, Bool, true, false, Option, none, some, ltb,
  if◌then◌else◌,
}
use qmk_web_app.Common.Dict.{Dict, get, put, delete}
use qmk_web_app.Common.Attempt.{Attempt, done, thrown}
use qmk_web_app.Domain.Build.{
  BuildStatus, building, uploading, succeeded, failed, cancelled, BuildFailureCode, is_terminal,
  can_transition,
}
use qmk_web_app.BuildQueue.Types.{FailBuildArgs}
use qmk_web_app.BuildQueue.Store.{Store}
use qmk_web_app.Worker.Keys.{ArtifactStoreError, already_there, assert_valid_key, is_uuid, log_key}
use qmk_web_app.Worker.World.{
  WorkerError, lease_lost, of_objects, Action, pure, raise, catching, ◌>>=◌, checked, answered,
  if_valid, put_object, delete_object,
}
use qmk_web_app.Worker.World.Calm.{
  IsCalm, Fine, Meets, bind-Meets, catching-Meets, on_queue-Meets, on_objects-Meets,
}
use qmk_web_app.Worker.Collect.{CollectedArtifact}
use qmk_web_app.Worker.Options.{
  RunDetails, FailMessage, ProcessOutcome, idle_run, succeeded_run, failed_run, cancelled_run,
  abandoned_run, Options,
}
use qmk_web_app.Worker.Runner.{
  beat, cancel_requested, cancel_run, delete_if, store_log, fail_held, fail_run, seen, beat_while,
  advance_held, completion, complete_held,
}
use qmk_web_app.BuildQueue.Held.{
  Holding, Ended, heartbeat-Holding, advance-Holding, fail-Holding, cancel-Holding,
  complete-Holding,
}

-- The outcome says how the build has ended.
abbrev pub EndsAs : (id : String) → ProcessOutcome → Store → Type 0
EndsAs id succeeded_run s = Ended id succeeded s
EndsAs id failed_run s = Ended id failed s
EndsAs id cancelled_run s = Ended id cancelled s
EndsAs id idle_run s = ⊥
EndsAs id abandoned_run s = ⊥

if_valid-Fine :
    {A : Type 0} (valid : Attempt ArtifactStoreError (Unit {0})) (d : Dict String)
    (r : Attempt WorkerError A × Dict String)
    → Fine r.0
    → Fine (if_valid valid d r).0
if_valid-Fine (done u) d r fine = fine
if_valid-Fine (thrown e) d r fine = tt

pub put_object-Fine : (key contents : String) (d : Dict String) → Fine (put_object key contents d).0
unfolding put_object
put_object-Fine key contents d = if_valid-Fine (assert_valid_key key) d _ (written (get key d))
  where
    written :
        (old : Option String)
        → Fine
            (elim old as (λ x. Attempt WorkerError (Unit {0}) × Dict String) [
              | some t ↦ (thrown (of_objects already_there), d)
              | none ↦ (done tt, put key contents d)
            ]).0
    written none = tt
    written (some t) = tt

pub delete_object-Fine : (key : String) (d : Dict String) → Fine (delete_object key d).0
unfolding delete_object
delete_object-Fine key d = if_valid-Fine (assert_valid_key key) d _ (deleted (get key d))
  where
    deleted :
        (old : Option String)
        → Fine
            (elim old as (λ x. Attempt WorkerError Bool × Dict String) [
              | some t ↦ (done true, delete key d)
              | none ↦ (done false, d)
            ]).0
    deleted none = tt
    deleted (some t) = tt

module _ (o : Options) (calm : IsCalm o.env) (id : String) (uuid : is_uuid id ≡ true) where
  abbrev H : BuildStatus → Store → Type 0
  H = Holding id o.worker_id

  pub beat-Meets :
      (st : BuildStatus) {R : Store → Type 0}
      → is_terminal st ≡ false
      → Meets (H st) (beat o id) (λ b s. ((c : Bool) × (b ≡ some c)) × H st s) R
  beat-Meets st live = on_queue-Meets calm λ now s h.
      let (c, t, e, h') = heartbeat-Holding id o.worker_id st now o.lease_ms s live h in
      (some c, t, ap answered e, ((c, refl), h'))

  pub cancel_requested-Meets :
      (st : BuildStatus) {R : Store → Type 0}
      → is_terminal st ≡ false
      → Meets (H st) (cancel_requested o id) (λ c s. H st s) R
  unfolding cancel_requested
  cancel_requested-Meets st {R} live = bind-Meets (beat-Meets st live) answer
    where
      answer :
          (b : Option Bool)
          → Meets
              (λ s. ((c : Bool) × (b ≡ some c)) × H st s)
              (elim b as (λ x. Action Bool) [ none ↦ raise lease_lost | some c ↦ pure c ])
              (λ c s. H st s)
              R
      answer none = record { after = λ w ((c, e), h). absurd cc }
      answer (some c) = record { after = λ w (_, h). h }

  pub cancel_run-Meets :
      (st : BuildStatus) (log : Option String) {R : Store → Type 0}
      → can_transition st cancelled ≡ true
      → Meets (H st) (cancel_run o id log) (EndsAs id) R
  unfolding cancel_run
  cancel_run-Meets st log {R} legal =
      bind-Meets {Q = λ held s. (held ≡ true) × Ended id cancelled s}
        (on_queue-Meets calm λ now s h.
          let (t, e, ended) = cancel-Holding id o.worker_id st now log s legal h in
          (true, t, ap answered e, (refl, ended)))
        answer
    where
      answer :
          (held : Bool)
          → Meets
              (λ s. (held ≡ true) × Ended id cancelled s)
              (if held then pure cancelled_run else raise lease_lost)
              (EndsAs id)
              R
      answer true = record { after = λ w (_, ended). ended }
      answer false = record { after = λ w (e, _). absurd cc }

  pub delete_if-Meets :
      (P : Store → Type 0) (wanted : Bool) (key : String)
      → Meets P (delete_if o wanted key) (λ u s. P s) P
  unfolding delete_if
  delete_if-Meets P true key =
      bind-Meets (on_objects-Meets calm (delete_object key) (delete_object-Fine key))
        λ existed. record { after = λ w p. p }
  delete_if-Meets P false key = record { after = λ w p. p }

  -- A log is stored or not; the store of builds stays as it is, and nothing is thrown.
  pub store_log-Meets :
      (P : Store → Type 0) (contents : String) (attempts : ℕ) {R : Store → Type 0}
      → Meets P (store_log o id contents attempts) (λ log s. P s) R
  unfolding store_log log_key
  store_log-Meets P contents attempts {R} =
      bind-Meets {Q = λ key s. P s} (record { after = λ w p. rw uuid p })
        λ key.
          catching-Meets {R' = P}
            (bind-Meets (delete_if-Meets P (ltb 1 attempts) key) λ u.
              bind-Meets
                (on_objects-Meets calm (put_object key contents) (put_object-Fine key contents))
                λ v. record { after = λ w p. p })
            (λ e other. record { after = λ w p. p })

  pub fail_held-Meets :
      (st : BuildStatus) (args : FailBuildArgs) {R : Store → Type 0}
      → args.build_id ≡ id
      → args.worker_id ≡ o.worker_id
      → can_transition st failed ≡ true
      → Meets (H st) (fail_held o args) (λ u s. Ended id failed s) R
  unfolding fail_held
  fail_held-Meets st args {R} same mine legal =
      bind-Meets {Q = λ held s. (held ≡ true) × Ended id failed s}
        (on_queue-Meets calm λ now s h.
          let h' : Holding args.build_id args.worker_id st s = rw (same, mine) h in
          let (t, e, ended) = fail-Holding st now args s legal h' in
          (true, t, ap answered e, (refl, subst (λ x. Ended x failed t) same ended)))
        answer
    where
      answer :
          (held : Bool)
          → Meets
              (λ s. (held ≡ true) × Ended id failed s)
              (if held then pure tt else raise lease_lost)
              (λ u s. Ended id failed s)
              R
      answer true = record { after = λ w (_, ended). ended }
      answer false = record { after = λ w (e, _). absurd cc }

  pub fail_run-Meets :
      (st : BuildStatus) (code : BuildFailureCode) (message : FailMessage) {R : Store → Type 0}
      → can_transition st failed ≡ true
      → Meets (H st) (fail_run o id code message) (λ u s. Ended id failed s) R
  unfolding fail_run
  fail_run-Meets st code message legal =
      bind-Meets (store_log-Meets (H st) (o.redacted message) 1)
        λ log. fail_held-Meets st _ refl refl legal

  pub failed-Meets :
      (st : BuildStatus) (code : BuildFailureCode) (message : FailMessage) {R : Store → Type 0}
      → can_transition st failed ≡ true
      → Meets (H st) (fail_run o id code message >>= λ u. pure failed_run) (EndsAs id) R
  failed-Meets st code message legal =
      bind-Meets (fail_run-Meets st code message legal) λ u. record { after = λ w ended. ended }

  pub advance_held-Meets :
      (from to : BuildStatus) {R : Store → Type 0}
      → can_transition from to ≡ true
      → Meets (H from) (advance_held o id from to) (λ u s. H to s) R
  unfolding advance_held
  advance_held-Meets from to {R} legal =
      bind-Meets {Q = λ moved s. (moved ≡ true) × H to s}
        (on_queue-Meets calm λ now s h.
          let (t, e, h') = advance-Holding id o.worker_id from to s legal h in
          (true, t, ap (checked s) e, (refl, h')))
        answer
    where
      answer :
          (moved : Bool)
          → Meets
              (λ s. (moved ≡ true) × H to s)
              (if moved then pure tt else raise lease_lost)
              (λ u s. H to s)
              R
      answer true = record { after = λ w (_, h). h }
      answer false = record { after = λ w (e, _). absurd cc }

  -- While the store is left alone the lease is there at every beat.
  pub beat_while-Meets :
      (n : ℕ) (cancelling : Bool) {R : Store → Type 0}
      → Meets
          (H building)
          (beat_while o n id true cancelling)
          (λ flags s. (flags.0 ≡ true) × H building s)
          R
  unfolding beat_while seen is_terminal
  beat_while-Meets zero cancelling = record { after = λ w h. (refl, h) }
  beat_while-Meets (suc n) cancelling {R} =
      bind-Meets {Q = λ flags s. (flags.0 ≡ true) × H building s}
        (catching-Meets {R' = λ s. ⊥} (bind-Meets (beat-Meets building refl) seen_there)
          (λ e other. record { after = λ w none. absurd none }))
        (again λ c. beat_while-Meets n c)
    where
      seen_there :
          (b : Option Bool)
          → Meets
              (λ s. ((c : Bool) × (b ≡ some c)) × H building s)
              (pure (seen o b true cancelling))
              (λ flags s. (flags.0 ≡ true) × H building s)
              (λ s. ⊥)
      seen_there none = record { after = λ w ((c, e), h). absurd cc }
      seen_there (some true) = record { after = λ w (_, h). (refl, h) }
      seen_there (some false) = record { after = λ w (_, h). (refl, h) }

      again :
          ((c : Bool)
            → Meets
                (H building)
                (beat_while o n id true c)
                (λ flags s. (flags.0 ≡ true) × H building s)
                R)
          → (flags : Bool × Bool)
          → Meets
              (λ s. (flags.0 ≡ true) × H building s)
              (beat_while o n id flags.0 flags.1)
              (λ flags s. (flags.0 ≡ true) × H building s)
              R
      again rest (true, c) = record { after = λ w (_, h). (rest c).after w h }
      again rest (false, c) = record { after = λ w (e, _). absurd cc }

  pub complete_held-Meets :
      (key : String) (a : CollectedArtifact) (log : Option String) (d : RunDetails)
      (version : String) (socd_version : Option String) {R : Store → Type 0}
      → Meets (H uploading) (complete_held o id key a log d version socd_version) (EndsAs id) R
  unfolding complete_held completion can_transition
  complete_held-Meets key a log d version socd_version {R} =
      bind-Meets {Q = λ completed s. (completed ≡ true) × Ended id succeeded s}
        (on_queue-Meets calm λ now s h.
          let (t, e, ended) =
            complete-Holding uploading now (completion o now id key a log d version socd_version) s
              refl h in
          (true, t, ap answered e, (refl, ended)))
        answer
    where
      answer :
          (completed : Bool)
          → Meets
              (λ s. (completed ≡ true) × Ended id succeeded s)
              (if completed
                then pure succeeded_run
                else (catching (delete_if o true key) (λ e. pure tt) >>= λ u. raise lease_lost))
              (EndsAs id)
              R
      answer true = record { after = λ w (_, ended). ended }
      answer false = record { after = λ w (e, _). absurd cc }
