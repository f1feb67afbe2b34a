-- ===== src/Worker/Runner/Ends.antt =====
-- A build that is claimed is brought to its end.
mod Branches
use qmk_web_app.Common.{
  some_injective, ℕ, ◌+◌, ◌≡◌, refl, ap, ◌∙◌, subst, arith, String, Bool, true, false, Option, none,
  some, ltb, if◌then◌else◌, inl, inr,
}
use qmk_web_app.Common.Dict.{put}
use qmk_web_app.Common.Attempt.{Attempt, done, thrown}
use qmk_web_app.Domain.Build.{
  BuildStatus, preparing, building, uploading, failed, generation_failed, sandbox_error,
  is_terminal, can_transition,
}
use qmk_web_app.Domain.Configuration.{Configuration}
use qmk_web_app.Domain.Catalog.{SupportedCatalogKeyboard, Catalog}
use qmk_web_app.Domain.Validate.{Validated, refused, accepted, validate_configuration}
use qmk_web_app.BuildQueue.Types.{ClaimedBuild, BuildInput}
use qmk_web_app.BuildQueue.Store.{Lease, Store, ok}
use qmk_web_app.BuildQueue.Store.Queue.{get_build_input}
use qmk_web_app.Worker.Keys.{is_uuid, artifact_key}
use qmk_web_app.Worker.World.{
  WorkerError, lease_lost, unavailable, of_transition, of_objects, of_run, Action, pure, lift,
  catching, ◌>>=◌, checked, put_object,
}
use qmk_web_app.Worker.World.Calm.{
  IsCalm, Post, IsOther, Meets, bind-Meets, catching-Meets, weaken-Meets, on_queue-Meets,
  on_objects-Meets,
}
use qmk_web_app.Worker.Collect.{CollectedArtifact}
use qmk_web_app.Worker.Options.{
  RunDetails, RunBuildResult, run_succeeded, run_failed, details, no_revision, unexpected_failure,
  no_catalog, invalid_configuration, ProcessOutcome, idle_run, failed_run, Options,
}
use qmk_web_app.Worker.Runner.{
  ran, fail_run, fail_quietly, publish, record_result, cancel_after, after_run, run_validated,
  run_input, process, recover, run_once,
}
use qmk_web_app.Domain.Build.{BuildRecord}
use qmk_web_app.BuildQueue.Store.Queue.{claim, next_build, lease_build, claimed_build}
use qmk_web_app.BuildQueue.Store.Cases.{claim_cases}
use qmk_web_app.Worker.World.{World}
use qmk_web_app.Worker.Runner.Calls.{
  EndsAs, put_object-Fine, cancel_requested-Meets, cancel_run-Meets, delete_if-Meets,
  store_log-Meets, fail_held-Meets, fail_run-Meets, failed-Meets, advance_held-Meets,
  beat_while-Meets, complete_held-Meets,
}
use qmk_web_app.BuildQueue.Held.{Holding, Ended, held_with, get-put-same}
use qmk_web_app.Worker.Runner.Ends.Branches.{Failable, if-Meets, found-Meets, recover-Meets}

process-Meets :
    (o : Options) (calm : IsCalm o.env) (claimed : ClaimedBuild)
    → is_uuid claimed.build_id ≡ true
    → Meets
        (Holding claimed.build_id o.worker_id preparing)
        (process o claimed)
        (EndsAs claimed.build_id)
        (Failable o claimed.build_id)
unfolding process can_transition is_terminal
process-Meets o calm claimed uuid =
    let id = claimed.build_id in
    bind-Meets (cancel_requested-Meets o calm id uuid preparing refl) λ stop.
      if-Meets o calm id uuid stop (cancel_run-Meets o calm id uuid preparing none refl) (
        bind-Meets {Q = λ found s. Holding id o.worker_id preparing s}
          (on_queue-Meets calm λ now s h. (get_build_input o.lookup id s, s, refl, h))
          (found-Meets o calm id uuid claimed))

claim-Holding :
    (now : ℕ) (worker : String) (lease_ms : ℕ) (s : Store) (b : BuildRecord)
    → next_build s ≡ some b
    → (c : ClaimedBuild) × (t : Store) × (claim now worker lease_ms s ≡ ok (some c, t))
      × (c.build_id ≡ b.id)
      × Holding b.id worker preparing t
unfolding lease_build
claim-Holding now worker lease_ms s b e = elim (claim_cases now worker lease_ms s) [
  | inl (nothing, _) ↦ absurd (ground arith)
  | inr (c, (at, waiting, claims)) ↦
      let same : c ≡ b = ground arith in
      let leased : Lease = record { claimed_by = worker; lease_expires_at = now + lease_ms } in
      let taken = claimed_build now c in
      let t : Store = record s {
        builds = put c.id taken s.builds;
        leases = put c.id leased s.leases;
      } in
      (
        _,
        t,
        claims,
        ap (λ x. x.id) same,
        subst (λ i. Holding i worker preparing t) (ap (λ x. x.id) same)
            (
              taken,
              held_with c.id worker t taken leased (get-put-same c.id taken s.builds)
                  (get-put-same c.id leased s.leases) refl,
              refl,
            ),
      )
]

turn-Meets :
    (o : Options) (calm : IsCalm o.env) (id : String) (claimed : ClaimedBuild)
    → is_uuid id ≡ true
    → claimed.build_id ≡ id
    → Meets
        (Holding id o.worker_id preparing)
        (catching (process o claimed) (recover o claimed.build_id))
        (EndsAs id)
        (λ s. ⊥)
turn-Meets o calm id claimed uuid same =
    let uuid' : is_uuid claimed.build_id ≡ true = rw same uuid in
    subst
      (λ i.
        Meets (Holding i o.worker_id preparing)
          (catching (process o claimed) (recover o claimed.build_id)) (EndsAs i) (λ s. ⊥))
      same
      (catching-Meets (process-Meets o calm claimed uuid')
        (λ e other. recover-Meets o calm claimed.build_id uuid' e other))

run_once-Meets :
    (o : Options) (calm : IsCalm o.env) (b : BuildRecord)
    → is_uuid b.id ≡ true
    → Meets (λ s. next_build s ≡ some b) (run_once o) (EndsAs b.id) (λ s. ⊥)
unfolding run_once
run_once-Meets o calm b uuid =
    bind-Meets
      {Q = λ found s.
        ((c : ClaimedBuild) × (found ≡ some c) × (c.build_id ≡ b.id))
        × Holding b.id o.worker_id preparing s}
      (on_queue-Meets calm λ now s waits.
        let (c, t, e, same, h) = claim-Holding now o.worker_id o.lease_ms s b waits in
        (some c, t, ap (checked s) e, ((c, refl, same), h)))
      answer
  where
    answer :
        (found : Option ClaimedBuild)
        → Meets
            (λ s.
              ((c : ClaimedBuild) × (found ≡ some c) × (c.build_id ≡ b.id))
              × Holding b.id o.worker_id preparing s)
            (elim found as (λ x. Action ProcessOutcome) [
              | none ↦ pure idle_run
              | some claimed ↦ catching (process o claimed) (recover o claimed.build_id)
            ])
            (EndsAs b.id)
            (λ s. ⊥)
    answer none = record { after = λ w ((c, e, _), h). absurd cc }
    answer (some claimed) = record {
      after = λ w ((c, e, same), h).
          (turn-Meets o calm b.id claimed uuid
              (ap (λ x. x.build_id) (some_injective e) ∙ same)).after
            w h;
    }

-- When no other process writes the store and the calls of the queue work, a turn of a worker brings
-- the oldest build that waits to its end, if its id is a UUID: the worker returns, its outcome is that
-- the build has succeeded, failed or been cancelled, and the store says the same. This holds whatever
-- the compile returns or throws, whatever the lookup, the catalogs and the validation say, and however
-- the calls of the artifact store fail.
pub run_once-Ends :
    (o : Options) (w : World) (b : BuildRecord)
    → IsCalm o.env
    → next_build w.store ≡ some b
    → is_uuid b.id ≡ true
    → (outcome : ProcessOutcome) × ((run_once o w).0 ≡ done outcome)
      × EndsAs b.id outcome (run_once o w).1.store
run_once-Ends o w b calm waits uuid =
    ended (run_once o w) ((run_once-Meets o calm b uuid).after w waits)
  where
    ended :
        (r : Attempt WorkerError ProcessOutcome × World)
        → Post (EndsAs b.id) (λ s. ⊥) r
        → (outcome : ProcessOutcome) × (r.0 ≡ done outcome) × EndsAs b.id outcome r.1.store
    ended (done outcome, v) q = (outcome, refl, q)
    ended (thrown e, v) (_, none_left) = absurd none_left
