-- ===== src/BuildQueue/Held.antt =====
-- The calls of a worker that holds the lease of a build.
use qmk_web_app.Common.{
  ℕ, ◌+◌, ◌≡◌, refl, ◌∙◌, arith, String, ◌===◌, Bool, true, false, Option, some, Option-cases, inl,
  inr,
}
use qmk_web_app.Common.Dict.{Dict, get, put, delete, get-put, has}
use qmk_web_app.Domain.Build.{
  BuildStatus, succeeded, failed, cancelled, BuildRecord, is_terminal, is_status, can_transition,
}
use qmk_web_app.BuildQueue.Types.{CompleteBuildArgs, FailBuildArgs}
use qmk_web_app.BuildQueue.Store.{Lease, Store, ok, assert_transition}
use qmk_web_app.BuildQueue.Store.Queue.{
  held_build, heartbeat, advance, finish, complete, artifact_record, completed_build, fail,
  failed_build, cancel, cancelled_build,
}
use qmk_web_app.BuildQueue.Store.Cases.{get-held_build}

-- The worker holds the lease of a build of this status.
abbrev pub Holding : (id worker : String) → BuildStatus → Store → Type 0
Holding id worker st s = (b : BuildRecord) × (held_build id worker s ≡ some b) × (b.status ≡ st)

-- The build has this status.
abbrev pub Ended : (id : String) → BuildStatus → Store → Type 0
Ended id st s = (b : BuildRecord) × (get id s.builds ≡ some b) × (b.status ≡ st)

same_text : (t : String) → (t === t) ≡ true
same_text t = ground arith

pub held_with :
    (id worker : String) (s : Store) (b : BuildRecord) (l : Lease)
    → get id s.builds ≡ some b
    → get id s.leases ≡ some l
    → l.claimed_by ≡ worker
    → held_build id worker s ≡ some b
unfolding held_build
held_with id worker s b l e f g =
    let mine : (l.claimed_by === worker) ≡ true = ground arith in ground arith

pub get-put-same : {V : Type 0} (k : String) (v : V) (m : Dict V) → get k (put k v m) ≡ some v
get-put-same k v m = get-put k k v m ∙ rw (same_text k) refl

pub heartbeat-Holding :
    (id worker : String) (st : BuildStatus) (now lease_ms : ℕ) (s : Store)
    → is_terminal st ≡ false
    → Holding id worker st s
    → (c : Bool) × (t : Store) × (heartbeat now id worker lease_ms s ≡ (some c, t))
      × Holding id worker st t
unfolding heartbeat
heartbeat-Holding id worker st now lease_ms s live (b, held, at) =
    let going : is_terminal b.status ≡ false = rw at live in
    let beat : Lease = record { claimed_by = worker; lease_expires_at = now + lease_ms } in
    let t : Store = record s { leases = put id beat s.leases } in
    (
      has id s.cancel_requested,
      t,
      ground arith,
      (
        b,
        held_with id worker t b beat (get-held_build id worker s held)
            (get-put-same id beat s.leases) refl,
        at,
      ),
    )

held-Lease :
    (id worker : String) (s : Store) (b : BuildRecord)
    → held_build id worker s ≡ some b
    → (l : Lease) × (get id s.leases ≡ some l) × (l.claimed_by ≡ worker)
unfolding held_build
held-Lease id worker s b e = elim (Option-cases (get id s.builds)) [
  | inl absent ↦ absurd (ground arith)
  | inr (c, found) ↦ elim (Option-cases (get id s.leases)) [
    | inl free ↦ absurd (ground arith)
    | inr (l, at) ↦ (l, at, ground arith)
  ]
]

pub advance-Holding :
    (id worker : String) (from to : BuildStatus) (s : Store)
    → can_transition from to ≡ true
    → Holding id worker from s
    → (t : Store) × (advance id worker from to s ≡ ok (true, t)) × Holding id worker to t
unfolding advance assert_transition
advance-Holding id worker from to s legal (b, held, at) =
    let (l, there, mine) = held-Lease id worker s b held in
    let moved : BuildRecord = record b { status = to } in
    let t : Store = record s { builds = put id moved s.builds } in
    let here : is_status b.status from ≡ true = ground arith in
    (
      t,
      ground arith,
      (moved, held_with id worker t moved l (get-put-same id moved s.builds) there mine, refl),
    )

finish-Holding :
    (id worker : String) (st to : BuildStatus) (change : BuildRecord → BuildRecord) (s : Store)
    → can_transition st to ≡ true
    → ((b : BuildRecord) → (change b).status ≡ to)
    → Holding id worker st s
    → (t : Store) × (finish id worker to change s ≡ (true, t)) × Ended id to t
unfolding finish
finish-Holding id worker st to change s legal ends (b, held, at) =
    let may : can_transition b.status to ≡ true = rw at legal in
    let t : Store = record s { builds = put id (change b) s.builds; leases = delete id s.leases } in
    (t, ground arith, (change b, get-put-same id (change b) s.builds, ends b))

pub fail-Holding :
    (st : BuildStatus) (now : ℕ) (args : FailBuildArgs) (s : Store)
    → can_transition st failed ≡ true
    → Holding args.build_id args.worker_id st s
    → (t : Store) × (fail now args s ≡ (true, t)) × Ended args.build_id failed t
unfolding fail
fail-Holding st now args s legal h =
    finish-Holding args.build_id args.worker_id st failed (failed_build now args) s legal
      (λ b. refl) h

pub cancel-Holding :
    (id worker : String) (st : BuildStatus) (now : ℕ) (log : Option String) (s : Store)
    → can_transition st cancelled ≡ true
    → Holding id worker st s
    → (t : Store) × (cancel now id worker log s ≡ (true, t)) × Ended id cancelled t
unfolding cancel
cancel-Holding id worker st now log s legal h =
    finish-Holding id worker st cancelled (cancelled_build now log) s legal (λ b. refl) h

pub complete-Holding :
    (st : BuildStatus) (now : ℕ) (args : CompleteBuildArgs) (s : Store)
    → can_transition st succeeded ≡ true
    → Holding args.build_id args.worker_id st s
    → (t : Store) × (complete now args s ≡ (true, t)) × Ended args.build_id succeeded t
unfolding complete
complete-Holding st now args s legal h =
    let (t, e, ended) =
      finish-Holding args.build_id args.worker_id st succeeded (completed_build now args) s legal
        (λ b. refl) h in
    (
      record t {
        artifacts =
            put args.artifact.id (artifact_record now args.build_id args.artifact) t.artifacts;
      },
      ground arith,
      ended,
    )
