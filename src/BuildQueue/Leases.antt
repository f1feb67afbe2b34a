-- ===== src/BuildQueue/Leases.antt =====
-- The lease decides which worker may write a build.
use qmk_web_app.Common.{
  ◌===◌, Option-cases, inl, inr, false, ℕ, suc, ◌+◌, ◌≤◌, ◌≡◌, refl, ap, ◌≢◌, sym, ◌∙◌, arith,
  String, Option, none, some, true, false, All, inl, inr,
}
use qmk_web_app.Common.Dict.{get, values, get-put}
use qmk_web_app.Domain.Build.{BuildStatus, preparing, BuildRecord, can_transition}
use qmk_web_app.BuildQueue.Types.{ClaimedBuild, CompleteBuildArgs, FailBuildArgs}
use qmk_web_app.BuildQueue.Store.{Lease, Store, ok, assert_transition}
use qmk_web_app.BuildQueue.Store.Queue.{
  held_build, heartbeat, advance, finish, complete, fail, cancel, claim, lease_build, next_build,
  is_claimable, claimed_build,
}
use qmk_web_app.BuildQueue.Store.Cases.{claim_cases, get-held_build}
use qmk_web_app.BuildQueue.Keys.{WellKeyed}
use qmk_web_app.BuildQueue.Evolution.{Evolves-WellKeyed}
use qmk_web_app.BuildQueue.Evolution.Calls.{claim-Evolves}
use qmk_web_app.BuildQueue.Next.{next_build-AtHome, next_build_oldest, next_build_claimable}

-- A build whose lease is missing or another worker's is held by nobody who asks as this worker.
unheld :
    (id worker : String) (s : Store)
    → ((l : Lease) → get id s.leases ≡ some l → l.claimed_by === worker ≡ false)
    → held_build id worker s ≡ none
unfolding held_build
unheld id worker s other = elim (Option-cases (get id s.builds)) [
  | inl absent ↦ ground arith
  | inr (b, e) ↦ elim (Option-cases (get id s.leases)) [
    | inl free ↦ ground arith
    | inr (l, at) ↦ ground (arith, other l at)
  ]
]

-- A worker to whom no lease of a build belongs changes nothing by any of its calls on the build:
-- each answers that the lease is gone, whatever its other arguments are, if an `advance` asks for a
-- legal transition.
pub unheld_calls :
    (id worker : String) (s : Store) (now lease_ms : ℕ) (from to : BuildStatus)
    (log : Option String) (c : CompleteBuildArgs) (f : FailBuildArgs)
    → ((l : Lease) → get id s.leases ≡ some l → l.claimed_by === worker ≡ false)
    → can_transition from to ≡ true
    → (heartbeat now id worker lease_ms s ≡ (none, s))
      × (advance id worker from to s ≡ ok (false, s))
      × (complete now (record c { build_id = id; worker_id = worker }) s ≡ (false, s))
      × (fail now (record f { build_id = id; worker_id = worker }) s ≡ (false, s))
      × (cancel now id worker log s ≡ (false, s))
unfolding heartbeat advance assert_transition complete fail cancel finish
unheld_calls id worker s now lease_ms from to log c f other legal =
    let gone = unheld id worker s other in
    (ground arith, ground arith, ground arith, ground arith, ground arith)

-- The build that a claim takes, and the store that it leaves.
pub record Claimed (now : ℕ) (worker : String) (lease_ms : ℕ) (s : Store) (c : ClaimedBuild)
    (s' : Store) : Type 0 where
  pub build : BuildRecord
  pub is_next : next_build s ≡ some build
  pub same_id : c.build_id ≡ build.id
  pub attempt : c.attempt_count ≡ suc build.attempt_count
  pub after : s' ≡ (lease_build now worker lease_ms build s).1

pub claim-Claimed :
    (now : ℕ) (worker : String) (lease_ms : ℕ) (s : Store) (c : ClaimedBuild) (s' : Store)
    → claim now worker lease_ms s ≡ ok (some c, s')
    → Claimed now worker lease_ms s c s'
unfolding lease_build
claim-Claimed now worker lease_ms s c s' e = elim (claim_cases now worker lease_ms s) [
  | inl h ↦ cc
  | inr (b, h) ↦ record {
    build = b;
    is_next = h.0;
    same_id = ground arith;
    attempt = ground arith;
    after = ground arith;
  }
]

-- A build in the hands of a worker: `preparing`, with one more attempt, started when it was first
-- claimed.
abbrev pub taken : (now : ℕ) → BuildRecord → BuildRecord
taken now b = record b {
  status = preparing;
  attempt_count = suc b.attempt_count;
  started_at = some (elim b.started_at [ none ↦ now | some first ↦ first ]);
}

claimed_build-taken : (now : ℕ) (b : BuildRecord) → claimed_build now b ≡ taken now b
claimed_build-taken now b = elim (Option-cases b.started_at) [
  | inl never ↦ rw never refl
  | inr (first, e) ↦ rw e refl
]

-- In a store whose builds stand under their own ids, a claim that finds a build takes a queued
-- build whose cancellation nobody has asked for, and of all such builds one that was requested
-- first. Afterwards the worker holds that build, which is `preparing`, has one more attempt than
-- before, keeps the time at which it was first started or gets the time of the claim, and is as it
-- was otherwise.
pub claim_oldest :
    (now : ℕ) (worker : String) (lease_ms : ℕ) (s : Store) (c : ClaimedBuild) (s' : Store)
    → WellKeyed s.builds
    → claim now worker lease_ms s ≡ ok (some c, s')
    → (b : BuildRecord) × (get c.build_id s.builds ≡ some b)
      × (is_claimable s b ≡ true)
      × All (λ d. is_claimable s d ≡ true → b.requested_at ≤ d.requested_at) (values s.builds)
      × (c.attempt_count ≡ suc b.attempt_count)
      × (held_build c.build_id worker s' ≡ some (taken now b))
unfolding lease_build held_build
claim_oldest now worker lease_ms s c s' w e =
    let r = claim-Claimed now worker lease_ms s c s' e in
    (
      r.build,
      rw r.same_id (next_build-AtHome s r.is_next w),
      next_build_claimable s r.is_next,
      next_build_oldest s r.is_next,
      r.attempt,
      held r ∙ ap some (claimed_build-taken now r.build),
    )
  where
    held :
        (r : Claimed now worker lease_ms s c s')
        → held_build c.build_id worker s' ≡ some (claimed_build now r.build)
    held r =
        rw (r.after, r.same_id)
          (ground (
            arith,
            get-put r.build.id r.build.id (claimed_build now r.build) s.builds,
            get-put r.build.id r.build.id
                (record { claimed_by = worker; lease_expires_at = now + lease_ms }) s.leases,
          ))

-- In a store whose builds stand under their own ids, two claims in a row never return the same
-- build, whoever makes them.
pub claim_twice_differs :
    (now now' : ℕ) (worker worker' : String) (lease_ms lease_ms' : ℕ) (s s' s'' : Store)
    (c c' : ClaimedBuild)
    → WellKeyed s.builds
    → claim now worker lease_ms s ≡ ok (some c, s')
    → claim now' worker' lease_ms' s' ≡ ok (some c', s'')
    → c'.build_id ≢ c.build_id
claim_twice_differs now now' worker worker' lease_ms lease_ms' s s' s'' c c' w e e' same =
    let (b, at, claimable, oldest, attempt, held) = claim_oldest now worker lease_ms s c s' w e in
    let w' = Evolves-WellKeyed s.builds s'.builds (claim-Evolves now worker lease_ms s s' w e) w in
    let (b', at', claimable', oldest', attempt', held') =
      claim_oldest now' worker' lease_ms' s' c' s'' w' e' in
    let at'' : get c.build_id s'.builds ≡ some b' = rw same at at' in
    let again : some b' ≡ some (taken now b) =
      sym at'' ∙ get-held_build c.build_id worker s' held in
    ground arith
