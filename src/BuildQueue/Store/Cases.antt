-- ===== src/BuildQueue/Store/Cases.antt =====
-- The branches of each call that writes one build, as equations.
use qmk_web_app.Common.{
  ℕ, String, ◌≡◌, refl, arith, Option, none, some, true, false, Option-cases, Bool-cases, inl, inr,
  ◌⊎◌, ◌≢◌,
}
use qmk_web_app.Common.Dict.{get, put, delete, add}
use qmk_web_app.Domain.Build.{
  BuildStatus, BuildRecord, queued, preparing, cancelled, cancelled_code, can_transition, is_status,
  is_terminal,
}
use qmk_web_app.BuildQueue.Types.{CancelOutcome, outright, requested, already_finished}
use qmk_web_app.BuildQueue.Store.{
  Store, ok, illegal_transition, assert_transition, get_build, cancel_build, request_cancellation,
}
use qmk_web_app.BuildQueue.Store.Queue.{held_build, finish, advance, claim, next_build, lease_build}
use qmk_web_app.BuildQueue.Next.{next_build_claimable}

-- The build that a worker holds is the one stored under its id, and the lease is the worker's.
pub get-held_build :
    (id worker : String) (s : Store) {b : BuildRecord}
    → held_build id worker s ≡ some b
    → get id s.builds ≡ some b
unfolding held_build
get-held_build id worker s h = ground arith

pub get-get_build :
    (id owner : String) (s : Store) {b : BuildRecord}
    → get_build id owner s ≡ some b
    → get id s.builds ≡ some b
unfolding get_build
get-get_build id owner s h = ground arith

module _ (id worker : String) (to : BuildStatus) (change : BuildRecord → BuildRecord)
    (s : Store) where
  -- The store after a worker's last call.
  abbrev pub finished : BuildRecord → Store
  finished b = record s { builds = put id (change b) s.builds; leases = delete id s.leases }

  abbrev pub Finishes : BuildRecord → Type 0
  Finishes b =
      (held_build id worker s ≡ some b)
      × (can_transition b.status to ≡ true)
      × (finish id worker to change s ≡ (true, finished b))

  pub finish_cases : (finish id worker to change s ≡ (false, s)) ⊎ ((b : BuildRecord) × Finishes b)
  unfolding finish
  finish_cases = elim (Option-cases (held_build id worker s)) [
    | inl e ↦ inl (ground arith)
    | inr (b, e) ↦ elim (Bool-cases (can_transition b.status to)) [
      | inl legal ↦ inr (b, (e, legal, ground arith))
      | inr illegal ↦ inl (ground arith)
    ]
  ]

module _ (id worker : String) (from to : BuildStatus) (s : Store) where
  abbrev pub advanced : BuildRecord → Store
  advanced b = record s { builds = put id (record b { status = to }) s.builds }

  abbrev pub AdvancesTo : BuildRecord → Type 0
  AdvancesTo b =
      (held_build id worker s ≡ some b)
      × (b.status ≡ from)
      × (can_transition from to ≡ true)
      × (advance id worker from to s ≡ ok (true, advanced b))

  pub advance_cases :
      (advance id worker from to s ≡ illegal_transition from to)
      ⊎ (advance id worker from to s ≡ ok (false, s))
      ⊎ ((b : BuildRecord) × AdvancesTo b)
  unfolding advance assert_transition
  advance_cases = elim (Bool-cases (can_transition from to)) [
    | inr illegal ↦ inl (ground arith)
    | inl legal ↦ elim (Option-cases (held_build id worker s)) [
      | inl e ↦ inr (inl (ground arith))
      | inr (b, e) ↦ elim (Bool-cases (is_status b.status from)) [
        | inl here ↦ inr (inr (b, (e, ground arith, legal, ground arith)))
        | inr elsewhere ↦ inr (inl (ground arith))
      ]
    ]
  ]

-- The two transitions that the store itself asserts.
from_queued_legal :
    (t : BuildStatus)
    → t ≡ queued
    → (assert_transition t cancelled ≡ ok tt) × (assert_transition t preparing ≡ ok tt)
unfolding assert_transition can_transition
from_queued_legal t e = rw e (refl, refl)

module _ (now : ℕ) (worker : String) (lease_ms : ℕ) (s : Store) where
  abbrev pub Claims : BuildRecord → Type 0
  Claims b =
      (next_build s ≡ some b)
      × (b.status ≡ queued)
      × (claim now worker lease_ms s ≡ ok (lease_build now worker lease_ms b s))

  pub claim_cases :
      ((next_build s ≡ none) × (claim now worker lease_ms s ≡ ok (none, s)))
      ⊎ ((b : BuildRecord) × Claims b)
  unfolding claim
  claim_cases = elim (Option-cases (next_build s)) [
    | inl e ↦ inl (e, ground arith)
    | inr (b, e) ↦
        let waiting : b.status ≡ queued = ground (arith, next_build_claimable s e) in
        inr (b, (e, waiting, ground (arith, from_queued_legal b.status)))
  ]

module _ (now : ℕ) (id owner : String) (s : Store) where
  -- The store after a queued build has been cancelled outright.
  abbrev pub withdrawn : BuildRecord → Store
  withdrawn b = record s {
    builds =
        put id
          (record b {
            status = cancelled;
            failure_code = some cancelled_code;
            completed_at = some now;
          })
          s.builds;
    cancel_requested = add id s.cancel_requested;
  }

  abbrev pub Withdraws : BuildRecord → Type 0
  Withdraws b =
      (get_build id owner s ≡ some b)
      × (b.status ≡ queued)
      × (request_cancellation now id owner s ≡ ok (some outright, withdrawn b))

  -- A call that leaves the builds alone.
  abbrev pub Requests : Type 0
  Requests =
      (outcome : Option CancelOutcome) × (s' : Store) × (request_cancellation now id owner s
        ≡ ok (outcome, s'))
      × (outcome ≢ some outright)
      × (s'.builds ≡ s.builds)
      × (s'.leases ≡ s.leases)
      × (s'.artifacts ≡ s.artifacts)

  pub request_cancellation_cases : Requests ⊎ ((b : BuildRecord) × Withdraws b)
  unfolding request_cancellation cancel_build
  request_cancellation_cases = elim (Option-cases (get_build id owner s)) [
    | inl e ↦ inl (none, s, ground arith, (λ h. cc), refl, refl, refl)
    | inr (b, e) ↦ elim (Bool-cases (is_terminal b.status)) [
      | inl done ↦ inl (some already_finished, s, ground arith, (λ h. cc), refl, refl, refl)
      | inr live ↦ elim (Bool-cases (is_status b.status queued)) [
        | inl waiting ↦ inr (b, (e, ground arith, ground (arith, from_queued_legal b.status)))
        | inr running ↦ inl (
          some requested,
          record s { cancel_requested = add id s.cancel_requested },
          ground arith,
          (λ h. cc),
          refl,
          refl,
          refl,
        )
      ]
    ]
  ]
