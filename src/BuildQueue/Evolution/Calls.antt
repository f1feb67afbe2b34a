-- ===== src/BuildQueue/Evolution/Calls.antt =====
-- Every call that writes one build lets the builds evolve.
use qmk_web_app.Common.{ℕ, String, ◌≡◌, refl, arith, Option, Bool, true, inl, inr, sym, subst}
use qmk_web_app.Common.Dict.{Dict}
use qmk_web_app.Domain.Build.{
  BuildStatus, BuildRecord, succeeded, failed, cancelled, can_transition,
}
use qmk_web_app.Domain.Build.Graph.{◌⟶*◌, here, move}
use qmk_web_app.BuildQueue.Types.{CancelOutcome, ClaimedBuild, CompleteBuildArgs, FailBuildArgs}
use qmk_web_app.BuildQueue.Store.{Store, ok, request_cancellation}
use qmk_web_app.BuildQueue.Store.Queue.{
  completed_build, finish, complete, fail, cancel, advance, heartbeat, claim, lease_build,
}
use qmk_web_app.BuildQueue.Store.Cases.{
  get-held_build, get-get_build, finish_cases, advance_cases, claim_cases,
  request_cancellation_cases, advanced, withdrawn,
}
use qmk_web_app.BuildQueue.Keys.{WellKeyed}
use qmk_web_app.BuildQueue.Next.{next_build-AtHome}
use qmk_web_app.BuildQueue.Evolution.{Advances, Evolves, Evolves-refl, Evolves-put}

-- A change of the status along one transition.
one : {s t u : BuildStatus} → s ≡ t → can_transition t u ≡ true → s ⟶* u
one {s} {t} {u} e legal = subst (λ x. x ⟶* u) (sym e) (move {t = t} here legal)

-- Into the store that a call returned.
into : (m : Dict BuildRecord) (s s' : Store) → s ≡ s' → Evolves m s.builds → Evolves m s'.builds
into m s s' same e = subst (λ x. Evolves m x.builds) same e

pub finish-Evolves :
    (id worker : String) (to : BuildStatus) (change : BuildRecord → BuildRecord) (s : Store)
    → ((b : BuildRecord) → can_transition b.status to ≡ true → Advances b (change b))
    → Evolves s.builds (finish id worker to change s).1.builds
finish-Evolves id worker to change s good = elim (finish_cases id worker to change s) [
  | inl e ↦ rw e (Evolves-refl s.builds)
  | inr (b, h) ↦
      rw h.2 (Evolves-put id b (change b) s.builds (get-held_build id worker s h.0) (good b h.1))
]

pub complete-Evolves :
    (now : ℕ) (args : CompleteBuildArgs) (s : Store)
    → Evolves s.builds (complete now args s).1.builds
unfolding complete
complete-Evolves now args s = ground (
  arith,
  finish-Evolves args.build_id args.worker_id succeeded (completed_build now args) s
      (λ (b : BuildRecord) (legal : can_transition b.status succeeded ≡ true). record {
        same_request = refl;
        moves = one refl legal;
      }),
)

pub fail-Evolves :
    (now : ℕ) (args : FailBuildArgs) (s : Store) → Evolves s.builds (fail now args s).1.builds
unfolding fail
fail-Evolves now args s =
    finish-Evolves _ _ failed _ s λ b legal. record { same_request = refl; moves = one refl legal }

pub cancel-Evolves :
    (now : ℕ) (id worker : String) (log : Option String) (s : Store)
    → Evolves s.builds (cancel now id worker log s).1.builds
unfolding cancel
cancel-Evolves now id worker log s =
    finish-Evolves _ _ cancelled _ s
      λ b legal. record { same_request = refl; moves = one refl legal }

pub advance-Evolves :
    (id worker : String) (from to : BuildStatus) (s s' : Store) {moved : Bool}
    → advance id worker from to s ≡ ok (moved, s')
    → Evolves s.builds s'.builds
advance-Evolves id worker from to s s' e = elim (advance_cases id worker from to s) [
  | inl thrown ↦ cc
  | inr (inl kept) ↦ into s.builds s s' (cc) (Evolves-refl s.builds)
  | inr (inr (b, h)) ↦ into s.builds (advanced id worker from to s b) s' (cc) (
      Evolves-put id b _ s.builds (get-held_build id worker s h.0)
        (record { same_request = refl; moves = one h.1 h.2 }))
]

pub claim-Evolves :
    (now : ℕ) (worker : String) (lease_ms : ℕ) (s s' : Store) {found : Option ClaimedBuild}
    → WellKeyed s.builds
    → claim now worker lease_ms s ≡ ok (found, s')
    → Evolves s.builds s'.builds
unfolding lease_build can_transition
claim-Evolves now worker lease_ms s s' w e = elim (claim_cases now worker lease_ms s) [
  | inl h ↦ into s.builds s s' (cc) (Evolves-refl s.builds)
  | inr (b, h) ↦ into s.builds ((lease_build now worker lease_ms b s).1) s' (cc) (
      Evolves-put b.id b _ s.builds (next_build-AtHome s h.0 w)
        (record { same_request = refl; moves = one h.1 refl }))
]

pub request_cancellation-Evolves :
    (now : ℕ) (id owner : String) (s s' : Store) {outcome : Option CancelOutcome}
    → request_cancellation now id owner s ≡ ok (outcome, s')
    → Evolves s.builds s'.builds
unfolding can_transition
request_cancellation-Evolves now id owner s s' e =
    elim (request_cancellation_cases now id owner s) [
      | inl (outcome', t, returns, other, same, _, _) ↦
          into s.builds t s' (cc)
            (subst (λ m. Evolves s.builds m) (sym same) (Evolves-refl s.builds))
      | inr (b, h) ↦ into s.builds (withdrawn now id owner s b) s' (cc) (
          Evolves-put id b _ s.builds (get-get_build id owner s h.0)
            (record { same_request = refl; moves = one h.1 refl }))
    ]

pub heartbeat-Evolves :
    (now : ℕ) (id worker : String) (lease_ms : ℕ) (s : Store)
    → Evolves s.builds (heartbeat now id worker lease_ms s).1.builds
unfolding heartbeat
heartbeat-Evolves now id worker lease_ms s = ground (arith, Evolves-refl s.builds)
