-- ===== src/BuildQueue/History.antt =====
-- Histories of the store: any calls of the API and of any number of workers, in any order.
pub mod Counts
pub mod Admission
use qmk_web_app.Common.{
  ℕ, String, ◌≡◌, refl, arith, Option, none, some, Bool, false, inl, inr, ◌⊎◌, subst, sym,
  Option-cases, find, ◌∙◌, if◌then◌else◌, ◌===◌, Bool-cases,
}
use qmk_web_app.Common.Dict.{get, put, values, get-put}
use qmk_web_app.Domain.Build.{BuildStatus, BuildRecord, queued}
use qmk_web_app.Domain.Build.Graph.{EndsIn, ended-⟶*}
use qmk_web_app.BuildQueue.Types.{
  CancelOutcome, ClaimedBuild, CompleteBuildArgs, FailBuildArgs, CreateBuildResult, created,
}
use qmk_web_app.BuildQueue.Store.{
  Store, Result, ok, create, admit, request_cancellation, first_rejection, count_active_global,
  count_active_for_owner, count_requested_since, hour_ms, same_request,
}
use qmk_web_app.BuildQueue.Store.Queue.{
  claim, heartbeat, advance, complete, fail, cancel, held_build,
}
use qmk_web_app.BuildQueue.Store.Retention.{reclaim_expired_leases, reap}
use qmk_web_app.BuildQueue.Keys.{WellKeyed, put-WellKeyed}
use qmk_web_app.BuildQueue.Evolution.{
  Request, request_of, Advances, Advances-refl, Advances-trans, Evolves, Evolves-refl, Evolves-get,
  Evolves-WellKeyed, SameBuild, missing, kept,
}
use qmk_web_app.BuildQueue.Evolution.Calls.{
  complete-Evolves, fail-Evolves, cancel-Evolves, advance-Evolves, claim-Evolves,
  request_cancellation-Evolves, heartbeat-Evolves,
}
use qmk_web_app.BuildQueue.Evolution.Loops.{reclaim_expired_leases-Evolves, reap-Evolves}

-- One call. A build comes in queued and under a new id, as `prepareBuild` makes it.
pub data Step (s s' : Store) : Type 0 where
  creates :
      (now : ℕ) (asked : BuildRecord)
      → asked.status ≡ queued
      → get asked.id s.builds ≡ none
      → (create now asked s).1 ≡ s'
      → Step s s'
  requests_cancellation :
      (now : ℕ) (id owner : String) (outcome : Option CancelOutcome)
      → request_cancellation now id owner s ≡ ok (outcome, s')
      → Step s s'
  claims :
      (now : ℕ) (worker : String) (lease_ms : ℕ) (found : Option ClaimedBuild)
      → claim now worker lease_ms s ≡ ok (found, s')
      → Step s s'
  beats :
      (now : ℕ) (id worker : String) (lease_ms : ℕ)
      → (heartbeat now id worker lease_ms s).1 ≡ s'
      → Step s s'
  advances :
      (id worker : String) (from to : BuildStatus) (moved : Bool)
      → advance id worker from to s ≡ ok (moved, s')
      → Step s s'
  completes : (now : ℕ) (args : CompleteBuildArgs) → (complete now args s).1 ≡ s' → Step s s'
  fails : (now : ℕ) (args : FailBuildArgs) → (fail now args s).1 ≡ s' → Step s s'
  cancels :
      (now : ℕ) (id worker : String) (log : Option String)
      → (cancel now id worker log s).1 ≡ s'
      → Step s s'
  reclaims : (now max_attempts : ℕ) → (reclaim_expired_leases now max_attempts s).1 ≡ s' → Step s s'
  reaps : (now log_retention : ℕ) → (reap now log_retention s).1 ≡ s' → Step s s'

pub data Reach (s : Store) : Store → Type 0 where
  start : Reach s s
  next : {t u : Store} → Reach s t → Step t u → Reach s u

-- A build that `create` let in.
pub record Admitted (s s' : Store) : Type 0 where
  pub now : ℕ
  pub asked : BuildRecord
  pub fresh : get asked.id s.builds ≡ none
  pub first_request : find (same_request asked) (values s.builds) ≡ none
  pub below_caps :
      first_rejection
        (count_active_global s)
        (count_active_for_owner asked.owner_id s)
        (count_requested_since asked.owner_id now hour_ms s)
      ≡ none
  pub stored : s'.builds ≡ put asked.id asked s.builds

-- `create` adds the build, or changes nothing.
create_cases :
    (now : ℕ) (asked : BuildRecord) (s : Store)
    → get asked.id s.builds ≡ none
    → ((create now asked s).1 ≡ s) ⊎ Admitted s (create now asked s).1
unfolding create admit
create_cases now asked s fresh = elim (Option-cases (find (same_request asked) (values s.builds))) [
  | inr (b, e) ↦ inl (ground arith)
  | inl e ↦ elim (Option-cases (rejection)) [
    | inr (r, e') ↦ inl (ground arith)
    | inl e' ↦ inr (record {
      now = now;
      asked = asked;
      fresh = fresh;
      first_request = e;
      below_caps = e';
      stored = ground arith;
    })
  ]
]
  where
    rejection : Option CreateBuildResult
    rejection =
        first_rejection (count_active_global s) (count_active_for_owner asked.owner_id s)
          (count_requested_since asked.owner_id now hour_ms s)

-- What a call does to the builds.
pub Step-cases :
    {s s' : Store} → WellKeyed s.builds → Step s s' → Evolves s.builds s'.builds ⊎ Admitted s s'
Step-cases {s} {s'} w (creates now asked q fresh e) = elim (create_cases now asked s fresh) [
  | inl same ↦ inl (subst (λ t. Evolves s.builds t.builds) (sym same ∙ e) (Evolves-refl s.builds))
  | inr a ↦ inr (subst (λ t. Admitted s t) e a)
]
Step-cases {s} {s'} w (requests_cancellation now id owner outcome e) =
    inl (request_cancellation-Evolves now id owner s s' e)
Step-cases {s} {s'} w (claims now worker lease_ms found e) =
    inl (claim-Evolves now worker lease_ms s s' w e)
Step-cases {s} w (beats now id worker lease_ms e) =
    inl (subst (λ t. Evolves s.builds t.builds) e (heartbeat-Evolves now id worker lease_ms s))
Step-cases {s} {s'} w (advances id worker from to moved e) =
    inl (advance-Evolves id worker from to s s' e)
Step-cases {s} w (completes now args e) =
    inl (subst (λ t. Evolves s.builds t.builds) e (complete-Evolves now args s))
Step-cases {s} w (fails now args e) =
    inl (subst (λ t. Evolves s.builds t.builds) e (fail-Evolves now args s))
Step-cases {s} w (cancels now id worker log e) =
    inl (subst (λ t. Evolves s.builds t.builds) e (cancel-Evolves now id worker log s))
Step-cases {s} w (reclaims now max_attempts e) =
    inl
      (subst (λ t. Evolves s.builds t.builds) e (reclaim_expired_leases-Evolves now max_attempts s))
Step-cases {s} w (reaps now log_retention e) =
    inl (subst (λ t. Evolves s.builds t.builds) e (reap-Evolves now log_retention s))

pub Step-WellKeyed : {s s' : Store} → WellKeyed s.builds → Step s s' → WellKeyed s'.builds
Step-WellKeyed {s} {s'} w st = elim (Step-cases w st) [
  | inl e ↦ Evolves-WellKeyed s.builds s'.builds e w
  | inr a ↦ rw a.stored (put-WellKeyed a.asked s.builds a.fresh w)
]

pub Reach-WellKeyed : {s s' : Store} → WellKeyed s.builds → Reach s s' → WellKeyed s'.builds
Reach-WellKeyed w start = w
Reach-WellKeyed w (next r st) = Step-WellKeyed (Reach-WellKeyed w r) st

-- The build of an id after some calls: the same request, further along the table.
abbrev pub Later : String → BuildRecord → Store → Type 0
Later id b s = (b' : BuildRecord) × (get id s.builds ≡ some b') × Advances b b'

Evolves-Later :
    (id : String) (b : BuildRecord) (s s' : Store)
    → get id s.builds ≡ some b
    → Evolves s.builds s'.builds
    → Later id b s'
Evolves-Later id b s s' here e = elim (Evolves-get id s.builds s'.builds e) [
  | missing p q ↦ cc
  | kept c c' p q a ↦ let same : c ≡ b = cc in (c', q, subst (λ x. Advances x c') same a)
]

Admitted-Later :
    (id : String) (b : BuildRecord) (s s' : Store)
    → get id s.builds ≡ some b
    → Admitted s s'
    → Later id b s'
Admitted-Later id b s s' here a = (
  b,
  subst (λ m. get id m ≡ some b) (sym a.stored)
      (ground (arith, get-put a.asked.id id a.asked s.builds, a.fresh)),
  Advances-refl b,
)

Step-Later :
    (id : String) (b : BuildRecord) {s s' : Store}
    → WellKeyed s.builds
    → get id s.builds ≡ some b
    → Step s s'
    → Later id b s'
Step-Later id b {s} {s'} w here st = elim (Step-cases w st) [
  | inl e ↦ Evolves-Later id b s s' here e
  | inr a ↦ Admitted-Later id b s s' here a
]

-- Through any calls on a store whose builds stand under their own ids, a build keeps its id and
-- the request that it records, and its status follows the transition table; it is never lost.
pub Reach-Later :
    (id : String) (b : BuildRecord) {s s' : Store}
    → WellKeyed s.builds
    → get id s.builds ≡ some b
    → Reach s s'
    → Later id b s'
Reach-Later id b w here start = (b, here, Advances-refl b)
Reach-Later id b w here (next r st) =
    let (c, at, a) = Reach-Later id b w here r in
    let (d, at', a') = Step-Later id c (Reach-WellKeyed w r) at st in (d, at', Advances-trans a a')

-- In a store whose builds stand under their own ids, a build that is failed, cancelled or expired
-- has the same status after any further calls, and one that has succeeded is succeeded or expired.
pub ended-Reach :
    (id : String) (b : BuildRecord) {s s' : Store}
    → WellKeyed s.builds
    → get id s.builds ≡ some b
    → EndsIn b.status b.status
    → Reach s s'
    → (b' : BuildRecord) × (get id s'.builds ≡ some b') × EndsIn b.status b'.status
ended-Reach id b w here done r =
    let (b', at, a) = Reach-Later id b w here r in (b', at, ended-⟶* done a.moves)
