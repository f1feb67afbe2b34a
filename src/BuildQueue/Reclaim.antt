-- ===== src/BuildQueue/Reclaim.antt =====
-- What `reclaimExpiredLeases` does to each build.
use qmk_web_app.Common.{
  ℕ, ◌≤◌, ◌<◌, ◌↔◌, Option, Option-cases, ◌≡◌, refl, sym, ap, ◌∙◌, arith, String, none, some, true,
  false, inl, inr, ◌===◌, Bool-cases, [], ◌∷◌, if◌then◌else◌, subst,
}
use qmk_web_app.Common.Dict.{Dict, get, delete, get-delete}
use qmk_web_app.Domain.Build.{
  BuildStatus, BuildStatus-discrete, BuildRecord, queued, preparing, building, uploading, succeeded,
  failed, cancelled, expired, sandbox_error,
}
use qmk_web_app.BuildQueue.Store.{Lease, Store}
use qmk_web_app.BuildQueue.Store.Retention.{
  is_in_flight, is_held, is_skipped, reclaim_build, reclaim_loop, reclaim_expired_leases,
}
use qmk_web_app.BuildQueue.Keys.{WellKeyed, get-id}
use qmk_web_app.BuildQueue.Evolution.Loops.{skipped-false}

-- A worker has the build.
pub data InFlight : BuildStatus → Type 0 where
  while_preparing : InFlight preparing
  while_building : InFlight building
  while_uploading : InFlight uploading

is_in_flight-InFlight : (st : BuildStatus) → (is_in_flight st ≡ true) ↔ InFlight st
unfolding is_in_flight BuildStatus-discrete
is_in_flight-InFlight preparing = ((λ e. while_preparing), λ h. refl)
is_in_flight-InFlight building = ((λ e. while_building), λ h. refl)
is_in_flight-InFlight uploading = ((λ e. while_uploading), λ h. refl)
is_in_flight-InFlight queued = ((λ e. absurd cc), λ h. elim h [ ])
is_in_flight-InFlight succeeded = ((λ e. absurd cc), λ h. elim h [ ])
is_in_flight-InFlight failed = ((λ e. absurd cc), λ h. elim h [ ])
is_in_flight-InFlight cancelled = ((λ e. absurd cc), λ h. elim h [ ])
is_in_flight-InFlight expired = ((λ e. absurd cc), λ h. elim h [ ])

module _ (now max_attempts : ℕ) where
  -- What becomes of a build.
  abbrev pub reclaimed : Dict Lease → BuildRecord → BuildRecord
  reclaimed leases b = if is_skipped now leases b then b else reclaim_build now max_attempts b

  -- Only the leases of the builds in the loop go.
  loop-leases :
      (id : String) (m : Dict BuildRecord) (leases : Dict Lease)
      → WellKeyed m
      → get id m ≡ none
      → get id (reclaim_loop now max_attempts m leases).leases ≡ get id leases
  unfolding reclaim_loop get
  loop-leases id [] leases w fresh = refl
  loop-leases id ((k, b) ∷ m) leases w fresh = elim (Bool-cases (is_skipped now leases b)) [
    | inl e ↦ rw e (loop-leases id m leases w.2 (ground arith))
    | inr e ↦ rw e (
        loop-leases id m (delete b.id leases) w.2 (ground arith)
        ∙ ground (arith, get-delete b.id id leases))
  ]

  skipped-delete :
      (id : String) (b : BuildRecord) (leases : Dict Lease)
      → id === b.id ≡ false
      → is_skipped now (delete id leases) b ≡ is_skipped now leases b
  unfolding is_skipped
  skipped-delete id b leases e = ground (arith, get-delete id b.id leases)

  same_fate :
      (c b : BuildRecord) (leases : Dict Lease)
      → c.id === b.id ≡ false
      → reclaimed (if is_skipped now leases c then leases else delete c.id leases) b
        ≡ reclaimed leases b
  same_fate c b leases e = ground (arith, skipped-delete c.id b leases e)

  loop-get :
      (id : String) (m : Dict BuildRecord) (leases : Dict Lease) {b : BuildRecord}
      → WellKeyed m
      → get id m ≡ some b
      → get id (reclaim_loop now max_attempts m leases).builds ≡ some (reclaimed leases b)
  unfolding reclaim_loop get
  loop-get id [] leases w e = cc
  loop-get id ((k, c) ∷ m) leases {b} w e = elim (Bool-cases (k === id)) [
    | inl hit ↦
        let same : c ≡ b = ground arith in
        rw hit (subst (λ x. some (reclaimed leases c) ≡ some (reclaimed leases x)) same refl)
    | inr miss ↦
        let at : get id m ≡ some b = ground arith in
        let apart : c.id === b.id ≡ false = ground (arith, get-id id m w.2 at) in
        rw miss (
          loop-get id m (if is_skipped now leases c then leases else delete c.id leases) w.2 at
          ∙ ap some (same_fate c b leases apart))
  ]

  get-reclaimed :
      (id : String) (s : Store) {b : BuildRecord}
      → WellKeyed s.builds
      → get id s.builds ≡ some b
      → get id (reclaim_expired_leases now max_attempts s).1.builds ≡ some (reclaimed s.leases b)
  unfolding reclaim_expired_leases
  get-reclaimed id s w e = loop-get id s.builds s.leases w e

  -- What the sweep owes a build, by its status, its lease and its attempts.
  abbrev pub Owed : Option Lease → (before after : BuildRecord) → Type 0
  Owed lease b b' =
      (¬ InFlight b.status → b' ≡ b)
      × ((l : Lease) → lease ≡ some l → now < l.lease_expires_at → b' ≡ b)
      × (InFlight b.status
          → ((l : Lease) → lease ≡ some l → l.lease_expires_at ≤ now)
          → (b.attempt_count < max_attempts → b' ≡ record b { status = queued })
            × (max_attempts ≤ b.attempt_count
                → b' ≡ record b {
                  status = failed;
                  failure_code = some sandbox_error;
                  completed_at = some now;
                }))

  reclaimed-Owed :
      (leases : Dict Lease) (b : BuildRecord) → Owed (get b.id leases) b (reclaimed leases b)
  unfolding is_skipped reclaim_build is_held
  reclaimed-Owed leases b =
      let flies = is_in_flight-InFlight b.status in
      elim (Bool-cases (is_in_flight b.status)) [
        | inr stands ↦ (
          (λ h. ground arith),
          (λ l at live. ground arith),
          λ h late. absurd (ground (arith, flies.1 h)),
        )
        | inl flying ↦ (
          (λ h. absurd (h (flies.0 flying))),
          (λ l at live. ground arith),
          λ h late. elim (Option-cases (get b.id leases)) [
            | inl free ↦ ((λ few. ground arith), λ many. ground arith)
            | inr (l, at) ↦ ((λ few. ground (arith, late l at)), λ many. ground (arith, late l at))
          ],
        )
      ]

  -- In a store whose builds stand under their own ids, the sweep requeues a build in flight whose
  -- lease is missing or has expired by now, or fails it at this time as a sandbox error once its
  -- attempts are used up, and changes no other field of it; a build that is not in flight or whose
  -- lease is live stays as it was, and none is lost.
  pub get-reclaim_expired_leases :
      (id : String) (s : Store) {b : BuildRecord}
      → WellKeyed s.builds
      → get id s.builds ≡ some b
      → (b' : BuildRecord) × (get id (reclaim_expired_leases now max_attempts s).1.builds ≡ some b')
        × Owed (get id s.leases) b b'
  get-reclaim_expired_leases id s {b} w e = (
    reclaimed s.leases b,
    get-reclaimed id s w e,
    subst (λ i. Owed (get i s.leases) b (reclaimed s.leases b)) (get-id id s.builds w e)
        (reclaimed-Owed s.leases b),
  )

  reclaimed_in_flight :
      (leases : Dict Lease) (b : BuildRecord)
      → is_in_flight (reclaimed leases b).status ≡ true
      → (reclaimed leases b ≡ b) × (is_held now (get b.id leases) ≡ true)
  unfolding is_skipped reclaim_build is_in_flight
  reclaimed_in_flight leases b h = ground arith

-- The leases that are given up are those of builds that nobody held.
loop-held :
    (now max_attempts : ℕ) (id : String) (m : Dict BuildRecord) (leases : Dict Lease)
    → is_held now (get id leases) ≡ true
    → get id (reclaim_loop now max_attempts m leases).leases ≡ get id leases
unfolding reclaim_loop
loop-held now max_attempts id [] leases h = refl
loop-held now max_attempts id ((k, b) ∷ m) leases h = elim (Bool-cases (is_skipped now leases b)) [
  | inl e ↦ rw e (loop-held now max_attempts id m leases h)
  | inr e ↦
      let kept : get id (delete b.id leases) ≡ get id leases =
        ground (arith, get-delete b.id id leases, skipped-false now leases b e) in
      rw e (loop-held now max_attempts id m (delete b.id leases) (ap (is_held now) kept ∙ h) ∙ kept)
]

-- In a store whose builds stand under their own ids, a build that is in flight after the sweep was
-- not touched by it and has a lease that has not expired.
pub reclaim_leaves_held :
    (now max_attempts : ℕ) (id : String) (s : Store) {b b' : BuildRecord}
    → WellKeyed s.builds
    → get id s.builds ≡ some b
    → get id (reclaim_expired_leases now max_attempts s).1.builds ≡ some b'
    → is_in_flight b'.status ≡ true
    → (b' ≡ b) × (is_held now (get id (reclaim_expired_leases now max_attempts s).1.leases) ≡ true)
unfolding reclaim_expired_leases
reclaim_leaves_held now max_attempts id s {b} {b'} w e e' h =
    let fate = get-reclaimed now max_attempts id s w e in
    let became : reclaimed now max_attempts s.leases b ≡ b' = cc in
    let (kept, held) =
      reclaimed_in_flight now max_attempts s.leases b
        (ap (λ x. is_in_flight x.status) became ∙ h) in
    let held' : is_held now (get id s.leases) ≡ true = rw (get-id id s.builds w e) at held in
    (
      sym became ∙ kept,
      ap (is_held now) (loop-held now max_attempts id s.builds s.leases held') ∙ held',
    )
