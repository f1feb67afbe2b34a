-- ===== src/BuildQueue/Evolution/Loops.antt =====
-- The loops of `reclaimExpiredLeases` and `reap` let the builds evolve.
use qmk_web_app.Common.{
  ℕ, String, ◌≡◌, refl, arith, Option, none, some, true, false, Bool-cases, inl, inr, List, [], ◌∷◌,
  ltb, leb, Option-cases,
}
use qmk_web_app.Common.Dict.{Dict, get, delete, values}
use qmk_web_app.Domain.Build.{
  BuildStatus, BuildRecord, ArtifactRecord, queued, preparing, building, uploading, succeeded,
  failed, can_transition, is_status,
}
use qmk_web_app.Domain.Build.Graph.{here, move}
use qmk_web_app.BuildQueue.Store.{Lease, Store}
use qmk_web_app.BuildQueue.Store.Retention.{
  is_in_flight, is_skipped, is_held, reclaim_build, reclaim_loop, reclaim_expired_leases,
  expire_build, expire_in, reap_artifacts, old_log, drop_log, reap_logs, reap,
}
use qmk_web_app.BuildQueue.Evolution.{
  Advances, Advances-refl, Evolves, Evolves-refl, Evolves-trans, Evolves-put,
}

in_flight_legal :
    (t : BuildStatus)
    → is_in_flight t ≡ true
    → (can_transition t queued ≡ true) × (can_transition t failed ≡ true)
unfolding is_in_flight can_transition
in_flight_legal preparing h = (refl, refl)
in_flight_legal building h = (refl, refl)
in_flight_legal uploading h = (refl, refl)
in_flight_legal _ h = cc

reclaim_build-Advances :
    (now max_attempts : ℕ) (b : BuildRecord)
    → is_in_flight b.status ≡ true
    → Advances b (reclaim_build now max_attempts b)
unfolding reclaim_build
reclaim_build-Advances now max_attempts b h =
    let (to_queued, to_failed) = in_flight_legal b.status h in
    elim (Bool-cases (leb max_attempts b.attempt_count)) [
      | inl e ↦ rw e (record { same_request = refl; moves = move {t = b.status} here to_failed })
      | inr e ↦ rw e (record { same_request = refl; moves = move {t = b.status} here to_queued })
    ]

pub skipped-false :
    (now : ℕ) (leases : Dict Lease) (b : BuildRecord)
    → is_skipped now leases b ≡ false
    → (is_in_flight b.status ≡ true) × (is_held now (get b.id leases) ≡ false)
unfolding is_skipped
skipped-false now leases b h = ground arith

pub reclaim_loop-Evolves :
    (now max_attempts : ℕ) (m : Dict BuildRecord) (leases : Dict Lease)
    → Evolves m (reclaim_loop now max_attempts m leases).builds
unfolding reclaim_loop
reclaim_loop-Evolves now max_attempts [] leases = tt
reclaim_loop-Evolves now max_attempts ((k, b) ∷ m) leases =
    elim (Bool-cases (is_skipped now leases b)) [
      | inl e ↦ rw e (refl, Advances-refl b, reclaim_loop-Evolves now max_attempts m leases)
      | inr e ↦ rw e (
        refl,
        reclaim_build-Advances now max_attempts b (skipped-false now leases b e).0,
        reclaim_loop-Evolves now max_attempts m (delete b.id leases),
      )
    ]

pub reclaim_expired_leases-Evolves :
    (now max_attempts : ℕ) (s : Store)
    → Evolves s.builds (reclaim_expired_leases now max_attempts s).1.builds
unfolding reclaim_expired_leases
reclaim_expired_leases-Evolves now max_attempts s =
    reclaim_loop-Evolves now max_attempts s.builds s.leases

expire_build-Advances : (b : BuildRecord) → Advances b (expire_build b)
unfolding expire_build can_transition
expire_build-Advances b = elim (Bool-cases (is_status b.status succeeded)) [
  | inl e ↦
      let done : b.status ≡ succeeded = ground arith in
      rw e (record { same_request = refl; moves = rw done (move {t = succeeded} here refl) })
  | inr e ↦ rw e (record { same_request = refl; moves = here })
]

expire_in-Evolves : (id : String) (m : Dict BuildRecord) → Evolves m (expire_in id (get id m) m)
expire_in-Evolves id m = elim (Option-cases (get id m)) [
  | inl e ↦ rw e (Evolves-refl m)
  | inr (b, e) ↦ rw e (Evolves-put id b (expire_build b) m e (expire_build-Advances b))
]

reap_artifacts-Evolves :
    (now : ℕ) (old : List ArtifactRecord) (m : Dict BuildRecord) (artifacts : Dict ArtifactRecord)
    → Evolves m (reap_artifacts now old m artifacts).builds
unfolding reap_artifacts
reap_artifacts-Evolves now [] m artifacts = Evolves-refl m
reap_artifacts-Evolves now (a ∷ old) m artifacts = elim (Bool-cases (ltb now a.expires_at)) [
  | inl e ↦ rw e (reap_artifacts-Evolves now old m artifacts)
  | inr e ↦
      let m' = expire_in a.build_id (get a.build_id m) m in
      rw e (
        Evolves-trans m m' _ (expire_in-Evolves a.build_id m)
          (reap_artifacts-Evolves now old m' (delete a.id artifacts)))
]

drop_log-Advances : (l : Option String) (b : BuildRecord) → Advances b (drop_log l b)
drop_log-Advances none b = Advances-refl b
drop_log-Advances (some l) b = record { same_request = refl; moves = here }

reap_logs-Evolves :
    (now log_retention : ℕ) (m : Dict BuildRecord) → Evolves m (reap_logs now log_retention m).0
unfolding reap_logs
reap_logs-Evolves now log_retention [] = tt
reap_logs-Evolves now log_retention ((k, b) ∷ m) =
    (refl, drop_log-Advances (old_log now log_retention b) b, reap_logs-Evolves now log_retention m)

pub reap-Evolves :
    (now log_retention : ℕ) (s : Store) → Evolves s.builds (reap now log_retention s).1.builds
unfolding reap
reap-Evolves now log_retention s =
    Evolves-trans s.builds _ _
      (reap_artifacts-Evolves now (values s.artifacts) s.builds s.artifacts)
      (reap_logs-Evolves now log_retention _)
