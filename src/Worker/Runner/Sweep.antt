-- ===== src/Worker/Runner/Sweep.antt =====
-- What the record of a retention sweep says.
use qmk_web_app.Common.{
  ap, ◌∙◌, some_injective, ℕ, suc, ◌≡◌, refl, ap, subst, String, true, false, Bool-cases, Option,
  none, some, inl, inr, List, [], ◌∷◌, ◌++◌, map, if◌then◌else◌,
}
use qmk_web_app.Common.Attempt.{Attempt, done, thrown, done_injective}
use qmk_web_app.Domain.Limits.{log_retention_ms, max_build_attempts}
use qmk_web_app.BuildQueue.Types.{ReapResult}
use qmk_web_app.BuildQueue.Store.{Store}
use qmk_web_app.BuildQueue.Store.Retention.{reap, reclaim_expired_leases}
use qmk_web_app.Worker.Keys.{build_id_from_key}
use qmk_web_app.Worker.World.{
  Turn, Fate, works, fails_before, fails_after, by_fate, WorkerError, World, Action, pure, caught,
  catching, continued, ◌>>=◌, answered, on_queue, on_objects, delete_object,
}
use qmk_web_app.Worker.Options.{Options}
use qmk_web_app.Worker.Maintain.{
  RetentionOutcome, not_deleted, ObjectKind, artifact_object, log_object, RetentionObjectRecord,
  RetentionRecord, Maintenance, of_kind, count_deleted, anything_reaped, deleted_or_absent,
  delete_outcome, delete_reaped, maintain,
}

-- How many records say that an object was deleted.
unfoldable pub deletions : List RetentionObjectRecord → ℕ
deletions [] = 0
deletions (r ∷ rs) = count_deleted r.outcome (deletions rs)

-- A record names the build and the kind of its object.
abbrev pub named : String × ObjectKind → Option String × ObjectKind
named (key, kind) = (build_id_from_key key, kind)

abbrev pub name_of : RetentionObjectRecord → Option String × ObjectKind
name_of r = (r.build_id, r.kind)

-- What the loop returns: it never throws.
abbrev pub Swept : List (String × ObjectKind) → List RetentionObjectRecord × ℕ → Type 0
Swept ks (records, n) = (map name_of records ≡ map named ks) × (n ≡ deletions records)

abbrev Sweeps :
    List (String × ObjectKind)
    → Attempt WorkerError (List RetentionObjectRecord × ℕ) × World
    → Type 0
Sweeps ks (done r, w) = Swept ks r
Sweeps ks (thrown e, w) = ⊥

abbrev Returned : {A : Type 0} → Attempt WorkerError A × World → Type 0
Returned (done a, w) = Unit {0}
Returned (thrown e, w) = ⊥

delete_outcome-Returned :
    (o : Options) (key : String) (w : World) → Returned (delete_outcome o key w)
unfolding delete_outcome catching
delete_outcome-Returned o key w = recovered (tried w)
  where
    tried : Action RetentionOutcome
    tried = on_objects o.env (delete_object key) >>= λ there. pure (deleted_or_absent there)

    recovered :
        (r : Attempt WorkerError RetentionOutcome × World)
        → Returned (caught r (λ e. pure not_deleted))
    recovered (done a, v) = tt
    recovered (thrown e, v) = tt

appended :
    (key : String) (kind : ObjectKind) (rest : List (String × ObjectKind))
    (outcome : RetentionOutcome) (r : Attempt WorkerError (List RetentionObjectRecord × ℕ) × World)
    → Sweeps rest r
    → Sweeps ((key, kind) ∷ rest) (
        continued r λ (records, n). pure (
          record { build_id = build_id_from_key key; kind = kind; outcome = outcome } ∷ records,
          count_deleted outcome n,
        ))
unfolding deletions
appended key kind rest outcome (done (records, n), v) (names, count) =
    (ap (◌∷◌ (build_id_from_key key, kind)) names, ap (count_deleted outcome) count)
appended key kind rest outcome (thrown e, v) none_left = absurd none_left

delete_reaped-Sweeps :
    (o : Options) (ks : List (String × ObjectKind)) (w : World) → Sweeps ks (delete_reaped o ks w)
unfolding delete_reaped ◌>>=◌ deletions
delete_reaped-Sweeps o [] w = (refl, refl)
delete_reaped-Sweeps o ((key, kind) ∷ rest) w =
    first _
      (λ outcome v.
        appended key kind rest outcome (delete_reaped o rest v) (delete_reaped-Sweeps o rest v))
      (delete_outcome o key w) (delete_outcome-Returned o key w)
  where
    first :
        (f : RetentionOutcome → Action (List RetentionObjectRecord × ℕ))
        → ((outcome : RetentionOutcome) (v : World) → Sweeps ((key, kind) ∷ rest) (f outcome v))
        → (r : Attempt WorkerError RetentionOutcome × World) → Returned r
        → Sweeps ((key, kind) ∷ rest) (continued r f)
    first f h (done outcome, v) ok = h outcome v
    first f h (thrown e, v) none_left = absurd none_left

-- What the sweep of the store gave to delete.
abbrev pub Recorded : ReapResult → Maintenance → Type 0
Recorded r m =
    (m.retention ≡ none → anything_reaped r ≡ false)
    × ((kept : RetentionRecord)
        → m.retention ≡ some kept
        → (anything_reaped r ≡ true)
          × (kept.builds_expired ≡ r.builds_expired)
          × (map name_of kept.objects
              ≡ map named
                  (of_kind artifact_object r.artifact_keys ++ of_kind log_object r.log_keys))
          × (m.objects_deleted ≡ deletions kept.objects))

-- The answer of a call of the queue at its turn, when it has one: what the call returns on the store that
-- it finds there, and the world that it leaves.
abbrev Answers :
    {A : Type 0}
    → (ℕ → Turn)
    → ((now : ℕ) → Store → A × Store)
    → World
    → Attempt WorkerError A × World
    → Type 0
Answers env f w (done a, v) =
    let t = env w.turn in
    let r = f t.now (t.others w.store) in (a ≡ r.0) × (v.store ≡ r.1) × (v.turn ≡ suc w.turn)
Answers env f w (thrown e, v) = Unit {0}

on_queue-Answers :
    {A : Type 0} (env : ℕ → Turn) (f : (now : ℕ) → Store → A × Store) (w : World)
    → Answers env f w (on_queue env (λ now s. answered (f now s)) w)
unfolding on_queue
on_queue-Answers {A} env f w = fated (env w.turn).queue_fate
  where
    fated :
        (fate : Fate)
        → let t = env w.turn in
          let s = t.others w.store in
          let r = by_fate fate s (answered (f t.now s)) in
          Answers env f w
            (r.0, record { store = r.1; objects = t.other_objects w.objects; turn = suc w.turn })
    fated works = (refl, refl, refl)
    fated fails_before = tt
    fated fails_after = tt

-- The leases that the worker gives up in its first turn, and the store that this leaves.
abbrev pub reclaimed_in : Options → World → (ℕ × ℕ) × Store
reclaimed_in o w =
    let t = o.env w.turn in reclaim_expired_leases t.now max_build_attempts (t.others w.store)

-- What the sweep in its second turn finds, in that store and with what other processes have done to it.
abbrev pub reaped_in : Options → World → ReapResult
reaped_in o w =
    let t = o.env (suc w.turn) in (reap t.now log_retention_ms (t.others (reclaimed_in o w).1)).0

-- The summary belongs to these two turns.
abbrev pub Summary : Options → World → Maintenance → Type 0
Summary o w m =
    (m.requeued ≡ (reclaimed_in o w).0.0)
    × (m.failed_count ≡ (reclaimed_in o w).0.1)
    × Recorded (reaped_in o w) m

abbrev Sound : Options → World → Attempt WorkerError Maintenance × World → Type 0
Sound o w (done m, v) = Summary o w m
Sound o w (thrown e, v) = Unit {0}

abbrev summary :
    ℕ × ℕ → ReapResult → List RetentionObjectRecord → (objects_deleted : ℕ) → Maintenance
summary reclaimed r records n = record {
  requeued = reclaimed.0;
  failed_count = reclaimed.1;
  objects_deleted = n;
  retention =
      if anything_reaped r
      then some (record { builds_expired = r.builds_expired; objects = records })
      else none;
}

summarized :
    (reclaimed : ℕ × ℕ) (r : ReapResult) (records : List RetentionObjectRecord) (n : ℕ)
    → Swept (of_kind artifact_object r.artifact_keys ++ of_kind log_object r.log_keys) (records, n)
    → Recorded r (summary reclaimed r records n)
summarized reclaimed r records n (names, count) = elim (Bool-cases (anything_reaped r)) [
  | inr nothing ↦ rw nothing ((λ _. refl), λ kept e. absurd cc)
  | inl something ↦ rw something (
    (λ e. absurd cc),
    λ kept e.
        let (expired, same_names, same_count) =
          subst
            (λ k.
              (k.builds_expired ≡ r.builds_expired)
              × (map name_of k.objects
                  ≡ map named
                      (of_kind artifact_object r.artifact_keys ++ of_kind log_object r.log_keys))
              × (n ≡ deletions k.objects))
            (some_injective e) (refl, names, count) in
        (refl, expired, same_names, same_count),
  )
]

module _ (o : Options) (w : World) where
  -- The last step, from what the loop over the objects returns.
  reported :
      (c : ℕ × ℕ) (r : ReapResult)
      → c ≡ (reclaimed_in o w).0
      → r ≡ reaped_in o w
      → (x : Attempt WorkerError (List RetentionObjectRecord × ℕ) × World)
      → Sweeps (of_kind artifact_object r.artifact_keys ++ of_kind log_object r.log_keys) x
      → Sound o w (continued x λ (records, n). pure (summary c r records n))
  reported c r same_c same_r (done (records, n), v) swept = (
    ap (λ x. x.0) same_c,
    ap (λ x. x.1) same_c,
    subst (λ x. Recorded x (summary c r records n)) same_r (summarized c r records n swept),
  )
  reported c r same_c same_r (thrown e, v) swept = tt

  after_reap :
      (c : ℕ × ℕ) (v : World)
      → c ≡ (reclaimed_in o w).0
      → v.store ≡ (reclaimed_in o w).1
      → v.turn ≡ suc w.turn
      → (x : Attempt WorkerError ReapResult × World)
      → Answers o.env (λ now s. reap now log_retention_ms s) v x
      → Sound o w (
          continued x λ r.
            delete_reaped o
              (of_kind artifact_object r.artifact_keys ++ of_kind log_object r.log_keys)
            >>= λ (records, n). pure (summary c r records n))
  unfolding ◌>>=◌
  after_reap c v same_c at turn (done r, u) (same_r, _, _) =
      let here : r ≡ reaped_in o w =
        same_r ∙ λ i. let t = o.env (turn i) in (reap t.now log_retention_ms (t.others (at i))).0 in
      reported c r same_c here _ (delete_reaped-Sweeps o _ u)
  after_reap c v same_c at turn (thrown e, u) h = tt

  after_reclaim :
      (x : Attempt WorkerError (ℕ × ℕ) × World)
      → Answers o.env (λ now s. reclaim_expired_leases now max_build_attempts s) w x
      → Sound o w (
          continued x λ c. on_queue o.env (λ now s. answered (reap now log_retention_ms s)) >>= λ r.
          delete_reaped o (of_kind artifact_object r.artifact_keys ++ of_kind log_object r.log_keys)
          >>= λ (records, n). pure (summary c r records n))
  unfolding ◌>>=◌
  after_reclaim (done c, v) (same_c, at, turn) =
      after_reap c v same_c at turn _
        (on_queue-Answers o.env (λ now s. reap now log_retention_ms s) v)
  after_reclaim (thrown e, v) h = tt

maintain-Sound : (o : Options) (w : World) → Sound o w (maintain o w)
unfolding maintain ◌>>=◌
maintain-Sound o w =
    after_reclaim o w _
      (on_queue-Answers o.env (λ now s. reclaim_expired_leases now max_build_attempts s) w)

-- What a worker's housekeeping returns, if it returns, is the summary of the two sweeps that it made, one
-- in the store that it found and one in the store that the first one and the other processes left. It
-- has the numbers of builds that the first requeued and failed. There is a retention record exactly
-- when the second dropped an artifact or a log or expired a build, whether or not any object could
-- be deleted; the record counts the builds that this sweep expired and has one entry for each key
-- that it dropped, in order, with the kind and the build id of the key and never the key; and the
-- number of objects deleted is the number of entries that say so.
pub maintain-Recorded :
    (o : Options) (w : World) (m : Maintenance) → (maintain o w).0 ≡ done m → Summary o w m
maintain-Recorded o w m e = sound (maintain o w) (maintain-Sound o w) e
  where
    sound :
        (x : Attempt WorkerError Maintenance × World) → Sound o w x → x.0 ≡ done m → Summary o w m
    sound (done n, v) summed e = subst (Summary o w) (done_injective e) summed
    sound (thrown x, v) h e = absurd cc
