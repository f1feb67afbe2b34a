-- ===== src/Worker/World/Calm.antt =====
-- What code does when the store is left alone and its calls work: rules on what holds of the store
-- before and after.
use qmk_web_app.Common.{ℕ, suc, ◌≡◌, String}
use qmk_web_app.Common.Dict.{Dict}
use qmk_web_app.Common.Attempt.{Attempt, done, thrown}
use qmk_web_app.BuildQueue.Store.{Store}
use qmk_web_app.Worker.World.{
  WorkerError, lease_lost, unavailable, of_transition, of_objects, of_run, Fate, works,
  fails_before, fails_after, Turn, World, Action, pure, lift, caught, catching, continued, ◌>>=◌,
  by_fate, on_queue, on_objects,
}

-- No other process writes the store, and each call of the queue works; the objects may be changed and
-- the calls of the artifact store may fail.
pub record IsCalm (env : ℕ → Turn) : Type 0 where
  pub alone : (k : ℕ) (s : Store) → (env k).others s ≡ s
  pub queue_works : (k : ℕ) → (env k).queue_fate ≡ works

abbrev pub IsOther : WorkerError → Type 0
IsOther lease_lost = ⊥
IsOther unavailable = Unit {0}
IsOther (of_transition from to) = Unit {0}
IsOther (of_objects e) = Unit {0}
IsOther (of_run m) = Unit {0}

-- What holds afterwards: `Q` of a value and the store, or `R` of the store where something else than
-- LeaseLost was thrown.
abbrev pub Post :
    {A : Type 0} (Q : A → Store → Type 0) (R : Store → Type 0)
    → Attempt WorkerError A × World
    → Type 0
Post Q R (done a, w) = Q a w.store
Post Q R (thrown e, w) = IsOther e × R w.store

pub record Meets {A : Type 0} (P : Store → Type 0) (m : Action A) (Q : A → Store → Type 0)
    (R : Store → Type 0) : Type 0 where
  pub after : (w : World) → P w.store → Post Q R (m w)

module _ {A : Type 0} {P : Store → Type 0} {Q : A → Store → Type 0} {R : Store → Type 0} where
  pub bind-Meets :
      {B : Type 0} {S : B → Store → Type 0} {m : Action A} {f : A → Action B}
      → Meets P m Q R
      → ((a : A) → Meets (Q a) (f a) S R)
      → Meets P (m >>= f) S R
  unfolding ◌>>=◌
  bind-Meets {B} {S} {m} {f} h k = record { after = λ w p. then_ (m w) (h.after w p) }
    where
      then_ : (r : Attempt WorkerError A × World) → Post Q R r → Post S R (continued r f)
      then_ (done a, v) q = (k a).after v q
      then_ (thrown e, v) q = q

  pub catching-Meets :
      {R' : Store → Type 0} {m : Action A} {f : WorkerError → Action A}
      → Meets P m Q R'
      → ((e : WorkerError) → IsOther e → Meets R' (f e) Q R)
      → Meets P (catching m f) Q R
  unfolding catching
  catching-Meets {R'} {m} {f} h k = record { after = λ w p. then_ (m w) (h.after w p) }
    where
      then_ : (r : Attempt WorkerError A × World) → Post Q R' r → Post Q R (caught r f)
      then_ (done a, v) q = q
      then_ (thrown e, v) (other, q) = (k e other).after v q

  pub pure-Meets : {a : A} → ((s : Store) → P s → Q a s) → Meets P (pure a) Q R
  pure-Meets h = record { after = λ w p. h w.store p }

  pub lift-Meets :
      {t : Attempt WorkerError A}
      → ((s : Store) → P s → (w : World) → Post Q R (t, record w { store = s }))
      → Meets P (lift t) Q R
  lift-Meets h = record { after = λ w p. h w.store p w }

pub weaken-Meets :
    {A : Type 0} {P : Store → Type 0} {Q : A → Store → Type 0} {R R' : Store → Type 0}
    {m : Action A}
    → ((s : Store) → R s → R' s)
    → Meets P m Q R
    → Meets P m Q R'
weaken-Meets {A} {P} {Q} {R} {R'} {m} f h = record { after = λ w p. weaker (m w) (h.after w p) }
  where
    weaker : (r : Attempt WorkerError A × World) → Post Q R r → Post Q R' r
    weaker (done a, v) q = q
    weaker (thrown e, v) (other, q) = (other, f v.store q)

abbrev pub Fine : {A : Type 0} → Attempt WorkerError A → Type 0
Fine (done a) = Unit {0}
Fine (thrown e) = IsOther e

module _ {env : ℕ → Turn} (calm : IsCalm env) {A : Type 0} {P : Store → Type 0} where
  -- A call of the queue does what it does to the store.
  pub on_queue-Meets :
      {Q : A → Store → Type 0} {R : Store → Type 0}
      {f : (now : ℕ) → Store → Attempt WorkerError A × Store}
      → ((now : ℕ) (s : Store) → P s → (a : A) × (t : Store) × (f now s ≡ (done a, t)) × Q a t)
      → Meets P (on_queue env f) Q R
  unfolding on_queue
  on_queue-Meets {Q} {R} {f} h = record {
    after = λ w p.
        let (a, t, e, q) = h (env w.turn).now w.store p in
        rw (calm.queue_works w.turn, calm.alone w.turn w.store, e) q;
  }

  -- A call of the artifact store leaves the store of builds.
  pub on_objects-Meets :
      (f : Dict String → Attempt WorkerError A × Dict String)
      → ((d : Dict String) → Fine (f d).0)
      → Meets P (on_objects env f) (λ a s. P s) P
  unfolding on_objects
  on_objects-Meets f fine = record {
    after = λ w p.
        let t = env w.turn in
        let d = t.other_objects w.objects in
        let p' : P (t.others w.store) = rw (calm.alone w.turn w.store) p in
        fated (suc w.turn) (t.others w.store) t.object_fate d (f d) (fine d) p';
  }
    where
      fated :
          (n : ℕ) (s : Store) (fate : Fate) (d : Dict String)
          (r : Attempt WorkerError A × Dict String)
          → Fine r.0
          → P s
          → Post
              (λ a s. P s)
              P
              ((by_fate fate d r).0, record { store = s; objects = (by_fate fate d r).1; turn = n })
      fated n s works d (done a, d') ok p = p
      fated n s works d (thrown e, d') ok p = (ok, p)
      fated n s fails_before d r ok p = (tt, p)
      fated n s fails_after d (t, d') ok p = (tt, p)
