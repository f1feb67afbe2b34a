-- ===== src/Worker/World/Outcomes.antt =====
-- What holds of the value that an action returns and of the store then, if it returns.
use qmk_web_app.Common.{ℕ, suc, ◌≡◌, refl}
use qmk_web_app.Common.Attempt.{Attempt, done, thrown}
use qmk_web_app.BuildQueue.Store.{Store}
use qmk_web_app.Worker.World.{
  WorkerError, Fate, works, fails_before, fails_after, Turn, World, Action, lift, caught, catching,
  continued, ◌>>=◌, by_fate, on_queue,
}

module _ {A : Type 0} (P : A → Store → Type 0) where
  abbrev pub Holds : Attempt WorkerError A × World → Type 0
  Holds (done a, v) = P a v.store
  Holds (thrown e, v) = Unit {0}

  abbrev pub Ensures : Action A → Type 0
  Ensures m = (w : World) → Holds (m w)

  -- Nothing is asked of the first part.
  pub bind-Ensures :
      {B : Type 0} (m : Action B) (f : B → Action A) → ((b : B) → Ensures (f b)) → Ensures (m >>= f)
  unfolding ◌>>=◌
  bind-Ensures {B} m f h w = after (m w)
    where
      after : (r : Attempt WorkerError B × World) → Holds (continued r f)
      after (done b, v) = h b v
      after (thrown e, v) = tt

  -- The first part awaits nothing, and its value is known.
  pub lift-Ensures :
      {B : Type 0} (t : Attempt WorkerError B) (f : B → Action A)
      → ((b : B) → t ≡ done b → Ensures (f b))
      → Ensures (lift t >>= f)
  unfolding ◌>>=◌
  lift-Ensures (done b) f h w = h b refl w
  lift-Ensures (thrown e) f h w = tt

  pub catching-Ensures :
      (m : Action A) (f : WorkerError → Action A)
      → Ensures m
      → ((e : WorkerError) → Ensures (f e))
      → Ensures (catching m f)
  unfolding catching
  catching-Ensures m f h k w = after (m w) (h w)
    where
      after : (r : Attempt WorkerError A × World) → Holds r → Holds (caught r f)
      after (done a, v) p = p
      after (thrown e, v) p = k e v

  -- The first part is a call of the queue; the second starts in the store that the call has left.
  pub queue-Ensures :
      {B : Type 0} (env : ℕ → Turn) (f : (now : ℕ) → Store → Attempt WorkerError B × Store)
      (g : B → Action A) (w : World)
      → ((b : B) (v : World)
          → let t = env w.turn in f t.now (t.others w.store) ≡ (done b, v.store) → Holds (g b v))
      → Holds ((on_queue env f >>= g) w)
  unfolding on_queue ◌>>=◌
  queue-Ensures {B} env f g w h =
      let t = env w.turn in fated t.queue_fate (f t.now (t.others w.store)) h
    where
      fated :
          (fate : Fate) (r : Attempt WorkerError B × Store)
          → ((b : B) (v : World) → r ≡ (done b, v.store) → Holds (g b v))
          → let t = env w.turn in
            let q = by_fate fate (t.others w.store) r in
            Holds (
              continued
                (
                  q.0,
                  record { store = q.1; objects = t.other_objects w.objects; turn = suc w.turn },
                )
                g)
      fated works (done b, s) k = k b _ refl
      fated works (thrown e, s) k = tt
      fated fails_before r k = tt
      fated fails_after r k = tt
