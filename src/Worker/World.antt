-- ===== src/Worker/World.antt =====
-- What a worker's code runs in: the store of builds and the objects, which other processes change
-- between its calls, and calls that may fail.
pub mod Outcomes
pub mod Calm
use qmk_web_app.Common.{ℕ, suc, String, Bool, true, false, Option, none, some}
use qmk_web_app.Common.Dict.{Dict, get, put, delete}
use qmk_web_app.Common.Attempt.{Attempt, done, thrown}
use qmk_web_app.Domain.Build.{BuildStatus}
use qmk_web_app.BuildQueue.Store.{Store, Result, ok, illegal_transition}
use qmk_web_app.Worker.Keys.{ArtifactStoreError, already_there, assert_valid_key}

-- What the code can catch: the class LeaseLost and the errors of others.
pub data WorkerError : Type 0 where
  lease_lost unavailable : WorkerError
  of_transition : (from to : BuildStatus) → WorkerError
  of_objects : ArtifactStoreError → WorkerError
  of_run : String → WorkerError

-- How a call that is awaited goes: it works, it fails and changes nothing, or its answer is lost
-- after it has worked.
pub data Fate : Type 0 where
  works fails_before fails_after : Fate

-- One awaited call: the time at which it runs, what other processes have done since the last one,
-- and how it goes if it is one of the queue or one of the artifact store.
pub record Turn : Type 0 where
  pub now : ℕ
  pub queue_fate : Fate
  pub object_fate : Fate
  pub others : Store → Store
  pub other_objects : Dict String → Dict String

pub record World : Type 0 where
  pub store : Store
  pub objects : Dict String
  pub turn : ℕ

abbrev pub Action : Type 0 → Type 0
Action A = World → Attempt WorkerError A × World

module _ {A : Type 0} where
  abbrev pub pure : A → Action A
  pure a w = (done a, w)

  abbrev pub raise : WorkerError → Action A
  raise e w = (thrown e, w)

  -- What does not await anything.
  abbrev pub lift : Attempt WorkerError A → Action A
  lift t w = (t, w)

  abbrev pub caught :
      Attempt WorkerError A × World → (WorkerError → Action A) → Attempt WorkerError A × World
  caught (done a, w) f = (done a, w)
  caught (thrown e, w) f = f e w

  unfoldable pub catching : Action A → (WorkerError → Action A) → Action A
  catching m f w = caught (m w) f

abbrev pub continued :
    {A B : Type 0} → Attempt WorkerError A × World → (A → Action B) → Attempt WorkerError B × World
continued (done a, w) f = f a w
continued (thrown e, w) f = (thrown e, w)

infixl 5 ◌>>=◌
unfoldable pub ◌>>=◌ : {A B : Type 0} → Action A → (A → Action B) → Action B
◌>>=◌ m f w = continued (m w) f

-- An answer that may be an illegal transition.
abbrev pub checked : {A : Type 0} → Store → Result (A × Store) → Attempt WorkerError A × Store
checked s (ok (a, s')) = (done a, s')
checked s (illegal_transition from to) = (thrown (of_transition from to), s)

abbrev pub answered : {A S : Type 0} → A × S → Attempt WorkerError A × S
answered (a, s) = (done a, s)

abbrev pub by_fate :
    {A S : Type 0} → Fate → S → Attempt WorkerError A × S → Attempt WorkerError A × S
by_fate works s r = r
by_fate fails_before s r = (thrown unavailable, s)
by_fate fails_after s (t, s') = (thrown unavailable, s')

module _ (env : ℕ → Turn) {A : Type 0} where
  -- A call of the queue.
  unfoldable pub on_queue : ((now : ℕ) → Store → Attempt WorkerError A × Store) → Action A
  on_queue f w =
      let t = env w.turn in
      let s = t.others w.store in
      let (r, s') = by_fate t.queue_fate s (f t.now s) in
      (r, record { store = s'; objects = t.other_objects w.objects; turn = suc w.turn })

  -- A call of the artifact store.
  unfoldable pub on_objects : (Dict String → Attempt WorkerError A × Dict String) → Action A
  on_objects f w =
      let t = env w.turn in
      let o = t.other_objects w.objects in
      let (r, o') = by_fate t.object_fate o (f o) in
      (r, record { store = t.others w.store; objects = o'; turn = suc w.turn })

-- packages/artifact-store/src/memory-store.ts: a key is checked before anything else, an object is
-- written once, and `delete` tells whether there was one.
abbrev pub if_valid :
    {A : Type 0}
    → Attempt ArtifactStoreError (Unit {0})
    → Dict String
    → Attempt WorkerError A × Dict String
    → Attempt WorkerError A × Dict String
if_valid (thrown e) objects r = (thrown (of_objects e), objects)
if_valid (done u) objects r = r

unfoldable pub put_object :
    (key contents : String) → Dict String → Attempt WorkerError (Unit {0}) × Dict String
put_object key contents objects = if_valid (assert_valid_key key) objects (elim (get key objects) [
  | some old ↦ (thrown (of_objects already_there), objects)
  | none ↦ (done tt, put key contents objects)
])

unfoldable pub get_object : (key : String) → Dict String → Attempt WorkerError (Option String)
get_object key objects =
    (if_valid (assert_valid_key key) objects (done (get key objects), objects)).0

unfoldable pub delete_object : (key : String) → Dict String → Attempt WorkerError Bool × Dict String
delete_object key objects = if_valid (assert_valid_key key) objects (elim (get key objects) [
  | some old ↦ (done true, delete key objects)
  | none ↦ (done false, objects)
])
