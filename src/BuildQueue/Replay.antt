-- ===== src/BuildQueue/Replay.antt =====
-- Idempotent creation: a retry of a request is answered with the build that it made before.
use qmk_web_app.Common.{
  ℕ, ◌≡◌, refl, ap, ◌∙◌, arith, String, none, some, true, false, find, inl, inr, ◌===◌, Bool-cases,
  [], ◌∷◌,
}
use qmk_web_app.Common.Dict.{Dict, get, values, get-put}
use qmk_web_app.Domain.Build.{BuildRecord, queued}
use qmk_web_app.BuildQueue.Types.{created, replayed}
use qmk_web_app.BuildQueue.Store.{Store, empty, create, admit, same_request, first_rejection}
use qmk_web_app.BuildQueue.Keys.{WellKeyed}
use qmk_web_app.BuildQueue.Evolution.{request_of, Advances}
use qmk_web_app.BuildQueue.History.{
  Step, creates, Step-WellKeyed, Reach, Later, Reach-Later, Reach-WellKeyed,
}
use qmk_web_app.BuildQueue.Distinct.{
  Distinct, asks_same, same_asks, same_request_euclid, Step-Distinct, Reach-Distinct,
}
use qmk_web_app.Common.Dict.{get-All}

-- The build that answers a request is the one that is found for it.
find-same_request :
    (again : BuildRecord) (k : String) (m : Dict BuildRecord) {b : BuildRecord}
    → Distinct m
    → get k m ≡ some b
    → asks_same (request_of again) (request_of b) ≡ true
    → find (same_request again) (values m) ≡ some b
unfolding get
find-same_request again k [] d e h = cc
find-same_request again k ((j, c) ∷ m) {b} (f, d) e h = elim (Bool-cases (j === k)) [
  | inl hit ↦ ground arith
  | inr miss ↦
      let at : get k m ≡ some b = ground arith in
      let other : same_request c b ≡ false = get-All (λ x. same_request c x ≡ false) k m at f in
      elim (Bool-cases (same_request again c)) [
        | inl clash ↦ absurd (ground (arith, same_request_euclid again c b clash h))
        | inr differs ↦ rw differs (find-same_request again k m d at h)
      ]
]

created_stored :
    (now : ℕ) (asked : BuildRecord) (s : Store)
    → (create now asked s).0 ≡ created asked
    → get asked.id (create now asked s).1.builds ≡ some asked
unfolding create admit first_rejection
created_stored now asked s e = ground (arith, get-put asked.id asked.id asked s.builds)

-- In a store that some calls have made from the empty one, let `create` make a build that is
-- queued and whose id is new. Then every later `create` with the same owner and idempotency key is
-- answered with that build, in the state that it has reached, and changes nothing: whatever calls
-- come between, whatever else the retry asks for, and whether or not a cap is reached.
pub create_replayed :
    (now now' : ℕ) (asked again : BuildRecord) {s t : Store}
    → Reach empty s
    → get asked.id s.builds ≡ none
    → asked.status ≡ queued
    → (create now asked s).0 ≡ created asked
    → Reach (create now asked s).1 t
    → again.owner_id ≡ asked.owner_id
    → again.idempotency_key ≡ asked.idempotency_key
    → (b : BuildRecord) × (get asked.id t.builds ≡ some b)
      × Advances asked b
      × (create now' again t ≡ (replayed b, t))
unfolding create
create_replayed now now' asked again {s} {t} r fresh q made r' owner key = (
  later.0,
  later.1,
  later.2,
  ground (arith, find-same_request again asked.id t.builds distinct later.1 asks),
)
  where
    w : WellKeyed s.builds
    w = Reach-WellKeyed tt r

    step : Step s (create now asked s).1
    step = creates now asked q fresh refl

    w' : WellKeyed (create now asked s).1.builds
    w' = Step-WellKeyed w step

    distinct : Distinct t.builds
    distinct = Reach-Distinct w' (Step-Distinct w (Reach-Distinct tt tt r) step) r'

    later : Later asked.id asked t
    later = Reach-Later asked.id asked w' (created_stored now asked s made) r'

    asks : asks_same (request_of again) (request_of later.0) ≡ true
    asks = ap (asks_same (request_of again)) later.2.same_request ∙ same_asks again asked owner key
