-- ===== src/BuildQueue/Distinct.antt =====
-- No two builds of the store answer one request.
use qmk_web_app.Common.{
  ◌≡◌, refl, ap, ◌∙◌, arith, String, Option, none, some, Bool, true, false, ◌&&◌, All, find, inl,
  inr, ◌===◌, Bool-cases, List, [], ◌∷◌,
}
use qmk_web_app.Common.Dict.{Dict, get, put, values, All-put}
use qmk_web_app.Domain.Build.{BuildRecord}
use qmk_web_app.BuildQueue.Store.{Store, same_request, same_owner}
use qmk_web_app.BuildQueue.Keys.{WellKeyed}
use qmk_web_app.BuildQueue.Evolution.{Request, request_of, Advances, Evolves}
use qmk_web_app.BuildQueue.History.{Step, Reach, start, next, Reach-WellKeyed, Step-cases}

-- The builds of the store answer distinct requests: no two have one owner and one key.
abbrev pub Distinct : Dict BuildRecord → Type 0
Distinct [] = Unit {0}
Distinct ((k, b) ∷ m) = All (λ c. same_request b c ≡ false) (values m) × Distinct m

abbrev pub asks_same : Request → Request → Bool
asks_same p q = same_owner p.owner_id q.owner_id && q.idempotency_key === p.idempotency_key

same_owner_comm : (o o' : Option String) → same_owner o o' ≡ same_owner o' o
same_owner_comm none none = refl
same_owner_comm (some a) none = refl
same_owner_comm none (some b) = refl
same_owner_comm (some a) (some b) = ground arith

pub same_owner_refl : (o : Option String) → same_owner o o ≡ true
same_owner_refl none = refl
same_owner_refl (some a) = ground arith

same_owner_euclid :
    (o p q : Option String) → same_owner o p ≡ true → same_owner o q ≡ true → same_owner p q ≡ true
same_owner_euclid (some a) (some b) (some c) h k = ground arith
same_owner_euclid none none none h k = refl
same_owner_euclid none none (some c) h k = cc
same_owner_euclid none (some b) q h k = cc
same_owner_euclid (some a) none q h k = cc
same_owner_euclid (some a) (some b) none h k = cc

same_request_comm : (a b : BuildRecord) → same_request a b ≡ same_request b a
same_request_comm a b = ground (arith, same_owner_comm a.owner_id b.owner_id)

pub same_request_euclid :
    (a b c : BuildRecord)
    → same_request a b ≡ true
    → same_request a c ≡ true
    → same_request b c ≡ true
same_request_euclid a b c p q = ground (arith, same_owner_euclid a.owner_id b.owner_id c.owner_id)

pub same_asks :
    (a b : BuildRecord)
    → a.owner_id ≡ b.owner_id
    → a.idempotency_key ≡ b.idempotency_key
    → same_request a b ≡ true
same_asks a b p q = ground (arith, same_owner_refl b.owner_id)

-- Whether two builds answer one request hangs on what they record of it.
same_request-Advances :
    (a a' b b' : BuildRecord)
    → Advances a a'
    → Advances b b'
    → same_request a' b' ≡ same_request a b
same_request-Advances a a' b b' p q =
    ap (λ r. asks_same r (request_of b')) p.same_request
    ∙ ap (asks_same (request_of a)) q.same_request

others-Evolves :
    (b b' : BuildRecord) (m m' : Dict BuildRecord)
    → Advances b b'
    → Evolves m m'
    → All (λ c. same_request b c ≡ false) (values m)
    → All (λ c. same_request b' c ≡ false) (values m')
others-Evolves b b' [] [] a e h = tt
others-Evolves b b' [] (x ∷ m') a e h = absurd e
others-Evolves b b' (x ∷ m) [] a e h = absurd e
others-Evolves b b' ((k, c) ∷ m) ((k', c') ∷ m') a e h =
    (same_request-Advances b b' c c' a e.1 ∙ h.0, others-Evolves b b' m m' a e.2 h.1)

Evolves-Distinct : (m m' : Dict BuildRecord) → Evolves m m' → Distinct m → Distinct m'
Evolves-Distinct [] [] e d = d
Evolves-Distinct [] (x ∷ m') e d = absurd e
Evolves-Distinct (x ∷ m) [] e d = absurd e
Evolves-Distinct ((k, b) ∷ m) ((k', b') ∷ m') e d =
    (others-Evolves b b' m m' e.1 e.2 d.0, Evolves-Distinct m m' e.2 d.1)

find-All :
    (p : BuildRecord → Bool) (bs : List BuildRecord) → find p bs ≡ none → All (λ c. p c ≡ false) bs
find-All p [] e = tt
find-All p (b ∷ bs) e = (ground arith, find-All p bs (ground arith))

put-Distinct :
    (k : String) (b : BuildRecord) (m : Dict BuildRecord)
    → get k m ≡ none
    → All (λ c. same_request b c ≡ false) (values m)
    → Distinct m
    → Distinct (put k b m)
unfolding put get
put-Distinct k b [] fresh h d = (tt, tt)
put-Distinct k b ((j, c) ∷ m) fresh (e, h) (f, d) = elim (Bool-cases (j === k)) [
  | inl hit ↦ absurd (ground arith)
  | inr miss ↦ rw miss (
    All-put (λ x. same_request c x ≡ false) k b m (same_request_comm c b ∙ e) f,
    put-Distinct k b m (ground arith) h d,
  )
]

pub Step-Distinct :
    {s s' : Store} → WellKeyed s.builds → Distinct s.builds → Step s s' → Distinct s'.builds
Step-Distinct {s} {s'} w d st = elim (Step-cases w st) [
  | inl e ↦ Evolves-Distinct s.builds s'.builds e d
  | inr a ↦ rw a.stored (
      put-Distinct a.asked.id a.asked s.builds a.fresh
        (find-All (same_request a.asked) (values s.builds) a.first_request) d)
]

-- The store never holds two builds of one owner under one idempotency key.
pub Reach-Distinct :
    {s s' : Store} → WellKeyed s.builds → Distinct s.builds → Reach s s' → Distinct s'.builds
Reach-Distinct w d start = d
Reach-Distinct w d (next r st) = Step-Distinct (Reach-WellKeyed w r) (Reach-Distinct w d r) st
