-- ===== src/BuildQueue/History/Admission.antt =====
-- The admission caps hold in every reachable store.
use qmk_web_app.Common.{
  ℕ, ◌≤◌, ◌<◌, ◌≡◌, refl, arith, Option, none, some, Bool, true, ◌&&◌, sym, subst, inl, inr,
  Bool-cases, String,
}
use qmk_web_app.Domain.Limits.{
  max_global_active_builds, max_active_builds_per_owner, max_builds_per_owner_per_hour,
}
use qmk_web_app.Domain.Build.{BuildRecord}
use qmk_web_app.BuildQueue.Store.{
  Store, empty, count_builds, is_active, owned_by, same_owner, count_active_global,
  count_active_for_owner, first_rejection,
}
use qmk_web_app.BuildQueue.Keys.{WellKeyed}
use qmk_web_app.BuildQueue.Evolution.{Evolves}
use qmk_web_app.BuildQueue.History.{Step, Reach, start, next, Admitted, Step-cases, Step-WellKeyed}
use qmk_web_app.BuildQueue.History.Counts.{
  count_builds-Evolves, count_builds-put, is_active-Falls, owned_active-Falls,
}

-- No rejection means that each count is below its cap.
pub first_rejection-none :
    (g o h : ℕ)
    → first_rejection g o h ≡ none
    → (g < max_global_active_builds)
      × (o < max_active_builds_per_owner)
      × (h < max_builds_per_owner_per_hour)
unfolding first_rejection
first_rejection-none g o h e = ground arith

pub record WithinCaps (s : Store) : Type 0 where
  pub keyed : WellKeyed s.builds
  pub global_cap : count_active_global s ≤ max_global_active_builds
  pub owner_cap :
      (owner : Option String) → count_active_for_owner owner s ≤ max_active_builds_per_owner

Evolves-WithinCaps :
    (s s' : Store) → WellKeyed s'.builds → Evolves s.builds s'.builds → WithinCaps s → WithinCaps s'
unfolding count_active_global count_active_for_owner
Evolves-WithinCaps s s' w e c = record {
  keyed = w;
  global_cap =
      omega
        (arith, c.global_cap, count_builds-Evolves is_active is_active-Falls s.builds s'.builds e);
  owner_cap = λ owner. omega (
    arith,
    c.owner_cap owner,
    count_builds-Evolves (λ b. owned_by owner b && is_active b) (owned_active-Falls owner) s.builds
        s'.builds e,
  );
}

same_owner_sound : (o o' : Option String) → same_owner o o' ≡ true → o' ≡ o
same_owner_sound none none h = refl
same_owner_sound (some a) (some b) h = ground arith
same_owner_sound none (some b) h = cc
same_owner_sound (some a) none h = cc

abbrev active_of : Option String → BuildRecord → Bool
active_of owner b = owned_by owner b && is_active b

-- The owner of the new build is below the cap, and any other owner's count stays.
Admitted-owner :
    (owner : Option String) (s s' : Store)
    → (a : Admitted s s') → WithinCaps s
    → count_active_for_owner owner s' ≤ max_active_builds_per_owner
unfolding count_active_for_owner
Admitted-owner owner s s' a c =
    let adds = count_builds-put (active_of owner) a.asked.id a.asked s.builds a.fresh in
    let below = first_rejection-none _ _ _ a.below_caps in
    subst (λ m. count_builds (active_of owner) m ≤ max_active_builds_per_owner) (sym a.stored)
      (elim (Bool-cases (owned_by owner a.asked)) [
        | inl own ↦
            let same = same_owner_sound owner a.asked.owner_id own in
            let mine : count_builds (active_of owner) s.builds < max_active_builds_per_owner =
              subst (λ o. count_builds (active_of o) s.builds < max_active_builds_per_owner) same
                (below.1) in
            ground (arith, adds)
        | inr other ↦ ground (arith, adds, c.owner_cap owner)
      ])

Admitted-WithinCaps :
    (s s' : Store) → WellKeyed s'.builds → Admitted s s' → WithinCaps s → WithinCaps s'
unfolding count_active_global
Admitted-WithinCaps s s' w a c = record {
  keyed = w;
  global_cap = rw a.stored (
      ground (
        arith,
        count_builds-put is_active a.asked.id a.asked s.builds a.fresh,
        first_rejection-none _ _ _ a.below_caps,
      ));
  owner_cap = λ owner. Admitted-owner owner s s' a c;
}

pub Step-WithinCaps : {s s' : Store} → Step s s' → WithinCaps s → WithinCaps s'
Step-WithinCaps {s} {s'} st c = elim (Step-cases c.keyed st) [
  | inl e ↦ Evolves-WithinCaps s s' (Step-WellKeyed c.keyed st) e c
  | inr a ↦ Admitted-WithinCaps s s' (Step-WellKeyed c.keyed st) a c
]

pub Reach-WithinCaps : {s s' : Store} → WithinCaps s → Reach s s' → WithinCaps s'
Reach-WithinCaps c start = c
Reach-WithinCaps c (next r st) = Step-WithinCaps st (Reach-WithinCaps c r)

empty-WithinCaps : WithinCaps empty
unfolding count_active_global count_active_for_owner
empty-WithinCaps = record { keyed = tt; global_cap = omega arith; owner_cap = λ owner. omega arith }

-- Whatever calls the API and the workers make on a store that was empty at first, at most 8 builds
-- are queued or in flight, and at most 2 of any one owner.
pub reachable_WithinCaps :
    {s : Store}
    → Reach empty s
    → (count_active_global s ≤ max_global_active_builds)
      × ((owner : Option String) → count_active_for_owner owner s ≤ max_active_builds_per_owner)
reachable_WithinCaps r = let c = Reach-WithinCaps empty-WithinCaps r in (c.global_cap, c.owner_cap)
