-- ===== src/BuildQueue/Next.antt =====
-- The build that `claim` takes.
use qmk_web_app.Common.{
  ◌≤◌, ◌≡◌, subst, arith, some, true, false, All, All-filter, All-head?, filter_sound, filter-All,
  filter, head?, List, [], ◌∷◌,
}
use qmk_web_app.Common.Dict.{values}
use qmk_web_app.Common.Sort.{All-sort, sort-All, IsSorted, sort-IsSorted}
use qmk_web_app.Domain.Build.{BuildRecord}
use qmk_web_app.BuildQueue.Store.{Store}
use qmk_web_app.BuildQueue.Store.Queue.{next_build, is_claimable, oldest_first}
use qmk_web_app.BuildQueue.Keys.{WellKeyed, AtHome, values-AtHome}

module _ (s : Store) {b : BuildRecord} (next : next_build s ≡ some b) where
  -- What holds of every build that may be taken holds of the one that is.
  next_build-All :
      (P : BuildRecord → Type 0) → All P (filter (is_claimable s) (values s.builds)) → P b
  unfolding next_build
  next_build-All P h =
      All-head? P _ (All-sort oldest_first P (filter (is_claimable s) (values s.builds)) h) next

  pub next_build_claimable : is_claimable s b ≡ true
  next_build_claimable =
      next_build-All (λ c. is_claimable s c ≡ true)
        (filter_sound (is_claimable s) (values s.builds))

  pub next_build-AtHome : WellKeyed s.builds → AtHome s.builds b
  next_build-AtHome w =
      next_build-All (AtHome s.builds)
        (All-filter (AtHome s.builds) (is_claimable s) (values s.builds) (values-AtHome s.builds w))

  -- No build that may be taken was requested before it.
  pub next_build_oldest :
      All (λ c. is_claimable s c ≡ true → b.requested_at ≤ c.requested_at) (values s.builds)
  unfolding next_build
  next_build_oldest =
      filter-All (is_claimable s) (λ c. b.requested_at ≤ c.requested_at) (values s.builds)
        (sort-All oldest_first (λ c. b.requested_at ≤ c.requested_at) _
          (head_oldest _ (sort-IsSorted oldest_first asym chain _) next))
    where
      asym : (x y : BuildRecord) → oldest_first x y ≡ true → oldest_first y x ≡ false
      asym x y h = ground arith

      chain :
          (x y z : BuildRecord)
          → oldest_first y x ≡ false
          → oldest_first z y ≡ false
          → oldest_first z x ≡ false
      chain x y z h k = ground arith

      weaken :
          (c : BuildRecord) (cs : List BuildRecord)
          → All (λ d. oldest_first d c ≡ false) cs
          → All (λ d. c.requested_at ≤ d.requested_at) cs
      weaken c [] h = tt
      weaken c (d ∷ ds) (e, h) = (ground arith, weaken c ds h)

      head_oldest :
          (cs : List BuildRecord)
          → IsSorted oldest_first cs
          → head? cs ≡ some b
          → All (λ c. b.requested_at ≤ c.requested_at) cs
      head_oldest [] h e = tt
      head_oldest (c ∷ cs) (h, k) e =
          let first : c ≡ b = cc in
          subst (λ x. All (λ d. x.requested_at ≤ d.requested_at) (c ∷ cs)) first
            (omega arith, weaken c cs h)
