-- ===== src/Tests/Sweeps.antt =====
-- The sweeps and the listing on a store with a build in flight.
use qmk_web_app.Common.{
  ◌++◌, ℕ, ◌-◌, ◌*◌, ◌≤◌, ◌≡◌, refl, arith, min, String, true, none, some, List, [], ◌∷◌, length,
  String-discrete, filter, map, if◌then◌else◌,
}
use qmk_web_app.Common.Dict.{get, values}
use qmk_web_app.Domain.Build.{BuildRecord, ArtifactRecord, BuildStatus-discrete, succeeded, queued}
use qmk_web_app.BuildQueue.Store.{Store, empty, page_count, paginate}
use qmk_web_app.BuildQueue.Store.Queue.{claimed_build}
use qmk_web_app.BuildQueue.Store.Retention.{
  is_held, is_in_flight, is_skipped, reclaim_build, reclaim_loop, reclaim_expired_leases, reap,
}
use qmk_web_app.BuildQueue.Keys.{WellKeyed}
use qmk_web_app.BuildQueue.Reclaim.{Owed, get-reclaim_expired_leases, reclaim_leaves_held}
use qmk_web_app.BuildQueue.Reap.{is_over, reap_artifacts_lem}
use qmk_web_app.BuildQueue.Pages.{pages_from, pages_complete, paginate_bounds}
use qmk_web_app.Tests.Queue.{first, after_claim}

after_claim_WellKeyed : WellKeyed after_claim.builds
unfolding get String-discrete
after_claim_WellKeyed = (refl, refl, (refl, refl, tt))

-- The lease of the first build runs until 122000.
requeued :
    get "b1" (reclaim_expired_leases 122000 3 after_claim).1.builds
    ≡ some (record (claimed_build 2000 first) { status = queued })
unfolding reclaim_expired_leases reclaim_loop is_skipped is_in_flight is_held reclaim_build get
    String-discrete BuildStatus-discrete
requeued = refl

untouched :
    get "b1" (reclaim_expired_leases 121999 3 after_claim).1.builds
    ≡ some (claimed_build 2000 first)
unfolding reclaim_expired_leases reclaim_loop is_skipped is_in_flight is_held reclaim_build get
    String-discrete BuildStatus-discrete
untouched = refl

get-reclaim_expired_leases_example :
    (b' : BuildRecord) × (get "b1" (reclaim_expired_leases 122000 3 after_claim).1.builds ≡ some b')
    × Owed 122000 3 (get "b1" after_claim.leases) (claimed_build 2000 first) b'
get-reclaim_expired_leases_example =
    get-reclaim_expired_leases 122000 3 "b1" after_claim after_claim_WellKeyed
      (unfold get String-discrete in refl)

reclaim_leaves_held_example :
    (claimed_build 2000 first ≡ claimed_build 2000 first)
    × (is_held 121999 (get "b1" (reclaim_expired_leases 121999 3 after_claim).1.leases) ≡ true)
reclaim_leaves_held_example =
    reclaim_leaves_held 121999 3 "b1" after_claim after_claim_WellKeyed
      (unfold get String-discrete in refl) untouched
      (unfold is_in_flight BuildStatus-discrete in refl)

abbrev firmware : (id build_id : String) (expires_at : ℕ) → ArtifactRecord
firmware id build_id expires_at = record {
  id = id;
  build_id = build_id;
  storage_key = id;
  original_filename = "left.uf2";
  byte_size = 4096;
  sha256 = "00";
  content_type = "application/octet-stream";
  expires_at = expires_at;
  created_at = 3000;
}

abbrev stocked : Store
stocked = record empty {
  builds = ("b1", record first { status = succeeded; artifact_id = some "a1" }) ∷ [];
  artifacts = ("a1", firmware "a1" "b1" 5000) ∷ ("a2", firmware "a2" "b2" 7000) ∷ [];
}

reap_artifacts_lem_example :
    ((id : String) (a : ArtifactRecord)
      → get id stocked.artifacts ≡ some a
      → get id (reap 6000 100 stocked).1.artifacts ≡ (if is_over 6000 a then none else some a))
    × ((id : String)
        → get id stocked.artifacts ≡ none
        → get id (reap 6000 100 stocked).1.artifacts ≡ none)
    × ((reap 6000 100 stocked).0.artifact_keys
        ≡ map (λ a. a.storage_key) (filter (is_over 6000) (values stocked.artifacts)))
reap_artifacts_lem_example =
    reap_artifacts_lem 6000 100 stocked
      (unfold get String-discrete in (refl, refl, (refl, refl, tt)))

abbrev five : List ℕ
five = 1 ∷ 2 ∷ 3 ∷ 4 ∷ 5 ∷ []

pages_complete_example : pages_from 2 1 (page_count 5 2) five ≡ five
pages_complete_example = pages_complete five 2 (omega arith)

paginate_bounds_example :
    let p = paginate five 9 2 in
    (1 ≤ p.page)
    × (p.page ≤ p.total_pages)
    × (1 ≤ 9 → 9 ≤ p.total_pages → p.page ≡ 9)
    × (length five ≤ p.total_pages * 2)
    × ((before : List ℕ) × (after : List ℕ) × (five ≡ before ++ (p.items ++ after))
        × (length before ≡ (p.page - 1) * 2)
        × (length p.items ≡ min 2 (length five - length before)))
paginate_bounds_example = paginate_bounds five 9 2 (omega arith)
