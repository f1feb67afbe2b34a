-- ===== src/Configurations/Guards.antt =====
-- What readers and writers rely on: revisions stay, and a stale write is refused.
use qmk_web_app.Common.{
  ℕ, suc, ◌<◌, ◌≡◌, refl, ◌∙◌, arith, String, ◌===◌, Bool, true, none, some, Option-cases,
  Bool-cases, ◌==◌, ◌⊎◌, inl, inr,
}
use qmk_web_app.Common.Dict.{get, get-put}
use qmk_web_app.Configurations.Repository.{
  ConfigurationRecord, UpdateArgs, StoredRevision, RevisionLog, revision_at, Repository,
  empty_repository, get_record, next_record, update, write, updated, conflict, missing,
  get_revision,
}
use qmk_web_app.Configurations.Histories.{Step, updates, Reach, get_record-some}
use qmk_web_app.Configurations.Revisions.{
  Consistent, Step-Consistent, Reach-Consistent, empty-Consistent,
}
use qmk_web_app.Configurations.Later.{other_than, Survives, Reach-Survives}

get_revision-some :
    (id owner : String) (k : ℕ) (s : Repository) {v : StoredRevision}
    → get_revision id owner k s ≡ some v
    → (r : ConfigurationRecord) × (log : RevisionLog) × (get id s.records ≡ some r)
      × (r.owner_id === owner ≡ true)
      × (get id s.revisions ≡ some log)
      × (revision_at k log ≡ some v)
unfolding get_revision get_record
get_revision-some id owner k s e = elim (Option-cases (get id s.records)) [
  | inl absent ↦ absurd (ground arith)
  | inr (r, at) ↦ elim (Option-cases (get id s.revisions)) [
    | inl absent ↦ absurd (ground arith)
    | inr (log, stands) ↦ (r, log, at, ground arith, stands, ground arith)
  ]
]

later-get_revision :
    (id owner : String) (k : ℕ) (r : ConfigurationRecord) (s t : Repository) (log : RevisionLog)
    {v : StoredRevision}
    → r.owner_id === owner ≡ true
    → get id s.revisions ≡ some log
    → revision_at k log ≡ some v
    → Survives id r s t
    → (get_record id owner t ≡ none) ⊎ (get_revision id owner k t ≡ some v)
unfolding get_revision get_record
later-get_revision id owner k r s t log own stands found (inl absent) = inl (ground arith)
later-get_revision id owner k r s t log {v} own stands found (inr (r', f)) =
    inr (ground (arith, f.at, f.same_owner, f.stands, f.keeps k v log stands found))

-- A revision that a read returns is returned by every later read of that revision, through any
-- calls that do not make a new configuration under the id, as long as the configuration is not
-- deleted.
pub revision_kept :
    {may : String → Bool} {s t : Repository} (id owner : String) (k : ℕ) {v : StoredRevision}
    → Reach may empty_repository s
    → get_revision id owner k s ≡ some v
    → Reach (other_than id) s t
    → (get_record id owner t ≡ none) ⊎ (get_revision id owner k t ≡ some v)
revision_kept {s = s} {t = t} id owner k {v} history read history' =
    let (r, log, at, own, stands, found) = get_revision-some id owner k s read in
    later-get_revision id owner k r s t log own stands found
      (Reach-Survives id r (Reach-Consistent empty-Consistent history) at history')

update-updated :
    (now : ℕ) (args : UpdateArgs) (s : Repository) {r : ConfigurationRecord}
    → Consistent s
    → (update now args s).0 ≡ updated r
    → (q : ConfigurationRecord) × (get args.id s.records ≡ some q)
      × (q.revision ≡ args.expected_revision)
      × (get args.id (update now args s).1.records ≡ some (next_record now args q))
unfolding update write next_record
update-updated now args s {r} c e = elim (Option-cases (get_record args.id args.owner_id s)) [
  | inl absent ↦ absurd (ground arith)
  | inr (q, found) ↦ elim (Bool-cases (q.revision == args.expected_revision)) [
    | inr stale ↦ absurd (ground arith)
    | inl fits ↦
        let at = get_record-some args.id args.owner_id s found in
        let own = (c args.id q at).own_id in
        (
          q,
          at,
          ground arith,
          rw (found, update)
              (rw fits
                (get-put q.id args.id (next_record now args q) s.records ∙ ground (arith, own))),
        )
  ]
]

later-update :
    (now expected : ℕ) (again : UpdateArgs) (r : ConfigurationRecord) (s t : Repository)
    → r.revision ≡ suc expected
    → again.expected_revision ≡ expected
    → Survives again.id r s t
    → (update now again t ≡ (missing, t))
      ⊎ ((current : ℕ) × (expected < current) × (update now again t ≡ (conflict current, t)))
unfolding update get_record
later-update now expected again r s t high agrees (inl absent) = inl (ground arith)
later-update now expected again r s t high agrees (inr (r', f)) =
    elim (Bool-cases (r'.owner_id === again.owner_id)) [
      | inr foreign ↦ inl (ground (arith, f.at))
      | inl own ↦ inr (r'.revision, omega (arith, f.rises), ground (arith, f.at, f.rises))
    ]

-- After a write has been accepted, every later write that expects the same revision is refused,
-- through any calls that do not make a new configuration under the id: it changes nothing and is
-- told of a higher current revision, or that the configuration is missing.
pub stale_refused :
    {may : String → Bool} {s t : Repository} (now now' : ℕ) (args again : UpdateArgs)
    {r : ConfigurationRecord}
    → Reach may empty_repository s
    → (update now args s).0 ≡ updated r
    → Reach (other_than args.id) (update now args s).1 t
    → again.id ≡ args.id
    → again.expected_revision ≡ args.expected_revision
    → (update now' again t ≡ (missing, t))
      ⊎ ((current : ℕ) × (args.expected_revision < current)
          × (update now' again t ≡ (conflict current, t)))
stale_refused {may} {s} {t} now now' args again {r} history ok history' same_id same_revision =
    let c = Reach-Consistent empty-Consistent history in
    let (q, at, fits, at') = update-updated now args s c ok in
    let st : Step may s (update now args s).1 = updates now args refl in
    let c' = Step-Consistent c st in
    later-update now' args.expected_revision again (next_record now args q) (update now args s).1 t
      (unfold next_record in omega (arith, fits)) same_revision
      (rw same_id (Reach-Survives args.id (next_record now args q) c' at' history'))
