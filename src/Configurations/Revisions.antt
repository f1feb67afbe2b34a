-- ===== src/Configurations/Revisions.antt =====
-- Revisions are numbered upwards, never change, and guard against lost updates.
use qmk_web_app.Common.{ℕ, suc, ◌≤◌, ◌≡◌, refl, sym, ◌∙◌, subst, arith, String, Bool, some}
use qmk_web_app.Common.Dict.{get}
use qmk_web_app.Configurations.Repository.{
  ConfigurationRecord, UpdateArgs, StoredRevision, RevisionLog, revision_at, set_revision,
  Repository, empty_repository, stored_revision, get_record, next_record, get_revision,
}
use qmk_web_app.Configurations.Histories.{
  Step, Reach, start, next, same, begun, bumped, gone, Step-Fate, first_log, revision_at-set,
  get_record-some,
}

-- The log of a record: no revision above the record's, and under that revision the record itself.
pub record Logged (id : String) (r : ConfigurationRecord) (s : Repository) : Type 0 where
  pub own_id : r.id ≡ id
  pub log : RevisionLog
  pub stands : get id s.revisions ≡ some log
  pub below : (k : ℕ) (v : StoredRevision) → revision_at k log ≡ some v → k ≤ r.revision
  pub head : (created_at : ℕ) × (revision_at r.revision log ≡ some (stored_revision r created_at))

abbrev pub Consistent : Repository → Type 0
Consistent s = (id : String) (r : ConfigurationRecord) → get id s.records ≡ some r → Logged id r s

begun-Logged :
    (id : String) (r : ConfigurationRecord) (s : Repository)
    → r.id ≡ id
    → get id s.revisions ≡ some (first_log r)
    → Logged id r s
unfolding revision_at
begun-Logged id r s own e = record {
  own_id = own;
  log = first_log r;
  stands = e;
  below = λ k v h. ground arith;
  head = (r.created_at, ground arith);
}

bumped-Logged :
    (id : String) (now : ℕ) (args : UpdateArgs) (r : ConfigurationRecord) (s s' : Repository)
    → (l : Logged id r s)
    → get id s'.revisions
      ≡ some (set_revision (suc r.revision) (stored_revision (next_record now args r) now) l.log)
    → Logged id (next_record now args r) s'
unfolding next_record
bumped-Logged id now args r s s' l e =
    let n = next_record now args r in
    let v = stored_revision n now in
    record {
      own_id = l.own_id;
      log = set_revision (suc r.revision) v l.log;
      stands = e;
      below = λ k w h. ground (arith, revision_at-set (suc r.revision) k v l.log, l.below k w);
      head = (now, revision_at-set (suc r.revision) (suc r.revision) v l.log ∙ ground arith);
    }

same-Logged :
    (id : String) (r : ConfigurationRecord) (s s' : Repository)
    → get id s'.revisions ≡ get id s.revisions
    → Logged id r s
    → Logged id r s'
same-Logged id r s s' e l = record {
  own_id = l.own_id;
  log = l.log;
  stands = e ∙ l.stands;
  below = l.below;
  head = l.head;
}

pub Step-Consistent :
    {may : String → Bool} {s s' : Repository} → Consistent s → Step may s s' → Consistent s'
Step-Consistent {s = s} {s' = s'} c st id r at =
    elim (Step-Fate id (λ i q e. (c i q e).own_id) st) [
      | same e e' ↦ same-Logged id r s s' e' (c id r (sym e ∙ at))
      | begun r' ok fresh own e e' ↦
          let one : r' ≡ r = ground arith in
          subst (λ x. Logged id x s') one (begun-Logged id r' s' own e')
      | bumped now args r' e e' log ↦
          let one : next_record now args r' ≡ r = ground arith in
          let l = c id r' e in
          subst (λ x. Logged id x s') one (bumped-Logged id now args r' s s' l (log l.log l.stands))
      | gone e ↦ absurd (ground arith)
    ]

pub Reach-Consistent :
    {may : String → Bool} {s s' : Repository} → Consistent s → Reach may s s' → Consistent s'
Reach-Consistent c start = c
Reach-Consistent c (next r st) = Step-Consistent (Reach-Consistent c r) st

pub empty-Consistent : Consistent empty_repository
unfolding get
empty-Consistent id r at = cc

-- Whatever calls are made on an empty repository, the current document of a configuration is also
-- kept under its current revision, with the same draft mark.
pub head_logged :
    {may : String → Bool} {s : Repository} (id owner : String) {r : ConfigurationRecord}
    → Reach may empty_repository s
    → get_record id owner s ≡ some r
    → (v : StoredRevision) × (get_revision id owner r.revision s ≡ some v)
      × (v.document ≡ r.document)
      × (v.is_draft ≡ r.is_draft)
unfolding get_revision
head_logged {s = s} id owner {r} history at =
    let l = Reach-Consistent empty-Consistent history id r (get_record-some id owner s at) in
    (stored_revision r l.head.0, ground (arith, l.head.1, l.stands), refl, refl)
