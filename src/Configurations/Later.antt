-- ===== src/Configurations/Later.antt =====
-- Where a configuration is after later calls.
use qmk_web_app.Common.{
  ℕ, suc, ◌≤◌, ◌≡◌, refl, sym, ◌∙◌, subst, arith, String, ◌===◌, Bool, not, none, some, ◌⊎◌, inl,
  inr,
}
use qmk_web_app.Common.Dict.{get}
use qmk_web_app.Configurations.Repository.{
  ConfigurationRecord, UpdateArgs, StoredRevision, RevisionLog, revision_at, set_revision,
  Repository, stored_revision, next_record,
}
use qmk_web_app.Configurations.Histories.{
  Step, Reach, start, next, same, begun, bumped, gone, Step-Fate, revision_at-set,
}
use qmk_web_app.Configurations.Revisions.{Logged, Consistent, Reach-Consistent}

-- Where a record is after some calls: in its place with a revision at least as high, and with every
-- entry of its log.
pub record Later (id : String) (r : ConfigurationRecord) (s : Repository) (r' : ConfigurationRecord)
    (t : Repository) : Type 0 where
  pub at : get id t.records ≡ some r'
  pub same_owner : r'.owner_id ≡ r.owner_id
  pub rises : r.revision ≤ r'.revision
  pub log : RevisionLog
  pub stands : get id t.revisions ≡ some log
  pub keeps :
      (k : ℕ) (v : StoredRevision) (old : RevisionLog)
      → get id s.revisions ≡ some old
      → revision_at k old ≡ some v
      → revision_at k log ≡ some v

-- No configuration comes under this id.
abbrev pub other_than : String → String → Bool
other_than id i = not (i === id)

-- The record is where it was, or has been deleted.
abbrev pub Survives : String → ConfigurationRecord → Repository → Repository → Type 0
Survives id r s t = (get id t.records ≡ none) ⊎ ((r' : ConfigurationRecord) × Later id r s r' t)

bumped-Later :
    (id : String) (now : ℕ) (args : UpdateArgs) (r r' : ConfigurationRecord) (s t u : Repository)
    → Logged id r' t
    → Later id r s r' t
    → get id u.records ≡ some (next_record now args r')
    → ((log : RevisionLog)
        → get id t.revisions ≡ some log
        → get id u.revisions
          ≡ some
              (set_revision (suc r'.revision) (stored_revision (next_record now args r') now) log))
    → Later id r s (next_record now args r') u
unfolding next_record
bumped-Later id now args r r' s t u l f at logs =
    let v = stored_revision (next_record now args r') now in
    let same_log : some l.log ≡ some f.log = sym l.stands ∙ f.stands in
    record {
      at = at;
      same_owner = f.same_owner;
      rises = omega (arith, f.rises);
      log = set_revision (suc r'.revision) v f.log;
      stands = logs f.log f.stands;
      keeps = λ k w old e e'. ground (
        arith,
        same_log,
        f.keeps k w old e e',
        l.below k w,
        revision_at-set (suc r'.revision) k v f.log,
      );
    }

Step-Survives :
    (id : String) (r : ConfigurationRecord) {s t u : Repository}
    → Consistent t
    → Survives id r s t
    → Step (other_than id) t u
    → Survives id r s u
Step-Survives id r {s} {t} {u} c (inl absent) st =
    elim (Step-Fate id (λ i q e. (c i q e).own_id) st) [
      | same e e' ↦ inl (e ∙ absent)
      | begun r' ok fresh own e e' ↦ absurd (ground arith)
      | bumped now args r' e e' log ↦ absurd (ground arith)
      | gone e ↦ inl e
    ]
Step-Survives id r {s} {t} {u} c (inr (r', f)) st =
    elim (Step-Fate id (λ i q e. (c i q e).own_id) st) [
      | same e e' ↦ inr (
        r',
        record {
          at = e ∙ f.at;
          same_owner = f.same_owner;
          rises = f.rises;
          log = f.log;
          stands = e' ∙ f.stands;
          keeps = f.keeps;
        },
      )
      | begun q ok fresh own e e' ↦ absurd (ground (arith, f.at))
      | bumped now args q e e' log ↦
          let one : q ≡ r' = ground (arith, f.at) in
          inr (
            next_record now args q,
            bumped-Later id now args r q s t u (c id q e)
                (subst (λ x. Later id r s x t) (sym one) f) e' log,
          )
      | gone e ↦ inl e
    ]

pub Reach-Survives :
    (id : String) (r : ConfigurationRecord) {s t : Repository}
    → Consistent s
    → get id s.records ≡ some r
    → Reach (other_than id) s t
    → Survives id r s t
Reach-Survives id r {s} c at start =
    let l = c id r at in
    inr (
      r,
      record {
        at = at;
        same_owner = refl;
        rises = omega arith;
        log = l.log;
        stands = l.stands;
        keeps = λ k v old e e'.
            let one : l.log ≡ old = ground (arith, l.stands) in
            subst (λ x. revision_at k x ≡ some v) (sym one) e';
      },
    )
Reach-Survives id r c at (next h st) =
    Step-Survives id r (Reach-Consistent c h) (Reach-Survives id r c at h) st
