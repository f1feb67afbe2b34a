-- ===== src/Configurations/Histories.antt =====
-- Histories of the repository: what each call does to one configuration.
use qmk_web_app.Common.{
  ℕ, suc, ◌≡◌, refl, sym, ◌∙◌, subst, arith, String, ◌===◌, Bool, true, false, none, some,
  Option-cases, Bool-cases, if◌then◌else◌, ◌==◌, [], ◌∷◌, inl, inr,
}
use qmk_web_app.Common.Dict.{Dict, get, get-put, get-delete}
use qmk_web_app.Configurations.Repository.{
  ConfigurationRecord, UpdateArgs, StoredRevision, RevisionLog, revision_at, set_revision,
  Repository, stored_revision, create_record, get_record, next_record, log_revision, write, update,
  delete_record,
}

-- One call that writes, where a new record comes under an id that is not there and that `may` lets
-- in.
pub data Step (may : String → Bool) (s s' : Repository) : Type 0 where
  creates :
      (r : ConfigurationRecord)
      → may r.id ≡ true
      → get r.id s.records ≡ none
      → (create_record r s).1 ≡ s'
      → Step may s s'
  updates : (now : ℕ) (args : UpdateArgs) → (update now args s).1 ≡ s' → Step may s s'
  deletes : (id owner : String) → (delete_record id owner s).1 ≡ s' → Step may s s'

pub data Reach (may : String → Bool) (s : Repository) : Repository → Type 0 where
  start : Reach may s s
  next : {t u : Repository} → Reach may s t → Step may t u → Reach may s u

-- A record stands under its own id.
abbrev pub Keyed : Repository → Type 0
Keyed s = (id : String) (r : ConfigurationRecord) → get id s.records ≡ some r → r.id ≡ id

pub revision_at-set :
    (k j : ℕ) (v : StoredRevision) (log : RevisionLog)
    → revision_at j (set_revision k v log) ≡ (if k == j then some v else revision_at j log)
unfolding revision_at set_revision
revision_at-set k j v [] = ground arith
revision_at-set k j v ((i, w) ∷ log) = ground (arith, revision_at-set k j v log)

abbrev pub first_log : ConfigurationRecord → RevisionLog
first_log r = (r.revision, stored_revision r r.created_at) ∷ []

-- What a call does to one id: nothing, a new record, the next revision of the record, or its end.
pub data Fate (may : String → Bool) (id : String) (s s' : Repository) : Type 0 where
  same :
      get id s'.records ≡ get id s.records
      → get id s'.revisions ≡ get id s.revisions
      → Fate may id s s'
  begun :
      (r : ConfigurationRecord)
      → may r.id ≡ true
      → get id s.records ≡ none
      → r.id ≡ id
      → get id s'.records ≡ some r
      → get id s'.revisions ≡ some (first_log r)
      → Fate may id s s'
  bumped :
      (now : ℕ) (args : UpdateArgs) (r : ConfigurationRecord)
      → get id s.records ≡ some r
      → get id s'.records ≡ some (next_record now args r)
      → ((log : RevisionLog)
          → get id s.revisions ≡ some log
          → get id s'.revisions
            ≡ some
                (set_revision (suc r.revision) (stored_revision (next_record now args r) now) log))
      → Fate may id s s'
  gone : get id s'.records ≡ none → Fate may id s s'

create_record-Fate :
    {may : String → Bool} (id : String) (r : ConfigurationRecord) (s : Repository)
    → may r.id ≡ true
    → get r.id s.records ≡ none
    → Fate may id s (create_record r s).1
unfolding create_record
create_record-Fate id r s ok fresh = elim (Bool-cases (r.id === id)) [
  | inl hit ↦
      begun r ok (ground arith) (ground arith) (ground (arith, get-put r.id id r s.records))
        (ground (arith, get-put r.id id (first_log r) s.revisions))
  | inr miss ↦
      same (ground (arith, get-put r.id id r s.records))
        (ground (arith, get-put r.id id (first_log r) s.revisions))
]

pub get_record-some :
    (id owner : String) (s : Repository) {r : ConfigurationRecord}
    → get_record id owner s ≡ some r
    → get id s.records ≡ some r
unfolding get_record
get_record-some id owner s e = ground arith

get-log_revision :
    (id : String) (now : ℕ) (n : ConfigurationRecord) (revisions : Dict RevisionLog)
    {log : RevisionLog}
    → n.id ≡ id
    → get id revisions ≡ some log
    → get id (log_revision now n revisions)
      ≡ some (set_revision n.revision (stored_revision n now) log)
get-log_revision id now n revisions {log} own at =
    let at' : get n.id revisions ≡ some log = rw own at in
    rw (at', log_revision)
      (get-put n.id id (set_revision n.revision (stored_revision n now) log) revisions
        ∙ ground arith)

get-log_revision-other :
    (id : String) (now : ℕ) (n : ConfigurationRecord) (revisions : Dict RevisionLog)
    → n.id === id ≡ false
    → get id (log_revision now n revisions) ≡ get id revisions
get-log_revision-other id now n revisions other = elim (Option-cases (get n.id revisions)) [
  | inl e ↦ rw (e, log_revision) refl
  | inr (log, e) ↦
      rw (e, log_revision)
        (get-put n.id id (set_revision n.revision (stored_revision n now) log) revisions
          ∙ ground arith)
]

write-Fate :
    {may : String → Bool} (id : String) (now : ℕ) (args : UpdateArgs) (s : Repository)
    (r : ConfigurationRecord)
    → get args.id s.records ≡ some r
    → r.id ≡ args.id
    → Fate may id s (write now (next_record now args r) s)
unfolding write next_record
write-Fate id now args s r at own = elim (Bool-cases (r.id === id)) [
  | inl hit ↦
      bumped now args r (ground arith)
        (get-put r.id id (next_record now args r) s.records ∙ ground arith)
        (λ log e. get-log_revision id now (next_record now args r) s.revisions (ground arith) e)
  | inr miss ↦
      same (get-put r.id id (next_record now args r) s.records ∙ ground arith)
        (get-log_revision-other id now (next_record now args r) s.revisions miss)
]

pub update-Fate :
    {may : String → Bool} (id : String) (now : ℕ) (args : UpdateArgs) (s : Repository)
    → Keyed s
    → Fate may id s (update now args s).1
unfolding update
update-Fate id now args s keyed = elim (Option-cases (get_record args.id args.owner_id s)) [
  | inl e ↦ rw (e, update) (same refl refl)
  | inr (r, e) ↦
      let at = get_record-some args.id args.owner_id s e in
      rw (e, update)
        (elim (Bool-cases (r.revision == args.expected_revision)) [
          | inl fits ↦ rw fits (write-Fate id now args s r at (keyed args.id r at))
          | inr stale ↦ rw stale (same refl refl)
        ])
]

delete_record-Fate :
    {may : String → Bool} (id gone_id owner : String) (s : Repository)
    → Fate may id s (delete_record gone_id owner s).1
unfolding delete_record
delete_record-Fate id gone_id owner s = elim (Option-cases (get_record gone_id owner s)) [
  | inl e ↦ rw (e, delete_record) (same refl refl)
  | inr (r, e) ↦
      rw (e, delete_record)
        (elim (Bool-cases (gone_id === id)) [
          | inl hit ↦ gone (ground (arith, get-delete gone_id id s.records))
          | inr miss ↦
              same (ground (arith, get-delete gone_id id s.records))
                (ground (arith, get-delete gone_id id s.revisions))
        ])
]

pub Step-Fate :
    (id : String) {may : String → Bool} {s s' : Repository}
    → Keyed s
    → Step may s s'
    → Fate may id s s'
Step-Fate id {may = may} {s = s} keyed (creates r ok fresh e) =
    subst (Fate may id s) e (create_record-Fate id r s ok fresh)
Step-Fate id {may = may} {s = s} keyed (updates now args e) =
    subst (Fate may id s) e (update-Fate id now args s keyed)
Step-Fate id {may = may} {s = s} keyed (deletes gone_id owner e) =
    subst (Fate may id s) e (delete_record-Fate id gone_id owner s)

pub Step-Keyed : {may : String → Bool} {s s' : Repository} → Keyed s → Step may s s' → Keyed s'
unfolding next_record
Step-Keyed keyed st id r at = elim (Step-Fate id keyed st) [
  | same e e' ↦ keyed id r (sym e ∙ at)
  | begun r' ok fresh own e e' ↦ ground arith
  | bumped now args r' e e' log ↦ ground (arith, keyed id r' e)
  | gone e ↦ ground arith
]

pub Reach-Keyed : {may : String → Bool} {s s' : Repository} → Keyed s → Reach may s s' → Keyed s'
Reach-Keyed keyed start = keyed
Reach-Keyed keyed (next r st) = Step-Keyed (Reach-Keyed keyed r) st
