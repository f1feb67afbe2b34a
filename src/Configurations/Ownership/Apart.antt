-- ===== src/Configurations/Ownership/Apart.antt =====
-- A change at an id that is someone else's is not seen.
use qmk_web_app.Common.{
  ℕ, ◌≡◌, refl, sym, ◌∙◌, subst, arith, String, ◌===◌, false, none, some, [], ◌∷◌, filter,
  Bool-cases, Option-cases, inl, inr,
}
use qmk_web_app.Common.Dict.{Dict, get, delete, values, get-put, get-delete}
use qmk_web_app.Configurations.Tidy.{Tidy, filter-put, filter-delete}
use qmk_web_app.Configurations.Repository.{
  ConfigurationRecord, UpdateArgs, Repository, create_record, get_record, next_record, write,
  get_revision, list_records, log_revision, stored_revision, set_revision, RevisionLog,
}

-- An owner's calls that read have the same answers.
pub record SeesSame (owner : String) (s s' : Repository) : Type 0 where
  pub same_records : (id : String) → get_record id owner s' ≡ get_record id owner s
  pub same_revisions :
      (id : String) (revision : ℕ)
      → get_revision id owner revision s' ≡ get_revision id owner revision s
  pub same_lists :
      (page page_size : ℕ)
      → list_records owner page page_size s' ≡ list_records owner page page_size s

abbrev pub Foreign : (owner : String) → ConfigurationRecord → Type 0
Foreign owner q = q.owner_id === owner ≡ false

get_record-Foreign :
    (id owner : String) (s : Repository)
    → ((q : ConfigurationRecord) → get id s.records ≡ some q → Foreign owner q)
    → get_record id owner s ≡ none
unfolding get_record
get_record-Foreign id owner s h = elim (Option-cases (get id s.records)) [
  | inl absent ↦ ground arith
  | inr (q, at) ↦ ground (arith, h q at)
]

-- A change at one id, whose record is someone else's before and afterwards.
pub record Apart (owner id : String) (s s' : Repository) : Type 0 where
  pub old : (q : ConfigurationRecord) → get id s.records ≡ some q → Foreign owner q
  pub new : (q : ConfigurationRecord) → get id s'.records ≡ some q → Foreign owner q
  pub elsewhere :
      (j : String)
      → id === j ≡ false
      → (get j s'.records ≡ get j s.records) × (get j s'.revisions ≡ get j s.revisions)
  pub listed :
      filter (λ r. r.owner_id === owner) (values s'.records)
      ≡ filter (λ r. r.owner_id === owner) (values s.records)

record_elsewhere :
    (owner id j : String) (s s' : Repository)
    → Apart owner id s s'
    → get_record j owner s' ≡ get_record j owner s
unfolding get_record
record_elsewhere owner id j s s' a = elim (Bool-cases (id === j)) [
  | inl hit ↦
      let same : id ≡ j = ground arith in
      subst (λ i. get_record i owner s' ≡ get_record i owner s) same
        (get_record-Foreign id owner s' a.new ∙ sym (get_record-Foreign id owner s a.old))
  | inr miss ↦
      let kept = (a.elsewhere j miss).0 in
      elim (Option-cases (get j s.records)) [
        | inl absent ↦ ground (arith, kept)
        | inr (q, at) ↦ ground (arith, kept)
      ]
]

revision_elsewhere :
    (owner id j : String) (revision : ℕ) (s s' : Repository)
    → Apart owner id s s'
    → get_revision j owner revision s' ≡ get_revision j owner revision s
unfolding get_revision
revision_elsewhere owner id j revision s s' a = elim (Bool-cases (id === j)) [
  | inl hit ↦
      let same : id ≡ j = ground arith in
      let here = get_record-Foreign id owner s a.old in
      let there = get_record-Foreign id owner s' a.new in
      subst (λ i. get_revision i owner revision s' ≡ get_revision i owner revision s) same
        (ground (arith, here, there))
  | inr miss ↦
      let kept = record_elsewhere owner id j s s' a in
      let log_kept = (a.elsewhere j miss).1 in
      elim (Option-cases (get_record j owner s)) [
        | inl absent ↦ ground (arith, kept)
        | inr (q, at) ↦ elim (Option-cases (get j s.revisions)) [
          | inl no_log ↦ ground (arith, kept, log_kept)
          | inr (log, logged) ↦ ground (arith, kept, log_kept)
        ]
      ]
]

pub Apart-SeesSame :
    (owner id : String) (s s' : Repository) → Apart owner id s s' → SeesSame owner s s'
unfolding list_records
Apart-SeesSame owner id s s' a = record {
  same_records = λ j. record_elsewhere owner id j s s' a;
  same_revisions = λ j revision. revision_elsewhere owner id j revision s s' a;
  same_lists = λ page page_size. rw a.listed refl;
}

pub unchanged-SeesSame : (owner : String) (s : Repository) → SeesSame owner s s
unchanged-SeesSame owner s = record {
  same_records = λ j. refl;
  same_revisions = λ j revision. refl;
  same_lists = λ page page_size. refl;
}

pub create_record-Apart :
    (owner : String) (r : ConfigurationRecord) (s : Repository)
    → Foreign owner r
    → get r.id s.records ≡ none
    → Apart owner r.id s (create_record r s).1
unfolding create_record
create_record-Apart owner r s other fresh = record {
  old = λ q at. absurd cc;
  new = λ q at. ground (arith, get-put r.id r.id r s.records);
  elsewhere = λ j miss. (
    ground (arith, get-put r.id j r s.records),
    ground (arith, get-put r.id j ((r.revision, stored_revision r r.created_at) ∷ []) s.revisions),
  );
  listed = filter-put (λ r. r.owner_id === owner) r.id r s.records other (λ q at. absurd cc);
}

log_elsewhere :
    (now : ℕ) (next : ConfigurationRecord) (j : String) (logs : Dict RevisionLog)
    → next.id === j ≡ false
    → get j (log_revision now next logs) ≡ get j logs
log_elsewhere now next j logs miss = elim (Option-cases (get next.id logs)) [
  | inl no_log ↦ ground arith
  | inr (log, e) ↦
      let log' = set_revision next.revision (stored_revision next now) log in
      ground (arith, get-put next.id j log' logs)
]

-- Of a record that someone else has.
module _ (owner : String) (s : Repository) (r : ConfigurationRecord)
    (at : get r.id s.records ≡ some r) (other : Foreign owner r) where
  only : (q : ConfigurationRecord) → get r.id s.records ≡ some q → Foreign owner q
  only q e = let same : r ≡ q = cc in subst (Foreign owner) same other

  pub write-Apart :
      (now : ℕ) (args : UpdateArgs) → Apart owner r.id s (write now (next_record now args r) s)
  unfolding write next_record
  write-Apart now args =
      let next = next_record now args r in
      record {
        old = only;
        new = λ q e.
            let same : next ≡ q = ground (arith, get-put r.id r.id next s.records) in
            subst (Foreign owner) same other;
        elsewhere = λ j miss. (
          ground (arith, get-put r.id j next s.records),
          log_elsewhere now next j s.revisions miss,
        );
        listed = filter-put (λ r. r.owner_id === owner) r.id next s.records other only;
      }

  pub delete-Apart :
      Tidy s.records
      → Apart owner r.id s
          (record { records = delete r.id s.records; revisions = delete r.id s.revisions })
  delete-Apart w = record {
    old = only;
    new = λ q e. absurd (ground (arith, get-delete r.id r.id s.records));
    elsewhere = λ j miss. (
      ground (arith, get-delete r.id j s.records),
      ground (arith, get-delete r.id j s.revisions),
    );
    listed = filter-delete (λ r. r.owner_id === owner) r.id s.records w only;
  }
