-- ===== src/Configurations/Ownership.antt =====
-- What an owner sees while others work.
pub mod Apart
use qmk_web_app.Common.{
  ◌==◌, ℕ, ◌≡◌, refl, sym, ap, ◌∙◌, subst, arith, String, ◌===◌, false, none, some, [], ◌∷◌, filter,
  Bool-cases, Option-cases, inl, inr,
}
use qmk_web_app.Common.Dict.{Dict, get, put, delete, values, get-put, get-delete}
use qmk_web_app.Configurations.Ownership.Apart.{
  Apart-SeesSame, Foreign, SeesSame, create_record-Apart, delete-Apart, unchanged-SeesSame,
  write-Apart,
}
use qmk_web_app.Configurations.Tidy.{
  Tidy, Tidy-id, Tidy-put, Tidy-delete, filter-put, filter-delete,
}
use qmk_web_app.Configurations.Repository.{
  ConfigurationRecord, UpdateArgs, Repository, create_record, get_record, next_record, write,
  update, delete_record, get_revision, list_records, log_revision, stored_revision, set_revision,
  RevisionLog,
}

-- A call by someone else that writes; a new record comes under an id that is not there.
pub data ForeignStep (owner : String) (s s' : Repository) : Type 0 where
  creates :
      (r : ConfigurationRecord)
      → r.owner_id === owner ≡ false
      → get r.id s.records ≡ none
      → (create_record r s).1 ≡ s'
      → ForeignStep owner s s'
  updates :
      (now : ℕ) (args : UpdateArgs)
      → args.owner_id === owner ≡ false
      → (update now args s).1 ≡ s'
      → ForeignStep owner s s'
  deletes :
      (id other : String)
      → other === owner ≡ false
      → (delete_record id other s).1 ≡ s'
      → ForeignStep owner s s'

pub data ForeignCalls (owner : String) (s : Repository) : Repository → Type 0 where
  no_call : ForeignCalls owner s s
  one_more :
      {t u : Repository} → ForeignCalls owner s t → ForeignStep owner t u → ForeignCalls owner s u

-- One call of someone else.
abbrev Unseen : (owner : String) → Repository → Repository → Type 0
Unseen owner s s' = SeesSame owner s s' × Tidy s'.records

got_record :
    (id other : String) (s : Repository) {r : ConfigurationRecord}
    → get_record id other s ≡ some r
    → (get id s.records ≡ some r) × (r.owner_id ≡ other)
unfolding get_record
got_record id other s e = (ground arith, ground arith)

theirs :
    (owner id other : String) (s : Repository) {r : ConfigurationRecord}
    → other === owner ≡ false
    → Tidy s.records
    → get_record id other s ≡ some r
    → (r.id ≡ id) × (get r.id s.records ≡ some r) × Foreign owner r
theirs owner id other s {r} foreign w e =
    let (at, has) = got_record id other s e in
    let own = Tidy-id id s.records w at in
    (
      own,
      subst (λ j. get j s.records ≡ some r) (sym own) at,
      subst (λ x. x === owner ≡ false) (sym has) foreign,
    )

write-Tidy :
    (now : ℕ) (args : UpdateArgs) (r : ConfigurationRecord) (s : Repository)
    → Tidy s.records
    → Tidy (write now (next_record now args r) s).records
unfolding write next_record put
write-Tidy now args r s w = Tidy-put r.id (next_record now args r) s.records refl w

update-Unseen :
    (owner : String) (now : ℕ) (args : UpdateArgs) (s : Repository)
    → args.owner_id === owner ≡ false
    → Tidy s.records
    → Unseen owner s (update now args s).1
unfolding update
update-Unseen owner now args s foreign w =
    elim (Option-cases (get_record args.id args.owner_id s)) [
      | inl absent ↦
          let same : s ≡ (update now args s).1 = ground arith in
          subst (Unseen owner s) same (unchanged-SeesSame owner s, w)
      | inr (r, e) ↦ elim (Bool-cases (r.revision == args.expected_revision)) [
        | inr stale ↦
            let same : s ≡ (update now args s).1 = ground arith in
            subst (Unseen owner s) same (unchanged-SeesSame owner s, w)
        | inl fits ↦
            let (own, at, other) = theirs owner args.id args.owner_id s foreign w e in
            let next = next_record now args r in
            let written : write now next s ≡ (update now args s).1 = ground arith in
            subst (Unseen owner s) written (
              Apart-SeesSame owner r.id s _ (write-Apart owner s r at other now args),
              write-Tidy now args r s w,
            )
      ]
    ]

delete_record-Unseen :
    (owner id other : String) (s : Repository)
    → other === owner ≡ false
    → Tidy s.records
    → Unseen owner s (delete_record id other s).1
unfolding delete_record
delete_record-Unseen owner id other s foreign w = elim (Option-cases (get_record id other s)) [
  | inl absent ↦
      let same : s ≡ (delete_record id other s).1 = ground arith in
      subst (Unseen owner s) same (unchanged-SeesSame owner s, w)
  | inr (r, e) ↦
      let (own, at, theirs') = theirs owner id other s foreign w e in
      let without : String → Repository =
        λ j. record { records = delete j s.records; revisions = delete j s.revisions } in
      let gone : without r.id ≡ (delete_record id other s).1 = ap without own ∙ ground arith in
      subst (Unseen owner s) gone (
        Apart-SeesSame owner r.id s _ (delete-Apart owner s r at theirs' w),
        Tidy-delete r.id s.records w,
      )
]

step-Unseen :
    (owner : String) (s s' : Repository)
    → Tidy s.records
    → ForeignStep owner s s'
    → Unseen owner s s'
unfolding create_record
step-Unseen owner s s' w (creates r other fresh e) = subst (Unseen owner s) e (
  Apart-SeesSame owner r.id s _ (create_record-Apart owner r s other fresh),
  Tidy-put r.id r s.records refl w,
)
step-Unseen owner s s' w (updates now args other e) =
    subst (Unseen owner s) e (update-Unseen owner now args s other w)
step-Unseen owner s s' w (deletes id other foreign e) =
    subst (Unseen owner s) e (delete_record-Unseen owner id other s foreign w)

SeesSame-trans :
    (owner : String) (s t u : Repository)
    → SeesSame owner s t
    → SeesSame owner t u
    → SeesSame owner s u
SeesSame-trans owner s t u p q = record {
  same_records = λ id. q.same_records id ∙ p.same_records id;
  same_revisions = λ id revision. q.same_revisions id revision ∙ p.same_revisions id revision;
  same_lists = λ page page_size. q.same_lists page page_size ∙ p.same_lists page page_size;
}

calls-Unseen :
    (owner : String) (s s' : Repository)
    → Tidy s.records
    → ForeignCalls owner s s'
    → Unseen owner s s'
calls-Unseen owner s s' w no_call = (unchanged-SeesSame owner s, w)
calls-Unseen owner s s' w (one_more {t} r st) =
    let (seen, w') = calls-Unseen owner s t w r in
    let (seen', w'') = step-Unseen owner t s' w' st in (SeesSame-trans owner s t s' seen seen', w'')

-- Whatever others create, write and delete, in any number of calls: an owner reads the same records and
-- the same revisions under every id and the same pages of the listing as before. Each record stands
-- under its own id and once to begin with, and a new record comes under an id that is not there.
pub foreign_calls :
    (owner : String) {s s' : Repository}
    → Tidy s.records
    → ForeignCalls owner s s'
    → SeesSame owner s s'
foreign_calls owner {s} {s'} w calls = (calls-Unseen owner s s' w calls).0
