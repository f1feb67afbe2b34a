-- ===== src/Tests/Saving.antt =====
-- The configuration repository on one configuration.
use qmk_web_app.Common.{
  ℕ, ◌<◌, ◌≡◌, ◌⊎◌, refl, ap, String, String-discrete, true, false, none, some, [], ◌∷◌,
}
use qmk_web_app.Common.Dict.{get, put}
use qmk_web_app.Domain.Configuration.{Configuration}
use qmk_web_app.Configurations.Repository.{
  ConfigurationRecord, UpdateArgs, StoredRevision, revision_at, set_revision, Repository,
  empty_repository, missing, conflict, updated, create_record, get_record, next_record, write,
  update, get_revision, stored_revision,
}
use qmk_web_app.Configurations.Histories.{creates, updates, Reach, start, next}
use qmk_web_app.Configurations.Ownership.Apart.{SeesSame}
use qmk_web_app.Configurations.Ownership.{no_call, one_more, creates, foreign_calls}
use qmk_web_app.Configurations.Revisions.{head_logged}
use qmk_web_app.Configurations.Guards.{revision_kept, stale_refused}

abbrev document : (name : String) (revision at : ℕ) → Configuration
document name revision at = record {
  id = "c1";
  owner_id = some "ann";
  schema_version = 1;
  catalog_version = "v1";
  qmk_commit = "abc";
  keyboard_id = "planck";
  layout_id = "grid";
  name = name;
  revision = revision;
  created_at = 100;
  updated_at = at;
  layers = record { id = "l0"; index = 0; name = "base"; bindings = [] } ∷ [];
  macros = [];
  socd = none;
  generator_version = "g1";
}

abbrev saved : (name : String) (revision at : ℕ) → ConfigurationRecord
saved name revision at = record {
  id = "c1";
  owner_id = "ann";
  schema_version = 1;
  catalog_version = "v1";
  qmk_commit = "abc";
  keyboard_id = "planck";
  layout_id = "grid";
  name = name;
  revision = revision;
  is_draft = false;
  document = document name revision at;
  generator_version = "g1";
  created_at = 100;
  updated_at = at;
}

abbrev with_first : Repository
with_first = record {
  records = ("c1", saved "one" 1 100) ∷ [];
  revisions = ("c1", (1, stored_revision (saved "one" 1 100) 100) ∷ []) ∷ [];
}

abbrev with_second : Repository
with_second = record {
  records = ("c1", saved "two" 2 200) ∷ [];
  revisions =
      (
        "c1",
        (1, stored_revision (saved "one" 1 100) 100)
            ∷ (2, stored_revision (saved "two" 2 200) 200)
            ∷ [],
      )
      ∷ [];
}

abbrev renaming : (name : String) → UpdateArgs
renaming name = record {
  id = "c1";
  owner_id = "ann";
  expected_revision = 1;
  next = λ r. record { document = document name 0 0; name = name; is_draft = false };
}

create-saved : (create_record (saved "one" 1 100) empty_repository).1 ≡ with_first
unfolding create_record put
create-saved = refl

update-renaming :
    update 200 (renaming "two") with_first ≡ (updated (saved "two" 2 200), with_second)
unfolding update write next_record set_revision get_record get put String-discrete
update-renaming = refl

first_save : Reach (λ id. true) empty_repository with_first
unfolding get
first_save = next start (creates (saved "one" 1 100) refl refl create-saved)

second_save : Reach (λ id. true) empty_repository with_second
second_save = next first_save (updates 200 (renaming "two") (ap (λ r. r.1) update-renaming))

abbrev of_bob : ConfigurationRecord
of_bob = record (saved "one" 1 100) { id = "c2"; owner_id = "bob" }

foreign_calls_example : SeesSame "ann" with_first (create_record of_bob with_first).1
foreign_calls_example = foreign_calls "ann" (unfold get in (refl, refl, tt)) (
    one_more no_call
      (creates of_bob (unfold String-discrete in refl) (unfold get String-discrete in refl) refl))

head_logged_example :
    (v : StoredRevision) × (get_revision "c1" "ann" 2 with_second ≡ some v)
    × (v.document ≡ document "two" 2 200)
    × (v.is_draft ≡ false)
head_logged_example =
    head_logged "c1" "ann" {r = saved "two" 2 200} second_save
      (unfold get_record get String-discrete in refl)

revision_kept_example :
    (get_record "c1" "ann" with_second ≡ none)
    ⊎ (get_revision "c1" "ann" 1 with_second ≡ some (stored_revision (saved "one" 1 100) 100))
revision_kept_example =
    revision_kept {t = with_second} "c1" "ann" 1 {v = stored_revision (saved "one" 1 100) 100}
      first_save (unfold get_revision get_record revision_at get String-discrete in refl)
      (next start (updates 200 (renaming "two") (ap (λ r. r.1) update-renaming)))

stale_refused_example :
    let t = (update 200 (renaming "two") with_first).1 in
    (update 300 (renaming "three") t ≡ (missing, t))
    ⊎ ((current : ℕ) × (1 < current) × (update 300 (renaming "three") t ≡ (conflict current, t)))
stale_refused_example =
    stale_refused 200 300 (renaming "two") (renaming "three") {r = saved "two" 2 200} first_save
      (ap (λ r. r.0) update-renaming) start refl refl
