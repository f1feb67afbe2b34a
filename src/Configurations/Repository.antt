-- ===== src/Configurations/Repository.antt =====
-- memory-repository.ts and types.ts: the state of the repository and its operations.
use qmk_web_app.Common.{
  ℕ, suc, String, ◌===◌, Bool, true, false, Option, none, some, List, [], ◌∷◌, ltb, ◌==◌,
  if◌then◌else◌, map, length, filter,
}
use qmk_web_app.Common.Dict.{Dict, get, put, delete, values}
use qmk_web_app.Common.Sort.{sort}
use qmk_web_app.Domain.Configuration.{Configuration}
use qmk_web_app.BuildQueue.Types.{ListPage}
use qmk_web_app.BuildQueue.Store.{paginate}

pub record ConfigurationRecord : Type 0 where
  pub id : String
  pub owner_id : String
  pub schema_version : ℕ
  pub catalog_version : String
  pub qmk_commit : String
  pub keyboard_id : String
  pub layout_id : String
  pub name : String
  pub revision : ℕ
  pub is_draft : Bool
  pub document : Configuration
  pub generator_version : String
  pub created_at : ℕ
  pub updated_at : ℕ

pub record ConfigurationSummary : Type 0 where
  pub id : String
  pub name : String
  pub keyboard_id : String
  pub layout_id : String
  pub catalog_version : String
  pub revision : ℕ
  pub is_draft : Bool
  pub layer_count : ℕ
  pub created_at : ℕ
  pub updated_at : ℕ

-- What `next` of `UpdateArgs` returns.
pub record NextDocument : Type 0 where
  pub document : Configuration
  pub name : String
  pub is_draft : Bool

pub record UpdateArgs : Type 0 where
  pub id : String
  pub owner_id : String
  pub expected_revision : ℕ
  pub next : ConfigurationRecord → NextDocument

pub record StoredRevision : Type 0 where
  pub document : Configuration
  pub is_draft : Bool
  pub created_at : ℕ

-- A `Map` from revision numbers, in the order of insertion.
abbrev pub RevisionLog : Type 0
RevisionLog = List (ℕ × StoredRevision)

unfoldable pub revision_at : ℕ → RevisionLog → Option StoredRevision
revision_at revision [] = none
revision_at revision ((r, v) ∷ log) = if r == revision then some v else revision_at revision log

unfoldable pub set_revision : ℕ → StoredRevision → RevisionLog → RevisionLog
set_revision revision v [] = (revision, v) ∷ []
set_revision revision v ((r, w) ∷ log) =
    if r == revision then (r, v) ∷ log else (r, w) ∷ set_revision revision v log

pub record Repository : Type 0 where
  pub records : Dict ConfigurationRecord
  pub revisions : Dict RevisionLog

abbrev pub empty_repository : Repository
empty_repository = record { records = []; revisions = [] }

-- `conflict` is a `RevisionConflictError` with the current revision.
pub data UpdateResult : Type 0 where
  missing : UpdateResult
  conflict : (current_revision : ℕ) → UpdateResult
  updated : ConfigurationRecord → UpdateResult

abbrev pub stored_revision : ConfigurationRecord → (created_at : ℕ) → StoredRevision
stored_revision r created_at = record {
  document = r.document;
  is_draft = r.is_draft;
  created_at = created_at;
}

unfoldable pub create_record : ConfigurationRecord → Repository → ConfigurationRecord × Repository
create_record r s = (
  r,
  record {
    records = put r.id r s.records;
    revisions = put r.id ((r.revision, stored_revision r r.created_at) ∷ []) s.revisions;
  },
)

-- The record of this id, if this owner has it.
unfoldable pub get_record : String → String → Repository → Option ConfigurationRecord
get_record id owner s = elim (get id s.records) [
  | none ↦ none
  | some r ↦ if r.owner_id === owner then some r else none
]

unfoldable pub summarize_record : ConfigurationRecord → ConfigurationSummary
summarize_record r = record {
  id = r.id;
  name = r.name;
  keyboard_id = r.keyboard_id;
  layout_id = r.layout_id;
  catalog_version = r.catalog_version;
  revision = r.revision;
  is_draft = r.is_draft;
  layer_count = length r.document.layers;
  created_at = r.created_at;
  updated_at = r.updated_at;
}

abbrev pub latest_first : ConfigurationRecord → ConfigurationRecord → Bool
latest_first a b = ltb b.updated_at a.updated_at

unfoldable pub list_records :
    String → (page page_size : ℕ) → Repository → ListPage ConfigurationSummary
list_records owner page page_size s =
    let owned = sort latest_first (filter (λ r. r.owner_id === owner) (values s.records)) in
    let found = paginate owned page page_size in
    record {
      items = map summarize_record found.items;
      page = found.page;
      page_size = found.page_size;
      total_items = found.total_items;
      total_pages = found.total_pages;
    }

-- The record after an accepted write.
unfoldable pub next_record : (now : ℕ) → UpdateArgs → ConfigurationRecord → ConfigurationRecord
next_record now args current =
    let next = args.next current in
    record current {
      name = next.name;
      is_draft = next.is_draft;
      revision = suc current.revision;
      updated_at = now;
      document = record next.document { revision = suc current.revision; updated_at = now };
    }

-- `this.#revisions.get(id)?.set(...)`: nothing where the id has no log.
abbrev pub log_revision : (now : ℕ) → ConfigurationRecord → Dict RevisionLog → Dict RevisionLog
log_revision now next revisions = elim (get next.id revisions) [
  | none ↦ revisions
  | some log ↦ put next.id (set_revision next.revision (stored_revision next now) log) revisions
]

unfoldable pub write : (now : ℕ) → ConfigurationRecord → Repository → Repository
write now next s = record {
  records = put next.id next s.records;
  revisions = log_revision now next s.revisions;
}

unfoldable pub update : (now : ℕ) → UpdateArgs → Repository → UpdateResult × Repository
update now args s = elim (get_record args.id args.owner_id s) [
  | none ↦ (missing, s)
  | some current ↦
      if current.revision == args.expected_revision
      then (updated (next_record now args current), write now (next_record now args current) s)
      else (conflict current.revision, s)
]

unfoldable pub delete_record : String → String → Repository → Bool × Repository
delete_record id owner s = elim (get_record id owner s) [
  | none ↦ (false, s)
  | some r ↦ (true, record { records = delete id s.records; revisions = delete id s.revisions })
]

unfoldable pub get_revision : String → String → ℕ → Repository → Option StoredRevision
get_revision id owner revision s = elim (get_record id owner s) [
  | none ↦ none
  | some r ↦ elim (get id s.revisions) [ none ↦ none | some log ↦ revision_at revision log ]
]
