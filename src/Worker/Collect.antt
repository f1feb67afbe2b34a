-- ===== src/Worker/Collect.antt =====
-- services/worker/src/collect-artifact.ts: the one firmware file of a build's directory.
pub mod Sole
use Prim.Native.Char.{Char, code}
use Prim.Native.String.{◌++◌ as append}
use qmk_web_app.Common.{
  ℕ, ◌*◌, String, ◌===◌, ◌==◌, ltb, Bool, true, false, ◌||◌, Option, none, some, List, [], ◌∷◌,
  find, any, if◌then◌else◌,
}
use qmk_web_app.Common.Attempt.{Attempt, done, thrown}

-- CollectedArtifact, without its path, which nobody reads.
pub record CollectedArtifact : Type 0 where
  pub filename : String
  pub extension : String
  pub byte_size : ℕ
  pub sha256 : String
  pub content_type : String
  pub contents : String

-- An ArtifactError, by its message; the names stand in the order of the directory.
pub data ArtifactError : Type 0 where
  unexpected_files multiple_files : List String → ArtifactError
  not_produced : (target : String) → ArtifactError
  empty_file : ArtifactError
  over_cap : (size : ℕ) → ArtifactError

pub data ArtifactErrorCode : Type 0 where
  artifact_not_produced artifact_rejected : ArtifactErrorCode

abbrev pub error_code : ArtifactError → ArtifactErrorCode
error_code (not_produced target) = artifact_not_produced
error_code _ = artifact_rejected

-- An entry of the directory, with what `statSync` and `readFileSync` find under its name.
pub record Entry : Type 0 where
  pub name : String
  pub is_file : Bool
  pub size : ℕ
  pub contents : String

abbrev pub accepted_extensions : List String
accepted_extensions = "hex" ∷ "bin" ∷ "uf2" ∷ []

abbrev pub max_artifact_bytes : ℕ
max_artifact_bytes = 8 * 1024 * 1024

-- `replace(/\//g, '_')`
unfoldable pub underscored : String → String
underscored String.[] = String.[]
underscored (String.◌∷◌ c t) =
    let rest = underscored t in if code c == 47 then append "_" rest else String.◌∷◌ c rest

unfoldable pub expected_target_name : (keyboard_id keymap_name : String) → String
expected_target_name id keymap = append (underscored id) (append "_" keymap)

-- `text.endsWith(suffix)`
unfoldable pub ends_with : (suffix text : String) → Bool
ends_with s String.[] = s === String.[]
ends_with s (String.◌∷◌ c t) = let rest = ends_with s t in s === String.◌∷◌ c t || rest

abbrev pub dotted : (extension : String) → String
dotted extension = append "." extension

-- The map `expected`, and the test for a firmware's name.
unfoldable pub expected_extension : (target name : String) → Option String
expected_extension target name =
    find (λ extension. append target (dotted extension) === name) accepted_extensions

unfoldable pub is_firmware_name : String → Bool
is_firmware_name name = any (λ extension. ends_with (dotted extension) name) accepted_extensions

-- What the loop keeps: `found` with each one's extension, and `unexpected`.
abbrev pub SortedOut : Type 0
SortedOut = List (Entry × String) × List String

-- The body of the loop, by the outcomes of its tests in their order.
abbrev pub placed :
    (is_file : Bool) (expected : Option String) (is_manifest is_firmware : Bool)
    → Entry
    → SortedOut
    → SortedOut
placed false expected is_manifest is_firmware e rest = rest
placed true (some extension) is_manifest is_firmware e (found, unexpected) =
    ((e, extension) ∷ found, unexpected)
placed true none true is_firmware e rest = rest
placed true none false true e (found, unexpected) = (found, e.name ∷ unexpected)
placed true none false false e rest = rest

unfoldable pub sort_out : (target : String) (entries : List Entry) → SortedOut
sort_out target [] = ([], [])
sort_out target (e ∷ entries) =
    placed e.is_file (expected_extension target e.name) (e.name === "qmk.json")
      (is_firmware_name e.name) e (sort_out target entries)

abbrev pub found_names : List (Entry × String) → List String
found_names [] = []
found_names ((e, extension) ∷ found) = e.name ∷ found_names found

-- `byte_length` and `digest` are the length of a buffer and its SHA-256.
module _ (byte_length : String → ℕ) (digest : String → String) where
  abbrev pub as_artifact : (entry : Entry) (extension : String) → CollectedArtifact
  as_artifact e extension = record {
    filename = e.name;
    extension = extension;
    byte_size = byte_length e.contents;
    sha256 = digest e.contents;
    content_type = "application/octet-stream";
    contents = e.contents;
  }

  unfoldable pub read_artifact :
      (entry : Entry) (extension : String) → Attempt ArtifactError CollectedArtifact
  read_artifact e extension =
      if e.size == 0
      then thrown empty_file
      else (if ltb max_artifact_bytes e.size
          then thrown (over_cap e.size)
          else done (as_artifact e extension))

  -- Lines after the loop: nothing unexpected, and exactly one found.
  unfoldable pub sole_artifact :
      (target : String) (found : List (Entry × String)) (unexpected : List String)
      → Attempt ArtifactError CollectedArtifact
  sole_artifact target found (name ∷ names) = thrown (unexpected_files (name ∷ names))
  sole_artifact target [] [] = thrown (not_produced target)
  sole_artifact target ((e, extension) ∷ []) [] = read_artifact e extension
  sole_artifact target (a ∷ b ∷ found) [] = thrown (multiple_files (found_names (a ∷ b ∷ found)))

  unfoldable pub collect_artifact :
      (entries : List Entry) (keyboard_id keymap_name : String)
      → Attempt ArtifactError CollectedArtifact
  collect_artifact entries id keymap =
      let target = expected_target_name id keymap in
      let sorted = sort_out target entries in sole_artifact target sorted.0 sorted.1
