-- ===== src/Worker/Keys.antt =====
-- packages/artifact-store/src/keys.ts: the keys of the objects that a build leaves.
pub mod Inverse
use Prim.Native.Char.{Char, code}
use Prim.Native.String.{◌++◌ as append}
use qmk_web_app.Common.{
  ℕ, suc, String, ◌===◌, Bool, true, ◌&&◌, ◌||◌, Option, none, some, ◌==◌, if◌then◌else◌,
}
use qmk_web_app.Common.Texts.{starts_with, slice_from, slice_to, text_length, every_char}
use qmk_web_app.Common.Attempt.{Attempt, done, thrown}
use qmk_web_app.Domain.Identifiers.{is_hex}

-- An `ArtifactStoreError`, by its message.
pub data ArtifactStoreError : Type 0 where
  no_uuid malformed_key already_there : ArtifactStoreError

-- `UUID_RE`, of 36 characters: dashes stand at four of the places.
unfoldable pub is_dash_place : ℕ → Bool
is_dash_place i = i == 8 || i == 13 || i == 18 || i == 23

unfoldable pub matches_uuid_from : (i : ℕ) → String → Bool
matches_uuid_from i String.[] = i == 36
matches_uuid_from i (String.◌∷◌ c t) =
    let rest = matches_uuid_from (suc i) t in
    (if is_dash_place i then code c == 45 else is_hex c) && rest

unfoldable pub is_uuid : String → Bool
is_uuid id = matches_uuid_from 0 id

unfoldable pub artifact_key : (build_id : String) → Attempt ArtifactStoreError String
artifact_key id =
    if is_uuid id then done (append "builds/" (append id "/firmware")) else thrown no_uuid

unfoldable pub log_key : (build_id : String) → Attempt ArtifactStoreError String
log_key id = if is_uuid id then done (append "builds/" (append id "/log")) else thrown no_uuid

-- `[0-9a-f-]`
unfoldable pub is_id_char : Char → Bool
unfolding is_hex
is_id_char c = is_hex c || code c == 45

-- `/^builds\/([0-9a-f-]{36})\/(firmware|log)$/`, and the part in the first group.
unfoldable pub matched_id : (key : String) → Option String
matched_id key =
    let rest = slice_from 7 key in
    let id = slice_to 36 rest in
    let suffix = slice_from 36 rest in
    if starts_with "builds/" key
      && text_length id == 36
      && every_char is_id_char id
      && (suffix === "/firmware" || suffix === "/log")
    then some id
    else none

unfoldable pub assert_valid_key : (key : String) → Attempt ArtifactStoreError (Unit {0})
assert_valid_key key = elim (matched_id key) [
  | none ↦ thrown malformed_key
  | some id ↦ if is_uuid id then done tt else thrown malformed_key
]

unfoldable pub build_id_from_key : (key : String) → Option String
build_id_from_key key = elim (matched_id key) [
  | none ↦ none
  | some id ↦ if is_uuid id then some id else none
]
