-- ===== src/Domain/Validate.antt =====
-- packages/domain/src/validate.ts: a configuration against the catalog that it targets, behind
-- `parseConfiguration`.
pub mod Accepted
pub mod Sound
use qmk_web_app.Common.{
  ℕ, zero, suc, ◌+◌, ◌-◌, ◌*◌, String, ◌===◌, Bool, true, false, not, ◌&&◌, Option, none, some,
  List, [], ◌∷◌, ◌++◌, any, find, ◌==◌, if◌then◌else◌,
}
use Prim.Native.Char.{code}
use qmk_web_app.Common.Dict.{Dict, get}
use qmk_web_app.Common.Decimal.{decimal}
use qmk_web_app.Domain.Configuration.{
  Binding, keycode, Layer, Directions, SocdConfiguration, Configuration,
}
use qmk_web_app.Domain.Catalog.{
  CatalogLayout, SupportedCatalogKeyboard, CatalogKeyboard, supported, unsupported, Catalog,
  ErrorCode, catalog_keyboard_unavailable, catalog_layout_unavailable, config_invalid,
  capability_unavailable,
}
use qmk_web_app.Domain.Socd.{vertical_pairs, horizontal_pairs, is_pair, socd_available}

pub data Direction : Type 0 where
  up down left right : Direction

-- The field errors, by what varies in their paths and messages.
pub data FieldError : Type 0 where
  other_catalog other_commit other_layout socd_unavailable : FieldError
  no_such_position : (layer : ℕ) (position : String) → FieldError
  no_such_direction : Direction → FieldError
  not_vertical not_horizontal : FieldError
  not_bound : Direction → FieldError

-- A `DomainError`, or the result.
pub data Validated : Type 0 where
  refused : ErrorCode → List FieldError → Validated
  accepted : Configuration → SupportedCatalogKeyboard → Validated

-- `Number(position)` of a text of decimal digits.
unfoldable pub number_from : (before : ℕ) → String → ℕ
number_from before String.[] = before
number_from before (String.◌∷◌ c s) = number_from (before * 10 + (code c - 48)) s

unfoldable pub is_position : CatalogLayout → ℕ → Bool
is_position layout index = any (λ p. p == index) layout.positions

unfoldable pub binding_errors : CatalogLayout → (li : ℕ) → Dict Binding → List FieldError
binding_errors layout li [] = []
binding_errors layout li ((p, b) ∷ m) =
    let rest = binding_errors layout li m in
    if is_position layout (number_from 0 p) then rest else no_such_position li p ∷ rest

unfoldable pub layer_errors : CatalogLayout → (li : ℕ) → List Layer → List FieldError
layer_errors layout li [] = []
layer_errors layout li (l ∷ ls) =
    binding_errors layout li l.bindings ++ layer_errors layout (suc li) ls

abbrev pub fault : Bool → FieldError → List FieldError
fault ok e = if ok then [] else e ∷ []

unfoldable pub direction_errors : CatalogLayout → Directions ℕ → List FieldError
direction_errors layout keys =
    fault (is_position layout keys.up) (no_such_direction up)
    ++ fault (is_position layout keys.down) (no_such_direction down)
    ++ fault (is_position layout keys.left) (no_such_direction left)
    ++ fault (is_position layout keys.right) (no_such_direction right)

unfoldable pub pair_errors : Directions String → List FieldError
pair_errors codes =
    fault (is_pair vertical_pairs codes.up codes.down) not_vertical
    ++ fault (is_pair horizontal_pairs codes.left codes.right) not_horizontal

abbrev pub is_keycode : String → Binding → Bool
is_keycode expected (keycode k) = k === expected
is_keycode expected _ = false

-- Whether the base layer has this keycode at this position; there may be no base layer.
unfoldable pub is_bound : List Layer → ℕ → String → Bool
is_bound layers position expected = elim (find (λ l. l.index == 0) layers) [
  | none ↦ false
  | some base ↦ elim (get (decimal position) base.bindings) [
    | none ↦ false
    | some b ↦ is_keycode expected b
  ]
]

unfoldable pub bound_errors : List Layer → SocdConfiguration → List FieldError
bound_errors layers socd =
    let keys = socd.directional_keys in
    let codes = socd.directional_keycodes in
    fault (is_bound layers keys.up codes.up) (not_bound up)
    ++ fault (is_bound layers keys.down codes.down) (not_bound down)
    ++ fault (is_bound layers keys.left codes.left) (not_bound left)
    ++ fault (is_bound layers keys.right codes.right) (not_bound right)

unfoldable pub finish_validation :
    Configuration → SupportedCatalogKeyboard → List FieldError → Validated
finish_validation c keyboard [] = accepted c keyboard
finish_validation c keyboard (e ∷ es) = refused config_invalid (e ∷ es)

unfoldable pub validate_fields :
    Configuration → SupportedCatalogKeyboard → CatalogLayout → Option SocdConfiguration → Validated
validate_fields c keyboard layout none =
    finish_validation c keyboard (layer_errors layout 0 c.layers)
validate_fields c keyboard layout (some socd) =
    let errors = layer_errors layout 0 c.layers ++ direction_errors layout socd.directional_keys in
    if socd.enabled
    then if socd_available c.catalog_version c.keyboard_id
      then finish_validation c keyboard
          (errors ++ pair_errors socd.directional_keycodes ++ bound_errors c.layers socd)
      else refused capability_unavailable (socd_unavailable ∷ [])
    else finish_validation c keyboard errors

abbrev pub keyboard_name : CatalogKeyboard → String
keyboard_name (supported k) = k.keyboard_id
keyboard_name (unsupported id reason) = id

abbrev pub supported_only : Option CatalogKeyboard → Option SupportedCatalogKeyboard
supported_only (some (supported k)) = some k
supported_only _ = none

-- The first entry of this id, if it is supported; the two errors have one code.
unfoldable pub require_supported_keyboard : Catalog → String → Option SupportedCatalogKeyboard
require_supported_keyboard catalog id =
    supported_only (find (λ k. keyboard_name k === id) catalog.keyboards)

unfoldable pub validate_layout : Configuration → SupportedCatalogKeyboard → Validated
validate_layout c keyboard = elim (find (λ l. l.name === c.layout_id) keyboard.layouts) [
  | none ↦ refused catalog_layout_unavailable (other_layout ∷ [])
  | some layout ↦ validate_fields c keyboard layout c.socd
]

-- `validateConfiguration` from the value of `parseConfiguration` on.
unfoldable pub validate_configuration : Catalog → Configuration → Validated
validate_configuration catalog c =
    if c.catalog_version === catalog.catalog_version
    then if c.qmk_commit === catalog.qmk_commit
      then elim (require_supported_keyboard catalog c.keyboard_id) [
        | none ↦ refused catalog_keyboard_unavailable []
        | some keyboard ↦ validate_layout c keyboard
      ]
      else refused config_invalid (other_commit ∷ [])
    else refused config_invalid (other_catalog ∷ [])
