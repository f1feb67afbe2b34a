-- ===== src/Tests/Generating.antt =====
-- The keymaps of two configurations, one with SOCD and one with two layers and a macro.
use qmk_web_app.Common.{
  ℕ, ◌≤◌, ◌<◌, ◌≡◌, refl, arith, ◌⊎◌, String, String-discrete, true, none, some, List, [], ◌∷◌, map,
  All,
}
use qmk_web_app.Common.Dict.{get, has}
use qmk_web_app.Common.Decimal.{decimal}
use qmk_web_app.Common.Sort.{sort, insert}
use qmk_web_app.Common.Texts.{starts_with, slice_from, slice_to, text_length, every_char, all}
use qmk_web_app.Common.Attempt.{done, thrown, Returns, map_each, Pointwise}
use qmk_web_app.Domain.Configuration.{
  layer_tap, mod_tap, macro, layer_momentary, target, tap, key_down, key_up, delay, Macro,
}
use qmk_web_app.Domain.Catalog.{CatalogLayout}
use qmk_web_app.Domain.Keycodes.{
  kc, letter_keycodes, function_keycodes, supported_keycode_names, is_supported_keycode,
}
use qmk_web_app.Domain.Socd.{socd_module_keycode, socd_available}
use qmk_web_app.Domain.Schema.{
  apart, socd_issues, set_of, configuration_issues, index_issues, same_numbers, counted,
  layers_issues, binding_issues, layer_issue, macro_issue,
}
use qmk_web_app.Domain.Schema.Fields.{
  layer_number, position_id, binding_fields, layer_fields, macro_fields, every_direction,
  socd_fields, configuration_fields,
}
use qmk_web_app.Domain.Identifiers.{
  is_hex, is_alphanumeric, is_segment_char, matches_keyboard_id, matches_generated_keymap,
  without_dashes, to_lower, generated_keymap_name, control_offset, utf16_units, utf16_length,
  no_unicode_surprises, split_slashes, segments_fault, valid_keyboard_id_shape,
  resolve_keyboard_path_segments, max_segments, wrong_shape,
}
use qmk_web_app.Domain.Identifiers.Names.{is_hex_id}
use qmk_web_app.Domain.Identifiers.Paths.{
  join_slashes, names_directory, resolve_keyboard_path_segments-safe,
}
use qmk_web_app.Generator.Tokens.{
  assert_keycode, assert_layer_index, mod_suffix, momentary_token, toggle_token, layer_tap_token,
  mod_tap_token, macro_token, render_binding, send_string_name, RenderedStep, tap_action,
  down_action, up_action, delay_action, render_macro_step, render_macros, too_large, not_verified,
}
use qmk_web_app.Generator.Tokens.Allowed.{IsToken}
use qmk_web_app.Generator.Tokens.Macros.{Runnable, read_step, read_steps, render_macros-read}
use qmk_web_app.Generator.Keymap.{
  KeymapJson, Json, GenerateOptions, GenerationResult, enabled_socd, is_verified, macro_order,
  index_macros, layer_order, set_override, override_at, override_direction, socd_overrides,
  render_bound, render_position, render_layers, render_macros_key, named_keymap, document_of,
  keymap_document, verify_socd, choose_layout, keymap_path, written_files, sum_bytes, result_of,
  generate_keymap, max_generated_bytes,
}
use qmk_web_app.Generator.Keymap.Cells.{Apart, Cell, keymap_document-Cells}
use qmk_web_app.Generator.Keymap.Allowed.{keymap_document-IsToken}
use qmk_web_app.Generator.Keymap.Files.{build_options, generate_keymap-validated}
use qmk_web_app.Generator.Keymap.Reported.{Chosen, Reports, generate_keymap-Reports}
use qmk_web_app.Tests.Targets.{keyboard, catalog, gaming, validate-gaming}

abbrev build_id : String
build_id = "0A1B2C3D-0000-4000-8000-000000000007"

abbrev gaming_options : GenerateOptions
gaming_options = record {
  configuration = gaming "0.33.13-3";
  keyboard = keyboard;
  build_id = build_id;
  verified_socd_keyboards = none;
}

abbrev grid : CatalogLayout
grid = record { name = "grid"; positions = 0 ∷ 1 ∷ 2 ∷ 3 ∷ [] }

abbrev gaming_document : KeymapJson
gaming_document = record {
  keyboard = "crkbd/rev1";
  keymap = "qwa_0a1b2c3d000040008000000000000007";
  layout = "grid";
  layers = ("SOCD_LAST_W" ∷ "SOCD_LAST_S" ∷ "SOCD_LAST_A" ∷ "SOCD_LAST_D" ∷ []) ∷ [];
  macros = none;
  modules = some ("qmkweb/socd_cleaner" ∷ []);
}

document-gaming : keymap_document gaming_options grid ≡ done gaming_document
unfolding keymap_document named_keymap generated_keymap_name without_dashes to_lower every_char
    is_hex text_length slice_to slice_from starts_with matches_generated_keymap enabled_socd
    socd_overrides override_direction socd_module_keycode set_override override_at macro_order
    layer_order sort insert render_layers map_each render_position render_bound render_macros_key
    index_macros document_of get String-discrete decimal
document-gaming = refl

distinct_keys : Apart (gaming "0.33.13-3")
unfolding enabled_socd socd_issues apart
distinct_keys s e = ground arith

keymap_document-Cells_example :
    Pointwise
      (λ layer row. Pointwise (Cell (gaming "0.33.13-3") layer) (0 ∷ 1 ∷ 2 ∷ 3 ∷ []) row)
      (layer_order (gaming "0.33.13-3").layers)
      gaming_document.layers
keymap_document-Cells_example =
    keymap_document-Cells gaming_options grid gaming_document document-gaming distinct_keys

keymap_document-IsToken_example : All (All IsToken) gaming_document.layers
keymap_document-IsToken_example =
    keymap_document-IsToken gaming_options grid gaming_document document-gaming

-- A writer of JSON for the runs: only its length matters to the generator.
abbrev plain_json : Json → String
plain_json j = "{}"

abbrev gaming_result : GenerationResult
gaming_result = record {
  files =
      record { path = "qmk.json"; contents = "{}" }
      ∷ record {
        path = "keyboards/crkbd/rev1/keymaps/qwa_0a1b2c3d000040008000000000000007/keymap.json";
        contents = "{}";
      }
      ∷ [];
  keymap_name = "qwa_0a1b2c3d000040008000000000000007";
  compile_keyboard = "crkbd/rev1";
  compile_keymap = "qwa_0a1b2c3d000040008000000000000007";
  requires_socd_module = true;
  version = "1.1.0";
  total_bytes = 4;
}

generate-gaming : generate_keymap plain_json text_length gaming_options ≡ done gaming_result
unfolding generate_keymap choose_layout verify_socd is_verified socd_available written_files
    keymap_path sum_bytes result_of keymap_document named_keymap generated_keymap_name
    without_dashes to_lower every_char is_hex text_length slice_to slice_from starts_with
    matches_generated_keymap enabled_socd socd_overrides override_direction socd_module_keycode
    set_override override_at macro_order layer_order sort insert render_layers map_each
    render_position render_bound render_macros_key index_macros document_of get String-discrete
    decimal
generate-gaming = refl

generate_keymap-Reports_example :
    (layout : CatalogLayout) × (doc : KeymapJson) × Chosen gaming_options layout
    × (keymap_document gaming_options layout ≡ done doc)
    × Reports plain_json text_length gaming_options doc gaming_result
generate_keymap-Reports_example =
    generate_keymap-Reports plain_json text_length gaming_options gaming_result generate-gaming

gaming_issues : configuration_issues (gaming "0.33.13-3").layers [] ≡ []
unfolding configuration_issues index_issues same_numbers counted set_of layers_issues binding_issues
    layer_issue macro_issue target sort insert
gaming_issues = refl

gaming_fields : configuration_fields (gaming "0.33.13-3") ≡ true
unfolding configuration_fields layer_fields layer_number binding_fields macro_fields socd_fields
    position_id every_direction all is_supported_keycode has supported_keycode_names kc
    letter_keycodes function_keycodes decimal String-discrete
gaming_fields = refl

build_id_fits : is_hex_id build_id ≡ true
unfolding is_hex_id without_dashes to_lower every_char is_hex text_length
build_id_fits = refl

generate_keymap-validated_example :
    Returns (
      generate_keymap plain_json text_length (build_options (gaming "0.33.13-3") keyboard build_id))
    ⊎ ((n : ℕ) × (generate_keymap plain_json text_length
            (build_options (gaming "0.33.13-3") keyboard build_id)
          ≡ thrown (too_large n))
        × (max_generated_bytes < n))
generate_keymap-validated_example =
    generate_keymap-validated plain_json text_length (catalog "0.33.13-3") (gaming "0.33.13-3")
      keyboard build_id validate-gaming gaming_issues gaming_fields build_id_fits

-- SOCD on a keyboard that was not verified for the catalog version is refused here as well.
refused_here :
    generate_keymap plain_json text_length (build_options (gaming "0.34.0-1") keyboard build_id)
    ≡ thrown not_verified
unfolding generate_keymap build_options choose_layout verify_socd is_verified enabled_socd
    socd_available String-discrete
refused_here = refl

abbrev copy_macro : Macro
copy_macro = record {
  id = "m1";
  name = "copy";
  steps = key_down "KC_LEFT_CTRL" ∷ tap "KC_C" ∷ delay 20 ∷ key_up "KC_LEFT_CTRL" ∷ [];
}

abbrev copy_rendered : List (List RenderedStep)
copy_rendered =
    (down_action "LEFT_CTRL" ∷ tap_action "C" ∷ delay_action 20 ∷ up_action "LEFT_CTRL" ∷ []) ∷ []

render-copy : render_macros (copy_macro ∷ []) ≡ done copy_rendered
unfolding render_macros map_each render_macro_step send_string_name assert_keycode
    is_supported_keycode has supported_keycode_names kc letter_keycodes function_keycodes decimal
    String-discrete starts_with slice_from
render-copy = refl

render_macros-read_example :
    (map read_steps copy_rendered ≡ copy_macro.steps ∷ [])
    × All (All (λ r. Runnable (read_step r))) copy_rendered
render_macros-read_example = render_macros-read (copy_macro ∷ []) copy_rendered render-copy

tokens :
    map_each
      (λ b. render_binding b (("m1", 0) ∷ []))
      (layer_tap 1 "KC_SPACE"
        ∷ mod_tap "KC_LEFT_SHIFT" "KC_Z"
        ∷ macro "m1"
        ∷ layer_momentary 2
        ∷ [])
    ≡ done ("LT(1,KC_SPACE)" ∷ "MT(MOD_LSFT,KC_Z)" ∷ "QK_MACRO_0" ∷ "MO(2)" ∷ [])
unfolding map_each render_binding assert_keycode assert_layer_index mod_suffix momentary_token
    toggle_token layer_tap_token mod_tap_token macro_token is_supported_keycode has
    supported_keycode_names kc letter_keycodes function_keycodes decimal String-discrete get
tokens = refl

resolve-planck :
    resolve_keyboard_path_segments (λ t. t) ("planck/rev6" ∷ []) "planck/rev6"
    ≡ done ("planck" ∷ "rev6" ∷ [])
unfolding resolve_keyboard_path_segments valid_keyboard_id_shape no_unicode_surprises control_offset
    utf16_units utf16_length segments_fault split_slashes matches_keyboard_id is_alphanumeric
    is_segment_char has String-discrete
resolve-planck = refl

resolve-escape :
    resolve_keyboard_path_segments (λ t. t) ("a/../b" ∷ []) "a/../b" ≡ thrown wrong_shape
unfolding resolve_keyboard_path_segments valid_keyboard_id_shape no_unicode_surprises control_offset
    utf16_units utf16_length segments_fault split_slashes matches_keyboard_id is_alphanumeric
    is_segment_char has String-discrete
resolve-escape = refl

resolve_keyboard_path_segments-safe_example :
    (has "planck/rev6" ("planck/rev6" ∷ []) ≡ true)
    × (join_slashes ("planck" ∷ "rev6" ∷ []) ≡ "planck/rev6")
    × (1 ≤ 2)
    × (2 ≤ max_segments)
    × All (λ s. names_directory s ≡ true) ("planck" ∷ "rev6" ∷ [])
resolve_keyboard_path_segments-safe_example =
    resolve_keyboard_path_segments-safe (λ t. t) ("planck/rev6" ∷ []) "planck/rev6"
      ("planck" ∷ "rev6" ∷ []) resolve-planck
