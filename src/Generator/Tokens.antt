-- ===== src/Generator/Tokens.antt =====
-- packages/qmk-generator/src/generate.ts: the keycode expression of a binding and the JSON of a
-- macro.
pub mod Allowed
pub mod Macros
use Prim.Native.String.{◌++◌ as append}
use qmk_web_app.Common.{
  ℕ, zero, suc, ◌+◌, String, Bool, not, Option, none, some, List, [], ◌∷◌, ltb, leb, ◌==◌,
  if◌then◌else◌,
}
use qmk_web_app.Common.Dict.{Dict, get, put}
use qmk_web_app.Common.Decimal.{decimal}
use qmk_web_app.Common.Texts.{starts_with, slice_from}
use qmk_web_app.Common.Attempt.{Attempt, done, thrown, ◌>>=◌, map_each}
use qmk_web_app.Domain.Limits.{max_layers}
use qmk_web_app.Domain.Keycodes.{is_supported_keycode}
use qmk_web_app.Domain.Identifiers.{Fault}
use qmk_web_app.Domain.Configuration.{
  Binding, keycode, transparent, no_op, layer_momentary, layer_toggle, layer_tap, mod_tap, macro,
  MacroStep, tap, key_down, key_up, delay, Macro,
}

-- The `GenerationError`s by their messages, and the `IdentifierError` that passes through.
pub data GenerationError : Type 0 where
  unsupported_keycode : String → GenerationError
  layer_out_of_range : ℕ → GenerationError
  no_modifier : String → GenerationError
  unknown_macro_reference : String → GenerationError
  macro_out_of_range : ℕ → GenerationError
  no_send_string_name : String → GenerationError
  invalid_delay : ℕ → GenerationError
  keyboards_disagree not_verified no_such_layout : GenerationError
  no_module_keycode : String → GenerationError
  identifier : Fault → GenerationError
  too_large : (bytes : ℕ) → GenerationError

abbrev pub Generated : Type 0 → Type 0
Generated = Attempt GenerationError

abbrev pub max_json_macros : ℕ
max_json_macros = 32

unfoldable pub assert_keycode : String → Generated String
assert_keycode k = if is_supported_keycode k then done k else thrown (unsupported_keycode k)

unfoldable pub assert_layer_index : ℕ → Generated ℕ
assert_layer_index layer =
    if leb max_layers layer then thrown (layer_out_of_range layer) else done layer

abbrev pub mod_suffixes : Dict String
mod_suffixes =
    ("KC_LEFT_CTRL", "LCTL")
    ∷ ("KC_LEFT_SHIFT", "LSFT")
    ∷ ("KC_LEFT_ALT", "LALT")
    ∷ ("KC_LEFT_GUI", "LGUI")
    ∷ ("KC_RIGHT_CTRL", "RCTL")
    ∷ ("KC_RIGHT_SHIFT", "RSFT")
    ∷ ("KC_RIGHT_ALT", "RALT")
    ∷ ("KC_RIGHT_GUI", "RGUI")
    ∷ []

unfoldable pub mod_suffix : String → Generated String
mod_suffix k = elim (get k mod_suffixes) [ none ↦ thrown (no_modifier k) | some s ↦ done s ]

-- The texts of the expressions, such as `LT(1,KC_A)`.
unfoldable pub momentary_token : ℕ → String
momentary_token l = append "MO(" (append (decimal l) ")")

unfoldable pub toggle_token : ℕ → String
toggle_token l = append "TG(" (append (decimal l) ")")

unfoldable pub layer_tap_token : ℕ → String → String
layer_tap_token l k = append "LT(" (append (decimal l) (append "," (append k ")")))

unfoldable pub mod_tap_token : (suffix k : String) → String
mod_tap_token suffix k = append "MT(MOD_" (append suffix (append "," (append k ")")))

unfoldable pub macro_token : ℕ → String
macro_token i = append "QK_MACRO_" (decimal i)

unfoldable pub render_binding : Binding → (macro_index_by_id : Dict ℕ) → Generated String
render_binding (keycode k) indices = assert_keycode k
render_binding transparent indices = done "KC_TRANSPARENT"
render_binding no_op indices = done "KC_NO"
render_binding (layer_momentary l) indices = assert_layer_index l >>= λ i. done (momentary_token i)
render_binding (layer_toggle l) indices = assert_layer_index l >>= λ i. done (toggle_token i)
render_binding (layer_tap l k) indices =
    assert_layer_index l >>= λ i. assert_keycode k >>= λ j. done (layer_tap_token i j)
render_binding (mod_tap hold k) indices =
    mod_suffix hold >>= λ s. assert_keycode k >>= λ j. done (mod_tap_token s j)
render_binding (macro id) indices = elim (get id indices) [
  | none ↦ thrown (unknown_macro_reference id)
  | some i ↦ if leb max_json_macros i then thrown (macro_out_of_range i) else done (macro_token i)
]

unfoldable pub send_string_name : String → Generated String
send_string_name k = assert_keycode k >>= λ validated.
    if starts_with "KC_" validated
    then done (slice_from 3 validated)
    else thrown (no_send_string_name validated)

-- `{ action, keycodes: [name] }` and `{ action: 'delay', duration }`
pub data RenderedStep : Type 0 where
  tap_action down_action up_action : (keycode_name : String) → RenderedStep
  delay_action : (duration : ℕ) → RenderedStep

unfoldable pub render_macro_step : MacroStep → Generated RenderedStep
render_macro_step (tap k) = send_string_name k >>= λ n. done (tap_action n)
render_macro_step (key_down k) = send_string_name k >>= λ n. done (down_action n)
render_macro_step (key_up k) = send_string_name k >>= λ n. done (up_action n)
render_macro_step (delay ms) =
    if ltb ms 1 then thrown (invalid_delay ms) else done (delay_action ms)

unfoldable pub render_macros : List Macro → Generated (List (List RenderedStep))
render_macros macros = map_each (λ m. map_each render_macro_step m.steps) macros
