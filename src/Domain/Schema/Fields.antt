-- ===== src/Domain/Schema/Fields.antt =====
-- packages/domain/src/configuration.ts: the rules of the schemas on single fields, as far as they
-- are on keycodes, numbers and counts. The formats of ids, names and dates are left out.
use qmk_web_app.Common.{ℕ, Bool, true, ◌&&◌, none, some, leb, ltb, length}
use qmk_web_app.Common.Dict.{has, values}
use qmk_web_app.Common.Texts.{all}
use qmk_web_app.Domain.Limits.{
  max_layers, max_macros, max_macro_steps, max_macro_step_delay_ms, max_positions_per_layout,
}
use qmk_web_app.Domain.Keycodes.{is_supported_keycode, mod_tap_modifiers, socd_directional_keycodes}
use qmk_web_app.Domain.Configuration.{
  Binding, keycode, transparent, no_op, layer_momentary, layer_toggle, layer_tap, mod_tap, macro,
  Layer, MacroStep, tap, key_down, key_up, delay, Macro, Directions, SocdConfiguration,
  Configuration,
}

-- `layerIndex` and `positionIdSchema`
unfoldable pub layer_number : ℕ → Bool
layer_number l = ltb l max_layers

unfoldable pub position_id : ℕ → Bool
position_id p = ltb p max_positions_per_layout

unfoldable pub binding_fields : Binding → Bool
binding_fields (keycode k) = is_supported_keycode k
binding_fields transparent = true
binding_fields no_op = true
binding_fields (layer_momentary l) = layer_number l
binding_fields (layer_toggle l) = layer_number l
binding_fields (layer_tap l k) = layer_number l && is_supported_keycode k
binding_fields (mod_tap hold k) = has hold mod_tap_modifiers && is_supported_keycode k
binding_fields (macro id) = true

unfoldable pub layer_fields : Layer → Bool
layer_fields l = layer_number l.index && all binding_fields (values l.bindings)

unfoldable pub step_fields : MacroStep → Bool
step_fields (tap k) = is_supported_keycode k
step_fields (key_down k) = is_supported_keycode k
step_fields (key_up k) = is_supported_keycode k
step_fields (delay ms) = leb 1 ms && leb ms max_macro_step_delay_ms

unfoldable pub macro_fields : Macro → Bool
macro_fields m =
    leb 1 (length m.steps) && leb (length m.steps) max_macro_steps && all step_fields m.steps

unfoldable pub every_direction : {A : Type 0} → (A → Bool) → Directions A → Bool
every_direction p d = p d.up && p d.down && p d.left && p d.right

unfoldable pub socd_fields : SocdConfiguration → Bool
socd_fields s =
    every_direction position_id s.directional_keys
    && every_direction (λ k. has k socd_directional_keycodes) s.directional_keycodes

unfoldable pub configuration_fields : Configuration → Bool
configuration_fields c =
    leb 1 (length c.layers)
    && leb (length c.layers) max_layers
    && all layer_fields c.layers
    && leb (length c.macros) max_macros
    && all macro_fields c.macros
    && elim c.socd [ none ↦ true | some s ↦ socd_fields s ]
