-- ===== src/Tests/Rules.antt =====
-- The rules of the schemas on a macro and on a document.
use qmk_web_app.Common.{◌≤◌, ◌≡◌, refl, String, String-discrete, true, false, [], ◌∷◌}
use qmk_web_app.Common.Dict.{has, add}
use qmk_web_app.Domain.Limits.{max_macro_total_delay_ms}
use qmk_web_app.Domain.Configuration.{
  tap, key_down, key_up, delay, Macro, layer_toggle, macro, target,
}
use qmk_web_app.Domain.Schema.{
  up_without_down, left_down, positions_repeat, unknown_layer, unknown_macro, step_delay,
  total_delay, without, play, macro_issues, apart, socd_issues, layer_issue, macro_issue,
  binding_issues, layers_issues, configuration_issues,
}
use qmk_web_app.Domain.Schema.Macros.{pressed, matched, macro_issues_lem}
use qmk_web_app.Common.{All, length}
use qmk_web_app.Editor.Structure.{LayerRefers, ids}
use qmk_web_app.Editor.Structure.Refused.{configuration_issues-Refers}
use qmk_web_app.Editor.Structure.Accepted.{configuration_issues-none}
use qmk_web_app.Tests.Editing.{document, document_ValidDocument}

abbrev shout : Macro
shout = record {
  id = "m2";
  name = "shout";
  steps = key_down "KC_LSFT" ∷ tap "KC_A" ∷ delay 20 ∷ key_up "KC_LSFT" ∷ [];
}

shout_accepted : macro_issues shout ≡ []
unfolding macro_issues total_delay step_delay play add has without String-discrete
shout_accepted = refl

stuck_refused :
    macro_issues
      (record { id = "m3"; name = "stuck"; steps = key_up "KC_A" ∷ key_down "KC_B" ∷ [] })
    ≡ up_without_down 0 "KC_A" ∷ left_down "KC_B" ∷ []
unfolding macro_issues total_delay step_delay play add has without String-discrete
stuck_refused = refl

same_position :
    socd_issues (record { up = 1; down = 2; left = 3; right = 1 }) ≡ positions_repeat ∷ []
unfolding socd_issues apart
same_position = refl

dangling :
    layers_issues 1 [] 0 (
      record {
        id = "l";
        index = 0;
        name = "l";
        bindings = ("4", layer_toggle 1) ∷ ("5", macro "m") ∷ [];
      }
      ∷ [])
    ≡ unknown_layer 0 "4" 1 ∷ unknown_macro 0 "5" "m" ∷ []
unfolding layers_issues binding_issues layer_issue macro_issue target has
dangling = refl

macro_issues_lem_example :
    (total_delay shout.steps ≤ max_macro_total_delay_ms)
    × ((k : String) → matched k false shout.steps ≡ true)
    × ((k : String) → pressed k false shout.steps ≡ false)
macro_issues_lem_example = macro_issues_lem shout shout_accepted

configuration_issues-none_example : configuration_issues document.layers document.macros ≡ []
configuration_issues-none_example = configuration_issues-none document document_ValidDocument

configuration_issues-Refers_example :
    All (LayerRefers (length document.layers) (ids document.macros)) document.layers
configuration_issues-Refers_example =
    configuration_issues-Refers document.layers document.macros
      (configuration_issues-none document document_ValidDocument)
