-- ===== src/Editor/Structure.antt =====
-- What holds of every document of the editor: the rules of the configuration schema that tie
-- layers, bindings and macros together.
pub mod Edits
pub mod Removal
pub mod Macros
pub mod Validity
pub mod Actions
pub mod Preserved
pub mod Removed
pub mod Dangling
pub mod Accepted
pub mod Refused
use qmk_web_app.Common.{
  ℕ, zero, suc, ◌≤◌, ◌<◌, ◌≡◌, String, ◌===◌, Bool, true, false, List, [], ◌∷◌, length, any, All,
  map,
}
use qmk_web_app.Common.Dict.{values}
use qmk_web_app.Domain.Limits.{max_layers, max_macros}
use qmk_web_app.Domain.Configuration.{
  Binding, layer_momentary, layer_toggle, layer_tap, macro, Layer, Macro,
}
use qmk_web_app.Editor.State.{EditorDocument}

-- The layers stand in the order of their indices, without a gap.
abbrev pub Indexed : ℕ → List Layer → Type 0
Indexed k [] = Unit {0}
Indexed k (l ∷ ls) = (l.index ≡ k) × Indexed (suc k) ls

abbrev pub ids : List Macro → List String
ids = map λ m. m.id

abbrev pub has_id : String → List String → Bool
has_id id = any λ x. x === id

-- A binding names a layer below the count, or a macro that is defined.
abbrev pub Refers : (layer_count : ℕ) (macro_ids : List String) → Binding → Type 0
Refers n known (layer_momentary l) = l < n
Refers n known (layer_toggle l) = l < n
Refers n known (layer_tap l k) = l < n
Refers n known (macro id) = has_id id known ≡ true
Refers n known _ = Unit {0}

abbrev pub LayerRefers : ℕ → List String → Layer → Type 0
LayerRefers n known l = All (Refers n known) (values l.bindings)

abbrev pub Unique : List String → Type 0
Unique [] = Unit {0}
Unique (x ∷ xs) = (has_id x xs ≡ false) × Unique xs

pub record ValidDocument (d : EditorDocument) : Type 0 where
  pub indexed : Indexed 0 d.layers
  pub some_layer : 1 ≤ length d.layers
  pub few_layers : length d.layers ≤ max_layers
  pub few_macros : length d.macros ≤ max_macros
  pub unique : Unique (ids d.macros)
  pub refer : All (LayerRefers (length d.layers) (ids d.macros)) d.layers
