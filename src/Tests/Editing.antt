-- ===== src/Tests/Editing.antt =====
-- The editor on a document with three layers.
use qmk_web_app.Common.{
  ℕ, ◌-◌, ◌+◌, ◌≤◌, ◌≡◌, ◌⊎◌, refl, arith, min, String, String-discrete, false, none, List, [], ◌∷◌,
  length,
}
use qmk_web_app.Common.Dict.{has}
use qmk_web_app.Common.Sort.{sort, insert}
use qmk_web_app.Domain.Configuration.{
  Binding, layer_momentary, layer_toggle, macro, tap, Layer, Macro,
}
use qmk_web_app.Editor.State.{
  EditorDocument, EditorState, set_binding, add_layer, remove_layer, remove_macro, undo, redo,
  create_editor_state, with_history, layer_at, max_history,
}
use qmk_web_app.Editor.Layers.{
  remaining_layers, without_layer, remap, renumber, remap_binding, retarget, filter_map_bindings,
}
use qmk_web_app.Domain.Configuration.{target}
use qmk_web_app.Editor.Reducer.{editor_reducer, remove_layer_from}
use qmk_web_app.Editor.Structure.{ValidDocument}
use qmk_web_app.Editor.Structure.Actions.{ValidState}
use qmk_web_app.Editor.Structure.Preserved.{editor_reducer-ValidState}
use qmk_web_app.Editor.Structure.Removed.{layers_after, remove_layer_lem}
use qmk_web_app.Editor.Structure.Dangling.{undo_add_layer}
use qmk_web_app.Editor.History.{undo_edit, redo_undo, undo_redo, history_bounded}

abbrev pub layer : (id : String) (index : ℕ) → List (String × Binding) → Layer
layer id index bindings = record { id = id; index = index; name = id; bindings = bindings }

abbrev pub greeting : Macro
greeting = record { id = "m1"; name = "hello"; steps = tap "KC_H" ∷ [] }

-- The base layer reaches both other layers and a macro.
abbrev pub document : EditorDocument
document = record {
  name = "board";
  layers =
      layer "base" 0 (("0", layer_momentary 1) ∷ ("1", layer_toggle 2) ∷ ("2", macro "m1") ∷ [])
      ∷ layer "low" 1 []
      ∷ layer "high" 2 (("0", layer_toggle 2) ∷ [])
      ∷ [];
  macros = greeting ∷ [];
  socd = none;
}

abbrev fresh : EditorState
fresh = record {
  document = document;
  active_layer_index = 0;
  selected_position = none;
  past = [];
  future = [];
  saved_revision = 1;
  dirty = false;
}

create_fresh : create_editor_state document 1 ≡ fresh
unfolding create_editor_state
create_fresh = refl

pub document_ValidDocument : ValidDocument document
unfolding has String-discrete
document_ValidDocument = record {
  indexed = (refl, (refl, (refl, tt)));
  some_layer = omega arith;
  few_layers = omega arith;
  few_macros = omega arith;
  unique = (refl, tt);
  refer = ((omega arith, (omega arith, (refl, tt))), (tt, ((omega arith, tt), tt)));
}

-- Without layer 1, what toggled layer 2 toggles layer 1, and what reached layer 1 is unassigned.
remove_low :
    (editor_reducer fresh (remove_layer 1)).document.layers
    ≡ layer "base" 0 (("1", layer_toggle 1) ∷ ("2", macro "m1") ∷ [])
      ∷ layer "high" 1 (("0", layer_toggle 1) ∷ [])
      ∷ []
unfolding editor_reducer remove_layer_from remaining_layers without_layer remap renumber
    remap_binding target retarget filter_map_bindings sort insert with_history
remove_low = refl

fresh_ValidState : ValidState fresh
fresh_ValidState = record { current = document_ValidDocument; past = tt; future = tt }

editor_reducer-ValidState_example :
    ValidState (editor_reducer fresh (set_binding 0 3 (layer_toggle 2)))
editor_reducer-ValidState_example =
    editor_reducer-ValidState fresh (set_binding 0 3 (layer_toggle 2)) fresh_ValidState
      (omega arith)

remove_layer_lem_example :
    editor_reducer fresh (remove_layer 1)
    ≡ (record (with_history fresh (record fresh.document {
      layers = layers_after (length fresh.document.layers) 1 0 fresh.document.layers;
    })) { active_layer_index = min fresh.active_layer_index (length fresh.document.layers - 2) })
remove_layer_lem_example =
    remove_layer_lem fresh 1 ((refl, (refl, (refl, tt)))) (omega arith) (omega arith)

undo_edit_example :
    let t = editor_reducer fresh (remove_macro "m1") in
    let u = editor_reducer t undo in
    ((t.document ≡ fresh.document) × (t.past ≡ fresh.past) × (t.future ≡ fresh.future))
    ⊎ ((u.document ≡ fresh.document)
        × ((editor_reducer u redo).document ≡ t.document)
        × ((editor_reducer u redo).past ≡ t.past)
        × ((editor_reducer u redo).future ≡ []))
undo_edit_example = undo_edit fresh (remove_macro "m1") tt

abbrev edited : EditorState
edited = record fresh {
  document = record document { name = "other" };
  past = document ∷ [];
  future = record document { name = "third" } ∷ [];
}

redo_undo_example :
    let t = editor_reducer (editor_reducer edited undo) redo in
    (t.document ≡ edited.document) × (t.past ≡ edited.past) × (t.future ≡ edited.future)
redo_undo_example = redo_undo edited (λ e. cc)

undo_redo_example :
    let t = editor_reducer (editor_reducer edited redo) undo in
    (t.document ≡ edited.document) × (t.past ≡ edited.past) × (t.future ≡ edited.future)
undo_redo_example = undo_redo edited (λ e. cc)

history_bounded_example :
    let t = editor_reducer edited (add_layer "l4") in length t.past + length t.future ≤ max_history
history_bounded_example = history_bounded edited (add_layer "l4") (omega arith)

undo_add_layer_example :
    let t = editor_reducer (editor_reducer fresh (add_layer "l4")) undo in
    (t.document ≡ fresh.document)
    × (t.active_layer_index ≡ length fresh.document.layers)
    × (layer_at t.document.layers t.active_layer_index ≡ none)
undo_add_layer_example = undo_add_layer fresh "l4" ((refl, (refl, (refl, tt)))) (omega arith)
