-- ===== src/Editor/Reducer.antt =====
-- editor-state.ts: `editorReducer`.
use qmk_web_app.Common.{
  ℕ, ◌-◌, ◌++◌, min, max, String, ◌===◌, true, false, Option, none, some, List, [], ◌∷◌, leb,
  if◌then◌else◌, length, ◌==◌, ◌||◌, map,
}
use qmk_web_app.Common.Dict.{get}
use qmk_web_app.Common.Decimal.{decimal}
use qmk_web_app.Domain.Limits.{max_layers, max_macros}
use qmk_web_app.Domain.Configuration.{Layer, Macro, SocdConfiguration}
use qmk_web_app.Editor.State.{
  EditorDocument, EditorState, EditorAction, select_position, select_layer, set_binding,
  clear_binding, rename, add_layer, remove_layer, rename_layer, add_macro, update_macro,
  remove_macro, set_socd, replace_document, undo, redo, saved, with_history, layer_at, split_last,
}
use qmk_web_app.Editor.Layers.{
  update_layer, bind, unbind, remaining_layers, without_layer, rebind, drop_macro, replace_macro,
  splice_macro, bind_directions,
}
use Prim.Native.String.{◌++◌ as append}

-- A change of the layers, as the next document.
abbrev pub with_layers : EditorState → List Layer → EditorState
with_layers s layers = with_history s (record s.document { layers = layers })

-- `layerAt` and the write, or the state itself where there is no such layer.
abbrev pub edit_layer : EditorState → ℕ → (Layer → Layer) → EditorState
edit_layer s index change = elim (layer_at s.document.layers index) [
  | none ↦ s
  | some l ↦ with_layers s (update_layer index change s.document.layers)
]

unfoldable pub clear_binding_at : EditorState → (layer_index position : ℕ) → EditorState
clear_binding_at s layer_index position = elim (layer_at s.document.layers layer_index) [
  | none ↦ s
  | some l ↦ elim (get (decimal position) l.bindings) [
    | none ↦ s
    | some b ↦ with_layers s (update_layer layer_index (unbind position) s.document.layers)
  ]
]

unfoldable pub rename_layer_at : EditorState → ℕ → String → EditorState
rename_layer_at s index name = elim (layer_at s.document.layers index) [
  | none ↦ s
  | some l ↦
      if l.name === name
      then s
      else with_layers s (update_layer index (λ x. record x { name = name }) s.document.layers)
]

unfoldable pub new_layer : String → ℕ → Layer
new_layer id index = record {
  id = id;
  index = index;
  name = append "Layer " (decimal index);
  bindings = [];
}

unfoldable pub add_layer_to : EditorState → String → EditorState
add_layer_to s new_id =
    let layers = s.document.layers in
    if leb max_layers (length layers)
    then s
    else record (with_layers s (layers ++ new_layer new_id (length layers) ∷ [])) {
      active_layer_index = length layers;
    }

-- Where every layer has the index that goes, the code's active index is -1 and this one 0; the layers
-- of a valid document have indices of their own.
unfoldable pub remove_layer_from : EditorState → ℕ → EditorState
remove_layer_from s index =
    let layers = s.document.layers in
    if index == 0 || leb (length layers) 1
    then s
    else if length (remaining_layers index layers) == length layers
    then s
    else record (with_layers s (without_layer index layers)) {
      active_layer_index = min s.active_layer_index (length (remaining_layers index layers) - 1);
    }

abbrev pub with_macros : EditorState → List Layer → List Macro → EditorState
with_macros s layers macros =
    with_history s (record s.document { layers = layers; macros = macros })

unfoldable pub remove_macro_from : EditorState → String → EditorState
remove_macro_from s id = elim (splice_macro id s.document.macros) [
  | none ↦ s
  | some macros ↦ with_macros s (map (rebind (drop_macro id)) s.document.layers) macros
]

-- Disabled SOCD leaves the bindings alone, and so does a document with no base layer.
unfoldable pub socd_layers : Option SocdConfiguration → List Layer → List Layer
socd_layers none layers = layers
socd_layers (some socd) layers =
    if socd.enabled then update_layer 0 (bind_directions socd) layers else layers

unfoldable pub undo_last : EditorState → EditorState
undo_last s = elim (split_last s.past) [
  | none ↦ s
  | some (front, previous) ↦ record s {
    document = previous;
    past = front;
    future = s.document ∷ s.future;
    dirty = true;
  }
]

unfoldable pub redo_next : EditorState → List EditorDocument → EditorState
redo_next s [] = s
redo_next s (next ∷ rest) = record s {
  document = next;
  past = s.past ++ s.document ∷ [];
  future = rest;
  dirty = true;
}

unfoldable pub editor_reducer : EditorState → EditorAction → EditorState
editor_reducer s (select_position position) = record s { selected_position = position }
editor_reducer s (select_layer index) = elim (layer_at s.document.layers index) [
  | none ↦ s
  | some l ↦ record s { active_layer_index = index }
]
editor_reducer s (set_binding layer_index position binding) =
    edit_layer s layer_index (bind position binding)
editor_reducer s (clear_binding layer_index position) = clear_binding_at s layer_index position
editor_reducer s (rename name) =
    if name === s.document.name then s else with_history s (record s.document { name = name })
editor_reducer s (rename_layer index name) = rename_layer_at s index name
editor_reducer s (add_layer new_id) = add_layer_to s new_id
editor_reducer s (remove_layer index) = remove_layer_from s index
editor_reducer s (add_macro m) =
    if leb max_macros (length s.document.macros)
    then s
    else with_macros s s.document.layers (s.document.macros ++ m ∷ [])
editor_reducer s (update_macro m) = elim (replace_macro m s.document.macros) [
  | none ↦ s
  | some macros ↦ with_macros s s.document.layers macros
]
editor_reducer s (remove_macro id) = remove_macro_from s id
editor_reducer s (set_socd socd) =
    with_history s (record s.document { socd = socd; layers = socd_layers socd s.document.layers })
editor_reducer s (replace_document next) = record (with_history s next) {
  active_layer_index = min s.active_layer_index (max (length next.layers - 1) 0);
}
editor_reducer s undo = undo_last s
editor_reducer s redo = redo_next s s.future
editor_reducer s (saved revision) = record s { saved_revision = revision; dirty = false }
