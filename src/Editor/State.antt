-- ===== src/Editor/State.antt =====
-- editor-state.ts: the state, the actions and the history of the editor.
use qmk_web_app.Common.{
  ℕ, ◌-◌, String, Bool, true, false, Option, none, some, List, [], ◌∷◌, ◌++◌, ltb, if◌then◌else◌,
  length, drop, find, ◌==◌,
}
use qmk_web_app.Domain.Configuration.{Binding, Layer, Macro, SocdConfiguration}

pub record EditorDocument : Type 0 where
  pub name : String
  pub layers : List Layer
  pub macros : List Macro
  pub socd : Option SocdConfiguration

-- `past` is oldest first.
pub record EditorState : Type 0 where
  pub document : EditorDocument
  pub active_layer_index : ℕ
  pub selected_position : Option ℕ
  pub past : List EditorDocument
  pub future : List EditorDocument
  pub saved_revision : ℕ
  pub dirty : Bool

-- `add_layer` takes what `newId()` returns.
pub data EditorAction : Type 0 where
  select_position : Option ℕ → EditorAction
  select_layer : (index : ℕ) → EditorAction
  set_binding : (layer_index position : ℕ) → Binding → EditorAction
  clear_binding : (layer_index position : ℕ) → EditorAction
  rename : String → EditorAction
  add_layer : (new_id : String) → EditorAction
  remove_layer : (index : ℕ) → EditorAction
  rename_layer : (index : ℕ) → String → EditorAction
  add_macro : Macro → EditorAction
  update_macro : Macro → EditorAction
  remove_macro : (macro_id : String) → EditorAction
  set_socd : Option SocdConfiguration → EditorAction
  replace_document : EditorDocument → EditorAction
  undo : EditorAction
  redo : EditorAction
  saved : (revision : ℕ) → EditorAction

abbrev pub max_history : ℕ
max_history = 100

unfoldable pub create_editor_state : EditorDocument → (saved_revision : ℕ) → EditorState
create_editor_state document saved_revision = record {
  document = document;
  active_layer_index = 0;
  selected_position = none;
  past = [];
  future = [];
  saved_revision = saved_revision;
  dirty = false;
}

-- The newest `max_history` documents.
unfoldable pub bounded : List EditorDocument → List EditorDocument
bounded past = if ltb max_history (length past) then drop (length past - max_history) past else past

unfoldable pub with_history : EditorState → EditorDocument → EditorState
with_history s next = record s {
  document = next;
  past = bounded (s.past ++ s.document ∷ []);
  future = [];
  dirty = true;
}

unfoldable pub layer_at : List Layer → ℕ → Option Layer
layer_at layers index = find (λ l. l.index == index) layers

-- `state.past.at(-1)` with `state.past.slice(0, -1)`.
unfoldable pub split_last : List EditorDocument → Option (List EditorDocument × EditorDocument)
split_last [] = none
split_last (d ∷ ds) = elim (split_last ds) [
  | none ↦ some ([], d)
  | some (front, last) ↦ some (d ∷ front, last)
]

unfoldable pub can_undo : EditorState → Bool
can_undo s = ltb 0 (length s.past)

unfoldable pub can_redo : EditorState → Bool
can_redo s = ltb 0 (length s.future)
