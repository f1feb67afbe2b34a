-- ===== src/Editor/Structure/Preserved.antt =====
-- Every action keeps every document of the editor valid.
use qmk_web_app.Common.{
  ◌≡◌, refl, sym, arith, ◌===◌, false, Option, none, some, Option-cases, List, [], ◌∷◌, length, All,
  Bool-cases, inl, inr, ◌⊎◌, subst, leb,
}
use qmk_web_app.Domain.Limits.{max_macros}
use qmk_web_app.Domain.Configuration.{Layer, SocdConfiguration}
use qmk_web_app.Editor.State.{
  EditorDocument, EditorState, EditorAction, select_position, select_layer, set_binding,
  clear_binding, rename, add_layer, remove_layer, rename_layer, add_macro, update_macro,
  remove_macro, set_socd, replace_document, undo, redo, saved, split_last, layer_at,
}
use qmk_web_app.Editor.Layers.{update_layer, bind, bind_directions, replace_macro}
use qmk_web_app.Editor.Reducer.{editor_reducer, socd_layers, undo_last, redo_next}
use qmk_web_app.Editor.History.{split_last-some}
use qmk_web_app.Editor.Structure.{Refers, ids, has_id, ValidDocument}
use qmk_web_app.Editor.Structure.Edits.{bind-LayerRefers, bind_directions-LayerRefers, All-append}
use qmk_web_app.Editor.Structure.Validity.{
  update_layer-ValidDocument, append_macro-ValidDocument, replace_macro-ValidDocument,
}
use qmk_web_app.Editor.Structure.Actions.{
  ValidState, All-unappend, activated, add_layer_to-ValidState, clear_binding_at-ValidState,
  edit_layer-ValidState, edited, remove_layer_from-ValidState, remove_macro_from-ValidState,
  rename_layer_at-ValidState, renamed, same_layers,
}

-- What an action brings from outside fits the document: a new binding names a layer and a macro
-- that are there, a new macro has a new id, and a whole document is valid.
abbrev pub IsSound : EditorState → EditorAction → Type 0
IsSound s (set_binding i p b) = Refers (length s.document.layers) (ids s.document.macros) b
IsSound s (add_macro m) = has_id m.id (ids s.document.macros) ≡ false
IsSound s (replace_document d) = ValidDocument d
IsSound s _ = Unit {0}

undo_last-ValidState : (s : EditorState) → ValidState s → ValidState (undo_last s)
unfolding undo_last
undo_last-ValidState s h = elim (Option-cases (split_last s.past)) [
  | inl e ↦ rw (e, undo_last) h
  | inr ((front, d), e) ↦
      let both =
        All-unappend ValidDocument front d
          (subst (All ValidDocument) (sym (split_last-some s.past e)) h.past) in
      rw (e, undo_last) record { current = both.1; past = both.0; future = (h.current, h.future) }
]

redo_next-ValidState :
    (s : EditorState) (ds : List EditorDocument)
    → All ValidDocument ds
    → ValidState s
    → ValidState (redo_next s ds)
unfolding redo_next
redo_next-ValidState s [] f h = h
redo_next-ValidState s (d ∷ ds) (v, f) h = record {
  current = v;
  past = All-append ValidDocument s.past s.document h.past h.current;
  future = f;
}

socd_layers-on :
    (socd : SocdConfiguration) (ls : List Layer)
    → (socd_layers (some socd) ls ≡ ls)
      ⊎ (socd_layers (some socd) ls ≡ update_layer 0 (bind_directions socd) ls)
unfolding socd_layers
socd_layers-on socd ls = ground arith

socd_layers-ValidDocument :
    (d : EditorDocument) (socd : Option SocdConfiguration)
    → ValidDocument d
    → ValidDocument (record d { socd = socd; layers = socd_layers socd d.layers })
unfolding socd_layers bind_directions
socd_layers-ValidDocument d none v = same_layers d none v
socd_layers-ValidDocument d (some socd) v = elim (socd_layers-on socd d.layers) [
  | inl off ↦
      subst (λ ls. ValidDocument (record d { socd = some socd; layers = ls })) (sym off)
        (same_layers d (some socd) v)
  | inr on ↦
      subst (λ ls. ValidDocument (record d { socd = some socd; layers = ls })) (sym on)
        (same_layers _ (some socd) (
          update_layer-ValidDocument 0 (bind_directions socd) d (λ l. refl)
            (bind_directions-LayerRefers _ _ socd) v))
]

-- Each action keeps the document of the editor valid, and every document that undo and redo can
-- bring back, if what the action brings from outside fits the document.
pub editor_reducer-ValidState :
    (s : EditorState) (a : EditorAction)
    → ValidState s
    → IsSound s a
    → ValidState (editor_reducer s a)
unfolding editor_reducer
editor_reducer-ValidState s (select_position p) h fits = record {
  current = h.current;
  past = h.past;
  future = h.future;
}
editor_reducer-ValidState s (select_layer i) h fits =
    elim (Option-cases (layer_at s.document.layers i)) [
      | inl e ↦ rw (e, editor_reducer) h
      | inr (l, e) ↦ rw (e, editor_reducer) (activated s i h)
    ]
editor_reducer-ValidState s (set_binding i p b) h fits =
    edit_layer-ValidState s i (bind p b) (λ l. refl) (bind-LayerRefers _ _ p b fits) h
editor_reducer-ValidState s (clear_binding i p) h fits = clear_binding_at-ValidState s i p h
editor_reducer-ValidState s (rename name) h fits = elim (Bool-cases (name === s.document.name)) [
  | inl same ↦ rw same h
  | inr differs ↦ rw differs (edited s _ (renamed s.document name h.current) h)
]
editor_reducer-ValidState s (rename_layer i name) h fits = rename_layer_at-ValidState s i name h
editor_reducer-ValidState s (add_layer id) h fits = add_layer_to-ValidState s id h
editor_reducer-ValidState s (remove_layer i) h fits = remove_layer_from-ValidState s i h
editor_reducer-ValidState s (add_macro m) h fits =
    elim (Bool-cases (leb max_macros (length s.document.macros))) [
      | inl full ↦ rw full h
      | inr room ↦
          rw room
            (edited s _ (append_macro-ValidDocument m s.document fits (ground arith) h.current) h)
    ]
editor_reducer-ValidState s (update_macro m) h fits =
    elim (Option-cases (replace_macro m s.document.macros)) [
      | inl e ↦ rw (e, editor_reducer) h
      | inr (ms, e) ↦
          rw (e, editor_reducer)
            (edited s _ (replace_macro-ValidDocument m s.document e h.current) h)
    ]
editor_reducer-ValidState s (remove_macro id) h fits = remove_macro_from-ValidState s id h
editor_reducer-ValidState s (set_socd socd) h fits =
    edited s _ (socd_layers-ValidDocument s.document socd h.current) h
editor_reducer-ValidState s (replace_document d) h fits = activated _ _ (edited s d fits h)
editor_reducer-ValidState s undo h fits = undo_last-ValidState s h
editor_reducer-ValidState s redo h fits = redo_next-ValidState s s.future h.future h
editor_reducer-ValidState s (saved r) h fits = record {
  current = h.current;
  past = h.past;
  future = h.future;
}
