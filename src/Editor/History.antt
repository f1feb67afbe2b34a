-- ===== src/Editor/History.antt =====
-- Undo and redo.
use qmk_web_app.Common.{
  ℕ, zero, suc, ◌+◌, ◌-◌, ◌≤◌, ◌≡◌, ◌≢◌, refl, ap, ◌∙◌, arith, none, some, inl, inr, ◌⊎◌,
  Bool-cases, Option-cases, List, [], ◌∷◌, ◌++◌, length, length-append, length-drop, drop, ltb,
}
use qmk_web_app.Editor.State.{
  EditorDocument, EditorState, EditorAction, undo, redo, with_history, bounded, split_last,
  max_history,
}
use qmk_web_app.Editor.Reducer.{
  editor_reducer, clear_binding_at, rename_layer_at, add_layer_to, remove_layer_from,
  remove_macro_from, undo_last, redo_next,
}

-- What an action that is neither undo nor redo does to the history: nothing, with the document
-- unchanged, or it records the document that it replaces and drops what could be redone.
abbrev pub Records : EditorState → EditorState → Type 0
Records s t =
    ((t.document ≡ s.document) × (t.past ≡ s.past) × (t.future ≡ s.future))
    ⊎ ((t.past ≡ bounded (s.past ++ s.document ∷ [])) × (t.future ≡ []))

abbrev IsEdit : EditorAction → Type 0
IsEdit undo = ⊥
IsEdit redo = ⊥
IsEdit _ = Unit

pub edit-Records : (s : EditorState) (a : EditorAction) → IsEdit a → Records s (editor_reducer s a)
unfolding editor_reducer clear_binding_at rename_layer_at add_layer_to remove_layer_from
    remove_macro_from with_history
edit-Records s undo h = absurd h
edit-Records s redo h = absurd h
edit-Records s _ h = ground arith

split_last-append :
    (ds : List EditorDocument) (d : EditorDocument) → split_last (ds ++ d ∷ []) ≡ some (ds, d)
unfolding split_last
split_last-append [] d = refl
split_last-append (c ∷ ds) d = rw (split_last-append ds d)

drop-append :
    (n : ℕ) (ds : List EditorDocument) (d : EditorDocument)
    → n ≤ length ds
    → drop n (ds ++ d ∷ []) ≡ drop n ds ++ d ∷ []
drop-append zero ds d h = refl
drop-append (suc n) [] d h = absurd (omega arith)
drop-append (suc n) (c ∷ ds) d h = drop-append n ds d (omega arith)

-- The document recorded last is still there when old ones are let go.
pub split_last-bounded :
    (ds : List EditorDocument) (d : EditorDocument)
    → (front : List EditorDocument) × (split_last (bounded (ds ++ d ∷ [])) ≡ some (front, d))
unfolding bounded
split_last-bounded ds d = elim (Bool-cases (ltb max_history (length (ds ++ d ∷ [])))) [
  | inl long ↦
      let n = length (ds ++ d ∷ []) - max_history in
      let fits : n ≤ length ds = omega (arith, length-append ds (d ∷ [])) in
      (drop n ds, rw (long, drop-append n ds d fits) (split_last-append (drop n ds) d))
  | inr short ↦ (ds, rw short (split_last-append ds d))
]

split_last-none : (ds : List EditorDocument) → split_last ds ≡ none → ds ≡ []
unfolding split_last
split_last-none [] e = refl
split_last-none (c ∷ ds) e = elim (Option-cases (split_last ds)) [
  | inl e' ↦ absurd (ground arith)
  | inr ((fs, l), e') ↦ absurd (ground arith)
]

pub split_last-some :
    (ds : List EditorDocument) {front : List EditorDocument} {d : EditorDocument}
    → split_last ds ≡ some (front, d)
    → front ++ d ∷ [] ≡ ds
unfolding split_last
split_last-some [] e = cc
split_last-some (c ∷ ds) {front} {d} e = elim (Option-cases (split_last ds)) [
  | inl e' ↦ ground (arith, split_last-none ds e')
  | inr ((fs, l), e') ↦ ground (arith, split_last-some ds {front = fs} {d = l} e')
]

-- An action that is neither undo nor redo leaves document and history as they were, or one undo
-- brings the document back and a redo after it brings the edit back.
pub undo_edit :
    (s : EditorState) (a : EditorAction)
    → IsEdit a
    → let t = editor_reducer s a in
      let u = editor_reducer t undo in
      ((t.document ≡ s.document) × (t.past ≡ s.past) × (t.future ≡ s.future))
      ⊎ ((u.document ≡ s.document)
          × ((editor_reducer u redo).document ≡ t.document)
          × ((editor_reducer u redo).past ≡ t.past)
          × ((editor_reducer u redo).future ≡ []))
unfolding editor_reducer undo_last redo_next
undo_edit s a h = elim (edit-Records s a h) [
  | inl kept ↦ inl kept
  | inr (past, future) ↦ inr (undone (editor_reducer s a) past future)
]
  where
    undone :
        (t : EditorState)
        → t.past ≡ bounded (s.past ++ s.document ∷ [])
        → t.future ≡ []
        → let u = editor_reducer t undo in
          (u.document ≡ s.document)
          × ((editor_reducer u redo).document ≡ t.document)
          × ((editor_reducer u redo).past ≡ t.past)
          × ((editor_reducer u redo).future ≡ [])
    undone t past future =
        let (front, last) = split_last-bounded s.past s.document in
        let e : split_last t.past ≡ some (front, s.document) = ap split_last past ∙ last in
        rw (e, undo_last) (refl, refl, split_last-some t.past e, future)

-- While there is something to undo, undo and then redo change neither document nor history.
pub redo_undo :
    (s : EditorState)
    → s.past ≢ []
    → let t = editor_reducer (editor_reducer s undo) redo in
      (t.document ≡ s.document) × (t.past ≡ s.past) × (t.future ≡ s.future)
unfolding editor_reducer undo_last redo_next
redo_undo s h = elim (Option-cases (split_last s.past)) [
  | inl e ↦ absurd (h (split_last-none s.past e))
  | inr ((front, d), e) ↦ rw (e, undo_last) (refl, split_last-some s.past e, refl)
]

-- While there is something to redo, redo and then undo change neither document nor history.
pub undo_redo :
    (s : EditorState)
    → s.future ≢ []
    → let t = editor_reducer (editor_reducer s redo) undo in
      (t.document ≡ s.document) × (t.past ≡ s.past) × (t.future ≡ s.future)
unfolding editor_reducer undo_last redo_next
undo_redo s h = ground (arith, split_last-append s.past s.document)

length-bounded : (ds : List EditorDocument) → length (bounded ds) ≤ max_history
unfolding bounded
length-bounded ds = ground (arith, length-drop (length ds - max_history) ds)

edit_bounded :
    (s : EditorState) (a : EditorAction)
    → IsEdit a
    → length s.past + length s.future ≤ max_history
    → length (editor_reducer s a).past + length (editor_reducer s a).future ≤ max_history
edit_bounded s a e h = elim (edit-Records s a e) [
  | inl (_, past, future) ↦ omega (arith, ap length past, ap length future)
  | inr (past, future) ↦
      omega (arith, ap length past, ap length future, length-bounded (s.past ++ s.document ∷ []))
]

undo_bounded :
    (s : EditorState)
    → length s.past + length s.future ≤ max_history
    → length (undo_last s).past + length (undo_last s).future ≤ max_history
unfolding undo_last
undo_bounded s h = elim (Option-cases (split_last s.past)) [
  | inl e ↦ rw (e, undo_last) h
  | inr ((front, d), e) ↦
      rw (e, undo_last)
        (omega (arith, ap length (split_last-some s.past e), length-append front (d ∷ [])))
]

-- If the snapshots that are kept, past and future together, are at most 100, no action makes them
-- more.
pub history_bounded :
    (s : EditorState) (a : EditorAction)
    → length s.past + length s.future ≤ max_history
    → length (editor_reducer s a).past + length (editor_reducer s a).future ≤ max_history
history_bounded s undo h = unfold editor_reducer in undo_bounded s h
history_bounded s redo h =
    unfold editor_reducer redo_next in ground (arith, length-append s.past (s.document ∷ []))
history_bounded s a h = edit_bounded s a tt h
