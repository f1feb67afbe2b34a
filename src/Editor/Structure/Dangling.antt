-- ===== src/Editor/Structure/Dangling.antt =====
-- The active layer after a layer is added and the addition is undone.
use qmk_web_app.Common.{ℕ, suc, ◌+◌, ◌≤◌, ◌<◌, ◌≡◌, arith, String, none, List, [], ◌∷◌, length}
use qmk_web_app.Domain.Limits.{max_layers}
use qmk_web_app.Domain.Configuration.{Layer}
use qmk_web_app.Editor.State.{EditorState, add_layer, undo, layer_at, with_history}
use qmk_web_app.Editor.Reducer.{editor_reducer, add_layer_to, undo_last}
use qmk_web_app.Editor.History.{split_last-bounded}
use qmk_web_app.Editor.Structure.{Indexed}

-- No layer stands behind the last one.
layer_at-beyond :
    (k i : ℕ) (ls : List Layer) → Indexed k ls → k + length ls ≤ i → layer_at ls i ≡ none
unfolding layer_at
layer_at-beyond k i [] v h = ground arith
layer_at-beyond k i (l ∷ ls) (e, v) h = ground (arith, layer_at-beyond (suc k) i ls v)

-- Where there is room for a layer, adding one and undoing the addition brings the document back
-- and leaves the active layer at the index of the layer that is gone, where no layer stands.
pub undo_add_layer :
    (s : EditorState) (id : String)
    → Indexed 0 s.document.layers
    → length s.document.layers < max_layers
    → let t = editor_reducer (editor_reducer s (add_layer id)) undo in
      (t.document ≡ s.document)
      × (t.active_layer_index ≡ length s.document.layers)
      × (layer_at t.document.layers t.active_layer_index ≡ none)
unfolding editor_reducer add_layer_to undo_last with_history
undo_add_layer s id v room =
    let (front, last) = split_last-bounded s.past s.document in
    let beyond = layer_at-beyond 0 (length s.document.layers) s.document.layers v (omega arith) in
    ground (arith, last, beyond)
