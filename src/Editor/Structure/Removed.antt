-- ===== src/Editor/Structure/Removed.antt =====
-- What removing a layer makes of the layers and of the bindings that name layers.
use qmk_web_app.Common.{
  true, false, ℕ, suc, String, Option, none, some, if◌then◌else◌, ltb, ◌==◌, ◌&&◌, [], ◌∷◌,
  Bool-cases, inl, inr, ap, ◌∙◌, ◌-◌, ◌<◌, ◌≡◌, refl, arith, min, List, length, map,
}
use std.Path.{fun_ext}
use qmk_web_app.Domain.Configuration.{
  Layer, Binding, keycode, transparent, no_op, layer_momentary, layer_toggle, layer_tap, mod_tap,
  macro, target,
}
use qmk_web_app.Common.Dict.{Dict}
use qmk_web_app.Editor.State.{EditorState, remove_layer, with_history}
use qmk_web_app.Editor.Layers.{
  remap, renumber, retarget, filter_map_bindings, keep_entry, remap_binding, rebind,
  remaining_layers, without_layer,
}
use qmk_web_app.Editor.Reducer.{editor_reducer, remove_layer_from}
use qmk_web_app.Editor.Structure.{Indexed}
use qmk_web_app.Editor.Structure.Removal.{
  others, closed_up, remap_remaining, remaining_layers_lem, length-others,
}

-- Where a layer goes when layer `i` of `n` is taken out: it keeps its place below `i`, moves down by
-- one above it, and is gone if it is `i` or no layer at all.
abbrev pub place_after : (n i layer : ℕ) → Option ℕ
place_after n i l = if ltb l i then some l else if ltb i l && ltb l n then some (l - 1) else none

abbrev pub moved_to : (ℕ → Binding) → Option ℕ → Option Binding
moved_to name none = none
moved_to name (some l) = some (name l)

-- What a binding is when layer `i` of `n` has been taken out.
abbrev pub binding_after : (n i : ℕ) → Binding → Option Binding
binding_after n i (layer_momentary l) = moved_to layer_momentary (place_after n i l)
binding_after n i (layer_toggle l) = moved_to layer_toggle (place_after n i l)
binding_after n i (layer_tap l k) = moved_to (λ l'. layer_tap l' k) (place_after n i l)
binding_after n i b = some b

abbrev pub entry_after : String → Option Binding → Dict Binding → Dict Binding
entry_after k none m = m
entry_after k (some b) m = (k, b) ∷ m

abbrev pub bindings_after : (n i : ℕ) → Dict Binding → Dict Binding
bindings_after n i [] = []
bindings_after n i ((k, b) ∷ m) = entry_after k (binding_after n i b) (bindings_after n i m)

-- The layers of `n` without layer `i`, from the one at place `k` on.
abbrev pub layers_after : (n i k : ℕ) → List Layer → List Layer
layers_after n i k [] = []
layers_after n i k (l ∷ ls) =
    if k == i
    then layers_after n i (suc k) ls
    else record l { index = if ltb k i then k else k - 1; bindings = bindings_after n i l.bindings }
      ∷ layers_after n i (suc k) ls

closed_layers : ℕ → List Layer → List Layer
closed_layers i layers =
    map (rebind (remap_binding (closed_up (length layers) i))) (renumber 0 (others i layers))

without_layer-closed :
    (i : ℕ) (layers : List Layer)
    → Indexed 0 layers
    → i < length layers
    → without_layer i layers ≡ closed_layers i layers
unfolding without_layer closed_layers
without_layer-closed i layers v below =
    let placed : remap 0 (remaining_layers i layers) ≡ closed_up (length layers) i =
      fun_ext λ j. remap_remaining i j layers v in
    rw (placed, remaining_layers_lem i 0 layers v) refl

places : (n i l : ℕ) → i < n → closed_up n i l ≡ place_after n i l
places n i l below = ground arith

bindings-after :
    (n i : ℕ) (b : Binding) → i < n → remap_binding (closed_up n i) b ≡ binding_after n i b
unfolding remap_binding target retarget
bindings-after n i (layer_momentary l) h = ap (moved_to layer_momentary) (places n i l h)
bindings-after n i (layer_toggle l) h = ap (moved_to layer_toggle) (places n i l h)
bindings-after n i (layer_tap l k) h = ap (moved_to (λ l'. layer_tap l' k)) (places n i l h)
bindings-after n i (keycode k) h = refl
bindings-after n i transparent h = refl
bindings-after n i no_op h = refl
bindings-after n i (mod_tap hold k) h = refl
bindings-after n i (macro m) h = refl

entry-after :
    (k : String) (o : Option Binding) (m : Dict Binding) → keep_entry k o m ≡ entry_after k o m
entry-after k none m = refl
entry-after k (some b) m = refl

entries-after :
    (n i : ℕ) (m : Dict Binding)
    → i < n
    → filter_map_bindings (remap_binding (closed_up n i)) m ≡ bindings_after n i m
unfolding filter_map_bindings
entries-after n i [] h = refl
entries-after n i ((k, b) ∷ m) h =
    rw (bindings-after n i b h, entries-after n i m h) (entry-after k (binding_after n i b) _)

layers-after :
    (n i place k : ℕ) (ls : List Layer)
    → i < n
    → Indexed k ls
    → place ≡ (if ltb i k then k - 1 else k)
    → map (rebind (remap_binding (closed_up n i))) (renumber place (others i ls))
      ≡ layers_after n i k ls
unfolding renumber
layers-after n i place k [] h v e = refl
layers-after n i place k (l ∷ ls) h (at, v) e = elim (Bool-cases (k == i)) [
  | inl hit ↦
      let dropped : (l.index == i) ≡ true = ground arith in
      rw (hit, dropped) (layers-after n i place (suc k) ls h v (ground arith))
  | inr miss ↦
      let stays : (l.index == i) ≡ false = ground arith in
      let there : place ≡ (if ltb k i then k else k - 1) = ground arith in
      let rest = layers-after n i (suc place) (suc k) ls h v (ground arith) in
      rw (miss, stays)
        (λ j. record l { index = there j; bindings = entries-after n i l.bindings h j } ∷ rest j)
]

pub without_layer_lem :
    (i : ℕ) (layers : List Layer)
    → Indexed 0 layers
    → i < length layers
    → without_layer i layers ≡ layers_after (length layers) i 0 layers
unfolding closed_layers
without_layer_lem i layers v below =
    without_layer-closed i layers v below
    ∙ layers-after (length layers) i 0 0 layers below v (ground arith)

-- On layers indexed from 0, removing a layer that is there and is not the base layer leaves the other
-- layers in their order, each at its place below the removed one or one lower above it. A binding
-- that names a layer names it at its new place, and is gone if it named the removed layer or none; all
-- other bindings stay. The active layer is kept below the number of layers, and nothing else of the
-- document changes.
pub remove_layer_lem :
    (s : EditorState) (i : ℕ)
    → Indexed 0 s.document.layers
    → 0 < i
    → i < length s.document.layers
    → editor_reducer s (remove_layer i)
      ≡ (record (with_history s (record s.document {
        layers = layers_after (length s.document.layers) i 0 s.document.layers;
      })) { active_layer_index = min s.active_layer_index (length s.document.layers - 2) })
unfolding editor_reducer remove_layer_from
remove_layer_lem s i v pos below =
    let layers = s.document.layers in
    let fewer = length-others i 0 layers v (omega arith) (omega arith) in
    let kept = remaining_layers_lem i 0 layers v in
    rw (without_layer_lem i layers v below, kept) (ground (arith, fewer))
