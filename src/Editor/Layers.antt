-- ===== src/Editor/Layers.antt =====
-- editor-state.ts: the changes of a document's layers and bindings.
use qmk_web_app.Common.{
  ℕ, suc, String, ◌===◌, Bool, false, not, Option, none, some, List, [], ◌∷◌, ltb, if◌then◌else◌,
  filter, ◌==◌, map,
}
use qmk_web_app.Common.Dict.{Dict, put, delete}
use qmk_web_app.Common.Sort.{sort}
use qmk_web_app.Common.Decimal.{decimal}
use qmk_web_app.Domain.Configuration.{
  target, Binding, keycode, layer_momentary, layer_toggle, layer_tap, macro, Layer, Macro,
  SocdConfiguration,
}

-- A write through the reference that `layerAt` returns: to the first layer of this index.
unfoldable pub update_layer : ℕ → (Layer → Layer) → List Layer → List Layer
update_layer index change [] = []
update_layer index change (l ∷ ls) =
    if l.index == index then change l ∷ ls else l ∷ update_layer index change ls

abbrev pub bind : (position : ℕ) → Binding → Layer → Layer
bind position binding l = record l { bindings = put (decimal position) binding l.bindings }

abbrev pub unbind : (position : ℕ) → Layer → Layer
unbind position l = record l { bindings = delete (decimal position) l.bindings }

-- `remap.get(index)` once every layer has been set: the place of the layer with this index.
unfoldable pub remap : (place : ℕ) → List Layer → ℕ → Option ℕ
remap place [] index = none
remap place (l ∷ ls) index = elim (remap (suc place) ls index) [
  | some p ↦ some p
  | none ↦ if l.index == index then some place else none
]

-- `layer.index = position`, for each layer in turn.
unfoldable pub renumber : (place : ℕ) → List Layer → List Layer
renumber place [] = []
renumber place (l ∷ ls) = record l { index = place } ∷ renumber (suc place) ls

-- `{ ...binding, layer: target }`
unfoldable pub retarget : ℕ → Binding → Binding
retarget t (layer_momentary l) = layer_momentary t
retarget t (layer_toggle l) = layer_toggle t
retarget t (layer_tap l k) = layer_tap t k
retarget t b = b

-- The binding with its layer renumbered, or `none` where that layer is gone.
unfoldable pub remap_binding : (ℕ → Option ℕ) → Binding → Option Binding
remap_binding places b = elim (target b) [
  | none ↦ some b
  | some l ↦ elim (places l) [ none ↦ none | some t ↦ some (retarget t b) ]
]

-- An entry that is replaced, or dropped.
abbrev pub keep_entry : String → Option Binding → Dict Binding → Dict Binding
keep_entry k none m = m
keep_entry k (some b) m = (k, b) ∷ m

-- The loop over a layer's entries.
unfoldable pub filter_map_bindings : (Binding → Option Binding) → Dict Binding → Dict Binding
filter_map_bindings f [] = []
filter_map_bindings f ((k, b) ∷ m) = keep_entry k (f b) (filter_map_bindings f m)

abbrev pub rebind : (Binding → Option Binding) → Layer → Layer
rebind f l = record l { bindings = filter_map_bindings f l.bindings }

abbrev pub by_index : Layer → Layer → Bool
by_index a b = ltb a.index b.index

-- The layers that stay, in the order of their indices.
unfoldable pub remaining_layers : ℕ → List Layer → List Layer
remaining_layers index layers = sort by_index (filter (λ l. not (l.index == index)) layers)

unfoldable pub without_layer : ℕ → List Layer → List Layer
without_layer index layers =
    let remaining = remaining_layers index layers in
    map (rebind (remap_binding (remap 0 remaining))) (renumber 0 remaining)

abbrev pub is_macro : String → Binding → Bool
is_macro id (macro m) = m === id
is_macro id _ = false

-- `none` for a binding of the macro that is removed.
unfoldable pub drop_macro : String → Binding → Option Binding
drop_macro id b = if is_macro id b then none else some b

-- `findIndex` by the id, with the write or the `splice` at that index.
unfoldable pub replace_macro : Macro → List Macro → Option (List Macro)
replace_macro m [] = none
replace_macro m (n ∷ ns) =
    let rest = replace_macro m ns in
    if n.id === m.id then some (m ∷ ns) else elim rest [ none ↦ none | some ns' ↦ some (n ∷ ns') ]

unfoldable pub splice_macro : String → List Macro → Option (List Macro)
splice_macro id [] = none
splice_macro id (n ∷ ns) =
    let rest = splice_macro id ns in
    if n.id === id then some ns else elim rest [ none ↦ none | some ns' ↦ some (n ∷ ns') ]

-- The bindings that SOCD needs on the base layer, in the order of `Object.entries`.
unfoldable pub bind_directions : SocdConfiguration → Layer → Layer
bind_directions socd l =
    let keys = socd.directional_keys in
    let codes = socd.directional_keycodes in
    bind keys.right (keycode codes.right) (
      bind keys.left (keycode codes.left)
        (bind keys.down (keycode codes.down) (bind keys.up (keycode codes.up) l)))
