-- ===== src/Editor/Structure/Validity.antt =====
-- Each kind of edit makes a valid document from a valid one.
use qmk_web_app.Common.{
  ℕ, suc, ◌+◌, ◌≤◌, ◌<◌, ◌≡◌, ap, ◌∙◌, arith, String, false, Option, some, Option-cases, List, [],
  ◌∷◌, ◌++◌, length, length-append, All, All-filter, inl, inr, map,
}
use qmk_web_app.Domain.Limits.{max_layers, max_macros}
use qmk_web_app.Domain.Configuration.{Layer, Macro}
use qmk_web_app.Editor.State.{EditorDocument}
use qmk_web_app.Editor.Layers.{
  update_layer, remap, renumber, remap_binding, rebind, drop_macro, splice_macro, replace_macro,
  remaining_layers, without_layer,
}
use qmk_web_app.Editor.Structure.{Refers, LayerRefers, ids, has_id, ValidDocument}
use qmk_web_app.Editor.Structure.Edits.{
  length-update_layer, update_layer-Indexed, update_layer-All, append-Indexed, Refers-mono,
  All-append,
}
use qmk_web_app.Common.{All-imply}
use qmk_web_app.Editor.Structure.Removal.{
  remaining_layers_lem, length-others, renumber-Indexed, rebind-Indexed, length-without_layer,
}
use qmk_web_app.Editor.Structure.Macros.{
  ids-replace_macro, splice_macro-Spliced, All-filter_map_bindings, drop_macro-Refers,
  remap_binding-Refers, append-Unique, Refers-append, length-ids, All-map, length-map,
}

-- A write to a layer that keeps its index and the layers and macros that it may name.
pub update_layer-ValidDocument :
    (i : ℕ) (change : Layer → Layer) (d : EditorDocument)
    → ((l : Layer) → (change l).index ≡ l.index)
    → ((l : Layer)
        → LayerRefers (length d.layers) (ids d.macros) l
        → LayerRefers (length d.layers) (ids d.macros) (change l))
    → ValidDocument d
    → ValidDocument (record d { layers = update_layer i change d.layers })
update_layer-ValidDocument i change d keeps refers v =
    let same = length-update_layer i change d.layers in
    record {
      indexed = update_layer-Indexed i change keeps 0 d.layers v.indexed;
      some_layer = omega (arith, same, v.some_layer);
      few_layers = omega (arith, same, v.few_layers);
      few_macros = v.few_macros;
      unique = v.unique;
      refer = rw same (
          update_layer-All i change (LayerRefers (length d.layers) (ids d.macros)) refers d.layers
            v.refer);
    }

-- A layer with no bindings, behind the others.
pub append-ValidDocument :
    (l : Layer) (d : EditorDocument)
    → l.index ≡ length d.layers
    → l.bindings ≡ []
    → length d.layers < max_layers
    → ValidDocument d
    → ValidDocument (record d { layers = d.layers ++ l ∷ [] })
append-ValidDocument l d at empty room v =
    let more = length-append d.layers (l ∷ []) in
    let wider : length d.layers ≤ length (d.layers ++ l ∷ []) = omega (arith, more) in
    record {
      indexed = append-Indexed 0 d.layers l v.indexed (omega (arith, at));
      some_layer = omega (arith, more);
      few_layers = omega (arith, more);
      few_macros = v.few_macros;
      unique = v.unique;
      refer =
          All-append _ d.layers l
            (All-imply _ _
              (λ x h. All-imply _ _ (λ b r. Refers-mono _ _ (ids d.macros) b wider r) _ h) d.layers
              v.refer)
            (rw empty tt);
    }

remap_bound :
    (place : ℕ) (ls : List Layer) (j t : ℕ) → remap place ls j ≡ some t → t < place + length ls
unfolding remap
remap_bound place [] j t e = cc
remap_bound place (l ∷ ls) j t e = elim (Option-cases (remap (suc place) ls j)) [
  | inl none-later ↦ ground arith
  | inr (t', later) ↦ ground (arith, remap_bound (suc place) ls j t')
]

rebound :
    (places : ℕ → Option ℕ) (n n' : ℕ) (known : List String) (k : ℕ) (ls : List Layer)
    → ((j t : ℕ) → places j ≡ some t → t < n')
    → All (LayerRefers n known) ls
    → All (LayerRefers n' known) (map (rebind (remap_binding places)) (renumber k ls))
unfolding renumber
rebound places n n' known k [] bound h = tt
rebound places n n' known k (l ∷ ls) bound (r, h) = (
  All-filter_map_bindings (Refers n known) (Refers n' known) (remap_binding places)
      (remap_binding-Refers n n' known places bound) l.bindings r,
  rebound places n n' known (suc k) ls bound h,
)

-- A layer other than the base layer taken out, and the others closed up.
pub without_layer-ValidDocument :
    (i : ℕ) (d : EditorDocument)
    → 0 < i
    → i < length d.layers
    → ValidDocument d
    → ValidDocument (record d { layers = without_layer i d.layers })
without_layer-ValidDocument i d pos below v = record {
  indexed = unfold without_layer in rebind-Indexed _ 0 _ (renumber-Indexed 0 _);
  some_layer = omega (arith, count);
  few_layers = omega (arith, count, v.few_layers);
  few_macros = v.few_macros;
  unique = v.unique;
  refer =
      unfold without_layer in
      rebound (remap 0 (remaining_layers i d.layers)) (length d.layers)
        (length (without_layer i d.layers)) (ids d.macros) 0 (remaining_layers i d.layers)
        (λ j t e. omega (arith, remap_bound 0 (remaining_layers i d.layers) j t e, mapped))
        (rw (remaining_layers_lem i 0 d.layers v.indexed) (All-filter _ _ d.layers v.refer));
}
  where
    mapped : length (without_layer i d.layers) ≡ length (remaining_layers i d.layers)
    mapped = length-without_layer i d.layers

    count : suc (length (without_layer i d.layers)) ≡ length d.layers
    count =
        ap suc (mapped ∙ ap length (remaining_layers_lem i 0 d.layers v.indexed))
        ∙ length-others i 0 d.layers v.indexed (omega arith) (omega arith)

-- A macro with a new id, behind the others.
pub append_macro-ValidDocument :
    (m : Macro) (d : EditorDocument)
    → has_id m.id (ids d.macros) ≡ false
    → length d.macros < max_macros
    → ValidDocument d
    → ValidDocument (record d { macros = d.macros ++ m ∷ [] })
append_macro-ValidDocument m d fresh room v = record {
  indexed = v.indexed;
  some_layer = v.some_layer;
  few_layers = v.few_layers;
  few_macros = omega (arith, length-append d.macros (m ∷ []));
  unique = append-Unique m d.macros fresh v.unique;
  refer =
      All-imply _ _
        (λ l h. All-imply _ _ (λ b r. Refers-append (length d.layers) m d.macros b r) _ h) d.layers
        v.refer;
}

pub replace_macro-ValidDocument :
    (m : Macro) (d : EditorDocument) {macros : List Macro}
    → replace_macro m d.macros ≡ some macros
    → ValidDocument d
    → ValidDocument (record d { macros = macros })
replace_macro-ValidDocument m d {macros} e v =
    let same = ids-replace_macro m d.macros e in
    record {
      indexed = v.indexed;
      some_layer = v.some_layer;
      few_layers = v.few_layers;
      few_macros =
          omega (arith, ap length same, length-ids macros, length-ids d.macros, v.few_macros);
      unique = rw same v.unique;
      refer = rw same v.refer;
    }

-- A macro taken out, with the bindings that name it.
pub splice_macro-ValidDocument :
    (id : String) (d : EditorDocument) {macros : List Macro}
    → splice_macro id d.macros ≡ some macros
    → ValidDocument d
    → ValidDocument (record d { layers = map (rebind (drop_macro id)) d.layers; macros = macros })
splice_macro-ValidDocument id d {macros} e v =
    let s = splice_macro-Spliced id d.macros e in
    let same = length-map (rebind (drop_macro id)) d.layers in
    record {
      indexed = rebind-Indexed (drop_macro id) 0 d.layers v.indexed;
      some_layer = omega (arith, same, v.some_layer);
      few_layers = omega (arith, same, v.few_layers);
      few_macros = omega (arith, s.fewer, v.few_macros);
      unique = s.unique v.unique;
      refer = rw same (
          All-map _ _ (rebind (drop_macro id))
            (λ l h.
              All-filter_map_bindings _ _ (drop_macro id)
                (drop_macro-Refers (length d.layers) id d.macros macros s) l.bindings h)
            d.layers v.refer);
    }
