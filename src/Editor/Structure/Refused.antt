-- ===== src/Editor/Structure/Refused.antt =====
-- What the server's rules on references refuse.
use qmk_web_app.Common.{
  append-nil, ℕ, suc, ◌≡◌, arith, String, List, [], ◌∷◌, ◌++◌, length, All, if◌then◌else◌, ◌==◌,
}
use qmk_web_app.Common.Dict.{Dict, values, has}
use qmk_web_app.Domain.Configuration.{
  Binding, keycode, transparent, no_op, layer_momentary, layer_toggle, layer_tap, mod_tap, macro,
  Layer, Macro, target,
}
use qmk_web_app.Domain.Schema.{
  macro_ids_repeat, set_of, index_issues, layer_issue, macro_issue, binding_issues, layers_issues,
  configuration_issues,
}
use qmk_web_app.Editor.Structure.{Refers, LayerRefers, ids}
use qmk_web_app.Editor.Structure.Accepted.{has-set_of}

module _ (n : ℕ) (known : List String) where
  named-Refers :
      (li : ℕ) (p : String) (b : Binding)
      → layer_issue n li p b ≡ []
      → macro_issue (set_of [] known) li p b ≡ []
      → Refers n known b
  unfolding layer_issue macro_issue target has
  named-Refers li p (layer_momentary l) e e' = ground arith
  named-Refers li p (layer_toggle l) e e' = ground arith
  named-Refers li p (layer_tap l k) e e' = ground arith
  named-Refers li p (macro id) e e' = ground (arith, has-set_of id [] known)
  named-Refers li p (keycode k) e e' = tt
  named-Refers li p transparent e e' = tt
  named-Refers li p no_op e e' = tt
  named-Refers li p (mod_tap a b) e e' = tt

  binding_issues-Refers :
      (li : ℕ) (m : Dict Binding)
      → binding_issues n (set_of [] known) li m ≡ []
      → All (Refers n known) (values m)
  unfolding binding_issues
  binding_issues-Refers li [] e = tt
  binding_issues-Refers li ((p, b) ∷ m) e =
      let here = layer_issue n li p b in
      let there = macro_issue (set_of [] known) li p b in
      let (front, rest) = append-nil (here ++ there) (binding_issues n (set_of [] known) li m) e in
      let (no_layer, no_macro) = append-nil here there front in
      (named-Refers li p b no_layer no_macro, binding_issues-Refers li m rest)

  layers_issues-Refers :
      (li : ℕ) (ls : List Layer)
      → layers_issues n (set_of [] known) li ls ≡ []
      → All (LayerRefers n known) ls
  unfolding layers_issues
  layers_issues-Refers li [] e = tt
  layers_issues-Refers li (l ∷ ls) e =
      let (front, rest) =
        append-nil (binding_issues n (set_of [] known) li l.bindings)
          (layers_issues n (set_of [] known) (suc li) ls) e in
      (binding_issues-Refers li l.bindings front, layers_issues-Refers (suc li) ls rest)

-- Where layers and macros have no issue, every binding that names a layer names one below the number
-- of layers, and every binding that names a macro names one that is defined.
pub configuration_issues-Refers :
    (layers : List Layer) (macros : List Macro)
    → configuration_issues layers macros ≡ []
    → All (LayerRefers (length layers) (ids macros)) layers
unfolding configuration_issues
configuration_issues-Refers layers macros e =
    let known = set_of [] (ids macros) in
    let repeats = if length known == length macros then [] else macro_ids_repeat ∷ [] in
    let (front, rest) =
      append-nil (index_issues layers ++ repeats) (layers_issues (length layers) known 0 layers)
        e in
    layers_issues-Refers (length layers) (ids macros) 0 layers rest
