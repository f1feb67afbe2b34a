-- ===== src/Generator/Tokens/Allowed.antt =====
-- Which texts the generator emits for bindings, and for which bindings it does not throw.
use qmk_web_app.Common.{
  ℕ, ◌<◌, ◌≡◌, refl, subst, arith, String, String-discrete, Bool, true, false, Bool-cases, none,
  some, Option-cases, inl, inr, leb,
}
use qmk_web_app.Common.Dict.{Dict, get, has}
use qmk_web_app.Common.Texts.{all, all-All}
use qmk_web_app.Common.Attempt.{done, bind-done, Returns}
use qmk_web_app.Domain.Limits.{max_layers}
use qmk_web_app.Domain.Keycodes.{
  kc, letter_keycodes, function_keycodes, supported_keycode_names, is_supported_keycode,
  mod_tap_modifiers,
}
use qmk_web_app.Common.Decimal.{decimal}
use qmk_web_app.Domain.Keycodes.Named.{has-All}
use qmk_web_app.Domain.Configuration.{
  Binding, keycode, transparent, no_op, layer_momentary, layer_toggle, layer_tap, mod_tap, macro,
  SocdPolicyId,
}
use qmk_web_app.Domain.Socd.{socd_module_keycode}
use qmk_web_app.Domain.Schema.Fields.{layer_number, binding_fields}
use qmk_web_app.Generator.Tokens.{
  max_json_macros, assert_keycode, assert_layer_index, mod_suffixes, mod_suffix, momentary_token,
  toggle_token, layer_tap_token, mod_tap_token, macro_token, render_binding,
}

-- The expressions that a keymap may have: each is built from keycodes of the product's list, numbers
-- of layers and macros in their ranges, the suffixes of the modifiers and the keycodes of the module.
pub data IsToken : String → Type 0 where
  plain : (k : String) → is_supported_keycode k ≡ true → IsToken k
  momentary : (l : ℕ) → l < max_layers → IsToken (momentary_token l)
  toggle : (l : ℕ) → l < max_layers → IsToken (toggle_token l)
  tapped_layer :
      (l : ℕ) (k : String)
      → l < max_layers
      → is_supported_keycode k ≡ true
      → IsToken (layer_tap_token l k)
  tapped_modifier :
      (hold suffix k : String)
      → get hold mod_suffixes ≡ some suffix
      → is_supported_keycode k ≡ true
      → IsToken (mod_tap_token suffix k)
  of_macro : (i : ℕ) → i < max_json_macros → IsToken (macro_token i)
  of_module :
      (policy : SocdPolicyId) (k token : String)
      → socd_module_keycode policy k ≡ some token
      → IsToken token

pub transparent_supported : is_supported_keycode "KC_TRANSPARENT" ≡ true
unfolding is_supported_keycode has String-discrete supported_keycode_names kc letter_keycodes
    function_keycodes decimal
transparent_supported = refl

pub no_supported : is_supported_keycode "KC_NO" ≡ true
unfolding is_supported_keycode has String-discrete supported_keycode_names kc letter_keycodes
    function_keycodes decimal
no_supported = refl

assert_keycode-done :
    (k j : String) → assert_keycode k ≡ done j → (is_supported_keycode k ≡ true) × (k ≡ j)
unfolding assert_keycode
assert_keycode-done k j e = elim (Bool-cases (is_supported_keycode k)) [
  | inl known ↦ (known, ground arith)
  | inr other ↦ absurd (ground arith)
]

assert_layer_index-done : (l i : ℕ) → assert_layer_index l ≡ done i → (l < max_layers) × (l ≡ i)
unfolding assert_layer_index
assert_layer_index-done l i e = ground arith

mod_suffix-done : (k s : String) → mod_suffix k ≡ done s → get k mod_suffixes ≡ some s
unfolding mod_suffix
mod_suffix-done k s e = elim (Option-cases (get k mod_suffixes)) [
  | inl missing ↦ absurd (ground arith)
  | inr (t, found) ↦ ground arith
]

-- Whatever the binding is, the text that it is rendered to is an expression that a keymap may have.
pub render_binding-IsToken :
    (b : Binding) (indices : Dict ℕ) (token : String)
    → render_binding b indices ≡ done token
    → IsToken token
unfolding render_binding
render_binding-IsToken (keycode k) indices token e =
    let (known, same) = assert_keycode-done k token e in subst IsToken same (plain k known)
render_binding-IsToken transparent indices token e =
    let same : "KC_TRANSPARENT" ≡ token = cc in
    subst IsToken same (plain "KC_TRANSPARENT" transparent_supported)
render_binding-IsToken no_op indices token e =
    let same : "KC_NO" ≡ token = cc in subst IsToken same (plain "KC_NO" no_supported)
render_binding-IsToken (layer_momentary l) indices token e =
    let (i, e', e'') = bind-done (assert_layer_index l) _ e in
    let (small, at) = assert_layer_index-done l i e' in
    let same : momentary_token i ≡ token = cc in
    subst IsToken same (momentary i (omega (arith, small, at)))
render_binding-IsToken (layer_toggle l) indices token e =
    let (i, e', e'') = bind-done (assert_layer_index l) _ e in
    let (small, at) = assert_layer_index-done l i e' in
    let same : toggle_token i ≡ token = cc in
    subst IsToken same (toggle i (omega (arith, small, at)))
render_binding-IsToken (layer_tap l k) indices token e =
    let (i, e', rest) = bind-done (assert_layer_index l) _ e in
    let (j, f', rest') = bind-done (assert_keycode k) _ rest in
    let (small, at) = assert_layer_index-done l i e' in
    let (known, at') = assert_keycode-done k j f' in
    let same : layer_tap_token i j ≡ token = cc in
    subst IsToken same (
      tapped_layer i j (omega (arith, small, at))
        (subst (λ x. is_supported_keycode x ≡ true) at' known))
render_binding-IsToken (mod_tap hold k) indices token e =
    let (suffix, e', rest) = bind-done (mod_suffix hold) _ e in
    let (j, f', rest') = bind-done (assert_keycode k) _ rest in
    let (known, at') = assert_keycode-done k j f' in
    let same : mod_tap_token suffix j ≡ token = cc in
    subst IsToken same (
      tapped_modifier hold suffix j (mod_suffix-done hold suffix e')
        (subst (λ x. is_supported_keycode x ≡ true) at' known))
render_binding-IsToken (macro id) indices token e = elim (Option-cases (get id indices)) [
  | inl missing ↦ absurd (ground arith)
  | inr (i, found) ↦ elim (Bool-cases (leb max_json_macros i)) [
    | inl large ↦ absurd (ground arith)
    | inr small ↦
        let same : macro_token i ≡ token = ground arith in
        subst IsToken same (of_macro i (ground arith))
  ]
]

-- The number of a macro.
abbrev pub Indexes : Dict ℕ → Binding → Type 0
Indexes indices (macro id) = (i : ℕ) × (get id indices ≡ some i) × (i < max_json_macros)
Indexes indices _ = Unit {0}

suffixed : String → Bool
suffixed k = elim (get k mod_suffixes) [ none ↦ false | some s ↦ true ]

modifiers_have_suffixes : all suffixed mod_tap_modifiers ≡ true
unfolding all suffixed get String-discrete mod_tap_modifiers kc
modifiers_have_suffixes = refl

mod_suffix-Returns : (k : String) → has k mod_tap_modifiers ≡ true → Returns (mod_suffix k)
unfolding mod_suffix suffixed
mod_suffix-Returns k e =
    let found : suffixed k ≡ true =
      has-All (λ j. suffixed j ≡ true) k mod_tap_modifiers
        (all-All suffixed mod_tap_modifiers modifiers_have_suffixes) e in
    elim (Option-cases (get k mod_suffixes)) [
      | inl missing ↦ absurd (ground arith)
      | inr (s, hit) ↦ (s, rw (hit, mod_suffix) refl)
    ]

-- A binding whose fields pass the schema and whose macro has a number is rendered.
pub render_binding-Returns :
    (b : Binding) (indices : Dict ℕ)
    → binding_fields b ≡ true
    → Indexes indices b
    → Returns (render_binding b indices)
unfolding render_binding binding_fields layer_number assert_keycode assert_layer_index
render_binding-Returns (keycode k) indices e h = (k, rw e refl)
render_binding-Returns transparent indices e h = (_, refl)
render_binding-Returns no_op indices e h = (_, refl)
render_binding-Returns (layer_momentary l) indices e h = (momentary_token l, ground arith)
render_binding-Returns (layer_toggle l) indices e h = (toggle_token l, ground arith)
render_binding-Returns (layer_tap l k) indices e h = (layer_tap_token l k, ground arith)
render_binding-Returns (mod_tap hold k) indices e h =
    let (s, hit) = mod_suffix-Returns hold (ground arith) in
    (mod_tap_token s k, rw hit (ground arith))
render_binding-Returns (macro id) indices e (i, found, small) =
    (macro_token i, rw (found, render_binding) (ground arith))
