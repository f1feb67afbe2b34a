-- ===== src/Generator/Keymap/Cells.antt =====
-- Which text stands at each position of each layer.
use qmk_web_app.Common.{
  ℕ, ◌≡◌, refl, subst, arith, String, Bool, true, false, Bool-cases, Option, none, some,
  Option-cases, inl, inr, [], ◌∷◌, ◌==◌, if◌then◌else◌,
}
use qmk_web_app.Common.Dict.{get}
use qmk_web_app.Common.Decimal.{decimal}
use qmk_web_app.Common.Attempt.{done, bind-then, Pointwise, map_each-Pointwise, Pointwise-imply}
use qmk_web_app.Domain.Configuration.{
  Binding, Layer, SocdPolicyId, SocdConfiguration, Configuration,
}
use qmk_web_app.Domain.Catalog.{CatalogLayout}
use qmk_web_app.Domain.Socd.{socd_module_keycode}
use qmk_web_app.Domain.Schema.{apart, socd_issues}
use qmk_web_app.Generator.Tokens.{render_binding}
use qmk_web_app.Generator.Keymap.{
  KeymapJson, GenerateOptions, enabled_socd, layer_order, Overrides, set_override, override_at,
  override_direction, socd_overrides, render_bound, render_position, render_layers, keymap_document,
}
use qmk_web_app.Generator.Keymap.Parts.{macro_indices, keymap_document-Parts}

-- The keycode of the direction that has this position.
unfoldable pub direction_keycode : SocdConfiguration → ℕ → Option String
direction_keycode s p =
    let keys = s.directional_keys in
    let codes = s.directional_keycodes in
    if keys.up == p
    then some codes.up
    else if keys.down == p
    then some codes.down
    else if keys.left == p
    then some codes.left
    else if keys.right == p
    then some codes.right
    else none

unfoldable pub module_token : SocdConfiguration → ℕ → Option String
module_token s p = elim (direction_keycode s p) [
  | none ↦ none
  | some k ↦ socd_module_keycode s.policy_id k
]

-- The keycode of the module that stands at a position: on the base layer only.
unfoldable pub socd_token : Configuration → Layer → ℕ → Option String
socd_token c layer p = elim (enabled_socd c) [
  | none ↦ none
  | some s ↦ if layer.index == 0 then module_token s p else none
]

-- The text at one position: the module's keycode if there is one, else what the binding there is
-- rendered to, else `KC_NO` on the base layer and `KC_TRANSPARENT` on the others.
abbrev pub BoundTo : Configuration → Layer → String → Option Binding → Type 0
BoundTo c layer token none = token ≡ (if layer.index == 0 then "KC_NO" else "KC_TRANSPARENT")
BoundTo c layer token (some b) = render_binding b (macro_indices c) ≡ done token

abbrev pub CellAt : Configuration → Layer → ℕ → String → Option String → Type 0
CellAt c layer p token none = BoundTo c layer token (get (decimal p) layer.bindings)
CellAt c layer p token (some t) = token ≡ t

abbrev pub Cell : Configuration → Layer → ℕ → String → Type 0
Cell c layer p token = CellAt c layer p token (socd_token c layer p)

override_at-set :
    (p q : ℕ) (t : String) (os : Overrides)
    → override_at p (set_override q t os) ≡ (if q == p then some t else override_at p os)
unfolding override_at set_override
override_at-set p q t [] = refl
override_at-set p q t ((r, u) ∷ os) = ground (arith, override_at-set p q t os)

direction-done :
    (policy : SocdPolicyId) (q : ℕ) (k : String) (os os' : Overrides)
    → override_direction policy q k os ≡ done os'
    → (p : ℕ)
    → override_at p os' ≡ (if q == p then socd_module_keycode policy k else override_at p os)
unfolding override_direction
direction-done policy q k os os' e p = elim (Option-cases (socd_module_keycode policy k)) [
  | inl missing ↦ absurd (ground arith)
  | inr (t, found) ↦
      let same : set_override q t os ≡ os' = ground arith in
      rw found (
        subst (λ x. override_at p x ≡ (if q == p then some t else override_at p os)) same
          (override_at-set p q t os))
]

-- Four different positions.
abbrev pub Apart : Configuration → Type 0
Apart c = (s : SocdConfiguration) → enabled_socd c ≡ some s → socd_issues s.directional_keys ≡ []

socd_overrides-lem :
    (s : SocdConfiguration) (os : Overrides)
    → socd_issues s.directional_keys ≡ []
    → socd_overrides (some s) ≡ done os
    → (p : ℕ) → override_at p os ≡ module_token s p
unfolding socd_overrides override_at socd_issues apart module_token direction_keycode
socd_overrides-lem s os distinct e p = bind-then _ _ e λ os3 e3 f4. bind-then _ _ e3 λ os2 e2 f3.
    bind-then _ _ e2 λ os1 f1 f2.
      last_wins os1 os2 os3 (direction-done _ _ _ _ _ f1 p) (direction-done _ _ _ _ _ f2 p)
        (direction-done _ _ _ _ _ f3 p) (direction-done _ _ _ _ _ f4 p)
  where
    last_wins :
        (os1 os2 os3 : Overrides)
        → override_at p os1 ≡ (
            if s.directional_keys.up == p
            then socd_module_keycode s.policy_id s.directional_keycodes.up
            else override_at p [])
        → override_at p os2 ≡ (
            if s.directional_keys.down == p
            then socd_module_keycode s.policy_id s.directional_keycodes.down
            else override_at p os1)
        → override_at p os3 ≡ (
            if s.directional_keys.left == p
            then socd_module_keycode s.policy_id s.directional_keycodes.left
            else override_at p os2)
        → override_at p os ≡ (
            if s.directional_keys.right == p
            then socd_module_keycode s.policy_id s.directional_keycodes.right
            else override_at p os3)
        → override_at p os ≡ module_token s p
    last_wins os1 os2 os3 a b c d = ground arith

bound-BoundTo :
    (c : Configuration) (layer : Layer) (p : ℕ) (token : String)
    → render_bound (macro_indices c) layer p ≡ done token
    → BoundTo c layer token (get (decimal p) layer.bindings)
unfolding render_bound
bound-BoundTo c layer p token e = elim (Option-cases (get (decimal p) layer.bindings)) [
  | inl missing ↦ rw missing (ground arith)
  | inr (b, found) ↦ rw found (ground arith)
]

-- What the code writes at a position, given what the overrides have there.
rendered-CellAt :
    (c : Configuration) (os : Overrides) (layer : Layer) (p : ℕ) (token : String)
    → render_position os (macro_indices c) layer p ≡ done token
    → CellAt c layer p token (if layer.index == 0 then override_at p os else none)
unfolding render_position
rendered-CellAt c os layer p token e = elim (Bool-cases (layer.index == 0)) [
  | inr raised ↦ rw raised (bound-BoundTo c layer p token (ground arith))
  | inl base ↦ elim (Option-cases (override_at p os)) [
    | inl missing ↦ rw (base, missing) (bound-BoundTo c layer p token (ground arith))
    | inr (t, found) ↦ rw (base, found) (ground arith)
  ]
]

-- Without SOCD nothing is overridden.
no_overrides : (p : ℕ) (os : Overrides) → socd_overrides none ≡ done os → override_at p os ≡ none
unfolding socd_overrides override_at
no_overrides p [] e = refl
no_overrides p (x ∷ xs) e = absurd cc

overridden_at :
    (p : ℕ) (os : Overrides) (o : Option SocdConfiguration)
    → ((s : SocdConfiguration) → o ≡ some s → socd_issues s.directional_keys ≡ [])
    → socd_overrides o ≡ done os
    → override_at p os ≡ (elim o [ none ↦ none | some s ↦ module_token s p ])
overridden_at p os none distinct e = no_overrides p os e
overridden_at p os (some s) distinct e = socd_overrides-lem s os (distinct s refl) e p

overrides-token :
    (c : Configuration) (os : Overrides)
    → Apart c
    → socd_overrides (enabled_socd c) ≡ done os
    → (layer : Layer) (p : ℕ)
    → (if layer.index == 0 then override_at p os else none) ≡ socd_token c layer p
unfolding socd_token
overrides-token c os distinct e layer p =
    rw (overridden_at p os (enabled_socd c) distinct e) (pick (enabled_socd c) (layer.index == 0))
  where
    pick :
        (o : Option SocdConfiguration) (b : Bool)
        → (if b then elim o [ none ↦ none | some s ↦ module_token s p ] else none)
          ≡ (elim o [ none ↦ none | some s ↦ if b then module_token s p else none ])
    pick none true = refl
    pick none false = refl
    pick (some s) true = refl
    pick (some s) false = refl

-- A keymap document has a row for each layer, in the order of their indices, and in each row a text
-- for each position of the layout, in the layout's order. Where SOCD is enabled and its four
-- positions are different, the keycode of the module for the direction's own key under the policy
-- stands at each of the four positions of the base layer; everywhere else, and on every other layer,
-- the text is what the binding there is rendered to, `KC_NO` for an unassigned position of the base
-- layer and `KC_TRANSPARENT` for one of another layer.
pub keymap_document-Cells :
    (o : GenerateOptions) (layout : CatalogLayout) (doc : KeymapJson)
    → keymap_document o layout ≡ done doc
    → Apart o.configuration
    → Pointwise
        (λ layer row. Pointwise (Cell o.configuration layer) layout.positions row)
        (layer_order o.configuration.layers)
        doc.layers
unfolding render_layers
keymap_document-Cells o layout doc e distinct =
    let c = o.configuration in
    let parts = keymap_document-Parts o layout doc e in
    Pointwise-imply _ _
      (λ layer row f.
        Pointwise-imply _ _
          (λ p token g.
            subst (CellAt c layer p token)
              (overrides-token c parts.overrides distinct parts.overridden layer p)
              (rendered-CellAt c parts.overrides layer p token g))
          layout.positions row (map_each-Pointwise _ layout.positions row f))
      (layer_order c.layers) doc.layers
      (map_each-Pointwise _ (layer_order c.layers) doc.layers parts.rendered)
