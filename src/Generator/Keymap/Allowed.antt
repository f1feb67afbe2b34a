-- ===== src/Generator/Keymap/Allowed.antt =====
-- What the generator may write into a keymap, whatever the configuration.
use qmk_web_app.Common.{
  ℕ, ◌≡◌, subst, arith, String, Bool, true, false, Bool-cases, Option, none, some, Option-cases,
  inl, inr, List, [], ◌∷◌, ◌==◌, if◌then◌else◌, All,
}
use qmk_web_app.Common.Dict.{Dict, get}
use qmk_web_app.Common.Decimal.{decimal}
use qmk_web_app.Common.Attempt.{
  done, bind-then, done_injective, map_each, map_each-Pointwise, Pointwise-All,
}
use qmk_web_app.Domain.Configuration.{Layer, SocdPolicyId, SocdConfiguration}
use qmk_web_app.Domain.Catalog.{CatalogLayout}
use qmk_web_app.Domain.Socd.{socd_module_keycode}
use qmk_web_app.Generator.Tokens.Allowed.{
  IsToken, plain, of_module, transparent_supported, no_supported, render_binding-IsToken,
}
use qmk_web_app.Generator.Keymap.{
  KeymapJson, GenerateOptions, Overrides, set_override, override_at, override_direction,
  socd_overrides, render_bound, render_position, render_layers, layer_order, keymap_document,
}
use qmk_web_app.Generator.Keymap.Parts.{macro_indices, keymap_document-Parts}

abbrev Allowed : Overrides → Type 0
Allowed = All (λ (e : ℕ × String). IsToken e.1)

set_override-Allowed :
    (p : ℕ) (t : String) (os : Overrides) → IsToken t → Allowed os → Allowed (set_override p t os)
unfolding set_override
set_override-Allowed p t [] a h = (a, tt)
set_override-Allowed p t ((q, u) ∷ os) a (b, h) = elim (Bool-cases (q == p)) [
  | inl hit ↦ rw hit (a, h)
  | inr miss ↦ rw miss (b, set_override-Allowed p t os a h)
]

override_at-IsToken :
    (p : ℕ) (os : Overrides) (t : String) → override_at p os ≡ some t → Allowed os → IsToken t
unfolding override_at
override_at-IsToken p [] t e h = absurd cc
override_at-IsToken p ((q, u) ∷ os) t e (a, h) = elim (Bool-cases (q == p)) [
  | inl hit ↦ let same : u ≡ t = ground arith in subst IsToken same a
  | inr miss ↦ override_at-IsToken p os t (ground arith) h
]

direction-Allowed :
    (policy : SocdPolicyId) (q : ℕ) (k : String) (os os' : Overrides)
    → override_direction policy q k os ≡ done os'
    → Allowed os
    → Allowed os'
unfolding override_direction
direction-Allowed policy q k os os' e h = elim (Option-cases (socd_module_keycode policy k)) [
  | inl missing ↦ absurd (ground arith)
  | inr (t, found) ↦
      let same : set_override q t os ≡ os' = ground arith in
      subst Allowed same (set_override-Allowed q t os (of_module policy k t found) h)
]

overrides-Allowed :
    (o : Option SocdConfiguration) (os : Overrides) → socd_overrides o ≡ done os → Allowed os
unfolding socd_overrides
overrides-Allowed none os e = subst Allowed (done_injective e) tt
overrides-Allowed (some s) os e =
    let policy = s.policy_id in
    let keys = s.directional_keys in
    let codes = s.directional_keycodes in
    bind-then _ (override_direction policy keys.right codes.right) e λ os3 e3 f4.
      bind-then _ (override_direction policy keys.left codes.left) e3 λ os2 e2 f3.
        bind-then _ (override_direction policy keys.down codes.down) e2 λ os1 f1 f2.
          direction-Allowed policy keys.right codes.right os3 os f4 (
            direction-Allowed policy keys.left codes.left os2 os3 f3 (
              direction-Allowed policy keys.down codes.down os1 os2 f2
                (direction-Allowed policy keys.up codes.up [] os1 f1 tt)))

unassigned-IsToken : (b : Bool) → IsToken (if b then "KC_NO" else "KC_TRANSPARENT")
unassigned-IsToken true = plain "KC_NO" no_supported
unassigned-IsToken false = plain "KC_TRANSPARENT" transparent_supported

render_bound-IsToken :
    (indices : Dict ℕ) (layer : Layer) (p : ℕ) (t : String)
    → render_bound indices layer p ≡ done t
    → IsToken t
unfolding render_bound
render_bound-IsToken indices layer p t e = elim (Option-cases (get (decimal p) layer.bindings)) [
  | inl missing ↦
      let same : (if layer.index == 0 then "KC_NO" else "KC_TRANSPARENT") ≡ t = ground arith in
      subst IsToken same (unassigned-IsToken (layer.index == 0))
  | inr (b, found) ↦ render_binding-IsToken b indices t (ground arith)
]

render_position-IsToken :
    (os : Overrides) (indices : Dict ℕ) (layer : Layer) (p : ℕ) (t : String)
    → Allowed os
    → render_position os indices layer p ≡ done t
    → IsToken t
unfolding render_position
render_position-IsToken os indices layer p t h e = elim (Bool-cases (layer.index == 0)) [
  | inr raised ↦ render_bound-IsToken indices layer p t (ground arith)
  | inl base ↦ elim (Option-cases (override_at p os)) [
    | inl missing ↦ render_bound-IsToken indices layer p t (ground arith)
    | inr (u, found) ↦
        let same : u ≡ t = ground arith in subst IsToken same (override_at-IsToken p os u found h)
  ]
]

everywhere : {A : Type 0} (P : A → Type 0) → ((x : A) → P x) → (xs : List A) → All P xs
everywhere P f [] = tt
everywhere P f (x ∷ xs) = (f x, everywhere P f xs)

-- Every text in every row of a keymap document is an expression that a keymap may have: it is built
-- from the product's keycodes, numbers of layers below the limit, numbers of macros that QMK has,
-- suffixes of modifiers and keycodes of the module, and from nothing else that a configuration says.
pub keymap_document-IsToken :
    (o : GenerateOptions) (layout : CatalogLayout) (doc : KeymapJson)
    → keymap_document o layout ≡ done doc
    → All (All IsToken) doc.layers
unfolding render_layers
keymap_document-IsToken o layout doc e =
    let parts = keymap_document-Parts o layout doc e in
    let allowed = overrides-Allowed _ parts.overrides parts.overridden in
    let layers = layer_order o.configuration.layers in
    Pointwise-All
      (λ layer row.
        map_each (render_position parts.overrides (macro_indices o.configuration) layer)
          layout.positions
        ≡ done row)
      (λ layer. Unit {0}) (All IsToken)
      (λ layer row _ f.
        Pointwise-All
          (λ p t. render_position parts.overrides (macro_indices o.configuration) layer p ≡ done t)
          (λ p. Unit {0}) IsToken
          (λ p t _ g.
            render_position-IsToken parts.overrides (macro_indices o.configuration) layer p t
              allowed g)
          layout.positions row (everywhere _ (λ p. tt) layout.positions)
          (map_each-Pointwise _ layout.positions row f))
      layers doc.layers (everywhere _ (λ l. tt) layers)
      (map_each-Pointwise _ layers doc.layers parts.rendered)
