-- ===== src/Generator/Keymap/Ready.antt =====
-- A configuration that passed validation has a keymap document.
use qmk_web_app.Common.{
  ℕ, suc, ◌+◌, ◌≤◌, ◌<◌, ◌≡◌, refl, sym, ap, ◌∙◌, arith, String, ◌===◌, true, ◌||◌, Bool-cases,
  some, Option-cases, inl, inr, ◌⊎◌, List, [], ◌∷◌, any, length, ◌==◌, if◌then◌else◌, All,
  All-imply,
}
use qmk_web_app.Common.Dict.{Dict, get, put, get-put, get-All, values}
use qmk_web_app.Common.Sort.{All-sort, any-sort, length-sort}
use qmk_web_app.Common.Decimal.{decimal}
use qmk_web_app.Common.Texts.{all, all-All}
use qmk_web_app.Common.Attempt.{Returns, map_each-Returns}
use qmk_web_app.Domain.Limits.{max_macros}
use qmk_web_app.Domain.Configuration.{
  Binding, keycode, transparent, no_op, layer_momentary, layer_toggle, layer_tap, mod_tap, macro,
  Layer, Macro, Configuration,
}
use qmk_web_app.Domain.Schema.{configuration_issues}
use qmk_web_app.Domain.Schema.Fields.{
  binding_fields, layer_fields, macro_fields, configuration_fields,
}
use qmk_web_app.Editor.Structure.{ids, has_id, Refers, LayerRefers}
use qmk_web_app.Editor.Structure.Refused.{configuration_issues-Refers}
use qmk_web_app.Generator.Tokens.{max_json_macros}
use qmk_web_app.Generator.Tokens.Allowed.{Indexes, render_binding-Returns}
use qmk_web_app.Generator.Keymap.{
  macro_order, index_macros, layer_order, Overrides, override_at, render_bound, render_position,
  render_layers,
}
use qmk_web_app.Generator.Keymap.Parts.{macro_indices}
use qmk_web_app.Domain.Catalog.{CatalogLayout}

-- The text has a number below `n`.
abbrev Numbered : ℕ → String → Dict ℕ → Type 0
Numbered n id indices = (i : ℕ) × (get id indices ≡ some i) × (i < n)

index_macros-Numbered :
    (i n : ℕ) (id : String) (ms : List Macro) (indices : Dict ℕ)
    → i + length ms ≤ n
    → (has_id id (ids ms) ≡ true) ⊎ Numbered n id indices
    → Numbered n id (index_macros i ms indices)
unfolding index_macros
index_macros-Numbered i n id [] indices small (inl e) = absurd cc
index_macros-Numbered i n id [] indices small (inr h) = h
index_macros-Numbered i n id (m ∷ ms) indices small h =
    index_macros-Numbered (suc i) n id ms (put m.id i indices) (omega arith)
      (elim (Bool-cases (m.id === id)) [
        | inl hit ↦ inr (i, get-put m.id id i indices ∙ rw hit refl, omega arith)
        | inr miss ↦ elim h [
          | inl e ↦ inl (ground arith)
          | inr (j, found, below) ↦ inr (j, get-put m.id id i indices ∙ rw miss found, below)
        ]
      ])

has_id-ids : (id : String) (ms : List Macro) → has_id id (ids ms) ≡ any (λ m. m.id === id) ms
has_id-ids id [] = refl
has_id-ids id (m ∷ ms) = ap (λ b. m.id === id || b) (has_id-ids id ms)

module _ (c : Configuration) (few : length c.macros ≤ max_macros) where
  known-Numbered :
      (id : String)
      → has_id id (ids c.macros) ≡ true
      → Numbered max_json_macros id (macro_indices c)
  unfolding macro_indices macro_order
  known-Numbered id e =
      let sorted = macro_order c.macros in
      let short : length sorted ≡ length c.macros = length-sort _ c.macros in
      index_macros-Numbered 0 max_json_macros id sorted [] (omega (arith, short, few))
        (inl (has_id-ids id sorted ∙ any-sort _ _ c.macros ∙ sym (has_id-ids id c.macros) ∙ e))

  Refers-Indexes : (n : ℕ) (b : Binding) → Refers n (ids c.macros) b → Indexes (macro_indices c) b
  Refers-Indexes n (keycode k) h = tt
  Refers-Indexes n transparent h = tt
  Refers-Indexes n no_op h = tt
  Refers-Indexes n (layer_momentary l) h = tt
  Refers-Indexes n (layer_toggle l) h = tt
  Refers-Indexes n (layer_tap l k) h = tt
  Refers-Indexes n (mod_tap k j) h = tt
  Refers-Indexes n (macro id) h = known-Numbered id h

  render_bound-Returns :
      (n : ℕ) (layer : Layer) (p : ℕ)
      → layer_fields layer ≡ true
      → LayerRefers n (ids c.macros) layer
      → Returns (render_bound (macro_indices c) layer p)
  unfolding layer_fields render_bound
  render_bound-Returns n layer p e h = elim (Option-cases (get (decimal p) layer.bindings)) [
    | inl missing ↦
        (if layer.index == 0 then "KC_NO" else "KC_TRANSPARENT", rw (missing, render_bound) refl)
    | inr (b, found) ↦
        let good : All (λ x. binding_fields x ≡ true) (values layer.bindings) =
          all-All binding_fields (values layer.bindings) (ground arith) in
        let (token, rendered) =
          render_binding-Returns b (macro_indices c)
            (get-All (λ x. binding_fields x ≡ true) (decimal p) layer.bindings found good)
            (Refers-Indexes n b
              (get-All (Refers n (ids c.macros)) (decimal p) layer.bindings found h)) in
        (token, rw (found, render_bound) rendered)
  ]

  -- A layer whose bindings pass the schema is rendered at every position.
  render_position-Returns :
      (n : ℕ) (os : Overrides) (layer : Layer)
      → layer_fields layer ≡ true
      → LayerRefers n (ids c.macros) layer
      → (p : ℕ) → Returns (render_position os (macro_indices c) layer p)
  unfolding render_position
  render_position-Returns n os layer e h p =
      let (token, bound) = render_bound-Returns n layer p e h in
      elim (Bool-cases (layer.index == 0)) [
        | inr raised ↦ (token, rw (raised, render_position) bound)
        | inl base ↦ elim (Option-cases (override_at p os)) [
          | inl missing ↦ (token, rw (base, missing, render_position) bound)
          | inr (t, found) ↦ (t, rw (base, found, render_position) refl)
        ]
      ]

pub everywhere : {A : Type 0} (P : A → Type 0) → ((x : A) → P x) → (xs : List A) → All P xs
everywhere P f [] = tt
everywhere P f (x ∷ xs) = (f x, everywhere P f xs)

both : {A : Type 0} (P Q : A → Type 0) (xs : List A) → All P xs → All Q xs → All (λ x. P x × Q x) xs
both P Q [] p q = tt
both P Q (x ∷ xs) (p, ps) (q, qs) = ((p, q), both P Q xs ps qs)

pub configuration_fields-macros :
    (c : Configuration)
    → configuration_fields c ≡ true
    → (length c.macros ≤ max_macros) × (all macro_fields c.macros ≡ true)
unfolding configuration_fields
configuration_fields-macros c e = (ground arith, ground arith)

configuration_fields-layers :
    (c : Configuration) → configuration_fields c ≡ true → all layer_fields c.layers ≡ true
unfolding configuration_fields
configuration_fields-layers c e = ground arith

pub render_layers-Returns :
    (c : Configuration) (os : Overrides) (layout : CatalogLayout)
    → configuration_issues c.layers c.macros ≡ []
    → configuration_fields c ≡ true
    → Returns (render_layers os (macro_indices c) layout (layer_order c.layers))
unfolding render_layers layer_order
render_layers-Returns c os layout clean fields =
    let n = length c.layers in
    let good = all-All layer_fields c.layers (configuration_fields-layers c fields) in
    let refer = configuration_issues-Refers c.layers c.macros clean in
    let few = (configuration_fields-macros c fields).0 in
    let Row : Layer → Type 0 = λ l. (layer_fields l ≡ true) × LayerRefers n (ids c.macros) l in
    map_each-Returns _ (layer_order c.layers) (
      All-imply Row _
        (λ l (e, h).
          map_each-Returns _ layout.positions
            (everywhere _ (render_position-Returns c few n os l e h) layout.positions))
        (layer_order c.layers)
        (All-sort _ Row c.layers
          (both (λ l. layer_fields l ≡ true) (LayerRefers n (ids c.macros)) c.layers good refer)))
