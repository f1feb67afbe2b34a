-- ===== src/Domain/Validate/Accepted.antt =====
-- What a configuration that passes validation can rely on.
use qmk_web_app.Common.{
  ℕ, suc, ◌≡◌, refl, arith, String, String-discrete, true, Bool-cases, some, inl, inr, ◌⊎◌, List,
  [], ◌∷◌, ◌++◌, All, append-nil,
}
use qmk_web_app.Common.Dict.{Dict, get}
use qmk_web_app.Domain.Configuration.{
  Binding, Layer, Directions, SocdPolicyId, neutral, last_input_priority, SocdConfiguration,
  Configuration,
}
use qmk_web_app.Domain.Catalog.{CatalogLayout, SupportedCatalogKeyboard}
use qmk_web_app.Domain.Socd.{
  vertical_pairs, horizontal_pairs, is_pair, socd_module_keycode, socd_available,
}
use qmk_web_app.Domain.Validate.{
  FieldError, accepted, number_from, is_position, binding_errors, layer_errors, direction_errors,
  pair_errors, is_bound, bound_errors, finish_validation, validate_fields,
}

-- The keys of a layer's bindings are positions of the layout.
abbrev pub OnLayout : CatalogLayout → Layer → Type 0
OnLayout layout l =
    All (λ (e : String × Binding). is_position layout (number_from 0 e.0) ≡ true) l.bindings

binding_errors-OnLayout :
    (layout : CatalogLayout) (li : ℕ) (m : Dict Binding)
    → binding_errors layout li m ≡ []
    → All (λ (e : String × Binding). is_position layout (number_from 0 e.0) ≡ true) m
unfolding binding_errors
binding_errors-OnLayout layout li [] e = tt
binding_errors-OnLayout layout li ((p, b) ∷ m) e =
    (ground arith, binding_errors-OnLayout layout li m (ground arith))

pub layer_errors-OnLayout :
    (layout : CatalogLayout) (li : ℕ) (ls : List Layer)
    → layer_errors layout li ls ≡ []
    → All (OnLayout layout) ls
unfolding layer_errors
layer_errors-OnLayout layout li [] e = tt
layer_errors-OnLayout layout li (l ∷ ls) e =
    let (front, rest) =
      append-nil (binding_errors layout li l.bindings) (layer_errors layout (suc li) ls) e in
    (
      binding_errors-OnLayout layout li l.bindings front,
      layer_errors-OnLayout layout (suc li) ls rest,
    )

-- The module has a keycode for this key under this policy.
abbrev pub HasKeycode : SocdPolicyId → String → Type 0
HasKeycode policy k = (token : String) × (socd_module_keycode policy k ≡ some token)

vertical_cases :
    (a b : String)
    → is_pair vertical_pairs a b ≡ true
    → ((a ≡ "KC_W") × (b ≡ "KC_S")) ⊎ ((a ≡ "KC_UP") × (b ≡ "KC_DOWN"))
unfolding is_pair
vertical_cases a b e = ground arith

horizontal_cases :
    (a b : String)
    → is_pair horizontal_pairs a b ≡ true
    → ((a ≡ "KC_A") × (b ≡ "KC_D")) ⊎ ((a ≡ "KC_LEFT") × (b ≡ "KC_RIGHT"))
unfolding is_pair
horizontal_cases a b e = ground arith

vertical-HasKeycode :
    (policy : SocdPolicyId) (a b : String)
    → ((a ≡ "KC_W") × (b ≡ "KC_S")) ⊎ ((a ≡ "KC_UP") × (b ≡ "KC_DOWN"))
    → HasKeycode policy a × HasKeycode policy b
unfolding socd_module_keycode get String-discrete
vertical-HasKeycode neutral a b (inl (p, q)) =
    rw (p, q) (("SOCD_NEUTRAL_W", refl), ("SOCD_NEUTRAL_S", refl))
vertical-HasKeycode neutral a b (inr (p, q)) =
    rw (p, q) (("SOCD_NEUTRAL_UP", refl), ("SOCD_NEUTRAL_DOWN", refl))
vertical-HasKeycode last_input_priority a b (inl (p, q)) =
    rw (p, q) (("SOCD_LAST_W", refl), ("SOCD_LAST_S", refl))
vertical-HasKeycode last_input_priority a b (inr (p, q)) =
    rw (p, q) (("SOCD_LAST_UP", refl), ("SOCD_LAST_DOWN", refl))

horizontal-HasKeycode :
    (policy : SocdPolicyId) (a b : String)
    → ((a ≡ "KC_A") × (b ≡ "KC_D")) ⊎ ((a ≡ "KC_LEFT") × (b ≡ "KC_RIGHT"))
    → HasKeycode policy a × HasKeycode policy b
unfolding socd_module_keycode get String-discrete
horizontal-HasKeycode neutral a b (inl (p, q)) =
    rw (p, q) (("SOCD_NEUTRAL_A", refl), ("SOCD_NEUTRAL_D", refl))
horizontal-HasKeycode neutral a b (inr (p, q)) =
    rw (p, q) (("SOCD_NEUTRAL_LEFT", refl), ("SOCD_NEUTRAL_RIGHT", refl))
horizontal-HasKeycode last_input_priority a b (inl (p, q)) =
    rw (p, q) (("SOCD_LAST_A", refl), ("SOCD_LAST_D", refl))
horizontal-HasKeycode last_input_priority a b (inr (p, q)) =
    rw (p, q) (("SOCD_LAST_LEFT", refl), ("SOCD_LAST_RIGHT", refl))

-- What enabled SOCD has: a verified keyboard, and for each direction a keycode of the module and a
-- key of the base layer that is bound to the direction's own keycode.
pub record SocdReady (c : Configuration) (socd : SocdConfiguration) : Type 0 where
  pub available : socd_available c.catalog_version c.keyboard_id ≡ true
  pub up_code : HasKeycode socd.policy_id socd.directional_keycodes.up
  pub down_code : HasKeycode socd.policy_id socd.directional_keycodes.down
  pub left_code : HasKeycode socd.policy_id socd.directional_keycodes.left
  pub right_code : HasKeycode socd.policy_id socd.directional_keycodes.right
  pub up_bound : is_bound c.layers socd.directional_keys.up socd.directional_keycodes.up ≡ true
  pub down_bound :
      is_bound c.layers socd.directional_keys.down socd.directional_keycodes.down ≡ true
  pub left_bound :
      is_bound c.layers socd.directional_keys.left socd.directional_keycodes.left ≡ true
  pub right_bound :
      is_bound c.layers socd.directional_keys.right socd.directional_keycodes.right ≡ true

pair_errors-none :
    (codes : Directions String)
    → pair_errors codes ≡ []
    → (is_pair vertical_pairs codes.up codes.down ≡ true)
      × (is_pair horizontal_pairs codes.left codes.right ≡ true)
unfolding pair_errors
pair_errors-none codes e = ground arith

bound_errors-none :
    (layers : List Layer) (socd : SocdConfiguration)
    → bound_errors layers socd ≡ []
    → (is_bound layers socd.directional_keys.up socd.directional_keycodes.up ≡ true)
      × (is_bound layers socd.directional_keys.down socd.directional_keycodes.down ≡ true)
      × (is_bound layers socd.directional_keys.left socd.directional_keycodes.left ≡ true)
      × (is_bound layers socd.directional_keys.right socd.directional_keycodes.right ≡ true)
unfolding bound_errors
bound_errors-none layers socd e = ground arith

pub finish_validation-accepted :
    (c c' : Configuration) (k k' : SupportedCatalogKeyboard) (es : List FieldError)
    → finish_validation c k es ≡ accepted c' k'
    → (es ≡ []) × (c' ≡ c) × (k' ≡ k)
unfolding finish_validation
finish_validation-accepted c c' k k' [] h = (refl, ground arith, ground arith)
finish_validation-accepted c c' k k' (e ∷ es) h = absurd (ground arith)

pub socd-Ready :
    (c c' : Configuration) (k k' : SupportedCatalogKeyboard) (layout : CatalogLayout)
    (socd : SocdConfiguration)
    → validate_fields c k layout (some socd) ≡ accepted c' k'
    → socd.enabled ≡ true
    → All (OnLayout layout) c.layers × SocdReady c socd
unfolding validate_fields
socd-Ready c c' k k' layout socd h on =
    elim (Bool-cases (socd_available c.catalog_version c.keyboard_id)) [
      | inr no_module ↦ absurd (ground arith)
      | inl available ↦
          let errors =
            layer_errors layout 0 c.layers ++ direction_errors layout socd.directional_keys in
          let pairs = pair_errors socd.directional_keycodes in
          let bound = bound_errors c.layers socd in
          let (clean, _, _) =
            finish_validation-accepted c c' k k' (errors ++ pairs ++ bound) (ground arith) in
          let (front, bound_clean) = append-nil (errors ++ pairs) bound clean in
          let (errors_clean, pairs_clean) = append-nil errors pairs front in
          let (layers_clean, _) =
            append-nil (layer_errors layout 0 c.layers)
              (direction_errors layout socd.directional_keys) errors_clean in
          (
            layer_errors-OnLayout layout 0 c.layers layers_clean,
            ready available (pair_errors-none socd.directional_keycodes pairs_clean)
                (bound_errors-none c.layers socd bound_clean),
          )
    ]
  where
    ready :
        socd_available c.catalog_version c.keyboard_id ≡ true
        → (is_pair vertical_pairs socd.directional_keycodes.up socd.directional_keycodes.down
            ≡ true)
          × (is_pair horizontal_pairs socd.directional_keycodes.left socd.directional_keycodes.right
              ≡ true)
        → (is_bound c.layers socd.directional_keys.up socd.directional_keycodes.up ≡ true)
          × (is_bound c.layers socd.directional_keys.down socd.directional_keycodes.down ≡ true)
          × (is_bound c.layers socd.directional_keys.left socd.directional_keycodes.left ≡ true)
          × (is_bound c.layers socd.directional_keys.right socd.directional_keycodes.right ≡ true)
        → SocdReady c socd
    ready available (vertical, horizontal) (u, d, l, r) =
        let v = vertical-HasKeycode socd.policy_id _ _ (vertical_cases _ _ vertical) in
        let h' = horizontal-HasKeycode socd.policy_id _ _ (horizontal_cases _ _ horizontal) in
        record {
          available = available;
          up_code = v.0;
          down_code = v.1;
          left_code = h'.0;
          right_code = h'.1;
          up_bound = u;
          down_bound = d;
          left_bound = l;
          right_bound = r;
        }
