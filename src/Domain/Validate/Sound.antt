-- ===== src/Domain/Validate/Sound.antt =====
-- The results of the whole validation.
use qmk_web_app.Common.{
  ◌≡◌, subst, arith, ◌===◌, true, Bool-cases, Option, none, some, Option-cases, inl, inr, ◌++◌, All,
  find, append-nil,
}
use qmk_web_app.Domain.Configuration.{SocdConfiguration, Configuration}
use qmk_web_app.Domain.Catalog.{CatalogLayout, SupportedCatalogKeyboard, Catalog}
use qmk_web_app.Domain.Socd.{socd_available}
use qmk_web_app.Domain.Validate.{
  accepted, layer_errors, direction_errors, pair_errors, bound_errors, validate_fields,
  require_supported_keyboard, validate_layout, validate_configuration,
}
use qmk_web_app.Domain.Validate.Accepted.{
  OnLayout, layer_errors-OnLayout, SocdReady, finish_validation-accepted, socd-Ready,
}

module _ (c c' : Configuration) (k k' : SupportedCatalogKeyboard) (layout : CatalogLayout) where
  validate_fields-OnLayout :
      (socd : Option SocdConfiguration)
      → validate_fields c k layout socd ≡ accepted c' k'
      → All (OnLayout layout) c.layers × (c' ≡ c) × (k' ≡ k)
  unfolding validate_fields
  validate_fields-OnLayout none h =
      let (clean, same, same') =
        finish_validation-accepted c c' k k' (layer_errors layout 0 c.layers) h in
      (layer_errors-OnLayout layout 0 c.layers clean, same, same')
  validate_fields-OnLayout (some socd) h = elim (Bool-cases socd.enabled) [
    | inl on ↦ elim (Bool-cases (socd_available c.catalog_version c.keyboard_id)) [
      | inr no_module ↦ absurd (ground arith)
      | inl available ↦
          let errors =
            layer_errors layout 0 c.layers ++ direction_errors layout socd.directional_keys in
          let more =
            errors ++ pair_errors socd.directional_keycodes ++ bound_errors c.layers socd in
          let (clean, same, same') = finish_validation-accepted c c' k k' more (ground arith) in
          ((socd-Ready c c' k k' layout socd h on).0, same, same')
    ]
    | inr off ↦
        let errors =
          layer_errors layout 0 c.layers ++ direction_errors layout socd.directional_keys in
        let (clean, same, same') = finish_validation-accepted c c' k k' errors (ground arith) in
        let (layers_clean, _) =
          append-nil (layer_errors layout 0 c.layers)
            (direction_errors layout socd.directional_keys) clean in
        (layer_errors-OnLayout layout 0 c.layers layers_clean, same, same')
  ]

-- A configuration that passes validation comes back unchanged with a keyboard that the catalog has
-- under its id and supports; the keyboard has its layout, and every binding of every layer is at a
-- position of that layout. If its SOCD is enabled, the keyboard has been verified for the catalog
-- version, the module has a keycode for each direction under the policy, and each directional key
-- is bound on the base layer to the direction's own keycode.
pub validate_configuration-accepted :
    (catalog : Catalog) (c c' : Configuration) (k : SupportedCatalogKeyboard)
    → validate_configuration catalog c ≡ accepted c' k
    → (c' ≡ c)
      × (require_supported_keyboard catalog c.keyboard_id ≡ some k)
      × ((layout : CatalogLayout) × (find (λ l. l.name === c.layout_id) k.layouts ≡ some layout)
          × All (OnLayout layout) c.layers)
      × ((socd : SocdConfiguration) → c.socd ≡ some socd → socd.enabled ≡ true → SocdReady c socd)
unfolding validate_configuration validate_layout
validate_configuration-accepted catalog c c' k h =
    elim (Option-cases (require_supported_keyboard catalog c.keyboard_id)) [
      | inl missing ↦ absurd (ground arith)
      | inr (q, found) ↦ elim (Option-cases (find (λ l. l.name === c.layout_id) q.layouts)) [
        | inl missing ↦ absurd (ground arith)
        | inr (layout, at) ↦
            let h' : validate_fields c q layout c.socd ≡ accepted c' k = ground arith in
            let (on, same, same') = validate_fields-OnLayout c c' q k layout c.socd h' in
            (
              same,
              rw same' found,
              (layout, rw same' at, on),
              λ socd e enabled.
                  (socd-Ready c c' q k layout socd
                    (subst (λ o. validate_fields c q layout o ≡ accepted c' k) e h') enabled).1,
            )
      ]
    ]
