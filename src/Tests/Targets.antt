-- ===== src/Tests/Targets.antt =====
-- Validation of a configuration with SOCD against a catalog with one keyboard.
use qmk_web_app.Common.{◌≡◌, refl, String, String-discrete, ◌===◌, true, some, [], ◌∷◌, find, All}
use qmk_web_app.Common.Dict.{get}
use qmk_web_app.Common.Decimal.{decimal}
use qmk_web_app.Domain.Configuration.{
  keycode, last_input_priority, SocdConfiguration, Configuration,
}
use qmk_web_app.Domain.Catalog.{
  CatalogLayout, SupportedCatalogKeyboard, supported, Catalog, capability_unavailable,
}
use qmk_web_app.Domain.Socd.{is_pair, socd_available}
use qmk_web_app.Domain.Validate.{
  accepted, refused, socd_unavailable, number_from, is_position, binding_errors, layer_errors,
  direction_errors, pair_errors, is_bound, bound_errors, finish_validation, validate_fields,
  require_supported_keyboard, validate_layout, validate_configuration,
}
use qmk_web_app.Domain.Validate.Accepted.{OnLayout, SocdReady}
use qmk_web_app.Domain.Validate.Sound.{validate_configuration-accepted}

abbrev pub keyboard : SupportedCatalogKeyboard
keyboard = record {
  keyboard_id = "crkbd/rev1";
  layouts = record { name = "grid"; positions = 0 ∷ 1 ∷ 2 ∷ 3 ∷ [] } ∷ [];
}

abbrev pub catalog : (version : String) → Catalog
catalog version = record {
  catalog_version = version;
  qmk_commit = "332f";
  keyboards = supported keyboard ∷ [];
}

abbrev socd : SocdConfiguration
socd = record {
  enabled = true;
  policy_id = last_input_priority;
  directional_keys = record { up = 0; down = 1; left = 2; right = 3 };
  directional_keycodes = record { up = "KC_W"; down = "KC_S"; left = "KC_A"; right = "KC_D" };
}

abbrev pub gaming : (version : String) → Configuration
gaming version = record {
  id = "c1";
  owner_id = some "ann";
  schema_version = 1;
  catalog_version = version;
  qmk_commit = "332f";
  keyboard_id = "crkbd/rev1";
  layout_id = "grid";
  name = "game";
  revision = 1;
  created_at = 100;
  updated_at = 100;
  layers =
      record {
        id = "l0";
        index = 0;
        name = "base";
        bindings =
            ("0", keycode "KC_W")
            ∷ ("1", keycode "KC_S")
            ∷ ("2", keycode "KC_A")
            ∷ ("3", keycode "KC_D")
            ∷ [];
      }
      ∷ [];
  macros = [];
  socd = some socd;
  generator_version = "g1";
}

pub validate-gaming :
    validate_configuration (catalog "0.33.13-3") (gaming "0.33.13-3")
    ≡ accepted (gaming "0.33.13-3") keyboard
unfolding validate_configuration validate_layout validate_fields require_supported_keyboard
    finish_validation layer_errors binding_errors number_from is_position direction_errors
    pair_errors is_pair bound_errors is_bound socd_available decimal get String-discrete
validate-gaming = refl

-- A keyboard that was verified for other versions only has no SOCD.
unverified :
    validate_configuration (catalog "0.34.0-1") (gaming "0.34.0-1")
    ≡ refused capability_unavailable (socd_unavailable ∷ [])
unfolding validate_configuration validate_layout validate_fields require_supported_keyboard
    socd_available String-discrete
unverified = refl

validate_configuration-accepted_example :
    (gaming "0.33.13-3" ≡ gaming "0.33.13-3")
    × (require_supported_keyboard (catalog "0.33.13-3") "crkbd/rev1" ≡ some keyboard)
    × ((layout : CatalogLayout) × (find (λ l. l.name === "grid") keyboard.layouts ≡ some layout)
        × All (OnLayout layout) (gaming "0.33.13-3").layers)
    × ((s : SocdConfiguration)
        → some socd ≡ some s
        → s.enabled ≡ true
        → SocdReady (gaming "0.33.13-3") s)
validate_configuration-accepted_example =
    validate_configuration-accepted (catalog "0.33.13-3") (gaming "0.33.13-3") (gaming "0.33.13-3")
      keyboard validate-gaming
