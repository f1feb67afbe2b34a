-- ===== src/Domain/Socd.antt =====
-- packages/domain/src/socd.ts and module-registry.ts: the pairs of opposing keys, the keycodes of
-- the module, and where the module has been verified.
use qmk_web_app.Common.{
  String, ◌===◌, Bool, true, false, ◌&&◌, Option, List, [], ◌∷◌, any, if◌then◌else◌,
}
use qmk_web_app.Common.Dict.{Dict, get}
use qmk_web_app.Domain.Configuration.{SocdPolicyId, neutral, last_input_priority}

abbrev pub vertical_pairs : List (String × String)
vertical_pairs = ("KC_W", "KC_S") ∷ ("KC_UP", "KC_DOWN") ∷ []

abbrev pub horizontal_pairs : List (String × String)
horizontal_pairs = ("KC_A", "KC_D") ∷ ("KC_LEFT", "KC_RIGHT") ∷ []

-- `PAIRS.some(([x, y]) => x === a && y === b)`
unfoldable pub is_pair : List (String × String) → (a b : String) → Bool
is_pair [] a b = false
is_pair ((x, y) ∷ ps) a b = if x === a && y === b then true else is_pair ps a b

abbrev pub module_keycodes : SocdPolicyId → Dict String
module_keycodes neutral =
    ("KC_W", "SOCD_NEUTRAL_W")
    ∷ ("KC_S", "SOCD_NEUTRAL_S")
    ∷ ("KC_A", "SOCD_NEUTRAL_A")
    ∷ ("KC_D", "SOCD_NEUTRAL_D")
    ∷ ("KC_UP", "SOCD_NEUTRAL_UP")
    ∷ ("KC_DOWN", "SOCD_NEUTRAL_DOWN")
    ∷ ("KC_LEFT", "SOCD_NEUTRAL_LEFT")
    ∷ ("KC_RIGHT", "SOCD_NEUTRAL_RIGHT")
    ∷ []
module_keycodes last_input_priority =
    ("KC_W", "SOCD_LAST_W")
    ∷ ("KC_S", "SOCD_LAST_S")
    ∷ ("KC_A", "SOCD_LAST_A")
    ∷ ("KC_D", "SOCD_LAST_D")
    ∷ ("KC_UP", "SOCD_LAST_UP")
    ∷ ("KC_DOWN", "SOCD_LAST_DOWN")
    ∷ ("KC_LEFT", "SOCD_LAST_LEFT")
    ∷ ("KC_RIGHT", "SOCD_LAST_RIGHT")
    ∷ []

unfoldable pub socd_module_keycode : SocdPolicyId → String → Option String
socd_module_keycode policy keycode = get keycode (module_keycodes policy)

-- A record of `verifiedFor`, all of which are for one QMK commit and were compiled only.
pub record VerificationRecord : Type 0 where
  pub catalog_version : String
  pub keyboard_id : String

abbrev pub verified : (catalog_version keyboard_id : String) → VerificationRecord
verified catalog_version keyboard_id = record {
  catalog_version = catalog_version;
  keyboard_id = keyboard_id;
}

abbrev pub verified_for : List VerificationRecord
verified_for =
    verified "0.33.13-1" "crkbd/rev1"
    ∷ verified "0.33.13-1" "mode/m256wh"
    ∷ verified "0.33.13-2" "crkbd/rev1"
    ∷ verified "0.33.13-2" "mode/m256wh"
    ∷ verified "0.33.13-3" "crkbd/rev1"
    ∷ verified "0.33.13-3" "mode/m256wh"
    ∷ []

-- The field `available` of the capabilities; the module is offered.
unfoldable pub socd_available : (catalog_version keyboard_id : String) → Bool
socd_available catalog_version keyboard_id =
    any (λ r. r.catalog_version === catalog_version && r.keyboard_id === keyboard_id) verified_for
