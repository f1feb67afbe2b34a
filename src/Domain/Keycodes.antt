-- ===== src/Domain/Keycodes.antt =====
-- packages/domain/src/keycodes.ts: the keycodes that the product supports.
pub mod Named
use Prim.Native.String.{◌++◌ as append}
use qmk_web_app.Common.{ℕ, zero, suc, ◌+◌, String, Bool, List, [], ◌∷◌, ◌++◌, map}
use qmk_web_app.Common.Dict.{has}
use qmk_web_app.Common.Decimal.{decimal}

pub data KeycodeGroup : Type 0 where
  letters digits punctuation modifiers navigation : KeycodeGroup
  editing function_keys numpad special : KeycodeGroup

pub record SupportedKeycode : Type 0 where
  pub name : String
  pub group : KeycodeGroup
  pub label : String

unfoldable pub kc : (name : String) → KeycodeGroup → (label : String) → SupportedKeycode
kc name group label = record { name = name; group = group; label = label }

-- `text.split('').map(...)`, a keycode for each character.
unfoldable pub letter_keycodes : String → List SupportedKeycode
unfolding kc
letter_keycodes String.[] = []
letter_keycodes (String.◌∷◌ c s) =
    let ch = String.◌∷◌ c String.[] in kc (append "KC_" ch) letters ch ∷ letter_keycodes s

abbrev pub letter_list : List SupportedKeycode
letter_list = letter_keycodes "ABCDEFGHIJKLMNOPQRSTUVWXYZ"

abbrev pub digit_list : List SupportedKeycode
digit_list =
    kc "KC_1" digits "1"
    ∷ kc "KC_2" digits "2"
    ∷ kc "KC_3" digits "3"
    ∷ kc "KC_4" digits "4"
    ∷ kc "KC_5" digits "5"
    ∷ kc "KC_6" digits "6"
    ∷ kc "KC_7" digits "7"
    ∷ kc "KC_8" digits "8"
    ∷ kc "KC_9" digits "9"
    ∷ kc "KC_0" digits "0"
    ∷ []

abbrev pub punctuation_list : List SupportedKeycode
punctuation_list =
    kc "KC_MINUS" punctuation "-"
    ∷ kc "KC_EQUAL" punctuation "="
    ∷ kc "KC_LEFT_BRACKET" punctuation "["
    ∷ kc "KC_RIGHT_BRACKET" punctuation "]"
    ∷ kc "KC_BACKSLASH" punctuation "\\"
    ∷ kc "KC_SEMICOLON" punctuation ";"
    ∷ kc "KC_QUOTE" punctuation "'"
    ∷ kc "KC_GRAVE" punctuation "`"
    ∷ kc "KC_COMMA" punctuation ","
    ∷ kc "KC_DOT" punctuation "."
    ∷ kc "KC_SLASH" punctuation "/"
    ∷ []

abbrev pub modifier_list : List SupportedKeycode
modifier_list =
    kc "KC_LEFT_CTRL" modifiers "LCtrl"
    ∷ kc "KC_LEFT_SHIFT" modifiers "LShift"
    ∷ kc "KC_LEFT_ALT" modifiers "LAlt"
    ∷ kc "KC_LEFT_GUI" modifiers "LGui"
    ∷ kc "KC_RIGHT_CTRL" modifiers "RCtrl"
    ∷ kc "KC_RIGHT_SHIFT" modifiers "RShift"
    ∷ kc "KC_RIGHT_ALT" modifiers "RAlt"
    ∷ kc "KC_RIGHT_GUI" modifiers "RGui"
    ∷ []

abbrev pub navigation_list : List SupportedKeycode
navigation_list =
    kc "KC_UP" navigation "Up"
    ∷ kc "KC_DOWN" navigation "Down"
    ∷ kc "KC_LEFT" navigation "Left"
    ∷ kc "KC_RIGHT" navigation "Right"
    ∷ kc "KC_HOME" navigation "Home"
    ∷ kc "KC_END" navigation "End"
    ∷ kc "KC_PAGE_UP" navigation "PgUp"
    ∷ kc "KC_PAGE_DOWN" navigation "PgDn"
    ∷ []

abbrev pub editing_list : List SupportedKeycode
editing_list =
    kc "KC_ENTER" editing "Enter"
    ∷ kc "KC_ESCAPE" editing "Esc"
    ∷ kc "KC_BACKSPACE" editing "Bksp"
    ∷ kc "KC_TAB" editing "Tab"
    ∷ kc "KC_SPACE" editing "Space"
    ∷ kc "KC_DELETE" editing "Del"
    ∷ kc "KC_INSERT" editing "Ins"
    ∷ kc "KC_CAPS_LOCK" editing "Caps"
    ∷ []

-- `Array.from({ length }, (_, i) => ...)`, from the index `i` on.
unfoldable pub function_keycodes : (i length : ℕ) → List SupportedKeycode
unfolding kc
function_keycodes i zero = []
function_keycodes i (suc n) =
    kc (append "KC_F" (decimal (i + 1))) function_keys (append "F" (decimal (i + 1)))
    ∷ function_keycodes (suc i) n

abbrev pub function_list : List SupportedKeycode
function_list = function_keycodes 0 12

abbrev pub numpad_list : List SupportedKeycode
numpad_list =
    kc "KC_KP_1" numpad "P1"
    ∷ kc "KC_KP_2" numpad "P2"
    ∷ kc "KC_KP_3" numpad "P3"
    ∷ kc "KC_KP_4" numpad "P4"
    ∷ kc "KC_KP_5" numpad "P5"
    ∷ kc "KC_KP_6" numpad "P6"
    ∷ kc "KC_KP_7" numpad "P7"
    ∷ kc "KC_KP_8" numpad "P8"
    ∷ kc "KC_KP_9" numpad "P9"
    ∷ kc "KC_KP_0" numpad "P0"
    ∷ kc "KC_KP_DOT" numpad "P."
    ∷ kc "KC_KP_PLUS" numpad "P+"
    ∷ kc "KC_KP_MINUS" numpad "P-"
    ∷ kc "KC_KP_ASTERISK" numpad "P*"
    ∷ kc "KC_KP_SLASH" numpad "P/"
    ∷ kc "KC_KP_ENTER" numpad "PEnt"
    ∷ kc "KC_NUM_LOCK" numpad "NumLk"
    ∷ []

abbrev pub special_list : List SupportedKeycode
special_list = kc "KC_TRANSPARENT" special "Transparent" ∷ kc "KC_NO" special "None" ∷ []

abbrev pub supported_keycodes : List SupportedKeycode
supported_keycodes =
    letter_list ++ digit_list ++ punctuation_list ++ modifier_list ++ navigation_list
    ++ editing_list ++ function_list ++ numpad_list ++ special_list

unfoldable pub supported_keycode_names : List String
unfolding kc letter_keycodes function_keycodes
supported_keycode_names = map (λ k. k.name) supported_keycodes

unfoldable pub is_supported_keycode : String → Bool
is_supported_keycode name = has name supported_keycode_names

unfoldable pub mod_tap_modifiers : List String
unfolding kc
mod_tap_modifiers = map (λ m. m.name) modifier_list

abbrev pub socd_directional_keycodes : List String
socd_directional_keycodes =
    "KC_W" ∷ "KC_A" ∷ "KC_S" ∷ "KC_D" ∷ "KC_UP" ∷ "KC_DOWN" ∷ "KC_LEFT" ∷ "KC_RIGHT" ∷ []
