-- ===== src/Domain/Keycodes/Named.antt =====
-- How the supported keycodes are spelled.
use qmk_web_app.Common.{
  String, ◌≡◌, refl, subst, arith, String-discrete, ◌===◌, Bool-cases, true, inl, inr, List, [],
  ◌∷◌, All,
}
use qmk_web_app.Common.Dict.{has}
use qmk_web_app.Common.Decimal.{decimal}
use qmk_web_app.Common.Texts.{starts_with, all, all-All}
use qmk_web_app.Domain.Keycodes.{
  kc, letter_keycodes, function_keycodes, supported_keycode_names, is_supported_keycode,
  mod_tap_modifiers,
}

-- What every text of a set has, one that is found in the set has.
pub has-All :
    (P : String → Type 0) (k : String) (ks : List String) → All P ks → has k ks ≡ true → P k
unfolding has
has-All P k [] h e = cc
has-All P k (j ∷ js) (p, h) e = elim (Bool-cases (j === k)) [
  | inl hit ↦ let same : j ≡ k = ground arith in subst P same p
  | inr miss ↦ has-All P k js h (ground arith)
]

all_prefixed : all (starts_with "KC_") supported_keycode_names ≡ true
unfolding all starts_with supported_keycode_names kc letter_keycodes function_keycodes decimal
all_prefixed = refl

pub is_supported_keycode-prefix :
    (k : String) → is_supported_keycode k ≡ true → starts_with "KC_" k ≡ true
unfolding is_supported_keycode
is_supported_keycode-prefix k e =
    has-All (λ j. starts_with "KC_" j ≡ true) k supported_keycode_names
      (all-All (starts_with "KC_") supported_keycode_names all_prefixed) e

modifiers_supported : all is_supported_keycode mod_tap_modifiers ≡ true
unfolding all is_supported_keycode has String-discrete mod_tap_modifiers supported_keycode_names kc
    letter_keycodes function_keycodes decimal
modifiers_supported = refl
