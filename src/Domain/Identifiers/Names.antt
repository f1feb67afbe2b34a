-- ===== src/Domain/Identifiers/Names.antt =====
-- What a generated keymap name is.
use Prim.Native.Char.{Char}
use Prim.Native.String.{◌++◌ as append}
use Prim.Native.String.append.{cons as append_step, nil as append_nil}
use qmk_web_app.Common.{
  ◌≡◌, refl, ap, ◌∙◌, arith, String, Bool, true, false, ◌&&◌, Bool-cases, inl, inr, ltb, leb,
  if◌then◌else◌,
}
use qmk_web_app.Common.Texts.{starts_with, slice_from, text_length, every_char, slice_to_all}
use qmk_web_app.Common.Attempt.{done, thrown}
use qmk_web_app.Domain.Identifiers.{
  is_hex, matches_generated_keymap, without_dashes, to_lower, generated_keymap_name,
  not_hexadecimal,
}

-- `/^[0-9a-f]{8,32}$/` of the build id without its dashes, in lower case.
unfoldable pub is_hex_id : (build_id : String) → Bool
is_hex_id build_id =
    let hex = to_lower (without_dashes build_id) in
    every_char is_hex hex && leb 8 (text_length hex) && leb (text_length hex) 32

prefixed :
    (hex : String)
    → append "qwa_" hex ≡ String.◌∷◌ "q" (String.◌∷◌ "w" (String.◌∷◌ "a" (String.◌∷◌ "_" hex)))
prefixed hex =
    push "q" "wa_"
    ∙ ap (String.◌∷◌ "q") (
        push "w" "a_"
        ∙ ap (String.◌∷◌ "w") (
            push "a" "_"
            ∙ ap (String.◌∷◌ "a")
                (push "_" String.[] ∙ ap (String.◌∷◌ "_") (λ i. append_nil hex i))))
  where
    push : (c : Char) (s : String) → append (String.◌∷◌ c s) hex ≡ String.◌∷◌ c (append s hex)
    push c s = λ i. append_step c s hex i

prefix_matches :
    (hex : String)
    → every_char is_hex hex && leb 8 (text_length hex) && leb (text_length hex) 32 ≡ true
    → matches_generated_keymap (append "qwa_" hex) ≡ true
unfolding matches_generated_keymap starts_with slice_from
prefix_matches hex e = rw (prefixed hex) e

-- A build id of 8 to 32 hexadecimal digits, however it is divided by dashes and whatever the case of
-- its letters, has a keymap name: the fixed prefix and the digits. The second check of the code
-- never fails. For every other build id the code throws.
pub generated_keymap_name_lem :
    (build_id : String)
    → generated_keymap_name build_id ≡ (
        if is_hex_id build_id
        then done (append "qwa_" (to_lower (without_dashes build_id)))
        else thrown not_hexadecimal)
unfolding generated_keymap_name is_hex_id
generated_keymap_name_lem build_id =
    let hex = to_lower (without_dashes build_id) in
    elim (Bool-cases (is_hex_id build_id)) [
      | inr other ↦ rw other refl
      | inl fits ↦
          let short : ltb 32 (text_length hex) ≡ false = ground arith in
          rw (fits, slice_to_all 32 hex short, prefix_matches hex fits) refl
    ]
