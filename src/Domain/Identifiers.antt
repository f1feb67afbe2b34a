-- ===== src/Domain/Identifiers.antt =====
-- packages/domain/src/identifiers.ts: the shape of keyboard ids, layout names and the names of
-- generated keymaps. The regular expressions are automata on the characters. `normalize('NFC')`
-- of the language's library is the parameter `nfc`.
pub mod Paths
pub mod Names
use Prim.Native.Char.{Char, code}
use Prim.Native.String.{◌++◌ as append}
use qmk_web_app.Common.{
  ℕ, zero, suc, ◌+◌, ◌-◌, ◌*◌, String, ◌===◌, Bool, true, false, not, ◌&&◌, ◌||◌, Option, none,
  some, List, [], ◌∷◌, ltb, leb, ◌==◌, if◌then◌else◌, any, length,
}
use qmk_web_app.Common.Dict.{has}
use qmk_web_app.Common.Texts.{starts_with, slice_from, slice_to, text_length, every_char}
use qmk_web_app.Common.Attempt.{Attempt, done, thrown}

-- An `IdentifierError`, by its message; `field` names the identifier.
pub data Fault : Type 0 where
  empty too_long not_normalised : Fault
  control_character : (offset : ℕ) → Fault
  wrong_shape too_many_segments relative_segment unknown_keyboard not_hexadecimal : Fault
  bad_keymap_name : Fault

-- `value.length`, which counts the units of UTF-16.
unfoldable pub utf16_units : Char → ℕ
utf16_units c = if ltb 65535 (code c) then 2 else 1

unfoldable pub utf16_length : String → ℕ
utf16_length String.[] = 0
utf16_length (String.◌∷◌ c t) = utf16_units c + utf16_length t

abbrev pub between : (first last : ℕ) → Char → Bool
between first last c = leb first (code c) && leb (code c) last

-- `[a-z0-9]`, `[a-z0-9_-]`, `[A-Za-z0-9_]` and `[0-9a-f]`
unfoldable pub is_alphanumeric : Char → Bool
is_alphanumeric c = between 97 122 c || between 48 57 c

unfoldable pub is_segment_char : Char → Bool
unfolding is_alphanumeric
is_segment_char c = is_alphanumeric c || code c == 95 || code c == 45

unfoldable pub is_macro_char : Char → Bool
unfolding is_alphanumeric
is_macro_char c = between 65 90 c || is_alphanumeric c || code c == 95

unfoldable pub is_hex : Char → Bool
is_hex c = between 48 57 c || between 97 102 c

-- `KEYBOARD_ID_RE`; the flag tells whether a segment begins here.
unfoldable pub matches_keyboard_id : (begins : Bool) → String → Bool
matches_keyboard_id begins String.[] = not begins
matches_keyboard_id true (String.◌∷◌ c t) = is_alphanumeric c && matches_keyboard_id false t
matches_keyboard_id false (String.◌∷◌ c t) =
    let next = matches_keyboard_id true t in
    let more = matches_keyboard_id false t in
    if code c == 47 then next else is_segment_char c && more

unfoldable pub matches_layout_name : String → Bool
matches_layout_name value =
    starts_with "LAYOUT" value && every_char is_macro_char (slice_from 6 value)

unfoldable pub matches_generated_keymap : String → Bool
matches_generated_keymap value =
    let hex = slice_from 4 value in
    starts_with "qwa_" value
    && every_char is_hex hex
    && leb 8 (text_length hex)
    && leb (text_length hex) 32

-- The offset of the first control character.
unfoldable pub control_offset : (i : ℕ) → String → Option ℕ
control_offset i String.[] = none
control_offset i (String.◌∷◌ c t) =
    let rest = control_offset (i + utf16_units c) t in
    if ltb (code c) 32 || code c == 127 then some i else rest

-- `value.split('/')`
abbrev pub onto_first : Char → List String → List String
onto_first c [] = String.◌∷◌ c String.[] ∷ []
onto_first c (s ∷ ss) = String.◌∷◌ c s ∷ ss

unfoldable pub split_slashes : String → List String
split_slashes String.[] = String.[] ∷ []
split_slashes (String.◌∷◌ c t) =
    let rest = split_slashes t in if code c == 47 then String.[] ∷ rest else onto_first c rest

abbrev pub max_keyboard_id_length : ℕ
max_keyboard_id_length = 128

abbrev pub max_segments : ℕ
max_segments = 8

abbrev pub max_layout_name_length : ℕ
max_layout_name_length = 96

unfoldable pub no_unicode_surprises : (nfc : String → String) → String → Attempt Fault (Unit {0})
no_unicode_surprises nfc value =
    if nfc value === value
    then elim (control_offset 0 value) [ none ↦ done tt | some i ↦ thrown (control_character i) ]
    else thrown not_normalised

unfoldable pub segments_fault : List String → Attempt Fault (Unit {0})
segments_fault segments =
    if ltb max_segments (length segments)
    then thrown too_many_segments
    else if any (λ s. s === "." || s === "..") segments
    then thrown relative_segment
    else done tt

unfoldable pub valid_keyboard_id_shape : (nfc : String → String) → String → Attempt Fault (Unit {0})
valid_keyboard_id_shape nfc value =
    if utf16_length value == 0
    then thrown empty
    else if ltb max_keyboard_id_length (utf16_length value)
    then thrown too_long
    else elim (no_unicode_surprises nfc value) [
      | thrown e ↦ thrown e
      | done u ↦
          if matches_keyboard_id true value
          then segments_fault (split_slashes value)
          else thrown wrong_shape
    ]

unfoldable pub is_valid_keyboard_id_shape : (nfc : String → String) → String → Bool
is_valid_keyboard_id_shape nfc value = elim (valid_keyboard_id_shape nfc value) [
  | done u ↦ true
  | thrown e ↦ false
]

unfoldable pub resolve_keyboard_path_segments :
    (nfc : String → String) (known : List String) → String → Attempt Fault (List String)
resolve_keyboard_path_segments nfc known id = elim (valid_keyboard_id_shape nfc id) [
  | thrown e ↦ thrown e
  | done u ↦ if has id known then done (split_slashes id) else thrown unknown_keyboard
]

unfoldable pub valid_layout_name : (nfc : String → String) → String → Attempt Fault (Unit {0})
valid_layout_name nfc value =
    if ltb max_layout_name_length (utf16_length value)
    then thrown too_long
    else elim (no_unicode_surprises nfc value) [
      | thrown e ↦ thrown e
      | done u ↦ if matches_layout_name value then done tt else thrown wrong_shape
    ]

-- `text.replace(/-/g, '')`
unfoldable pub without_dashes : String → String
without_dashes String.[] = String.[]
without_dashes (String.◌∷◌ c t) =
    let rest = without_dashes t in if code c == 45 then rest else String.◌∷◌ c rest

abbrev nth_char : ℕ → String → Char → Char
nth_char n String.[] c = c
nth_char zero (String.◌∷◌ d t) c = d
nth_char (suc n) (String.◌∷◌ d t) c = nth_char n t c

-- `text.toLowerCase()`; no character outside of ASCII becomes a hexadecimal digit by it.
abbrev pub lower_char : Char → Char
lower_char c = if between 65 90 c then nth_char (code c - 65) "abcdefghijklmnopqrstuvwxyz" c else c

unfoldable pub to_lower : String → String
to_lower String.[] = String.[]
to_lower (String.◌∷◌ c t) = String.◌∷◌ (lower_char c) (to_lower t)

unfoldable pub generated_keymap_name : (build_id : String) → Attempt Fault String
generated_keymap_name build_id =
    let hex = to_lower (without_dashes build_id) in
    if every_char is_hex hex && leb 8 (text_length hex) && leb (text_length hex) 32
    then (let name = append "qwa_" (slice_to 32 hex) in
        if matches_generated_keymap name then done name else thrown bad_keymap_name)
    else thrown not_hexadecimal
