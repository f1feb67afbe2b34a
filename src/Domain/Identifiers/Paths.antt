-- ===== src/Domain/Identifiers/Paths.antt =====
-- What a resolved keyboard id is as a path.
use Prim.Native.Char.{Char, code}
use Prim.Native.String.{◌++◌ as append}
use Prim.Native.String.append.{cons as append_step, nil as append_nil}
use text.Mathlib.TextEquality.{Char-path}
use qmk_web_app.Common.{
  ◌≤◌, ◌≡◌, refl, ap, sym, ◌∙◌, subst, arith, String, Bool, true, false, ◌&&◌, Bool-cases, inl, inr,
  List, [], ◌∷◌, ◌==◌, if◌then◌else◌, length, All,
}
use qmk_web_app.Common.Dict.{has}
use qmk_web_app.Common.Texts.{every_char}
use qmk_web_app.Common.Attempt.{done, Attempt-cases}
use qmk_web_app.Domain.Identifiers.{
  is_alphanumeric, is_segment_char, matches_keyboard_id, split_slashes, onto_first, max_segments,
  segments_fault, valid_keyboard_id_shape, resolve_keyboard_path_segments,
}

-- `segments.join('/')`
unfoldable pub join_slashes : List String → String
join_slashes [] = String.[]
join_slashes (s ∷ []) = s
join_slashes (s ∷ t ∷ ts) = append s (String.◌∷◌ "/" (join_slashes (t ∷ ts)))

-- A name of a directory below the one it stands in: it has a character, it starts with a letter or
-- a digit, and no character of it separates directories.
unfoldable pub names_directory : String → Bool
names_directory String.[] = false
names_directory (String.◌∷◌ c t) = is_alphanumeric c && every_char is_segment_char t

abbrev pub Named : (begins : Bool) → List String → Type 0
Named begins [] = ⊥
Named true (s ∷ ss) = All (λ t. names_directory t ≡ true) (s ∷ ss)
Named false (s ∷ ss) =
    (every_char is_segment_char s ≡ true) × All (λ t. names_directory t ≡ true) ss

onto_first-Named :
    (begins : Bool) (c : Char) (ss : List String)
    → (if begins then is_alphanumeric c else is_segment_char c) ≡ true
    → Named false ss
    → Named begins (onto_first c ss)
unfolding names_directory every_char
onto_first-Named true c (s ∷ ss) e (h, hs) = (ground arith, hs)
onto_first-Named false c (s ∷ ss) e (h, hs) = (ground arith, hs)
onto_first-Named begins c [] e h = absurd h

-- A slash is no letter and no digit.
no_slash : (c : Char) → is_alphanumeric c ≡ true → code c == 47 ≡ false
unfolding is_alphanumeric
no_slash c e = ground arith

Named-directories : (ss : List String) → Named true ss → All (λ t. names_directory t ≡ true) ss
Named-directories [] h = absurd h
Named-directories (s ∷ ss) h = h

join_empty : join_slashes (String.[] ∷ []) ≡ String.[]
unfolding join_slashes
join_empty = refl

split_slashes-Named :
    (begins : Bool) (t : String)
    → matches_keyboard_id begins t ≡ true
    → Named begins (split_slashes t)
unfolding split_slashes matches_keyboard_id every_char
split_slashes-Named true String.[] e = cc
split_slashes-Named false String.[] e = (refl, tt)
split_slashes-Named true (String.◌∷◌ c t) e =
    let start : is_alphanumeric c ≡ true = ground arith in
    let other : code c == 47 ≡ false = no_slash c start in
    rw other
      (onto_first-Named true c (split_slashes t) start (split_slashes-Named false t (ground arith)))
split_slashes-Named false (String.◌∷◌ c t) e = elim (Bool-cases (code c == 47)) [
  | inl slash ↦
      rw slash
        (refl, Named-directories (split_slashes t) (split_slashes-Named true t (ground arith)))
  | inr other ↦ rw other (
      onto_first-Named false c (split_slashes t) (ground arith)
        (split_slashes-Named false t (ground arith)))
]

onto_first-join :
    (c : Char) (ss : List String)
    → (ss ≡ [] → ⊥)
    → join_slashes (onto_first c ss) ≡ String.◌∷◌ c (join_slashes ss)
unfolding join_slashes
onto_first-join c [] h = absurd (h refl)
onto_first-join c (s ∷ []) h = refl
onto_first-join c (s ∷ t ∷ ts) h = λ i. append_step c s (String.◌∷◌ "/" (join_slashes (t ∷ ts))) i

onto_first-nonempty : (c : Char) (ss : List String) → onto_first c ss ≡ [] → ⊥
onto_first-nonempty c [] e = cc
onto_first-nonempty c (s ∷ ss) e = cc

split_slashes-nonempty : (t : String) → split_slashes t ≡ [] → ⊥
unfolding split_slashes
split_slashes-nonempty String.[] e = cc
split_slashes-nonempty (String.◌∷◌ c t) e = elim (Bool-cases (code c == 47)) [
  | inl slash ↦ ground arith
  | inr other ↦ onto_first-nonempty c (split_slashes t) (rw other at e)
]

slash_first :
    (ss : List String)
    → (ss ≡ [] → ⊥)
    → join_slashes (String.[] ∷ ss) ≡ String.◌∷◌ "/" (join_slashes ss)
unfolding join_slashes
slash_first [] h = absurd (h refl)
slash_first (s ∷ ss) h = λ i. append_nil (String.◌∷◌ "/" (join_slashes (s ∷ ss))) i

-- The parts between the slashes, joined by slashes, are the text.
join-split_slashes : (t : String) → join_slashes (split_slashes t) ≡ t
unfolding split_slashes
join-split_slashes String.[] = join_empty
join-split_slashes (String.◌∷◌ c t) = elim (Bool-cases (code c == 47)) [
  | inl slash ↦
      let same : c ≡ "/" = Char-path c "/" (ground arith) in
      rw slash (
        slash_first (split_slashes t) (split_slashes-nonempty t)
        ∙ (λ i. String.◌∷◌ (sym same i) (join-split_slashes t i)))
  | inr other ↦ rw other (
      onto_first-join c (split_slashes t) (split_slashes-nonempty t)
      ∙ ap (String.◌∷◌ c) (join-split_slashes t))
]

shape_done :
    (nfc : String → String) (id : String)
    → valid_keyboard_id_shape nfc id ≡ done tt
    → (matches_keyboard_id true id ≡ true) × (segments_fault (split_slashes id) ≡ done tt)
unfolding valid_keyboard_id_shape
shape_done nfc id e = ground arith

segments_few : (ss : List String) → segments_fault ss ≡ done tt → length ss ≤ max_segments
unfolding segments_fault
segments_few ss e = ground arith

at_least_one : (ss : List String) → Named true ss → 1 ≤ length ss
at_least_one [] h = absurd h
at_least_one (s ∷ ss) h = omega arith

abbrev Safe : (known : List String) (id : String) → List String → Type 0
Safe known id ss =
    (has id known ≡ true)
    × (join_slashes ss ≡ id)
    × (1 ≤ length ss)
    × (length ss ≤ max_segments)
    × All (λ s. names_directory s ≡ true) ss

-- An id that is resolved to segments is one of the known ids, the segments joined by slashes are the
-- id, there are between one and eight of them, and each is the name of a directory: it starts with a
-- lower-case letter or a digit, goes on with these, `_` and `-` only, and so is neither empty nor `.`
-- nor `..` and has no separator.
pub resolve_keyboard_path_segments-safe :
    (nfc : String → String) (known : List String) (id : String) (segments : List String)
    → resolve_keyboard_path_segments nfc known id ≡ done segments
    → (has id known ≡ true)
      × (join_slashes segments ≡ id)
      × (1 ≤ length segments)
      × (length segments ≤ max_segments)
      × All (λ s. names_directory s ≡ true) segments
unfolding resolve_keyboard_path_segments
resolve_keyboard_path_segments-safe nfc known id segments e =
    elim (Attempt-cases (valid_keyboard_id_shape nfc id)) [
      | inr (fault, bad) ↦ absurd (ground arith)
      | inl (u, fine) ↦ elim (Bool-cases (has id known)) [
        | inr unknown ↦ absurd (ground arith)
        | inl listed ↦
            let same : split_slashes id ≡ segments = ground arith in
            let (matched, few) = shape_done nfc id fine in
            let named = split_slashes-Named true id matched in
            subst (Safe known id) same (
              listed,
              join-split_slashes id,
              at_least_one (split_slashes id) named,
              segments_few (split_slashes id) few,
              Named-directories (split_slashes id) named,
            )
      ]
    ]
