-- ===== src/Worker/Keys/Inverse.antt =====
-- A key says which build it belongs to.
use Prim.Native.String.{◌++◌ as append}
use qmk_web_app.Common.{
  ℕ, suc, ◌+◌, ◌≡◌, refl, sym, ap, ◌∙◌, subst, arith, String, String-discrete, ◌===◌, true, ◌||◌,
  Bool-cases, some, Option-cases, inl, inr, ◌⊎◌, ◌↔◌, if◌then◌else◌,
}
use qmk_web_app.Common.Texts.{slice_from, slice_to, text_length, every_char}
use qmk_web_app.Common.Slices.{
  prefix-slice, slices, starts_with-append, slice_from-append, slice_to-append,
}
use qmk_web_app.Common.Attempt.{done, thrown, done_injective}
use qmk_web_app.Worker.Keys.{
  no_uuid, is_dash_place, matches_uuid_from, is_uuid, artifact_key, log_key, is_id_char, matched_id,
  build_id_from_key,
}

uuid_chars :
    (i : ℕ) (t : String)
    → matches_uuid_from i t ≡ true
    → (i + text_length t ≡ 36) × (every_char is_id_char t ≡ true)
unfolding matches_uuid_from text_length every_char is_id_char
uuid_chars i String.[] e = (ground arith, refl)
uuid_chars i (String.◌∷◌ c t) e =
    let (long, all) = uuid_chars (suc i) t (ground arith) in
    (
      omega (arith, long),
      elim (Bool-cases (is_dash_place i)) [ inl dash ↦ ground arith | inr digit ↦ ground arith ],
    )

-- A key that was put together is taken apart to its id.
matched-key :
    (id suffix : String)
    → is_uuid id ≡ true
    → (suffix === "/firmware" || suffix === "/log") ≡ true
    → matched_id (append "builds/" (append id suffix)) ≡ some id
unfolding matched_id is_uuid text_length
matched-key id suffix uuid known =
    let (long, chars) = uuid_chars 0 id uuid in
    let len : text_length id ≡ 36 = omega (arith, long) in
    let rest : slice_from 7 (append "builds/" (append id suffix)) ≡ append id suffix =
      slice_from-append "builds/" (append id suffix) in
    let front : slice_to 36 (append id suffix) ≡ id =
      subst (λ n. slice_to n (append id suffix) ≡ id) len (slice_to-append id suffix) in
    let back : slice_from 36 (append id suffix) ≡ suffix =
      subst (λ n. slice_from n (append id suffix) ≡ suffix) len (slice_from-append id suffix) in
    rw (starts_with-append "builds/" (append id suffix), rest, front, back, len, chars, known) refl

-- A key that is taken apart was put together from its id and one of the two suffixes.
key-matched :
    (key id : String)
    → matched_id key ≡ some id
    → (key ≡ append "builds/" (append id "/firmware")) ⊎ (key ≡ append "builds/" (append id "/log"))
unfolding matched_id text_length
key-matched key id e =
    let rest = slice_from 7 key in
    let same : slice_to 36 rest ≡ id = ground arith in
    let whole : append "builds/" rest ≡ key = prefix-slice "builds/" key (ground arith) in
    let parts : append id (slice_from 36 rest) ≡ rest =
      subst (λ x. append x (slice_from 36 rest) ≡ rest) same (slices 36 rest) in
    let put_together : append "builds/" (append id (slice_from 36 rest)) ≡ key =
      ap (append "builds/") parts ∙ whole in
    elim (Bool-cases (slice_from 36 rest === "/firmware")) [
      | inl firmware ↦
          let is : slice_from 36 rest ≡ "/firmware" = ground arith in
          inl (sym (subst (λ x. append "builds/" (append id x) ≡ key) is put_together))
      | inr other ↦
          let is : slice_from 36 rest ≡ "/log" = ground arith in
          inr (sym (subst (λ x. append "builds/" (append id x) ≡ key) is put_together))
    ]

build_id_from_key-uuid :
    (key id : String)
    → build_id_from_key key ≡ some id
    → (matched_id key ≡ some id) × (is_uuid id ≡ true)
unfolding build_id_from_key
build_id_from_key-uuid key id e = elim (Option-cases (matched_id key)) [
  | inl missing ↦ absurd (ground arith)
  | inr (j, found) ↦ elim (Bool-cases (is_uuid j)) [
    | inr other ↦ absurd (ground arith)
    | inl uuid ↦
        let same : j ≡ id = ground arith in
        (found ∙ ap some same, subst (λ x. is_uuid x ≡ true) same uuid)
  ]
]

taken_back :
    (id suffix key : String)
    → (suffix === "/firmware" || suffix === "/log") ≡ true
    → (if is_uuid id then done (append "builds/" (append id suffix)) else thrown no_uuid) ≡ done key
    → build_id_from_key key ≡ some id
unfolding build_id_from_key
taken_back id suffix key known e = elim (Bool-cases (is_uuid id)) [
  | inr other ↦ absurd (ground arith)
  | inl uuid ↦
      let same : append "builds/" (append id suffix) ≡ key = done_injective (rw uuid at e) in
      subst (λ k. build_id_from_key k ≡ some id) same
        (rw (matched-key id suffix uuid known, build_id_from_key) (rw uuid refl))
]

-- A key of either kind that is made from a build id is taken back to that id; and a key that is taken
-- back to a build id is the key of the artifact or of the log of that build.
pub build_id_from_key_lem :
    (key id : String)
    → ((artifact_key id ≡ done key) ⊎ (log_key id ≡ done key)) ↔ (build_id_from_key key ≡ some id)
unfolding artifact_key log_key String-discrete
build_id_from_key_lem key id = (there, back)
  where
    there : (artifact_key id ≡ done key) ⊎ (log_key id ≡ done key) → build_id_from_key key ≡ some id
    there (inl e) = taken_back id "/firmware" key refl e
    there (inr e) = taken_back id "/log" key refl e

    back : build_id_from_key key ≡ some id → (artifact_key id ≡ done key) ⊎ (log_key id ≡ done key)
    back e =
        let (found, uuid) = build_id_from_key-uuid key id e in
        elim (key-matched key id found) [
          | inl same ↦ inl (rw (uuid, same) refl)
          | inr same ↦ inr (rw (uuid, same) refl)
        ]
