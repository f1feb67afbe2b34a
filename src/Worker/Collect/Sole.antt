-- ===== src/Worker/Collect/Sole.antt =====
-- services/worker/src/collect-artifact.ts: a build's artifact is the only firmware of its directory.
use Prim.Native.String.{◌++◌ as append}
use qmk_web_app.Common.{
  holds, find_sound, ℕ, ◌≤◌, ◌<◌, String, String-discrete, ◌===◌, ◌==◌, ltb, Bool, true, false,
  ◌&&◌, Option, none, some, List, [], ◌∷◌, find, any, filter, All, if◌then◌else◌, ◌≡◌, refl, sym,
  ap, ◌∙◌, subst, Bool-cases, inl, inr, arith,
}
use qmk_web_app.Common.Attempt.{done, done_injective}
use qmk_web_app.Common.Slices.{append-cons, append-empty}
use qmk_web_app.Worker.Collect.{
  CollectedArtifact, ArtifactError, Entry, accepted_extensions, max_artifact_bytes,
  expected_target_name, ends_with, dotted, expected_extension, is_firmware_name, sort_out,
  SortedOut, placed, read_artifact, as_artifact, sole_artifact, collect_artifact,
}

holds_sound : {P : Type 0} (d : Dec P) → holds d ≡ true → P
holds_sound (yes p) h = p
holds_sound (no n) h = absurd cc

holds_complete : {P : Type 0} (d : Dec P) → P → holds d ≡ true
holds_complete (yes p) q = refl
holds_complete (no n) q = absurd (n q)

===-refl : (s : String) → (s === s) ≡ true
===-refl s = holds_complete (String-discrete s s) refl

-- Where something is found, one of the list passes each test that follows from the search's.
find-any :
    {A : Type 0} (p q : A → Bool) (xs : List A) {x : A}
    → find p xs ≡ some x
    → ((y : A) → p y ≡ true → y ≡ x → q y ≡ true)
    → any q xs ≡ true
find-any p q [] e f = absurd cc
find-any p q (y ∷ ys) {x} e f = elim (Bool-cases (p y)) [
  | inl hit ↦ let passes = f y hit (ground arith) in ground arith
  | inr miss ↦ let passes = find-any p q ys (ground arith) f in ground arith
]

ends_with_self : (s : String) → ends_with s s ≡ true
unfolding ends_with
ends_with_self String.[] = ===-refl String.[]
ends_with_self (String.◌∷◌ c s) = rw (===-refl (String.◌∷◌ c s)) refl

ends_with-append : (p s : String) → ends_with s (append p s) ≡ true
unfolding ends_with
ends_with-append String.[] s = ap (ends_with s) (append-empty s) ∙ ends_with_self s
ends_with-append (String.◌∷◌ c p) s =
    ap (ends_with s) (append-cons c p s) ∙ ground (arith, ends_with-append p s)

-- A name that is expected is the target's, with an extension that is accepted.
abbrev pub IsExpected : (target extension name : String) → Type 0
IsExpected target extension name =
    (append target (dotted extension) ≡ name)
    × (any (λ x. x === extension) accepted_extensions ≡ true)

module _ (target name : String) {extension : String} where
  expected_extension-IsExpected :
      expected_extension target name ≡ some extension → IsExpected target extension name
  unfolding expected_extension
  expected_extension-IsExpected e = (
    holds_sound (String-discrete (append target (dotted extension)) name)
        (find_sound (λ x. append target (dotted x) === name) accepted_extensions e),
    find-any (λ x. append target (dotted x) === name) (λ x. x === extension) accepted_extensions e
        (λ x h same. holds_complete (String-discrete x extension) same),
  )

  expected-firmware : expected_extension target name ≡ some extension → is_firmware_name name ≡ true
  unfolding expected_extension is_firmware_name
  expected-firmware e =
      find-any (λ x. append target (dotted x) === name) (λ x. ends_with (dotted x) name)
        accepted_extensions e
        (λ x h same.
          subst (λ t. ends_with (dotted x) t ≡ true)
            (holds_sound (String-discrete (append target (dotted x)) name) h)
            (ends_with-append target (dotted x)))

manifest-firmware : is_firmware_name "qmk.json" ≡ false
unfolding is_firmware_name ends_with String-discrete
manifest-firmware = refl

-- qmk.json is no firmware.
qmk-firmware : (name : String) → (name === "qmk.json") ≡ true → is_firmware_name name ≡ false
qmk-firmware name h =
    subst (λ t. is_firmware_name t ≡ false) (sym (holds_sound (String-discrete name "qmk.json") h))
      manifest-firmware

-- The files of a directory whose names say that they are firmware.
abbrev pub firmware_files : List Entry → List Entry
firmware_files entries = filter (λ e. e.is_file && is_firmware_name e.name) entries

abbrev pub found_entries : List (Entry × String) → List Entry
found_entries [] = []
found_entries ((e, extension) ∷ found) = e ∷ found_entries found

module _ (target : String) where
  -- Where no name is unexpected, the firmware files are those that were expected.
  abbrev pub AllExpected : List Entry → SortedOut → Type 0
  AllExpected firmware sorted =
      (firmware ≡ found_entries sorted.0) × All (λ a. IsExpected target a.1 a.0.name) sorted.0

  placed-AllExpected :
      (is_file : Bool) (expected : Option String) (is_manifest is_firmware : Bool) (e : Entry)
      (firmware : List Entry) (rest : SortedOut)
      → ((x : String) → expected ≡ some x → IsExpected target x e.name)
      → ((x : String) → expected ≡ some x → is_firmware ≡ true)
      → (is_manifest ≡ true → is_firmware ≡ false)
      → (rest.1 ≡ [] → AllExpected firmware rest)
      → (placed is_file expected is_manifest is_firmware e rest).1 ≡ []
      → AllExpected
          (if is_file && is_firmware then e ∷ firmware else firmware)
          (placed is_file expected is_manifest is_firmware e rest)
  placed-AllExpected false x m f e fs rest named fw no_fw ih h = ih h
  placed-AllExpected true (some x) m true e fs (found, un) named fw no_fw ih h =
      (ap (◌∷◌ e) (ih h).0, (named x refl, (ih h).1))
  placed-AllExpected true (some x) m false e fs (found, un) named fw no_fw ih h =
      absurd (cc (fw x refl))
  placed-AllExpected true none true true e fs rest named fw no_fw ih h = absurd (cc (no_fw refl))
  placed-AllExpected true none true false e fs rest named fw no_fw ih h = ih h
  placed-AllExpected true none false true e fs (found, un) named fw no_fw ih h = absurd cc
  placed-AllExpected true none false false e fs rest named fw no_fw ih h = ih h

  sort_out-AllExpected :
      (entries : List Entry)
      → (sort_out target entries).1 ≡ []
      → AllExpected (firmware_files entries) (sort_out target entries)
  unfolding sort_out
  sort_out-AllExpected [] h = (refl, tt)
  sort_out-AllExpected (e ∷ entries) h =
      placed-AllExpected e.is_file (expected_extension target e.name) (e.name === "qmk.json")
        (is_firmware_name e.name) e (firmware_files entries) (sort_out target entries)
        (λ x. expected_extension-IsExpected target e.name) (λ x. expected-firmware target e.name)
        (qmk-firmware e.name) (sort_out-AllExpected entries) h

module _ (byte_length : String → ℕ) (digest : String → String) where
  -- An artifact that was read from an entry.
  pub record IsReadFrom (e : Entry) (a : CollectedArtifact) : Type 0 where
    pub named : a.filename ≡ e.name
    pub not_empty : 0 < e.size
    pub capped : e.size ≤ max_artifact_bytes
    pub measured : a.byte_size ≡ byte_length e.contents
    pub digested : a.sha256 ≡ digest e.contents
    pub same_contents : a.contents ≡ e.contents

  read_artifact-IsReadFrom :
      (e : Entry) (x : String) (a : CollectedArtifact)
      → read_artifact byte_length digest e x ≡ done a
      → IsReadFrom e a × (a.extension ≡ x)
  unfolding read_artifact
  read_artifact-IsReadFrom e x a h = elim (Bool-cases (e.size == 0)) [
    | inl empty ↦ absurd (ground arith)
    | inr some_size ↦ elim (Bool-cases (ltb max_artifact_bytes e.size)) [
      | inl over ↦ absurd (ground arith)
      | inr within ↦
          let some_bytes : 0 < e.size = ground arith in
          let few_bytes : e.size ≤ max_artifact_bytes = ground arith in
          let same : as_artifact byte_length digest e x ≡ a =
            done_injective {E = ArtifactError} (ground arith) in
          subst (λ b. IsReadFrom e b × (b.extension ≡ x)) same
            (
              record {
                named = refl;
                not_empty = some_bytes;
                capped = few_bytes;
                measured = refl;
                digested = refl;
                same_contents = refl;
              },
              refl,
            )
    ]
  ]

  -- What sole_artifact returns was read from the one entry that was found.
  sole_artifact-one :
      (target : String) (found : List (Entry × String)) (unexpected : List String)
      (a : CollectedArtifact)
      → sole_artifact byte_length digest target found unexpected ≡ done a
      → (unexpected ≡ [])
        × ((e : Entry) × (x : String) × (found ≡ (e, x) ∷ [])
            × (read_artifact byte_length digest e x ≡ done a))
  unfolding sole_artifact
  sole_artifact-one target found (n ∷ ns) a h = absurd cc
  sole_artifact-one target [] [] a h = absurd cc
  sole_artifact-one target ((e, x) ∷ []) [] a h = (refl, (e, x, refl, h))
  sole_artifact-one target (b ∷ c ∷ found) [] a h = absurd cc

  -- The artifact that collectArtifact returns was read from the only file of the directory with the
  -- name of a firmware: that file's name is the target's with an accepted extension, which is the
  -- artifact's, its size is positive and within the cap, and the artifact has its name, its contents,
  -- and their length and digest.
  pub collect_artifact-Sole :
      (entries : List Entry) (id keymap : String) (a : CollectedArtifact)
      → collect_artifact byte_length digest entries id keymap ≡ done a
      → (e : Entry) × (firmware_files entries ≡ e ∷ [])
        × IsExpected (expected_target_name id keymap) a.extension a.filename
        × IsReadFrom e a
  unfolding collect_artifact
  collect_artifact-Sole entries id keymap a h =
      let target = expected_target_name id keymap in
      let sorted = sort_out target entries in
      let (none_unexpected, (e, x, one, read)) = sole_artifact-one target sorted.0 sorted.1 a h in
      let (files, all_named) = sort_out-AllExpected target entries none_unexpected in
      let (from, ext) = read_artifact-IsReadFrom e x a read in
      let (named, _) = subst (λ f. All (λ b. IsExpected target b.1 b.0.name) f) one all_named in
      (
        e,
        files ∙ ap found_entries one,
        subst (λ y. IsExpected target y a.filename) (sym ext)
            (subst (λ y. IsExpected target x y) (sym from.named) named),
        from,
      )
