-- ===== src/Generator/Keymap/Files.antt =====
-- The files that are generated: when there are some, and what is reported of them.
use Prim.Native.String.{◌++◌ as append}
use qmk_web_app.Common.{
  ℕ, ◌<◌, ◌≡◌, refl, ap, ◌∙◌, subst, arith, String, ◌===◌, true, Bool-cases, Option, none, some,
  Option-cases, inl, inr, ◌⊎◌, List, [], ◌∷◌, ltb, find, find_sound, All,
}
use qmk_web_app.Common.Sort.{All-sort}
use qmk_web_app.Common.Texts.{all-All}
use qmk_web_app.Common.Attempt.{done, thrown, bind-Returns, Returns}
use qmk_web_app.Domain.Configuration.{Macro, SocdConfiguration, Configuration}
use qmk_web_app.Domain.Catalog.{
  CatalogLayout, SupportedCatalogKeyboard, CatalogKeyboard, supported, unsupported, Catalog,
}
use qmk_web_app.Domain.Identifiers.{without_dashes, to_lower, generated_keymap_name}
use qmk_web_app.Domain.Identifiers.Names.{is_hex_id, generated_keymap_name_lem}
use qmk_web_app.Domain.Schema.{configuration_issues}
use qmk_web_app.Domain.Schema.Fields.{macro_fields, configuration_fields}
use qmk_web_app.Domain.Validate.{
  accepted, keyboard_name, supported_only, require_supported_keyboard, validate_configuration,
}
use qmk_web_app.Domain.Validate.Accepted.{HasKeycode, SocdReady}
use qmk_web_app.Domain.Validate.Sound.{validate_configuration-accepted}
use qmk_web_app.Generator.Tokens.{too_large, Generated}
use qmk_web_app.Generator.Tokens.Macros.{render_macros-Returns}
use qmk_web_app.Generator.Keymap.{
  max_generated_bytes, Json, GenerationResult, GenerateOptions, enabled_socd, is_verified,
  macro_order, Overrides, set_override, override_direction, socd_overrides, render_macros_key,
  named_keymap, document_of, keymap_document, verify_socd, choose_layout, written_files, sum_bytes,
  result_of, generate_keymap,
}
use qmk_web_app.Generator.Keymap.Parts.{macro_indices}
use qmk_web_app.Generator.Keymap.Ready.{configuration_fields-macros, render_layers-Returns}

-- The options of a build: nothing but the registry says where SOCD is verified.
unfoldable pub build_options :
    Configuration → SupportedCatalogKeyboard → (build_id : String) → GenerateOptions
build_options c k build_id = record {
  configuration = c;
  keyboard = k;
  build_id = build_id;
  verified_socd_keyboards = none;
}

supported_only-name :
    (o : Option CatalogKeyboard) (k : SupportedCatalogKeyboard)
    → supported_only o ≡ some k
    → o ≡ some (supported k)
supported_only-name none k e = absurd cc
supported_only-name (some (supported q)) k e = cc
supported_only-name (some (unsupported id r)) k e = absurd cc

keyboard-agrees :
    (catalog : Catalog) (id : String) (k : SupportedCatalogKeyboard)
    → require_supported_keyboard catalog id ≡ some k
    → k.keyboard_id ≡ id
unfolding require_supported_keyboard
keyboard-agrees catalog id k e =
    let found =
      find_sound (λ q. keyboard_name q === id) catalog.keyboards (supported_only-name _ k e) in
    ground arith

direction-Returns :
    (s : SocdConfiguration) (q : ℕ) (k : String) (os : Overrides)
    → HasKeycode s.policy_id k
    → Returns (override_direction s.policy_id q k os)
unfolding override_direction
direction-Returns s q k os (t, found) = (set_override q t os, rw (found, override_direction) refl)

overrides-Returns :
    (c : Configuration) (o : Option SocdConfiguration)
    → ((s : SocdConfiguration) → o ≡ some s → SocdReady c s)
    → Returns (socd_overrides o)
unfolding socd_overrides
overrides-Returns c none ready = ([], refl)
overrides-Returns c (some s) ready =
    let r = ready s refl in
    let keys = s.directional_keys in
    let codes = s.directional_keycodes in
    bind-Returns _ _
      (bind-Returns _ _
        (bind-Returns _ _ (direction-Returns s keys.up codes.up [] r.up_code)
          (λ os _. direction-Returns s keys.down codes.down os r.down_code))
        (λ os _. direction-Returns s keys.left codes.left os r.left_code))
      (λ os _. direction-Returns s keys.right codes.right os r.right_code)

macros_key-Returns :
    (ms : List Macro) → All (λ m. macro_fields m ≡ true) ms → Returns (render_macros_key ms)
unfolding render_macros_key
macros_key-Returns [] h = (none, refl)
macros_key-Returns (m ∷ ms) h =
    let (rendered, e) = render_macros-Returns (m ∷ ms) h in (some rendered, rw e refl)

named_keymap-Returns :
    (build_id : String) → is_hex_id build_id ≡ true → Returns (named_keymap build_id)
unfolding named_keymap
named_keymap-Returns build_id e =
    let name = append "qwa_" (to_lower (without_dashes build_id)) in
    let fine : generated_keymap_name build_id ≡ done name =
      generated_keymap_name_lem build_id ∙ rw e refl in
    (name, rw (fine, named_keymap) refl)

-- The parts of a configuration that the generator relies on.
pub record Ready (c : Configuration) (k : SupportedCatalogKeyboard) (layout : CatalogLayout)
    : Type 0 where
  pub agrees : k.keyboard_id ≡ c.keyboard_id
  pub has_layout : find (λ l. l.name === c.layout_id) k.layouts ≡ some layout
  pub socd_ready : (s : SocdConfiguration) → enabled_socd c ≡ some s → SocdReady c s
  pub clean : configuration_issues c.layers c.macros ≡ []
  pub fields : configuration_fields c ≡ true

enabled_socd-some :
    (c : Configuration) (s : SocdConfiguration)
    → enabled_socd c ≡ some s
    → (c.socd ≡ some s) × (s.enabled ≡ true)
unfolding enabled_socd
enabled_socd-some c s e = elim (Option-cases c.socd) [
  | inl missing ↦ absurd (ground arith)
  | inr (q, found) ↦ elim (Bool-cases q.enabled) [
    | inr off ↦ absurd (ground arith)
    | inl on ↦
        let same : q ≡ s = ground arith in
        (found ∙ ap some same, subst (λ x. x.enabled ≡ true) same on)
  ]
]

verify_socd-Ready :
    (c : Configuration) (k : SupportedCatalogKeyboard) (build_id : String)
    → ((s : SocdConfiguration) → enabled_socd c ≡ some s → SocdReady c s)
    → verify_socd (build_options c k build_id) ≡ done tt
unfolding build_options verify_socd is_verified
verify_socd-Ready c k build_id ready = elim (Option-cases (enabled_socd c)) [
  | inl off ↦ rw (off, verify_socd) refl
  | inr (s, on) ↦ let listed = (ready s on).available in rw (on, verify_socd) (rw listed refl)
]

choose_layout-Ready :
    (c : Configuration) (k : SupportedCatalogKeyboard) (build_id : String) (layout : CatalogLayout)
    → Ready c k layout
    → choose_layout (build_options c k build_id) ≡ done layout
unfolding choose_layout build_options
choose_layout-Ready c k build_id layout r =
    let agree : (c.keyboard_id === k.keyboard_id) ≡ true = ground (arith, r.agrees) in
    let verified = verify_socd-Ready c k build_id r.socd_ready in
    rw (agree, verified, r.has_layout) refl

keymap_document-Returns :
    (c : Configuration) (k : SupportedCatalogKeyboard) (build_id : String) (layout : CatalogLayout)
    → Ready c k layout
    → is_hex_id build_id ≡ true
    → Returns (keymap_document (build_options c k build_id) layout)
unfolding keymap_document build_options macro_indices macro_order
keymap_document-Returns c k build_id layout r hex =
    bind-Returns _ _ (named_keymap-Returns build_id hex) λ name _.
      bind-Returns _ _ (overrides-Returns c (enabled_socd c) r.socd_ready) λ os _.
        bind-Returns _ _ (render_layers-Returns c os layout r.clean r.fields) λ ls _.
          bind-Returns _ _
            (macros_key-Returns (macro_order c.macros) (
              All-sort _ (λ m. macro_fields m ≡ true) c.macros
                (all-All macro_fields c.macros (configuration_fields-macros c r.fields).1)))
            λ ms _. (document_of (build_options c k build_id) layout name ls ms, refl)

module _ (stable_json : Json → String) (byte_length : String → ℕ) where
  abbrev generate : GenerateOptions → Generated GenerationResult
  generate = generate_keymap stable_json byte_length

  generate_keymap-Ready :
      (c : Configuration) (k : SupportedCatalogKeyboard) (build_id : String)
      (layout : CatalogLayout)
      → Ready c k layout
      → is_hex_id build_id ≡ true
      → Returns (generate (build_options c k build_id))
        ⊎ ((n : ℕ) × (generate (build_options c k build_id) ≡ thrown (too_large n))
            × (max_generated_bytes < n))
  unfolding generate_keymap
  generate_keymap-Ready c k build_id layout r hex =
      let (doc, written) = keymap_document-Returns c k build_id layout r hex in
      let chosen = choose_layout-Ready c k build_id layout r in
      let total = sum_bytes byte_length (written_files stable_json doc) in
      elim (Bool-cases (ltb max_generated_bytes total)) [
        | inl large ↦ inr (total, rw (chosen, written, large) refl, ground arith)
        | inr small ↦ inl (
          result_of (build_options c k build_id) doc (written_files stable_json doc) total,
          rw (chosen, written, small) refl,
        )
      ]

  -- A configuration that passes the catalog's validation and the schema, for the keyboard that
  -- validation found and a build id of 8 to 32 hexadecimal digits, is turned into files, whatever JSON
  -- is written as; the only error that is left is that the files are over the limit on bytes, and then
  -- they are.
  pub generate_keymap-validated :
      (catalog : Catalog) (c : Configuration) (k : SupportedCatalogKeyboard) (build_id : String)
      → validate_configuration catalog c ≡ accepted c k
      → configuration_issues c.layers c.macros ≡ []
      → configuration_fields c ≡ true
      → is_hex_id build_id ≡ true
      → Returns (generate (build_options c k build_id))
        ⊎ ((n : ℕ) × (generate (build_options c k build_id) ≡ thrown (too_large n))
            × (max_generated_bytes < n))
  generate_keymap-validated catalog c k build_id valid clean fields hex =
      let (_, required, (layout, at, _), socd) =
        validate_configuration-accepted catalog c c k valid in
      generate_keymap-Ready c k build_id layout
        (record {
          agrees = keyboard-agrees catalog c.keyboard_id k required;
          has_layout = at;
          socd_ready =
              λ s on. let (there, enabled) = enabled_socd-some c s on in socd s there enabled;
          clean = clean;
          fields = fields;
        })
        hex
