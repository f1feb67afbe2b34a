-- ===== src/Generator/Keymap/Reported.antt =====
-- What the generator reports of the files that it returns.
use Prim.Native.String.{◌++◌ as append}
use qmk_web_app.Common.{
  ◌+◌, ℕ, ◌≤◌, ◌≡◌, refl, sym, subst, arith, String, ◌===◌, true, false, Bool-cases, none, some,
  Option-cases, inl, inr, ◌↔◌, [], ◌∷◌, ltb, find,
}
use qmk_web_app.Common.Attempt.{done, bind-then, done_injective}
use qmk_web_app.Domain.Configuration.{SocdConfiguration}
use qmk_web_app.Domain.Catalog.{CatalogLayout}
use qmk_web_app.Generator.Keymap.{
  max_generated_bytes, socd_module_id, KeymapJson, Json, userspace_json, keymap_json, keymap_path,
  GenerationResult, GenerateOptions, enabled_socd, is_verified, keymap_document, verify_socd,
  choose_layout, written_files, sum_bytes, result_of, generate_keymap,
}
use qmk_web_app.Generator.Keymap.Parts.{Parts, keymap_document-Parts}

-- The layout is the one that the configuration names on its own keyboard, and SOCD is enabled only
-- where it has been verified.
abbrev pub Chosen : GenerateOptions → CatalogLayout → Type 0
Chosen o layout =
    (o.configuration.keyboard_id ≡ o.keyboard.keyboard_id)
    × (find (λ l. l.name === o.configuration.layout_id) o.keyboard.layouts ≡ some layout)
    × ((s : SocdConfiguration) → enabled_socd o.configuration ≡ some s → is_verified o ≡ true)

verify_socd-done :
    (o : GenerateOptions) (s : SocdConfiguration)
    → verify_socd o ≡ done tt
    → enabled_socd o.configuration ≡ some s
    → is_verified o ≡ true
unfolding verify_socd
verify_socd-done o s e on = ground arith

choose_layout-Chosen :
    (o : GenerateOptions) (layout : CatalogLayout) → choose_layout o ≡ done layout → Chosen o layout
unfolding choose_layout
choose_layout-Chosen o layout e =
    elim (Bool-cases (o.configuration.keyboard_id === o.keyboard.keyboard_id)) [
      | inr differ ↦ absurd (ground arith)
      | inl agree ↦ bind-then (verify_socd o) _ (rw agree at e) λ u checked e'.
          elim (Option-cases
            (find (λ l. l.name === o.configuration.layout_id) o.keyboard.layouts)) [
              | inl missing ↦ absurd (ground arith)
              | inr (l, found) ↦ (ground arith, ground arith, λ s. verify_socd-done o s checked)
            ]
    ]

-- `keyboards/<keyboard>/keymaps/<keymap>/keymap.json`
abbrev pub keymap_at : (keyboard keymap : String) → String
keymap_at keyboard keymap =
    append "keyboards/" (append keyboard (append "/keymaps/" (append keymap "/keymap.json")))

-- What is returned with a document.
abbrev pub Reports :
    (Json → String) → (String → ℕ) → GenerateOptions → KeymapJson → GenerationResult → Type 0
Reports stable_json byte_length o doc r =
    (r.files
      ≡ record { path = "qmk.json"; contents = stable_json userspace_json }
        ∷ record {
          path = keymap_at doc.keyboard doc.keymap;
          contents = stable_json (keymap_json doc);
        }
        ∷ [])
    × (r.compile_keyboard ≡ doc.keyboard)
    × (r.compile_keymap ≡ doc.keymap)
    × (r.total_bytes
        ≡ byte_length (stable_json userspace_json) + byte_length (stable_json (keymap_json doc)))
    × (r.total_bytes ≤ max_generated_bytes)
    × ((r.requires_socd_module ≡ true) ↔ (doc.modules ≡ some (socd_module_id ∷ [])))

module _ (stable_json : Json → String) (byte_length : String → ℕ) where
  result_of-Reports :
      (o : GenerateOptions) (layout : CatalogLayout) (doc : KeymapJson)
      → Parts o layout doc
      → sum_bytes byte_length (written_files stable_json doc) ≤ max_generated_bytes
      → Reports stable_json byte_length o doc (
          result_of o doc
            (written_files stable_json doc)
            (sum_bytes byte_length (written_files stable_json doc)))
  unfolding result_of written_files keymap_path sum_bytes
  result_of-Reports o layout doc parts small =
      (refl, sym parts.of_keyboard, refl, omega arith, small, required)
    where
      required :
          ((elim (enabled_socd o.configuration) [ none ↦ false | some s ↦ true ]) ≡ true)
          ↔ (doc.modules ≡ some (socd_module_id ∷ []))
      required = elim (Option-cases (enabled_socd o.configuration)) [
        | inl off ↦ ((λ e. absurd (ground arith)), λ e. absurd (ground (arith, parts.of_modules)))
        | inr (s, on) ↦ ((λ e. ground (arith, parts.of_modules)), λ e. rw on refl)
      ]

  -- Where there is a result, the keyboard and the configuration agree, the layout that the
  -- configuration names has a keymap document, and SOCD is enabled only where it has been verified. The
  -- files are the fixed userspace manifest and that document below the directory of its keyboard and
  -- keymap name; the compile target names the same keyboard and keymap, the bytes reported are those
  -- of the files and within the limit, and the module is required exactly when the document names it.
  pub generate_keymap-Reports :
      (o : GenerateOptions) (r : GenerationResult)
      → generate_keymap stable_json byte_length o ≡ done r
      → (layout : CatalogLayout) × (doc : KeymapJson) × Chosen o layout
        × (keymap_document o layout ≡ done doc)
        × Reports stable_json byte_length o doc r
  unfolding generate_keymap
  generate_keymap-Reports o r e = bind-then (choose_layout o) _ e λ layout chosen e'.
      bind-then (keymap_document o layout) _ e' λ doc written e''.
        let total = sum_bytes byte_length (written_files stable_json doc) in
        elim (Bool-cases (ltb max_generated_bytes total)) [
          | inl large ↦ absurd (ground arith)
          | inr small ↦ (
            layout,
            doc,
            choose_layout-Chosen o layout chosen,
            written,
            subst (Reports stable_json byte_length o doc) (done_injective (rw small at e'')) (
                result_of-Reports o layout doc (keymap_document-Parts o layout doc written)
                  (ground arith)),
          )
        ]
