-- ===== src/Generator/Keymap.antt =====
-- packages/qmk-generator/src/generate.ts: `generateKeymap`. `JSON.stringify` and the count of bytes
-- in UTF-8 are the parameters `stable_json` and `byte_length`.
pub mod Parts
pub mod Cells
pub mod Allowed
pub mod Ready
pub mod Files
pub mod Reported
use Prim.Native.String.{◌++◌ as append}
use qmk_web_app.Common.{
  ℕ, zero, suc, ◌+◌, ◌*◌, String, ◌===◌, Bool, true, false, Option, none, some, List, [], ◌∷◌, ltb,
  ◌==◌, if◌then◌else◌, find,
}
use qmk_web_app.Common.Dict.{Dict, get, put, has}
use qmk_web_app.Common.Decimal.{decimal}
use qmk_web_app.Common.Sort.{sort}
use qmk_web_app.Common.Texts.{text_before}
use qmk_web_app.Common.Attempt.{Attempt, done, thrown, ◌>>=◌, map_each}
use qmk_web_app.Domain.Configuration.{
  Binding, Layer, Macro, Directions, SocdPolicyId, SocdConfiguration, Configuration,
}
use qmk_web_app.Domain.Catalog.{CatalogLayout, SupportedCatalogKeyboard}
use qmk_web_app.Domain.Socd.{socd_module_keycode, VerificationRecord, verified_for, socd_available}
use qmk_web_app.Domain.Identifiers.{Fault, generated_keymap_name}
use qmk_web_app.Generator.Tokens.{
  GenerationError, keyboards_disagree, not_verified, no_such_layout, no_module_keycode, identifier,
  too_large, Generated, render_binding, RenderedStep, render_macros,
}

abbrev pub generator_version : String
generator_version = "1.1.0"

abbrev pub socd_module_id : String
socd_module_id = "qmkweb/socd_cleaner"

-- LIMITS.maxGeneratedBytes
abbrev pub max_generated_bytes : ℕ
max_generated_bytes = 256 * 1024

-- `keymapJson`: a key that the code leaves out is `none`.
pub record KeymapJson : Type 0 where
  pub keyboard : String
  pub keymap : String
  pub layout : String
  pub layers : List (List String)
  pub macros : Option (List (List RenderedStep))
  pub modules : Option (List String)

-- The two JSON values that are written; the first is the same for every build.
pub data Json : Type 0 where
  userspace_json : Json
  keymap_json : KeymapJson → Json

pub record GeneratedFile : Type 0 where
  pub path : String
  pub contents : String

pub record GenerationResult : Type 0 where
  pub files : List GeneratedFile
  pub keymap_name : String
  pub compile_keyboard : String
  pub compile_keymap : String
  pub requires_socd_module : Bool
  pub version : String
  pub total_bytes : ℕ

pub record GenerateOptions : Type 0 where
  pub configuration : Configuration
  pub keyboard : SupportedCatalogKeyboard
  pub build_id : String
  pub verified_socd_keyboards : Option (List String)

-- `configuration.socd?.enabled ? configuration.socd : null`
unfoldable pub enabled_socd : Configuration → Option SocdConfiguration
enabled_socd c = elim c.socd [ none ↦ none | some s ↦ if s.enabled then some s else none ]

-- `socdVerifiedKeyboards`, in packages/domain/src/socd.ts, asked for one keyboard.
unfoldable pub is_verified : GenerateOptions → Bool
is_verified o = elim o.verified_socd_keyboards [
  | none ↦ socd_available o.configuration.catalog_version o.configuration.keyboard_id
  | some ids ↦ has o.configuration.keyboard_id ids
]

unfoldable pub macro_order : List Macro → List Macro
macro_order macros = sort (λ a b. text_before a.id b.id) macros

-- `new Map(macros.map((m, i) => [m.id, i]))`
unfoldable pub index_macros : (i : ℕ) → List Macro → Dict ℕ → Dict ℕ
index_macros i [] indices = indices
index_macros i (m ∷ ms) indices = index_macros (suc i) ms (put m.id i indices)

unfoldable pub layer_order : List Layer → List Layer
layer_order layers = sort (λ a b. ltb a.index b.index) layers

-- A `Map` from positions, by `set` and `get`.
abbrev pub Overrides : Type 0
Overrides = List (ℕ × String)

unfoldable pub set_override : ℕ → String → Overrides → Overrides
set_override p t [] = (p, t) ∷ []
set_override p t ((q, u) ∷ os) =
    let rest = set_override p t os in if q == p then (q, t) ∷ os else (q, u) ∷ rest

unfoldable pub override_at : ℕ → Overrides → Option String
override_at p [] = none
override_at p ((q, u) ∷ os) = let rest = override_at p os in if q == p then some u else rest

-- One turn of the loop over the directions.
unfoldable pub override_direction :
    SocdPolicyId → (position : ℕ) → (keycode : String) → Overrides → Generated Overrides
override_direction policy position keycode os = elim (socd_module_keycode policy keycode) [
  | none ↦ thrown (no_module_keycode keycode)
  | some token ↦ done (set_override position token os)
]

unfoldable pub socd_overrides : Option SocdConfiguration → Generated Overrides
socd_overrides none = done []
socd_overrides (some s) =
    override_direction s.policy_id s.directional_keys.up s.directional_keycodes.up []
    >>= override_direction s.policy_id s.directional_keys.down s.directional_keycodes.down
    >>= override_direction s.policy_id s.directional_keys.left s.directional_keycodes.left
    >>= override_direction s.policy_id s.directional_keys.right s.directional_keycodes.right

unfoldable pub render_bound : Dict ℕ → Layer → ℕ → Generated String
render_bound indices layer position = elim (get (decimal position) layer.bindings) [
  | none ↦ done (if layer.index == 0 then "KC_NO" else "KC_TRANSPARENT")
  | some b ↦ render_binding b indices
]

unfoldable pub render_position : Overrides → Dict ℕ → Layer → ℕ → Generated String
render_position overrides indices layer position =
    let bound = render_bound indices layer position in
    if layer.index == 0
    then elim (override_at position overrides) [ none ↦ bound | some token ↦ done token ]
    else bound

unfoldable pub render_layers :
    Overrides → Dict ℕ → CatalogLayout → List Layer → Generated (List (List String))
render_layers overrides indices layout layers =
    map_each (λ l. map_each (render_position overrides indices l) layout.positions) layers

unfoldable pub render_macros_key : List Macro → Generated (Option (List (List RenderedStep)))
render_macros_key [] = done none
render_macros_key (m ∷ ms) = render_macros (m ∷ ms) >>= λ rendered. done (some rendered)

unfoldable pub named_keymap : (build_id : String) → Generated String
named_keymap build_id = elim (generated_keymap_name build_id) [
  | done name ↦ done name
  | thrown fault ↦ thrown (identifier fault)
]

unfoldable pub document_of :
    GenerateOptions
    → CatalogLayout
    → (name : String) → List (List String)
    → Option (List (List RenderedStep))
    → KeymapJson
document_of o layout name layers macros = record {
  keyboard = o.keyboard.keyboard_id;
  keymap = name;
  layout = layout.name;
  layers = layers;
  macros = macros;
  modules = elim (enabled_socd o.configuration) [
    | none ↦ none
    | some s ↦ some (socd_module_id ∷ [])
  ];
}

-- From the layout on, up to `keymapJson`.
unfoldable pub keymap_document : GenerateOptions → CatalogLayout → Generated KeymapJson
keymap_document o layout =
    let c = o.configuration in
    let socd = enabled_socd c in
    let macros = macro_order c.macros in
    named_keymap o.build_id >>= λ name. socd_overrides socd >>= λ overrides.
    render_layers overrides (index_macros 0 macros []) layout (layer_order c.layers) >>= λ layers.
    render_macros_key macros >>= λ rendered. done (document_of o layout name layers rendered)

-- `if (socd && !verifiedSocdKeyboards.has(configuration.keyboardId))`
unfoldable pub verify_socd : GenerateOptions → Generated (Unit {0})
verify_socd o = elim (enabled_socd o.configuration) [
  | none ↦ done tt
  | some s ↦ if is_verified o then done tt else thrown not_verified
]

unfoldable pub choose_layout : GenerateOptions → Generated CatalogLayout
choose_layout o =
    if o.configuration.keyboard_id === o.keyboard.keyboard_id
    then (verify_socd o >>= λ u.
        elim (find (λ l. l.name === o.configuration.layout_id) o.keyboard.layouts) [
          | none ↦ thrown no_such_layout
          | some layout ↦ done layout
        ])
    else thrown keyboards_disagree

unfoldable pub keymap_path : KeymapJson → String
keymap_path doc =
    append "keyboards/"
      (append doc.keyboard (append "/keymaps/" (append doc.keymap "/keymap.json")))

unfoldable pub written_files : (stable_json : Json → String) → KeymapJson → List GeneratedFile
unfolding keymap_path
written_files stable_json doc =
    record { path = "qmk.json"; contents = stable_json userspace_json }
    ∷ record { path = keymap_path doc; contents = stable_json (keymap_json doc) }
    ∷ []

unfoldable pub sum_bytes : (byte_length : String → ℕ) → List GeneratedFile → ℕ
sum_bytes byte_length [] = 0
sum_bytes byte_length (f ∷ fs) = byte_length f.contents + sum_bytes byte_length fs

unfoldable pub result_of :
    GenerateOptions → KeymapJson → List GeneratedFile → (total_bytes : ℕ) → GenerationResult
result_of o doc files total = record {
  files = files;
  keymap_name = doc.keymap;
  compile_keyboard = o.keyboard.keyboard_id;
  compile_keymap = doc.keymap;
  requires_socd_module = elim (enabled_socd o.configuration) [ none ↦ false | some s ↦ true ];
  version = generator_version;
  total_bytes = total;
}

module _ (stable_json : Json → String) (byte_length : String → ℕ) where
  unfoldable pub generate_keymap : GenerateOptions → Generated GenerationResult
  generate_keymap o = choose_layout o >>= λ layout. keymap_document o layout >>= λ doc.
      let files = written_files stable_json doc in
      let total = sum_bytes byte_length files in
      if ltb max_generated_bytes total
      then thrown (too_large total)
      else done (result_of o doc files total)
