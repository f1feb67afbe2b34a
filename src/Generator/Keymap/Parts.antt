-- ===== src/Generator/Keymap/Parts.antt =====
-- What a keymap document consists of, where there is one.
use qmk_web_app.Common.{ℕ, ◌≡◌, refl, subst, String, Option, none, some, List, [], ◌∷◌}
use qmk_web_app.Common.Dict.{Dict}
use qmk_web_app.Common.Attempt.{done, bind-then, done_injective}
use qmk_web_app.Domain.Configuration.{Configuration}
use qmk_web_app.Domain.Catalog.{CatalogLayout}
use qmk_web_app.Generator.Tokens.{RenderedStep}
use qmk_web_app.Generator.Keymap.{
  KeymapJson, GenerateOptions, enabled_socd, macro_order, index_macros, layer_order, Overrides,
  socd_overrides, render_layers, render_macros_key, named_keymap, document_of, socd_module_id,
  keymap_document,
}

-- The numbers of the macros.
unfoldable pub macro_indices : Configuration → Dict ℕ
macro_indices c = index_macros 0 (macro_order c.macros) []

pub record Parts (o : GenerateOptions) (layout : CatalogLayout) (doc : KeymapJson) : Type 0 where
  pub overrides : Overrides
  pub named : named_keymap o.build_id ≡ done doc.keymap
  pub overridden : socd_overrides (enabled_socd o.configuration) ≡ done overrides
  pub rendered :
      render_layers overrides
        (macro_indices o.configuration)
        layout
        (layer_order o.configuration.layers)
      ≡ done doc.layers
  pub of_macros : render_macros_key (macro_order o.configuration.macros) ≡ done doc.macros
  pub of_keyboard : doc.keyboard ≡ o.keyboard.keyboard_id
  pub of_modules :
      doc.modules
      ≡ elim (enabled_socd o.configuration) [ none ↦ none | some s ↦ some (socd_module_id ∷ []) ]

pub keymap_document-Parts :
    (o : GenerateOptions) (layout : CatalogLayout) (doc : KeymapJson)
    → keymap_document o layout ≡ done doc
    → Parts o layout doc
unfolding keymap_document macro_indices document_of
keymap_document-Parts o layout doc e = bind-then (named_keymap o.build_id) _ e λ name named e'.
    bind-then (socd_overrides (enabled_socd o.configuration)) _ e' λ os overridden f'.
      bind-then (render_layers os _ layout (layer_order o.configuration.layers)) _ f'
        λ ls rendered g'.
          bind-then (render_macros_key (macro_order o.configuration.macros)) _ g'
            λ ms of_macros same.
              subst (Parts o layout) (done_injective same)
                (parts name os ls ms named overridden rendered of_macros)
  where
    parts :
        (name : String) (os : Overrides) (ls : List (List String))
        (ms : Option (List (List RenderedStep)))
        → named_keymap o.build_id ≡ done name
        → socd_overrides (enabled_socd o.configuration) ≡ done os
        → render_layers os
            (macro_indices o.configuration)
            layout
            (layer_order o.configuration.layers)
          ≡ done ls
        → render_macros_key (macro_order o.configuration.macros) ≡ done ms
        → Parts o layout (document_of o layout name ls ms)
    parts name os ls ms named overridden rendered of_macros = record {
      overrides = os;
      named = named;
      overridden = overridden;
      rendered = rendered;
      of_macros = of_macros;
      of_keyboard = refl;
      of_modules = refl;
    }
