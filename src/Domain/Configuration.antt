-- ===== src/Domain/Configuration.antt =====
-- packages/domain/src/configuration.ts: the parts of a configuration document.
use qmk_web_app.Common.{ℕ, String, Bool, Option, none, some, List}
use qmk_web_app.Common.Dict.{Dict}

-- Keycodes are the texts of keycodes.ts, and ids are UUIDs as texts.
pub data Binding : Type 0 where
  keycode : String → Binding
  transparent : Binding
  no_op : Binding
  layer_momentary : ℕ → Binding
  layer_toggle : ℕ → Binding
  layer_tap : (layer : ℕ) (tap_key : String) → Binding
  mod_tap : (hold tap_key : String) → Binding
  macro : String → Binding

-- The layer that a binding names, if it has the field `layer`.
unfoldable pub target : Binding → Option ℕ
target (layer_momentary l) = some l
target (layer_toggle l) = some l
target (layer_tap l k) = some l
target _ = none

-- A position is bound under the decimal text of its index, and is unassigned where the text is
-- missing.
pub record Layer : Type 0 where
  pub id : String
  pub index : ℕ
  pub name : String
  pub bindings : Dict Binding

pub data MacroStep : Type 0 where
  tap : String → MacroStep
  key_down : String → MacroStep
  key_up : String → MacroStep
  delay : ℕ → MacroStep

pub record Macro : Type 0 where
  pub id : String
  pub name : String
  pub steps : List MacroStep

-- SOCD_POLICIES of packages/domain/src/socd.ts, by their ids.
pub data SocdPolicyId : Type 0 where
  neutral last_input_priority : SocdPolicyId

pub record Directions (A : Type 0) : Type 0 where
  pub up : A
  pub down : A
  pub left : A
  pub right : A

pub record SocdConfiguration : Type 0 where
  pub enabled : Bool
  pub policy_id : SocdPolicyId
  pub directional_keys : Directions ℕ
  pub directional_keycodes : Directions String

pub record Configuration : Type 0 where
  pub id : String
  pub owner_id : Option String
  pub schema_version : ℕ
  pub catalog_version : String
  pub qmk_commit : String
  pub keyboard_id : String
  pub layout_id : String
  pub name : String
  pub revision : ℕ
  pub created_at : ℕ
  pub updated_at : ℕ
  pub layers : List Layer
  pub macros : List Macro
  pub socd : Option SocdConfiguration
  pub generator_version : String
