-- ===== src/Domain/Catalog.antt =====
-- packages/domain/src/catalog.ts and errors.ts: the part of the catalog that validation reads.
use qmk_web_app.Common.{ℕ, String, List}

-- Of a position only its index; the rest says where the key stands.
pub record CatalogLayout : Type 0 where
  pub name : String
  pub positions : List ℕ

pub record SupportedCatalogKeyboard : Type 0 where
  pub keyboard_id : String
  pub layouts : List CatalogLayout

pub data UnsupportedReason : Type 0 where
  extraction_failed qmk_parse_errors no_layouts : UnsupportedReason
  missing_build_target layout_position_invalid layout_too_large : UnsupportedReason

pub data CatalogKeyboard : Type 0 where
  supported : SupportedCatalogKeyboard → CatalogKeyboard
  unsupported : (keyboard_id : String) → UnsupportedReason → CatalogKeyboard

pub record Catalog : Type 0 where
  pub catalog_version : String
  pub qmk_commit : String
  pub keyboards : List CatalogKeyboard

pub data ErrorCode : Type 0 where
  catalog_keyboard_unavailable catalog_layout_unavailable config_invalid : ErrorCode
  config_conflict capability_unavailable build_queue_limited build_timeout : ErrorCode
  build_resource_limit build_compile_failed build_internal_error : ErrorCode
  artifact_missing artifact_expired artifact_unauthorized : ErrorCode
