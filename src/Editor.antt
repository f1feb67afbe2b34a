-- ===== src/Editor.antt =====
-- apps/web/src/lib/editor-state.ts: the keymap editor as a reducer.
pub mod State
pub mod Layers
pub mod Reducer
pub mod History
pub mod Structure
