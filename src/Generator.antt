-- ===== src/Generator.antt =====
-- packages/qmk-generator/src/generate.ts: the keymap that a configuration is compiled to.
pub mod Tokens
pub mod Keymap
