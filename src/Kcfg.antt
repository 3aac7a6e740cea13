-- ===== src/Kcfg.antt =====
-- src/kcfg.c: the settings of a keyer.
pub mod Items
pub mod Tables
pub mod Settings
pub mod Create
pub mod Fields
pub mod Layout
pub mod Options
pub mod Presets
