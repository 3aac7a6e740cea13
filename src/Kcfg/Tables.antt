-- ===== src/Kcfg/Tables.antt =====
-- src/kcfg.c: the tables of the options of each keyer.
pub mod Common
pub mod Mk2
pub mod Mk3
pub mod Mk2r
pub mod Sm
