-- ===== src/Kcfg/Items.antt =====
-- src/kcfg.c: one option of a keyer's settings, a field of bits in one byte.
use Prim.Native.String.{String}
use mhuxd.Base.{ℕ, List, codes}

-- `struct citem`; `off` is a byte, `base_bit` the highest bit of the field, counted from that byte.
pub record Citem : Type 0 where
  pub key : List ℕ
  pub off : ℕ
  pub base_bit : ℕ
  pub width : ℕ
  pub preset : ℕ

-- a row of a table; `preset` is `def`.
abbrev pub item : String → ℕ → ℕ → ℕ → ℕ → Citem
item key off base_bit width preset = record {
  key = codes key;
  off = off;
  base_bit = base_bit;
  width = width;
  preset = preset;
}
