-- ===== src/Kcfg/Settings.antt =====
-- src/kcfg.c: the settings of a keyer as the bytes that are sent to it, set and read by option.
use mhuxd.Base.{
  ℕ, ◌+◌, ◌-◌, ◌*◌, ◌/◌, ◌%◌, ◌^◌, Bool, false, not, ◌&&◌, ◌||◌, Option, none, some, List, [], ◌∷◌,
  if◌then◌else◌, ◌==◌, ltb, get_elem?, set, codes, bytes_eq, str_case_eq, bit_or, bit_and, u8, u32,
}
use mhuxd.Mhinfo.{Keyer, is_keyer}
use mhuxd.Kcfg.Items.{Citem}

-- `struct kcfg`; `bytes` are the first `b.size` bytes of its buffer, `items` its `num_citems` options.
-- The `mhi` that it points to is the keyer's, and an argument of the functions that read it.
pub record Kcfg : Type 0 where
  pub bytes : List ℕ
  pub items : List Citem
  pub settings_size : ℕ

-- what kcfg_set_val returns: 0, -1 and -2
pub data SetResult : Type 0 where
  done failed not_allowed : SetResult

-- `is_mk_family`, of `mhi->type`
unfoldable pub is_mk_family : Keyer → Bool
unfolding is_keyer
is_mk_family type = is_keyer type Keyer.mk || is_keyer type Keyer.ck || is_keyer type Keyer.dk

-- `find_citem`
unfoldable pub find_citem : List Citem → List ℕ → Option Citem
find_citem [] key = none
find_citem (i ∷ is) key =
    let rest = find_citem is key in if str_case_eq key i.key then some i else rest

-- `width2mask`
unfoldable pub width2mask : ℕ → ℕ
width2mask w = 255 / 2 ^ (8 - w)

-- `cp->off + cp->base_bit / 8`
abbrev pub index_of : Citem → ℕ
index_of cp = cp.off + cp.base_bit / 8

-- `bit + 1 - cp->width`, by how much the field is shifted; the tables keep it from being negative.
abbrev pub shift_of : Citem → ℕ
shift_of cp = cp.base_bit % 8 + 1 - cp.width

-- the options that keep their value
abbrev frozen_keys : List (List ℕ)
frozen_keys =
    codes "r1FrBase_Cw.audioTx"
    ∷ codes "r1FrBase_Cw.audioRx"
    ∷ codes "r1FrBase_Cw.audioTxFootSw"
    ∷ codes "r2FrBase_Cw.audioTx"
    ∷ codes "r2FrBase_Cw.audioRx"
    ∷ codes "r2FrBase_Cw.audioTxFootSw"
    ∷ codes "r1FrMpkExtra_Cw.onAirRecActive"
    ∷ codes "r1FrMpkExtra_Cw.onAirRecControlByRouter"
    ∷ codes "r2FrMpkExtra_Cw.onAirRecActive"
    ∷ codes "r2FrMpkExtra_Cw.onAirRecControlByRouter"
    ∷ []

abbrev among : List ℕ → List (List ℕ) → Bool
among key [] = false
among key (k ∷ ks) = bytes_eq key k || among key ks

-- `!strcmp(key, …) || …` of kcfg_set_val
unfoldable pub is_frozen : List ℕ → Bool
is_frozen key = among key frozen_keys

-- `c & ~(mask << shift)`, then `| val << shift`, as the byte that is stored
unfoldable pub put_field : ℕ → ℕ → ℕ → ℕ → ℕ
unfolding width2mask
put_field shift width val c =
    u8 (bit_or (bit_and c (255 - width2mask width * 2 ^ shift)) (u32 (val * 2 ^ shift)))

-- `c >> shift & mask`
unfoldable pub get_field : ℕ → ℕ → ℕ → ℕ
unfolding width2mask
get_field shift width c = bit_and (c / 2 ^ shift) (width2mask width)

-- `val > mask` of an `int`, which is given by its 32 bits and negative from 2^31 on
unfoldable pub too_large : ℕ → ℕ → Bool
too_large val mask = ltb val 2147483648 && ltb mask val

-- kcfg_set_val, once the option is found; `val` are the 32 bits of an `int`.
unfoldable pub set_item : Kcfg → Citem → List ℕ → ℕ → SetResult × Kcfg
unfolding put_field width2mask too_large is_frozen
set_item k cp key val =
    if not (cp.preset == val) && is_frozen key
    then (not_allowed, k)
    else elim (get_elem? k.bytes (index_of cp)) [
      | none ↦ (failed, k)
      | some c ↦
          (if too_large val (width2mask cp.width) then (failed, k) else (
            done,
            record k { bytes = set k.bytes (index_of cp) (put_field (shift_of cp) cp.width val c) },
          ))
    ]

-- `kcfg_set_val`
unfoldable pub set_val : Kcfg → List ℕ → ℕ → SetResult × Kcfg
unfolding set_item find_citem
set_val k key val = elim (find_citem k.items key) [
  | none ↦ (failed, k)
  | some cp ↦ set_item k cp key val
]

-- the value of an option, or `def` where it lies behind the settings
unfoldable pub item_val : Kcfg → Citem → ℕ → ℕ
unfolding get_field
item_val k cp def = elim (get_elem? k.bytes (index_of cp)) [
  | none ↦ def
  | some c ↦ get_field (shift_of cp) cp.width c
]

-- `kcfg_get_val`
unfoldable pub get_val : Kcfg → List ℕ → ℕ → ℕ
unfolding item_val find_citem
get_val k key def = elim (find_citem k.items key) [ none ↦ def | some cp ↦ item_val k cp def ]

-- `kcfg_iter_get`
unfoldable pub iter_get : Kcfg → ℕ → Option (List ℕ × ℕ)
unfolding get_field
iter_get k idx = elim (get_elem? k.items idx) [
  | none ↦ none
  | some cp ↦ elim (get_elem? k.bytes (index_of cp)) [
    | none ↦ none
    | some c ↦ some (cp.key, get_field (shift_of cp) cp.width c)
  ]
]
