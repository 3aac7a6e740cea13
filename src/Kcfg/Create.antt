-- ===== src/Kcfg/Create.antt =====
-- src/kcfg.c: the settings that a keyer starts with, those of the MK family, and the bytes that are sent.
use mhuxd.Base.{
  ℕ, suc, ◌+◌, ◌-◌, ◌*◌, ◌/◌, ◌^◌, ◌||◌, Option, none, some, List, [], ◌∷◌, ◌++◌, if◌then◌else◌,
  ◌==◌, get_or, set, take, replicate, codes, bit_or, bit_and, u8,
}
use mhuxd.Mhinfo.{MhInfo, Keyer, is_keyer, has}
use mhuxd.Mhinfo.Flags.{has_r2}
use mhuxd.Kcfg.Items.{Citem}
use mhuxd.Kcfg.Settings.{Kcfg, set_val, get_val, is_mk_family}
use mhuxd.Kcfg.Tables.Common.{c_base, c_mk1, c_dk2}
use mhuxd.Kcfg.Tables.Mk2.{c_mk2}
use mhuxd.Kcfg.Tables.Mk3.{c_mk3}
use mhuxd.Kcfg.Tables.Mk2r.{c_mk2r}
use mhuxd.Kcfg.Tables.Sm.{c_u2r, c_sm}

-- the keyer modes `MOD_*`
abbrev pub mod_cw : ℕ
mod_cw = 0

abbrev pub mod_voice : ℕ
mod_voice = 1

abbrev pub mod_fsk : ℕ
mod_fsk = 2

abbrev pub mod_digital : ℕ
mod_digital = 3

-- `MK1_FRBASE_CW`, `MK1_FRBASE_VOICE`, `MK1_FRBASE_DIGITAL`
abbrev pub mk1_frbase_cw : ℕ
mk1_frbase_cw = 10

abbrev pub mk1_frbase_voice : ℕ
mk1_frbase_voice = 11

abbrev pub mk1_frbase_digital : ℕ
mk1_frbase_digital = 12

abbrev pub mk1_settings_size : ℕ
mk1_settings_size = 8

-- `mk1_frbase_def`
unfoldable pub mk1_frbase_def : ℕ → ℕ
mk1_frbase_def mode = if mode == mod_cw then 0x6a else if mode == mod_voice then 0x7f else 0x95

-- one round of the loop in mk1_set_frbase
unfoldable pub frbase_state : ℕ → ℕ → ℕ → ℕ
unfolding mk1_frbase_def
frbase_state mode sh frbase =
    if bit_and frbase (3 * 2 ^ sh) == 0
    then u8 (bit_or frbase (bit_and (mk1_frbase_def mode) (3 * 2 ^ sh)))
    else frbase

-- the `switch` of mk1_set_frbase: the mode, and where its settings are
unfoldable pub frbase_of : ℕ → ℕ × ℕ
frbase_of m =
    if m == mod_cw
    then (mod_cw, mk1_frbase_cw)
    else if m == mod_voice
    then (mod_voice, mk1_frbase_voice)
    else (mod_digital, mk1_frbase_digital)

-- mk1_set_frbase behind the choice of the mode
unfoldable pub put_frbase : Kcfg → ℕ → Kcfg
unfolding frbase_state frbase_of
put_frbase k m =
    let (mode, off) = frbase_of m in
    let frbase =
      frbase_state mode 4 (frbase_state mode 2 (frbase_state mode 0 (get_or k.bytes off 0))) in
    let bytes = set k.bytes 0 frbase in
    record k {
      bytes =
          set bytes 2
            (u8 (bit_or (bit_and (get_or bytes 2 0) (255 - 0x60)) (bit_and (frbase / 2) 0x60)));
    }

-- `mk1_set_frbase`
unfoldable pub mk1_set_frbase : MhInfo → Kcfg → Kcfg
mk1_set_frbase mhi k =
    if is_keyer mhi.type Keyer.mk
    then put_frbase k (get_val k (codes "r1KeyerMode") mod_digital)
    else let mode = if is_keyer mhi.type Keyer.ck then mod_cw else mod_digital in
      let k' = (set_val k (codes "r1ForceKeyerMode") 0).1 in
      put_frbase (set_val k' (codes "r1KeyerMode") mode).1 mode

-- the options of a keyer type, and the size of its settings: the `switch` of kcfg_create
unfoldable pub items_of : Keyer → List Citem × ℕ
unfolding c_base c_mk1 c_dk2 c_mk2 c_mk3 c_mk2r c_u2r c_sm
items_of Keyer.unknown = ([], 0)
items_of Keyer.mk = (c_base ++ c_mk1, 0)
items_of Keyer.dk2 = (c_base ++ c_dk2, 56)
items_of Keyer.mk2 = (c_base ++ c_mk2, 56)
items_of Keyer.mk3 = (c_base ++ c_mk3, 56)
items_of Keyer.mk2r = (c_base ++ c_mk2r, 56)
items_of Keyer.mk2rp = (c_base ++ c_mk2r, 56)
items_of Keyer.u2r = (c_base ++ c_u2r, 56)
items_of Keyer.ck = (c_base, 0)
items_of Keyer.dk = (c_base, 0)
items_of Keyer.sm = (c_sm, 56)
items_of Keyer.smd = (c_sm, 56)

-- `kcfg->citem[i].off = off` for the first `n` options
unfoldable pub move_items : ℕ → ℕ → List Citem → List Citem
move_items (suc n) off (i ∷ is) = record i { off = off } ∷ move_items n off is
move_items _ off is = is

-- the loop of kcfg_create that sets every option to its default
unfoldable pub set_presets : Kcfg → List Citem → Kcfg
unfolding set_val
set_presets k [] = k
set_presets k (i ∷ is) = set_presets (set_val k i.key i.preset).1 is

-- one option after the other
unfoldable pub set_vals : Kcfg → List (List ℕ × ℕ) → Kcfg
unfolding set_val
set_vals k [] = k
set_vals k ((key, val) ∷ kvs) = set_vals (set_val k key val).1 kvs

-- kcfg_create up to the loop over the options, of `mhi->type`
unfoldable pub blank : Keyer → Kcfg
unfolding items_of move_items is_mk_family
blank type =
    let (items, size) = items_of type in
    if is_mk_family type
    then record {
      bytes = replicate (mk1_frbase_digital + 1) 0;
      items = move_items 5 mk1_frbase_digital items;
      settings_size = mk1_settings_size;
    }
    else record { bytes = replicate size 0; items = items; settings_size = size }

-- the audio switching of the MK2 and MK3: B is 1, A is 2, C is 3, D is 0.
abbrev pub mk2_presets : List (List ℕ × ℕ)
mk2_presets =
    (codes "r1FrBase_Cw.audioRx", 0)
    ∷ (codes "r1FrBase_Cw.audioTx", 0)
    ∷ (codes "r1FrBase_Cw.audioTxFootSw", 0)
    ∷ (codes "r1FrBase_Voice.audioRx", 2)
    ∷ (codes "r1FrBase_Voice.audioTx", 3)
    ∷ (codes "r1FrBase_Voice.audioTxFootSw", 2)
    ∷ (codes "r1FrBase_Digital.audioRx", 1)
    ∷ (codes "r1FrBase_Digital.audioTx", 1)
    ∷ (codes "r1FrBase_Digital.audioTxFootSw", 0)
    ∷ []

-- The adjustments of kcfg_create behind that loop: the MK family's,
unfoldable pub preset_family : Keyer → Kcfg → Kcfg
unfolding mk1_frbase_def is_mk_family
preset_family type k =
    if is_mk_family type
    then record k {
      bytes =
          set (set k.bytes mk1_frbase_voice (mk1_frbase_def mod_voice)) mk1_frbase_digital
            (mk1_frbase_def mod_digital);
    }
    else k

-- those of the DK2 and DK, which have no microphone PTT,
abbrev pub dk_presets : List (List ℕ × ℕ)
dk_presets = (codes "r1FrBase_Cw.ptt1", 0) ∷ (codes "r1FrBase_Cw.ptt2", 1) ∷ []

unfoldable pub preset_ptt : Keyer → Kcfg → Kcfg
unfolding set_vals is_keyer
preset_ptt type k =
    if is_keyer type Keyer.dk2 || is_keyer type Keyer.dk then set_vals k dk_presets else k

-- and those of the MK2 and MK3.
unfoldable pub preset_audio : Keyer → Kcfg → Kcfg
unfolding set_vals is_keyer
preset_audio type k =
    if is_keyer type Keyer.mk2 || is_keyer type Keyer.mk3 then set_vals k mk2_presets else k

unfoldable pub adjust : MhInfo → Kcfg → Kcfg
adjust mhi k =
    let k' = preset_audio mhi.type (preset_ptt mhi.type (preset_family mhi.type k)) in
    if is_mk_family mhi.type then mk1_set_frbase mhi k' else k'

-- `kcfg_create`
unfoldable pub create : MhInfo → Option Kcfg
create mhi =
    if is_keyer mhi.type Keyer.unknown
    then none
    else some (adjust mhi (set_presets (blank mhi.type) (blank mhi.type).items))

-- `kcfg_get_settings`: the bytes sent, and the settings as they are then.
unfoldable pub get_settings : MhInfo → Kcfg → List ℕ × Kcfg
get_settings mhi k =
    let k' = if is_mk_family mhi.type then mk1_set_frbase mhi k else k in
    (take k'.settings_size k'.bytes, k')

-- `kcfg_update_keyer_mode`
unfoldable pub update_keyer_mode : MhInfo → Kcfg → ℕ → ℕ → ℕ → Kcfg
unfolding set_val
update_keyer_mode mhi k cur r1 r2 =
    if has mhi has_r2
    then (set_val (set_val k (codes "r1KeyerMode") r1).1 (codes "r2KeyerMode") r2).1
    else (set_val k (codes "r1KeyerMode") cur).1
