-- ===== src/Mhinfo.antt =====
-- src/mhinfo.c, src/mhinfo.h: the keyer types, what each can do, and the answer to GET VERSION.
pub mod Flags
use Prim.Native.String.{String}
use mhuxd.Base.{
  ℕ, ◌*◌, ◌/◌, ◌%◌, ◌^◌, Bool, true, false, List, [], ◌∷◌, if◌then◌else◌, ◌==◌, ltb, length, get_or,
  codes, bit, bit_or, drop, u16,
}

-- the enumeration `MHT_*`
pub data Keyer : Type 0 where
  unknown ck dk dk2 mk mk2 mk2r mk2rp sm smd u2r mk3 : Keyer

unfoldable pub keyer_code : Keyer → ℕ
keyer_code unknown = 0
keyer_code ck = 1
keyer_code dk = 2
keyer_code dk2 = 3
keyer_code mk = 4
keyer_code mk2 = 5
keyer_code mk2r = 6
keyer_code mk2rp = 7
keyer_code sm = 8
keyer_code smd = 9
keyer_code u2r = 10
keyer_code mk3 = 11

-- `a == b` of two types
unfoldable pub is_keyer : Keyer → Keyer → Bool
unfolding keyer_code
is_keyer a b = keyer_code a == keyer_code b

-- the flags with these bits, joined by `|`
unfoldable pub flag_mask : List ℕ → ℕ
flag_mask [] = 0
flag_mask (k ∷ ks) = bit_or (2 ^ k) (flag_mask ks)

-- `struct mh_info_map`
pub record InfoMap : Type 0 where
  pub name : List ℕ
  pub flags : ℕ
  pub type : Keyer

abbrev entry : Keyer → String → List ℕ → InfoMap
entry type name flags = record { name = codes name; flags = flag_mask flags; type = type }

-- `mh_info_map`
unfoldable pub mh_info_map : List InfoMap
unfolding flag_mask
mh_info_map =
    entry unknown "Unknown" ([])
    ∷ entry ck "CW KEYER" (
        Flags.mhuxd_supported ∷ Flags.has_winkey ∷ Flags.has_ptt_settings ∷ Flags.has_flags_channel
        ∷ Flags.has_mcp_support ∷ [])
    ∷ entry dk "DIGI KEYER" (
        Flags.mhuxd_supported ∷ Flags.has_r1 ∷ Flags.has_fsk1 ∷ Flags.has_lna_pa_ptt
        ∷ Flags.has_ptt_settings ∷ Flags.has_flags_channel ∷ Flags.has_mcp_support ∷ [])
    ∷ entry dk2 "DIGI KEYER II" (
        Flags.mhuxd_supported ∷ Flags.has_r1 ∷ Flags.has_r1_radio_support ∷ Flags.has_winkey
        ∷ Flags.has_fsk1 ∷ Flags.has_frbase_cw ∷ Flags.has_frbase_digital ∷ Flags.has_lna_pa_ptt
        ∷ Flags.has_lna_pa_ptt_tail ∷ Flags.has_soundcard_ptt ∷ Flags.has_follow_tx_mode
        ∷ Flags.has_ptt_settings ∷ Flags.has_keyer_mode ∷ Flags.has_flags_channel
        ∷ Flags.has_mcp_support ∷ Flags.has_pfsk ∷ Flags.has_pcw ∷ Flags.has_no_voice_use_fsk ∷ [])
    ∷ entry mk "micro KEYER" (
        Flags.mhuxd_supported ∷ Flags.has_r1 ∷ Flags.has_winkey ∷ Flags.has_frbase ∷ Flags.has_fsk1
        ∷ Flags.has_lna_pa_ptt ∷ Flags.has_audio_switching ∷ Flags.has_ptt_settings
        ∷ Flags.has_keyer_mode ∷ Flags.has_flags_channel ∷ Flags.has_mcp_support ∷ [])
    ∷ entry mk2 "micro KEYER II" (
        Flags.mhuxd_supported ∷ Flags.has_r1 ∷ Flags.has_r1_radio_support ∷ Flags.has_aux
        ∷ Flags.has_winkey ∷ Flags.has_frbase_voice ∷ Flags.has_frbase_digital ∷ Flags.has_frbase_cw
        ∷ Flags.has_fsk1 ∷ Flags.has_lna_pa_ptt ∷ Flags.has_lna_pa_ptt_tail
        ∷ Flags.has_soundcard_ptt ∷ Flags.has_cw_in_voice ∷ Flags.has_audio_switching
        ∷ Flags.has_display ∷ Flags.has_follow_tx_mode ∷ Flags.has_ptt_settings
        ∷ Flags.has_keyer_mode ∷ Flags.has_flags_channel ∷ Flags.has_mcp_support ∷ Flags.has_cat_cmd
        ∷ [])
    ∷ entry mk3 "micro KEYER III" (
        Flags.mhuxd_supported ∷ Flags.has_r1 ∷ Flags.has_r1_radio_support ∷ Flags.has_aux
        ∷ Flags.has_winkey ∷ Flags.has_frbase_voice ∷ Flags.has_frbase_digital ∷ Flags.has_frbase_cw
        ∷ Flags.has_fsk1 ∷ Flags.has_lna_pa_ptt ∷ Flags.has_lna_pa_ptt_tail
        ∷ Flags.has_soundcard_ptt ∷ Flags.has_cw_in_voice ∷ Flags.has_audio_switching
        ∷ Flags.has_display ∷ Flags.has_follow_tx_mode ∷ Flags.has_ptt_settings
        ∷ Flags.has_keyer_mode ∷ Flags.has_flags_channel ∷ Flags.has_mcp_support ∷ Flags.has_pfsk
        ∷ Flags.has_pcw ∷ Flags.has_cat_cmd ∷ [])
    ∷ entry mk2r "MK2R" (
        Flags.mhuxd_supported ∷ Flags.has_r1 ∷ Flags.has_r1_radio_support ∷ Flags.has_r2
        ∷ Flags.has_r2_radio_support ∷ Flags.has_winkey ∷ Flags.has_frbase_voice
        ∷ Flags.has_frbase_digital ∷ Flags.has_frbase_cw ∷ Flags.has_fsk1 ∷ Flags.has_fsk2
        ∷ Flags.has_lna_pa_ptt ∷ Flags.has_lna_pa_ptt_tail ∷ Flags.has_cw_in_voice
        ∷ Flags.has_audio_switching ∷ Flags.has_follow_tx_mode ∷ Flags.has_ptt_settings
        ∷ Flags.has_keyer_mode ∷ Flags.has_flags_channel ∷ Flags.has_mcp_support ∷ Flags.has_cat_cmd
        ∷ [])
    ∷ entry mk2rp "MK2R+" (
        Flags.mhuxd_supported ∷ Flags.has_r1 ∷ Flags.has_r1_radio_support ∷ Flags.has_r2
        ∷ Flags.has_r2_radio_support ∷ Flags.has_winkey ∷ Flags.has_frbase_voice
        ∷ Flags.has_frbase_digital ∷ Flags.has_frbase_cw ∷ Flags.has_fsk1 ∷ Flags.has_fsk2
        ∷ Flags.has_lna_pa_ptt ∷ Flags.has_lna_pa_ptt_tail ∷ Flags.has_cw_in_voice
        ∷ Flags.has_audio_switching ∷ Flags.has_follow_tx_mode ∷ Flags.has_ptt_settings
        ∷ Flags.has_keyer_mode ∷ Flags.has_flags_channel ∷ Flags.has_mcp_support ∷ Flags.has_cat_cmd
        ∷ [])
    ∷ entry sm "Station Master" (
        Flags.mhuxd_supported ∷ Flags.has_r1 ∷ Flags.has_r1_radio_support ∷ Flags.has_aux
        ∷ Flags.has_display ∷ Flags.has_rotator_support ∷ Flags.has_sm_commands ∷ Flags.has_cat_cmd
        ∷ [])
    ∷ entry smd "Station Master DeLuxe" (
        Flags.mhuxd_supported ∷ Flags.has_r1 ∷ Flags.has_r1_radio_support ∷ Flags.has_aux
        ∷ Flags.has_display ∷ Flags.has_rotator_support ∷ Flags.has_sm_commands ∷ Flags.has_cat_cmd
        ∷ [])
    ∷ entry u2r "micro2R" (
        Flags.has_winkey ∷ Flags.has_fsk1 ∷ Flags.has_fsk2 ∷ Flags.has_audio_switching
        ∷ Flags.has_ptt_settings ∷ Flags.has_keyer_mode ∷ Flags.has_flags_channel ∷ [])
    ∷ []

-- `struct mh_info`
pub record MhInfo : Type 0 where
  pub type : Keyer
  pub ver_fw_major : ℕ
  pub ver_fw_minor : ℕ
  pub ver_fw_beta : ℕ
  pub ver_winkey : ℕ
  pub flags : ℕ
  pub type_str : List ℕ

-- `mhi->flags & flag`
abbrev pub has : MhInfo → ℕ → Bool
has mhi flag = bit flag mhi.flags

-- the loop over `mh_info_map` of mhi_parse_version and mhi_init
unfoldable pub find_info : MhInfo → List InfoMap → MhInfo
unfolding is_keyer
find_info mhi [] = mhi
find_info mhi (e ∷ es) =
    let rest = find_info mhi es in
    if is_keyer mhi.type e.type then record mhi { type_str = e.name; flags = e.flags } else rest

-- the `switch` of mhi_parse_version; `p` are the bytes behind the command.
unfoldable pub version_type : List ℕ → Keyer
version_type p =
    let t = bit_or (get_or p 2 0 * 256) (get_or p 5 0) in
    let variant = get_or p 17 0 in
    if t == 0x1000
    then if variant == 0x0f then dk else if variant == 0xf0 then ck else mk
    else if t == 0x1201
    then mk2
    else if t == 0x1701
    then mk3
    else if t == 0x1601
    then dk2
    else if t == 0x1101
    then mk2r
    else if t == 0x1102
    then mk2rp
    else if t == 0x1501
    then u2r
    else if t == 0x1301
    then sm
    else if t == 0x1401
    then smd
    else unknown

-- `mhi_parse_version`: true for 0, false for -1.
unfoldable pub parse_version : MhInfo → List ℕ → Bool × MhInfo
unfolding version_type find_info mh_info_map
parse_version mhi bytes =
    let p = drop 1 bytes in
    if ltb (length bytes) 19 then (false, record mhi { type = unknown }) else (
      true,
      find_info
          (record mhi {
            type = version_type p;
            ver_winkey = get_or p 16 0;
            ver_fw_major = get_or p 9 0;
            ver_fw_minor = get_or p 10 0 % 128;
            ver_fw_beta = get_or p 10 0 / 128;
          })
          mh_info_map,
    )

-- `mhi_init`
unfoldable pub init : Keyer → MhInfo
unfolding find_info mh_info_map
init type =
    find_info
      (record {
        type = type;
        ver_fw_major = 0;
        ver_fw_minor = 0;
        ver_fw_beta = 0;
        ver_winkey = 0;
        flags = 0;
        type_str = codes "Unknown";
      })
      mh_info_map

-- `mhi_type_from_serial`
unfoldable pub type_from_serial : List ℕ → Keyer
type_from_serial serial =
    let head = u16 (bit_or (get_or serial 0 0 * 256) (get_or serial 1 0)) in
    if head == 0x4d4b
    then mk
    else if head == 0x444b
    then dk
    else if head == 0x434b
    then ck
    else if head == 0x4d32
    then mk2
    else if head == 0x4d33
    then mk3
    else if head == 0x4432
    then dk2
    else if head == 0x3252
    then mk2r
    else if head == 0x3250
    then mk2rp
    else if head == 0x5552
    then u2r
    else if head == 0x534d
    then sm
    else if head == 0x5344
    then smd
    else unknown
