-- ===== src/Ascii/Commands.antt =====
-- src/cat_ascii.c: the frames that carry state. `s` is a frame without its `;`. A decoder answers
-- with its outcome beside the state, which some outcomes leave partly updated, as in the source.
use mhuxd.Base.{
  ℕ, ◌+◌, Bool, true, false, not, ◌&&◌, ◌||◌, Option, none, some, List, [], ◌∷◌, if◌then◌else◌,
  ◌==◌, ltb, leb, length, take, drop, codes, starts_with, between,
}
use mhuxd.Cat.{updated, nothing, invalid, is_invalid}
use mhuxd.CatState
use mhuxd.CatState.{CatState}
use mhuxd.Ascii.State.{is_kenwood, is_elecraft, is_yaesu, is_flex, Decoder, put_ab}
use mhuxd.Ascii.Fields.{dec_freq, dec_bool, dec_mode_zz}
use mhuxd.Ascii.Effects.{
  Applied, char_at, rx_ab, with_st, set_freq, set_mode, update_split, set_split, select_rx,
  k3_apply, apply_coded, mode_code_in, apply_mode_code,
}

-- `cmd_freq`
unfoldable pub cmd_freq : Decoder → Bool → List ℕ → ℕ → Applied
cmd_freq d ab [] t = (nothing, d)
cmd_freq d ab (c ∷ p) t = elim (dec_freq (c ∷ p)) [
  | none ↦ (invalid, d)
  | some hz ↦ (updated, set_freq d ab hz t)
]

-- What the mode code leaves, unless it is refused.
abbrev then_updated : Applied → (Decoder → Decoder) → Applied
then_updated (r, d) f = if is_invalid r then (invalid, d) else (updated, f d)

-- `cmd_if_kenwood` behind its checks, not transmitting in split
unfoldable pub if_receiving : Decoder → List ℕ → ℕ → ℕ → Applied
unfolding mode_code_in
if_receiving d s hz t =
    let d1 =
      if char_at s 30 == b'2'
      then d
      else with_st d (CatState.select_vfo d.st (char_at s 30 == b'1') t) in
    let d2 = set_freq d1 (rx_ab d1) hz t in apply_mode_code d2 (rx_ab d2) (char_at s 29) false t

-- `cmd_if_kenwood` behind its checks
unfoldable pub if_checked : Decoder → List ℕ → ℕ → Bool → Bool → ℕ → Applied
unfolding if_receiving set_split
if_checked d s hz tx split t =
    if tx && split
    then (updated, set_split d split t)
    else then_updated (if_receiving d s hz t) (λ d'. set_split d' split t)

-- `cmd_if_kenwood`
unfoldable pub cmd_if_kenwood : Decoder → List ℕ → ℕ → Applied
unfolding if_checked
cmd_if_kenwood d s t =
    if length s == 2
    then (nothing, d)
    else if not (length s == 37)
    then (invalid, d)
    else elim (dec_freq (take 11 (drop 2 s))) [
      | none ↦ (invalid, d)
      | some hz ↦ elim (dec_bool (char_at s 28)) [
        | none ↦ (invalid, d)
        | some tx ↦ elim (dec_bool (char_at s 32)) [
          | none ↦ (invalid, d)
          | some split ↦
              if not (between b'0' b'2' (char_at s 30))
              then (invalid, d)
              else if_checked d s hz tx split t
        ]
      ]
    ]

-- The frequency of `w` digits, then the mode code.
unfoldable pub if_yaesu_width : Decoder → Bool → List ℕ → ℕ → ℕ → Applied
unfolding mode_code_in
if_yaesu_width d ab s w t = elim (dec_freq (take w (drop 5 s))) [
  | none ↦ (invalid, d)
  | some hz ↦
      then_updated (apply_mode_code (set_freq d ab hz t) ab (char_at s (5 + w + 7)) false t)
        (λ d'. d')
]

-- `cmd_if_yaesu`
unfoldable pub cmd_if_yaesu : Decoder → Bool → List ℕ → ℕ → Applied
unfolding if_yaesu_width
cmd_if_yaesu d ab s t =
    let n = length s in
    if n == 2
    then (nothing, d)
    else if n == 26 || n == 29
    then if_yaesu_width d ab s 8 t
    else if n == 27 || n == 40
    then if_yaesu_width d ab s 9 t
    else (invalid, d)

-- A code of VFO A or B, `0` or `1` at index 2, that the fourth character tells.
abbrev pub code_of_ab : Decoder → List ℕ → Bool → ℕ → Applied
code_of_ab d s data_codes t =
    if length s == 3 || length s == 2
    then (nothing, d)
    else if not (length s == 4) || not (between b'0' b'1' (char_at s 2))
    then (invalid, d)
    else apply_mode_code d (char_at s 2 == b'1') (char_at s 3) data_codes t

-- `cmd_md`
unfoldable pub cmd_md : Decoder → List ℕ → ℕ → Applied
unfolding mode_code_in
cmd_md d s t =
    let n = length s in
    if is_yaesu d.dialect
    then code_of_ab d s false t
    else if is_elecraft d.dialect && leb 3 n && char_at s 2 == b'$'
    then if n == 3
      then (nothing, d)
      else if n == 4
      then apply_mode_code d true (char_at s 3) false t
      else (invalid, d)
    else if n == 2
    then (nothing, d)
    else if n == 3
    then apply_mode_code d (rx_ab d) (char_at s 2) false t
    else (invalid, d)

-- `cmd_data` for Elecraft, the value at index `p`
unfoldable pub data_elecraft : Decoder → List ℕ → ℕ → Bool → ℕ → Applied
unfolding k3_apply
data_elecraft d s p ab t =
    if not (char_at s 1 == b'T') || length s == p
    then (nothing, d)
    else if not (length s == p + 1) || not (between b'0' b'3' (char_at s p))
    then (invalid, d)
    else (updated, k3_apply (record d { k3_dt = put_ab d.k3_dt ab (char_at s p) }) ab t)

abbrev apply_flag : Decoder → Option Bool → ℕ → Applied
apply_flag d none t = (invalid, d)
apply_flag d (some b) t = (updated, with_st d (CatState.set_data d.st 0 b t))

-- `cmd_data`
unfoldable pub cmd_data : Decoder → List ℕ → ℕ → Applied
unfolding data_elecraft
cmd_data d s t =
    if is_elecraft d.dialect
    then if leb 3 (length s) && char_at s 2 == b'$'
      then data_elecraft d s 3 true t
      else data_elecraft d s 2 (rx_ab d) t
    else if not (is_kenwood d.dialect) || length s == 2
    then (nothing, d)
    else if not (length s == 3)
    then (invalid, d)
    else apply_flag d (dec_bool (char_at s 2)) t

-- `cmd_vfo`
unfoldable pub cmd_vfo : Decoder → List ℕ → ℕ → Applied
unfolding update_split select_rx
cmd_vfo d s t =
    let ab = char_at s 2 == b'1' in
    if length s == 2
    then (nothing, d)
    else if not (length s == 3) || not (between b'0' b'3' (char_at s 2))
    then (invalid, d)
    else if ltb b'1' (char_at s 2)
    then (nothing, d)
    else if starts_with (codes "FT") s
    then (updated, update_split (record d { tx_ab = some ab }) t)
    else (updated, select_rx d ab t)

-- `cmd_split`
unfoldable pub cmd_split : Decoder → ℕ → ℕ → Applied
unfolding set_split
cmd_split d c t =
    if not (between b'0' b'2' c) then (invalid, d) else (updated, set_split d (not (c == b'0')) t)

-- `cmd_om`
unfoldable pub cmd_om : Decoder → List ℕ → ℕ → Applied
unfolding mode_code_in
cmd_om d s t = code_of_ab d s true t

-- `cmd_sf`
unfoldable pub cmd_sf : Decoder → List ℕ → ℕ → Applied
unfolding mode_code_in
cmd_sf d s t =
    if length s == 3 || length s == 2
    then (nothing, d)
    else if not (length s == 15) || not (between b'0' b'1' (char_at s 2))
    then (invalid, d)
    else elim (dec_freq (take 11 (drop 3 s))) [
      | none ↦ (invalid, d)
      | some hz ↦
          let ab = char_at s 2 == b'1' in
          apply_mode_code (set_freq d ab hz t) ab (char_at s 14) true t
    ]

-- `cmd_zz`
unfoldable pub cmd_zz : Decoder → List ℕ → ℕ → Applied
unfolding cmd_freq cmd_split set_mode
cmd_zz d s t =
    if length s == 4
    then (nothing, d)
    else if starts_with (codes "ZZFA") s
    then cmd_freq d false (drop 4 s) t
    else if starts_with (codes "ZZFB") s
    then cmd_freq d true (drop 4 s) t
    else if starts_with (codes "ZZMD") s
    then apply_coded d false (dec_mode_zz (drop 4 s)) t
    else if starts_with (codes "ZZME") s
    then apply_coded d true (dec_mode_zz (drop 4 s)) t
    else if starts_with (codes "ZZSP") s
    then if length s == 5 then cmd_split d (char_at s 4) t else (invalid, d)
    else (nothing, d)

-- `apply_frame` for frames that the radio alone is believed
unfoldable pub apply_radio_frame : Decoder → List ℕ → ℕ → Applied
unfolding cmd_if_yaesu cmd_if_kenwood cmd_vfo cmd_split cmd_om cmd_sf
apply_radio_frame d s t =
    let yaesu' = is_yaesu d.dialect in
    if starts_with (codes "IF") s
    then if yaesu' then cmd_if_yaesu d false s t else cmd_if_kenwood d s t
    else if yaesu' && starts_with (codes "OI") s
    then cmd_if_yaesu d true s t
    else if starts_with (codes "FT") s
        || (not yaesu' && starts_with (codes "FR") s)
        || (yaesu' && starts_with (codes "VS") s)
    then cmd_vfo d s t
    else if yaesu' && starts_with (codes "ST") s
    then if length s == 2
      then (nothing, d)
      else if length s == 3
      then cmd_split d (char_at s 2) t
      else (invalid, d)
    else if is_kenwood d.dialect && starts_with (codes "OM") s
    then cmd_om d s t
    else if is_kenwood d.dialect && starts_with (codes "SF") s
    then cmd_sf d s t
    else (nothing, d)

-- `apply_frame`; `from_client` is `set`.
unfoldable pub apply_frame : Decoder → List ℕ → Bool → ℕ → Applied
unfolding cmd_freq cmd_md cmd_data cmd_zz apply_radio_frame
apply_frame d s from_client t =
    if ltb (length s) 2
    then (nothing, d)
    else if starts_with (codes "FA") s
    then cmd_freq d false (drop 2 s) t
    else if starts_with (codes "FB") s
    then cmd_freq d true (drop 2 s) t
    else if starts_with (codes "MD") s
    then cmd_md d s t
    else if starts_with (codes "DA") s || starts_with (codes "DT") s
    then cmd_data d s t
    else if is_flex d.dialect && leb 4 (length s) && starts_with (codes "ZZ") s
    then if from_client && starts_with (codes "ZZSP") s then (nothing, d) else cmd_zz d s t
    else if from_client
    then (nothing, d)
    else apply_radio_frame d s t
