-- ===== src/CatState/Modes.antt =====
-- src/cat_state.h, src/cat_state.c: `enum cat_mode`, its rigctld tokens, the keyer modes, and the
-- data flag that some modes carry.
use mhuxd.Base.{
  ℕ, Bool, true, false, Option, none, some, List, [], ◌∷◌, if◌then◌else◌, ◌==◌, codes, str_case_eq,
  get_or, ◌≡◌, refl, sym, ap, ◌∙◌, ◌↔◌, ==_iff, Eq,
}

pub data Mode : Type 0 where
  unknown lsb usb cw cwr rtty rttyr am ams fm wfm pktlsb pktusb pktam pktfm fax psk pskr other :
      Mode

-- the enumerators' numbers
abbrev pub mode_code : Mode → ℕ
mode_code unknown = 0
mode_code lsb = 1
mode_code usb = 2
mode_code cw = 3
mode_code cwr = 4
mode_code rtty = 5
mode_code rttyr = 6
mode_code am = 7
mode_code ams = 8
mode_code fm = 9
mode_code wfm = 10
mode_code pktlsb = 11
mode_code pktusb = 12
mode_code pktam = 13
mode_code pktfm = 14
mode_code fax = 15
mode_code psk = 16
mode_code pskr = 17
mode_code other = 18

unfoldable pub mode_eq : Mode → Mode → Bool
mode_eq m n = mode_code m == mode_code n

-- `MOD_CW`, …
pub data KeyerMode : Type 0 where
  mod_cw mod_voice mod_fsk mod_digital : KeyerMode

-- `cat_mode_token`: the tokens of `mode_tab`
unfoldable pub token : Mode → List ℕ
token unknown = []
token lsb = codes "LSB"
token usb = codes "USB"
token cw = codes "CW"
token cwr = codes "CWR"
token rtty = codes "RTTY"
token rttyr = codes "RTTYR"
token am = codes "AM"
token ams = codes "AMS"
token fm = codes "FM"
token wfm = codes "WFM"
token pktlsb = codes "PKTLSB"
token pktusb = codes "PKTUSB"
token pktam = codes "PKTAM"
token pktfm = codes "PKTFM"
token fax = codes "FAX"
token psk = codes "PSK"
token pskr = codes "PSKR"
token other = codes "OTHER"

-- `cat_mode_to_keyer`: the keyer modes of `mode_tab`, `none` for -1
unfoldable pub to_keyer : Mode → Option KeyerMode
to_keyer lsb = some mod_voice
to_keyer usb = some mod_voice
to_keyer cw = some mod_cw
to_keyer cwr = some mod_cw
to_keyer rtty = some mod_fsk
to_keyer rttyr = some mod_fsk
to_keyer am = some mod_voice
to_keyer ams = some mod_voice
to_keyer fm = some mod_voice
to_keyer wfm = some mod_voice
to_keyer pktlsb = some mod_digital
to_keyer pktusb = some mod_digital
to_keyer pktam = some mod_digital
to_keyer pktfm = some mod_digital
to_keyer fax = some mod_digital
to_keyer _ = none

-- the modes that the loop of `cat_mode_from_token` runs through
abbrev decoded_modes : List Mode
decoded_modes =
    lsb ∷ usb ∷ cw ∷ cwr ∷ rtty ∷ rttyr ∷ am ∷ ams ∷ fm ∷ wfm ∷ pktlsb ∷ pktusb ∷ pktam ∷ pktfm
    ∷ fax ∷ psk ∷ pskr ∷ []

unfoldable pub find_token : List ℕ → List Mode → Mode
unfolding token
find_token s [] = other
find_token s (m ∷ ms) = if str_case_eq s (token m) then m else find_token s ms

-- `cat_mode_from_token`
unfoldable pub from_token : List ℕ → Mode
unfolding find_token
from_token [] = unknown
from_token (c ∷ s) = find_token (c ∷ s) decoded_modes

-- `cat_mode_with_data`
unfoldable pub with_data : Mode → Bool → Mode
with_data base false = base
with_data lsb true = pktlsb
with_data usb true = pktusb
with_data am true = pktam
with_data fm true = pktfm
with_data base true = base

-- `mode_without_data`: the base mode and the data flag
unfoldable pub without_data : Mode → Mode × Bool
without_data pktlsb = (lsb, true)
without_data pktusb = (usb, true)
without_data pktam = (am, true)
without_data pktfm = (fm, true)
without_data mode = (mode, false)

mode_at : ℕ → Mode
mode_at n =
    get_or
      (unknown ∷ lsb ∷ usb ∷ cw ∷ cwr ∷ rtty ∷ rttyr ∷ am ∷ ams ∷ fm ∷ wfm ∷ pktlsb ∷ pktusb ∷ pktam
        ∷ pktfm ∷ fax ∷ psk ∷ pskr ∷ other ∷ [])
      n other

mode_at-mode_code : (m : Mode) → mode_at (mode_code m) ≡ m
unfolding mode_at
mode_at-mode_code = elim [ unknown ↦ refl | _ ↦ refl ]

mode_code-injective : (m n : Mode) → mode_code m ≡ mode_code n → m ≡ n
mode_code-injective m n h = sym (mode_at-mode_code m) ∙ ap mode_at h ∙ mode_at-mode_code n

pub mode_eq_iff : (m n : Mode) → (mode_eq m n ≡ true) ↔ (m ≡ n)
unfolding mode_eq
mode_eq_iff m n = (λ h. mode_code-injective m n ((==_iff _ _).0 h), λ e. rw e ((==_iff _ _).1 refl))

instance abbrev pub enum_eq : Eq Mode
enum_eq = record { beq = mode_eq; beq_iff = mode_eq_iff }
