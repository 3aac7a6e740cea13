-- ===== src/Ascii/Fields.antt =====
-- src/cat_ascii.c: the values in frames.
use mhuxd.Base.{
  ℕ, ◌+◌, ◌-◌, ◌*◌, Bool, true, false, ◌||◌, Option, none, some, List, [], ◌∷◌, if◌then◌else◌, ◌==◌,
  ltb, length, u64, between,
}
use mhuxd.CatState.Modes.{Mode}

-- The loop of `dec_freq`.
unfoldable pub digits_loop : ℕ → List ℕ → Option ℕ
digits_loop f [] = some f
digits_loop f (c ∷ p) =
    let rest = digits_loop (u64 (f * 10 + (c - b'0'))) p in
    if between b'0' b'9' c then rest else none

abbrev pub fits_hz : Option ℕ → Option ℕ
fits_hz none = none
fits_hz (some f) = if f == 0 || ltb 0xffffffff f then none else some f

-- `dec_freq`
unfoldable pub dec_freq : List ℕ → Option ℕ
dec_freq p = if between 8 11 (length p) then fits_hz (digits_loop 0 p) else none

-- `dec_bool`
unfoldable pub dec_bool : ℕ → Option Bool
dec_bool c = if c == b'0' then some false else if c == b'1' then some true else none

-- A mode with the data flag that its code tells, `none` for -1.
abbrev pub Coded : Type 0
Coded = Mode × Option Bool

-- `dec_mode_kenwood`
unfoldable pub dec_mode_kenwood : Bool → Bool → ℕ → Option Coded
dec_mode_kenwood no_data data_codes c =
    let told : Option Bool = if no_data || data_codes then some false else none in
    if c == b'1'
    then some (Mode.lsb, told)
    else if c == b'2'
    then some (Mode.usb, told)
    else if c == b'3'
    then some (Mode.cw, told)
    else if c == b'4'
    then some (Mode.fm, told)
    else if c == b'5'
    then some (Mode.am, told)
    else if c == b'6'
    then some (Mode.rtty, told)
    else if c == b'7'
    then some (Mode.cwr, told)
    else if c == b'9'
    then some (Mode.rttyr, told)
    else if c == b'A'
    then some (Mode.psk, some false)
    else if c == b'B'
    then some (Mode.pskr, some false)
    else if c == b'C' || c == b'G' || c == b'K'
    then some (Mode.pktlsb, some true)
    else if c == b'D' || c == b'H' || c == b'L'
    then some (Mode.pktusb, some true)
    else if c == b'E' || c == b'I' || c == b'M'
    then some (Mode.pktfm, some true)
    else if c == b'F' || c == b'J' || c == b'N'
    then some (Mode.pktam, some true)
    else none

-- `dec_mode_flex`
unfoldable pub dec_mode_flex : ℕ → Option Coded
dec_mode_flex c =
    if c == b'1'
    then some (Mode.lsb, some false)
    else if c == b'2'
    then some (Mode.usb, some false)
    else if c == b'3'
    then some (Mode.cw, some false)
    else if c == b'4'
    then some (Mode.fm, some false)
    else if c == b'5'
    then some (Mode.am, some false)
    else if c == b'6'
    then some (Mode.pktlsb, some true)
    else if c == b'7'
    then some (Mode.cwr, some false)
    else if c == b'9'
    then some (Mode.pktusb, some true)
    else none

-- The digits of `dec_mode_zz`.
unfoldable pub zz_loop : ℕ → List ℕ → Option ℕ
zz_loop v [] = some v
zz_loop v (c ∷ p) =
    let rest = zz_loop (v * 10 + c - b'0') p in if between b'0' b'9' c then rest else none

-- The `switch` of `dec_mode_zz`.
unfoldable pub zz_mode : ℕ → Option Coded
zz_mode v =
    if v == 0
    then some (Mode.lsb, some false)
    else if v == 1
    then some (Mode.usb, some false)
    else if v == 3
    then some (Mode.cwr, some false)
    else if v == 4
    then some (Mode.cw, some false)
    else if v == 5
    then some (Mode.fm, some false)
    else if v == 6
    then some (Mode.am, some false)
    else if v == 7
    then some (Mode.pktusb, some true)
    else if v == 9
    then some (Mode.pktlsb, some true)
    else if v == 10
    then some (Mode.ams, some false)
    else if v == 2 || v == 8 || v == 11
    then some (Mode.other, some false)
    else none

-- `dec_mode_zz`
unfoldable pub dec_mode_zz : List ℕ → Option Coded
unfolding zz_loop zz_mode
dec_mode_zz p =
    if between 1 2 (length p) then elim (zz_loop 0 p) [ none ↦ none | some v ↦ zz_mode v ] else none

-- `dec_mode_yaesu`
unfoldable pub dec_mode_yaesu : ℕ → Option Coded
dec_mode_yaesu c =
    if c == b'1'
    then some (Mode.lsb, some false)
    else if c == b'2'
    then some (Mode.usb, some false)
    else if c == b'3'
    then some (Mode.cw, some false)
    else if c == b'4'
    then some (Mode.fm, some false)
    else if c == b'5'
    then some (Mode.am, some false)
    else if c == b'6'
    then some (Mode.rtty, some false)
    else if c == b'7'
    then some (Mode.cwr, some false)
    else if c == b'8'
    then some (Mode.pktlsb, some true)
    else if c == b'9'
    then some (Mode.rttyr, some false)
    else if c == b'A'
    then some (Mode.pktfm, some true)
    else if c == b'B'
    then some (Mode.fm, some false)
    else if c == b'C'
    then some (Mode.pktusb, some true)
    else if c == b'D'
    then some (Mode.am, some false)
    else if c == b'E'
    then some (Mode.other, some false)
    else if c == b'F'
    then some (Mode.pktfm, some true)
    else none

-- `k3_data_mode`
unfoldable pub k3_data_mode : ℕ → ℕ → Mode
k3_data_mode md dt =
    if dt == b'1'
    then Mode.pktlsb
    else if dt == b'2'
    then if md == b'9' then Mode.rttyr else Mode.rtty
    else Mode.pktusb
