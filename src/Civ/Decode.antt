-- ===== src/Civ/Decode.antt =====
-- src/cat_civ.c: field decoding, and the frames that carry state. A decoder is given the frequency
-- length of the configuration, the state, the data bytes and the time.
use mhuxd.Base.{
  ℕ, ◌+◌, ◌*◌, ◌/◌, ◌%◌, Bool, true, false, not, ◌&&◌, ◌||◌, Option, none, some, List, [], ◌∷◌,
  if◌then◌else◌, ◌==◌, ltb, leb, length, u64,
}
use mhuxd.Cat.{Outcome, updated, nothing, invalid}
use mhuxd.CatState.{
  CatState, set_freq, set_mode, set_data, set_split, select_vfo, exchange_vfos, equalize_vfos,
}
use mhuxd.CatState.Modes.{Mode}
use mhuxd.Civ.State.{f_cmd, f_data}

-- The loop of `dec_freq` over packed BCD, least significant byte first.
unfoldable pub bcd_loop : ℕ → ℕ → List ℕ → Option ℕ
bcd_loop f mul [] = some f
bcd_loop f mul (b ∷ bs) =
    let lo = b % 16 in
    let hi = b / 16 in
    let rest = bcd_loop (u64 (f + (lo + hi * 10) * mul)) (u64 (mul * 100)) bs in
    if ltb 9 lo || ltb 9 hi then none else rest

-- `if(f == 0 || f > UINT32_MAX)`
abbrev pub fits_hz : Option ℕ → Option ℕ
fits_hz none = none
fits_hz (some f) = if f == 0 || ltb 0xffffffff f then none else some f

-- `dec_freq`
unfoldable pub dec_freq : ℕ → List ℕ → Option ℕ
dec_freq freq_len p = if length p == freq_len then fits_hz (bcd_loop 0 1 p) else none

-- `dec_mode`
unfoldable pub dec_mode : ℕ → Option Mode
dec_mode b =
    if b == 0x00
    then some Mode.lsb
    else if b == 0x01
    then some Mode.usb
    else if b == 0x02
    then some Mode.am
    else if b == 0x03
    then some Mode.cw
    else if b == 0x04
    then some Mode.rtty
    else if b == 0x05
    then some Mode.fm
    else if b == 0x06
    then some Mode.wfm
    else if b == 0x07
    then some Mode.cwr
    else if b == 0x08
    then some Mode.rttyr
    else if b == 0x11 || b == 0x14 || b == 0x15
    then some Mode.ams
    else if b == 0x12
    then some Mode.psk
    else if b == 0x13
    then some Mode.pskr
    else if leb 0x16 b && leb b 0x19 || leb 0x20 b && leb b 0x23
    then some Mode.other
    else none

-- `dec_data`
unfoldable pub dec_data : ℕ → Option Bool
dec_data b = if ltb 3 b then none else some (not (b == 0))

-- `apply_freq`
unfoldable pub apply_freq : ℕ → CatState → ℕ → List ℕ → ℕ → Outcome × CatState
apply_freq freq_len st vfo p t = elim (dec_freq freq_len p) [
  | none ↦ (invalid, st)
  | some hz ↦ (updated, set_freq st vfo hz t)
]

-- `apply_mode`: mode, and a filter that is not looked at
unfoldable pub apply_mode : CatState → ℕ → List ℕ → ℕ → Outcome × CatState
apply_mode st vfo [] t = (invalid, st)
apply_mode st vfo (m ∷ rest) t =
    if ltb 1 (length rest)
    then (invalid, st)
    else elim (dec_mode m) [ none ↦ (invalid, st) | some mode ↦ (updated, set_mode st vfo mode t) ]

-- `apply_25`: VFO, frequency
unfoldable pub apply_25 : ℕ → CatState → List ℕ → ℕ → Outcome × CatState
apply_25 freq_len st [] t = (invalid, st)
apply_25 freq_len st (vfo ∷ p) t =
    if ltb 1 vfo then (invalid, st) else apply_freq freq_len st vfo p t

abbrev data_byte : List ℕ → Option Bool
data_byte [] = some false
data_byte (b ∷ rest) = dec_data b

-- `apply_26`: VFO, mode, data and filter; without a data byte data is off.
unfoldable pub apply_26 : CatState → List ℕ → ℕ → Outcome × CatState
apply_26 st [] t = (invalid, st)
apply_26 st (vfo ∷ []) t = (invalid, st)
apply_26 st (vfo ∷ m ∷ rest) t =
    if ltb 2 (length rest) || ltb 1 vfo then (invalid, st) else elim (dec_mode m) [
      | none ↦ (invalid, st)
      | some mode ↦ elim (data_byte rest) [
        | none ↦ (invalid, st)
        | some on ↦ (updated, set_data (set_mode st vfo mode t) vfo on t)
      ]
    ]

-- `apply_1a06`: sub command, data, filter
unfoldable pub apply_1a06 : CatState → List ℕ → ℕ → Outcome × CatState
apply_1a06 st [] t = (invalid, st)
apply_1a06 st (sub ∷ []) t = (invalid, st)
apply_1a06 st (sub ∷ b ∷ rest) t =
    if ltb 1 (length rest)
    then (invalid, st)
    else elim (dec_data b) [ none ↦ (invalid, st) | some on ↦ (updated, set_data st 0 on t) ]

-- `apply_0f`: split
unfoldable pub apply_0f : CatState → List ℕ → ℕ → Outcome × CatState
apply_0f st [] t = (invalid, st)
apply_0f st (b ∷ []) t =
    if leb b 1
    then (updated, set_split st (b == 1) t)
    else (if leb 0x10 b && leb b 0x12 then nothing else invalid, st)
apply_0f st (b ∷ x ∷ rest) t = (invalid, st)

-- `apply_07`: VFO selection
unfoldable pub apply_07 : CatState → List ℕ → ℕ → Outcome × CatState
apply_07 st [] t = (invalid, st)
apply_07 st (b ∷ []) t =
    if b == 0x00
    then (updated, select_vfo st false t)
    else if b == 0x01
    then (updated, select_vfo st true t)
    else if b == 0xa0
    then (updated, equalize_vfos st)
    else if b == 0xb0
    then (updated, exchange_vfos st)
    else (nothing, st)
apply_07 st (b ∷ x ∷ rest) t = (invalid, st)

-- `n >= 1 && p[0] == 0x06`
abbrev pub is_sub_06 : List ℕ → Bool
is_sub_06 [] = false
is_sub_06 (b ∷ rest) = b == 0x06

-- `apply_reply`
unfoldable pub apply_reply : ℕ → CatState → List ℕ → ℕ → Outcome × CatState
apply_reply freq_len st f t =
    let p = f_data f in
    let cmd = f_cmd f in
    if cmd == 0x03
    then apply_freq freq_len st 0 p t
    else if cmd == 0x04
    then apply_mode st 0 p t
    else if cmd == 0x0f
    then apply_0f st p t
    else if cmd == 0x25
    then apply_25 freq_len st p t
    else if cmd == 0x26
    then apply_26 st p t
    else if cmd == 0x1a && is_sub_06 p
    then apply_1a06 st p t
    else (nothing, st)

-- `apply_unsolicited`
unfoldable pub apply_unsolicited : ℕ → CatState → List ℕ → ℕ → Outcome × CatState
apply_unsolicited freq_len st f t =
    let p = f_data f in
    let cmd = f_cmd f in
    if cmd == 0x00
    then apply_freq freq_len st 0 p t
    else if cmd == 0x01
    then apply_mode st 0 p t
    else (nothing, st)

-- `apply_set`
unfoldable pub apply_set : ℕ → CatState → List ℕ → ℕ → Outcome × CatState
apply_set freq_len st f t =
    let p = f_data f in
    let cmd = f_cmd f in
    if cmd == 0x05
    then apply_freq freq_len st 0 p t
    else if cmd == 0x06
    then apply_mode st 0 p t
    else if cmd == 0x07
    then apply_07 st p t
    else if cmd == 0x0f
    then apply_0f st p t
    else if cmd == 0x25
    then apply_25 freq_len st p t
    else if cmd == 0x26
    then apply_26 st p t
    else if cmd == 0x1a && is_sub_06 p
    then apply_1a06 st p t
    else (nothing, st)

-- `has_sub`
unfoldable pub has_sub : ℕ → Bool
has_sub cmd =
    cmd == 0x13
    || cmd == 0x14
    || cmd == 0x15
    || cmd == 0x16
    || cmd == 0x19
    || cmd == 0x1a
    || cmd == 0x1b
    || cmd == 0x1c
    || cmd == 0x1e
    || cmd == 0x21
    || cmd == 0x25
    || cmd == 0x26
    || cmd == 0x27

-- What `is_query` returns: 1, 0 or -1.
pub data Intent : Type 0 where
  query set unsure : Intent

abbrev query_if : Bool → Intent
query_if true = query
query_if false = set

abbrev pub is_query_intent : Intent → Bool
is_query_intent query = true
is_query_intent _ = false

abbrev pub is_set_intent : Intent → Bool
is_set_intent set = true
is_set_intent _ = false

-- `is_query`
unfoldable pub intent : List ℕ → Intent
intent f =
    let p = f_data f in
    let cmd = f_cmd f in
    if cmd == 0x03 || cmd == 0x04 || cmd == 0x0f
    then query_if (length p == 0)
    else if cmd == 0x05 || cmd == 0x06 || cmd == 0x07
    then set
    else if cmd == 0x25 || cmd == 0x26
    then query_if (length p == 1)
    else if cmd == 0x1a && is_sub_06 p
    then query_if (length p == 1)
    else unsure
