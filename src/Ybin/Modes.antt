-- ===== src/Ybin/Modes.antt =====
-- src/cat_ybin.c: the mode codes. `Mode.unknown` is `CAT_MODE_NONE`.
use mhuxd.Base.{ℕ, ◌+◌, ◌*◌, ◌/◌, ◌%◌, ◌&&◌, Bool, if◌then◌else◌, ◌==◌, ◌||◌, bit}
use mhuxd.CatState.Modes.{Mode}
use mhuxd.Ybin.Models.{Family, fam_757, fam_900, fam_920, is_fam_mp}

-- `mode_817`
unfoldable pub mode_817 : ℕ → Mode
mode_817 c =
    let k = c % 128 in
    if k == 0x00
    then Mode.lsb
    else if k == 0x01
    then Mode.usb
    else if k == 0x02
    then Mode.cw
    else if k == 0x03
    then Mode.cwr
    else if k == 0x04
    then Mode.am
    else if k == 0x06
    then Mode.wfm
    else if k == 0x08
    then Mode.fm
    else if k == 0x0a
    then Mode.pktusb
    else if k == 0x0c
    then Mode.pktfm
    else Mode.unknown

-- `modeset_1000`
unfoldable pub modeset_1000 : ℕ → Mode
modeset_1000 c =
    let k = c % 128 in
    if k == 0x00
    then Mode.lsb
    else if k == 0x01
    then Mode.usb
    else if k == 0x02
    then Mode.cw
    else if k == 0x03
    then Mode.cwr
    else if k == 0x04
    then Mode.am
    else if k == 0x05
    then Mode.ams
    else if k == 0x06 || k == 0x07
    then Mode.fm
    else if k == 0x08
    then Mode.rtty
    else if k == 0x09
    then Mode.rttyr
    else if k == 0x0a
    then Mode.pktlsb
    else if k == 0x0b
    then Mode.pktfm
    else Mode.unknown

-- `modeset_920`
unfoldable pub modeset_920 : ℕ → Mode
modeset_920 c =
    let k = c % 128 in
    if k == 0x00
    then Mode.lsb
    else if k == 0x01
    then Mode.usb
    else if k == 0x02
    then Mode.cw
    else if k == 0x03
    then Mode.cwr
    else if k == 0x04 || k == 0x05
    then Mode.am
    else if k == 0x06 || k == 0x07
    then Mode.fm
    else if k == 0x08
    then Mode.pktlsb
    else if k == 0x0a
    then Mode.pktusb
    else if k == 0x0b
    then Mode.pktfm
    else Mode.unknown

-- `modeset_900`
unfoldable pub modeset_900 : ℕ → Mode
modeset_900 c =
    if c == 0x00
    then Mode.lsb
    else if c == 0x01
    then Mode.usb
    else if c == 0x02 || c == 0x03
    then Mode.cw
    else if c == 0x04 || c == 0x05
    then Mode.am
    else if c == 0x06
    then Mode.fm
    else Mode.unknown

-- `mode_757`
unfoldable pub mode_757 : ℕ → Mode
mode_757 c =
    if c == 0x00
    then Mode.lsb
    else if c == 0x01
    then Mode.usb
    else if c == 0x02 || c == 0x03
    then Mode.cw
    else if c == 0x04
    then Mode.am
    else if c == 0x05
    then Mode.fm
    else Mode.unknown

-- `switch(m & 0x47)` of `rec_mode`
unfoldable pub rec_mode_920 : ℕ → Mode
rec_mode_920 m =
    let k = m / 64 % 2 * 64 + m % 8 in
    if k == 0x00
    then Mode.lsb
    else if k == 0x40
    then Mode.usb
    else if k == 0x01
    then Mode.cwr
    else if k == 0x41
    then Mode.cw
    else if k == 0x02
    then Mode.am
    else if k == 0x03
    then Mode.fm
    else if k == 0x04
    then Mode.pktlsb
    else if k == 0x05
    then Mode.pktusb
    else if k == 0x06
    then Mode.pktfm
    else Mode.unknown

unfoldable pub rec_mode_900 : ℕ → Mode
rec_mode_900 m =
    let k = m % 8 in
    if k == 0
    then Mode.lsb
    else if k == 1
    then Mode.usb
    else if k == 2
    then Mode.cw
    else if k == 3
    then Mode.am
    else if k == 4
    then Mode.fm
    else Mode.unknown

-- FT-1000MP, FT-1000, FT-990; `alt` is bit 7 of the filter byte.
unfoldable pub rec_mode_1000 : Bool → Bool → ℕ → Mode
rec_mode_1000 mp alt m =
    let k = m % 8 in
    if k == 0
    then Mode.lsb
    else if k == 1
    then Mode.usb
    else if k == 2
    then if alt && mp then Mode.cwr else Mode.cw
    else if k == 3
    then if alt && mp then Mode.ams else Mode.am
    else if k == 4
    then Mode.fm
    else if k == 5
    then if alt then Mode.rttyr else Mode.rtty
    else if k == 6
    then if alt then Mode.pktfm else Mode.pktlsb
    else Mode.unknown

-- `rec_mode`: the mode byte `m` and the filter byte `f`
unfoldable pub rec_mode : Family → ℕ → ℕ → Mode
unfolding rec_mode_920 rec_mode_900 mode_757 rec_mode_1000
rec_mode fam_920 m f = rec_mode_920 m
rec_mode fam_900 m f = rec_mode_900 m
rec_mode fam_757 m f = mode_757 m
rec_mode fam m f = rec_mode_1000 (is_fam_mp fam) (bit 7 f) m
