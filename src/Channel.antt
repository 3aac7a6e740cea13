-- ===== src/Channel.antt =====
-- src/channel.h, src/channel.c: the channels of a keyer, their names and their PTT lines.
pub mod Names
use mhuxd.Base.{
  ℕ, Bool, true, false, ◌||◌, Option, none, some, List, [], ◌∷◌, if◌then◌else◌, ◌==◌, codes,
  str_case_eq,
}

-- the `enum`'s numbers
abbrev pub flags : ℕ
flags = 0

abbrev pub control : ℕ
control = 1

abbrev pub winkey : ℕ
winkey = 2

abbrev pub ps2 : ℕ
ps2 = 3

abbrev pub r1 : ℕ
r1 = 4

abbrev pub r2 : ℕ
r2 = 5

abbrev pub r1_fsk : ℕ
r1_fsk = 6

abbrev pub r2_fsk : ℕ
r2_fsk = 7

abbrev pub ptt1 : ℕ
ptt1 = 9

abbrev pub ptt2 : ℕ
ptt2 = 10

abbrev pub ptt_focus : ℕ
ptt_focus = 11

abbrev pub mcp : ℕ
mcp = 12

abbrev pub rotator : ℕ
rotator = 13

-- `struct channel_map`
pub record Entry : Type 0 where
  pub name : List ℕ
  pub channel : ℕ

abbrev entry : List ℕ → ℕ → Entry
entry s c = record { name = s; channel = c }

pub channel_map : List Entry
channel_map =
    entry (codes "CTL") control
    ∷ entry (codes "FLAGS") flags
    ∷ entry (codes "R1") r1
    ∷ entry (codes "R2") r2
    ∷ entry (codes "CAT1") r1
    ∷ entry (codes "CAT2") r2
    ∷ entry (codes "AUX") r2
    ∷ entry (codes "FSK1") r1_fsk
    ∷ entry (codes "FSK2") r2_fsk
    ∷ entry (codes "WK") winkey
    ∷ entry (codes "PTT1") ptt1
    ∷ entry (codes "PTT2") ptt2
    ∷ entry (codes "PTT_FOCUS") ptt_focus
    ∷ entry (codes "MCP") mcp
    ∷ entry (codes "ROTATOR") rotator
    ∷ []

-- `ch_ptt_channel`; `none` for -1
pub ptt_channel : ℕ → Option ℕ
ptt_channel c =
    if c == r1 || c == r1_fsk
    then some ptt1
    else if c == r2 || c == r2_fsk
    then some ptt2
    else if c == winkey
    then some ptt_focus
    else if c == ptt1 || c == ptt2
    then some c
    else none

-- `ch_is_ptt_channel`
unfoldable pub is_ptt_channel : ℕ → Bool
is_ptt_channel c = c == ptt1 || c == ptt2 || c == ptt_focus

-- The loop of `ch_channel2str` and `ch_channel2str_new`.
pub find_name : ℕ → List Entry → Option (List ℕ)
find_name c [] = none
find_name c (e ∷ es) = if e.channel == c then some e.name else find_name c es

abbrev or_else : Option (List ℕ) → List ℕ → List ℕ
or_else none d = d
or_else (some s) d = s

-- `ch_channel2str`
pub channel2str : ℕ → List ℕ
unfolding find_name channel_map
channel2str c = or_else (find_name c channel_map) (codes "Unknown")

-- `ch_channel2str_new`; the flag is `mhi->flags & MHF_HAS_R2`.
pub channel2str_new : ℕ → Bool → List ℕ
unfolding find_name channel_map
channel2str_new c has_r2 =
    if c == r2
    then if has_r2 then codes "R2" else codes "AUX"
    else or_else (find_name c channel_map) (codes "UNKNOWN")

find_channel : List ℕ → List Entry → Option ℕ
find_channel s [] = none
find_channel s (e ∷ es) = if str_case_eq e.name s then some e.channel else find_channel s es

-- `ch_str2channel`; `none` for -1
pub str2channel : List ℕ → Option ℕ
unfolding find_channel channel_map
str2channel s = find_channel s channel_map
