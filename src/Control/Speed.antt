-- ===== src/Control/Speed.antt =====
-- src/mhcontrol.c: the commands that set a channel's speed. The limits on the data rate that go with them
-- are the router's.
use mhuxd.Base.{
  ℕ, ◌+◌, ◌*◌, ◌/◌, Bool, false, ◌||◌, Option, none, some, List, [], ◌∷◌, if◌then◌else◌, ◌==◌, leb,
  u8, bit_or, update,
}
use mhuxd.Channel
use mhuxd.Mhinfo.{MhInfo, has}
use mhuxd.Mhinfo.Flags.{has_r1_radio_support, has_r2_radio_support}
use mhuxd.Control.Numbers
use mhuxd.Control.State.{Control, Owner, CmdResult, SpeedCfg, num_channels, is_online}
use mhuxd.Control.Queue.{framed, submit_cmd, defer_callback}

-- The command for a channel, the divisor's dividend, and whether it has the parameters of the radio.
unfoldable pub speed_command : MhInfo → ℕ → Option (ℕ × ℕ × Bool)
speed_command mhi channel =
    if channel == Channel.r1
    then some (Numbers.set_channel_r1, 11059200, has mhi has_r1_radio_support)
    else if channel == Channel.r2
    then some (Numbers.set_channel_aux_r2, 11059200, has mhi has_r2_radio_support)
    else if channel == Channel.r1_fsk
    then some (Numbers.set_channel_fsk_r1, 2700, false)
    else if channel == Channel.r2_fsk
    then some (Numbers.set_channel_fsk_r2, 2700, false)
    else none

-- stop bits, flow control and data bits in one byte
unfoldable pub line_byte : SpeedCfg → ℕ
line_byte s =
    let stop = if s.stopbits == 3 then 3 else s.stopbits / 2 in
    bit_or (bit_or (u8 ((stop + 255) * 4)) (u8 (u8 s.rtscts * 16)))
      (u8 ((u8 s.databits + 251) * 32))

-- what a keyer with its own decoder is told of the radio
unfoldable pub radio_bytes : SpeedCfg → List ℕ
radio_bytes s =
    u8 s.rigtype
    ∷ u8 s.icomaddress
    ∷ bit_or (bit_or (u8 s.icomsimulateautoinfo) (u8 (u8 s.digitalovervoicerule * 2)))
        (bit_or (u8 (u8 s.usedecoderifconnected * 8)) (u8 (u8 s.dontinterfereusbcontrol * 16)))
    ∷ []

-- the bytes that submit_speed_cmd_params sends; `none` where it reports an error
unfoldable pub speed_bytes : MhInfo → ℕ → SpeedCfg → Option (List ℕ)
unfolding speed_command line_byte radio_bytes
speed_bytes mhi channel s =
    if leb num_channels channel || s.baud == 0 then none else elim (speed_command mhi channel) [
      | none ↦ none
      | some (cmd, dividend, has_ext) ↦
          (let ibaud = dividend * 100 / s.baud in
            if u8 s.databits == 0
            then none
            else some (
                framed cmd (
                  u8 ibaud
                  ∷ u8 (ibaud / 256)
                  ∷ line_byte s
                  ∷ (if has_ext then radio_bytes s else []))))
    ]

-- `submit_speed_cmd_params`, and submit_speed_cmd on the values that it reads from the node
unfoldable pub submit_speed_cmd : Control → ℕ → SpeedCfg → Option Owner → Control
submit_speed_cmd c channel s cb = elim (speed_bytes c.mhi channel s) [
  | none ↦ defer_callback c cb CmdResult.error
  | some bytes ↦ submit_cmd c bytes cb
]

-- a callback that is called at once
abbrev pub call_now : Control → Option Owner → CmdResult → Control
call_now c none result = c
call_now c (some o) result = record c { completed = (o, result) ∷ c.completed }

-- `mhc_set_speed` of a node with these values; `none` is a node with no baud rate.
unfoldable pub set_speed : Control → ℕ → Option SpeedCfg → Option Owner → Control
set_speed c channel s cb =
    if leb num_channels channel then defer_callback c cb CmdResult.error else elim s [
      | none ↦ c
      | some cfg ↦
          (let c' = record c {
            speed_args = update c.speed_args channel (some cfg);
            speed_params = update c.speed_params channel (some cfg);
          } in
            if is_online c then submit_speed_cmd c' channel cfg cb else call_now c' cb CmdResult.ok)
    ]

-- `mhc_set_speed_params`
unfoldable pub set_speed_params : Control → ℕ → SpeedCfg → Option Owner → Control
set_speed_params c channel cfg cb =
    let c' = record c { speed_params = update c.speed_params channel (some cfg) } in
    if leb num_channels channel
    then defer_callback c cb CmdResult.error
    else if is_online c
    then submit_speed_cmd c' channel cfg cb
    else defer_callback c' cb CmdResult.ok

-- `mhc_get_speed_params`
unfoldable pub get_speed_params : Control → ℕ → Option SpeedCfg
get_speed_params c channel = if leb num_channels channel then none else c.speed_params channel

-- `mhc_get_speed_cfg`: a node is made of the values where there is none.
unfoldable pub get_speed_cfg : Control → ℕ → Option SpeedCfg × Control
get_speed_cfg c channel =
    if leb num_channels channel then (none, c) else elim (c.speed_args channel) [
      | some s ↦ (some s, c)
      | none ↦ (
        c.speed_params channel,
        record c { speed_args = update c.speed_args channel (c.speed_params channel) },
      )
    ]
