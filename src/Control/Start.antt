-- ===== src/Control/Start.antt =====
-- src/mhcontrol.c: how the connection to a keyer is started, step by step, and the completion callbacks.
use mhuxd.Base.{
  ℕ, zero, suc, ◌+◌, ◌-◌, Bool, true, false, not, ◌&&◌, ◌||◌, Option, none, some, List, [], ◌∷◌,
  ◌++◌, if◌then◌else◌, ◌==◌, ltb, length, take, replicate, update,
}
use mhuxd.Mhinfo.{has, parse_version, Keyer, is_keyer}
use mhuxd.Mhinfo.Flags.{has_display}
use mhuxd.Kcfg.Create as Settings
use mhuxd.Control.Numbers
use mhuxd.Control.State.{
  Control, CtlState, CmdResult, Owner, generic, initializer, heartbeat, radio_mode, freq_info,
  client, SpeedCfg, num_channels, set_state, is_state, tell, antsw_wanted,
}
use mhuxd.Control.Queue.{framed, submit_cmd, submit_cmd_simple, defer_callback}
use mhuxd.Control.Speed.{submit_speed_cmd}

-- `mhc_load_kopts`
unfoldable pub load_kopts : Control → Option Owner → Control
load_kopts c cb = elim c.kcfg [
  | none ↦ record c { crashed = true }
  | some k ↦
      (let (settings, k') = Settings.get_settings c.mhi k in
        submit_cmd (record c { kcfg = some k' }) (framed Numbers.set_settings settings) cb)
]

-- `mhc_display_host_string_event`
unfoldable pub display_host_string_event : Control → ℕ → List ℕ → ℕ → Option Owner → Control
display_host_string_event c line text disp_time cb =
    let shown = take 16 text in
    if not (has c.mhi has_display)
    then defer_callback c cb CmdResult.error
    else submit_cmd c
        (framed Numbers.display_host_string_event (
          (if line == 0 then 0 else 1)
          ∷ (shown ++ replicate (16 - length shown) 32 ++ 0 ∷ 0 ∷ disp_time ∷ [])))
        cb

-- `ctl->speed_args[i] || ctl->speed_params_valid[i]`, and the values that are sent then
unfoldable pub speed_of : Control → ℕ → Option SpeedCfg
speed_of c i = elim (c.speed_args i) [ some s ↦ some s | none ↦ c.speed_params i ]

-- the loop over the channels in initializer_step: the next one that is configured, with `n` left
unfoldable pub next_speed : Control → ℕ → ℕ → Option (ℕ × SpeedCfg)
unfolding speed_of
next_speed c zero i = none
next_speed c (suc n) i =
    let rest = next_speed c n (suc i) in elim (speed_of c i) [ some s ↦ some (i, s) | none ↦ rest ]

-- initializer_step once the channels are set
unfoldable pub load_phase : Control → Control
load_phase c =
    let c1 = record c {
      speed_idx = 0;
      kcfg = elim c.kcfg [ some k ↦ some k | none ↦ Settings.create c.mhi ];
    } in
    elim c1.kcfg [
      | none ↦ set_state c1 CtlState.disabled
      | some k ↦ set_state (load_kopts c1 (some initializer)) CtlState.load_cfg
    ]

-- the `case CTL_STATE_SET_CHANNELS` of initializer_step
unfoldable pub channel_phase : Control → Control
channel_phase c = elim (next_speed c (num_channels - c.speed_idx) c.speed_idx) [
  | none ↦ load_phase (record c { speed_idx = num_channels })
  | some (i, s) ↦
      (let c' =
          record (submit_speed_cmd (set_state c CtlState.set_channels) i s (some initializer)) {
            speed_idx = i + 1;
          } in
        if ltb (i + 1) num_channels then c' else load_phase c')
]

-- the `case CTL_STATE_DEVICE_OFF`
unfoldable pub off_phase : Control → Control
off_phase c =
    submit_cmd_simple
      (set_state
        (record c {
          freq_sent_success = update (update c.freq_sent_success 1 false) 2 false;
          speed_idx = 0;
        })
        CtlState.init)
      Numbers.are_you_there (some initializer)

-- the two lines on the keyer's display at the start
unfoldable pub greet : Control → Control
greet c =
    if has c.mhi has_display
    then display_host_string_event (display_host_string_event c 0 c.package_string 250 none) 1 []
        250 none
    else c

-- the `switch` of initializer_step; the antenna switch is wanted unless its band plan is there.
unfoldable pub step_from : CtlState → Control → List ℕ → Control
step_from CtlState.disabled c reply = c
step_from CtlState.disc c reply = c
step_from CtlState.ok c reply = c
step_from CtlState.off c reply = off_phase c
step_from CtlState.init c reply =
    submit_cmd_simple (set_state (greet c) CtlState.get_version) Numbers.get_version
      (some initializer)
step_from CtlState.get_version c reply =
    channel_phase (record c { mhi = (parse_version c.mhi reply).1 })
step_from CtlState.set_channels c reply = channel_phase c
step_from CtlState.load_cfg c reply =
    set_state (submit_cmd_simple c Numbers.on_connect (some initializer)) CtlState.on_connect
step_from CtlState.on_connect c reply =
    let c' =
      if is_keyer c.mhi.type Keyer.sm || is_keyer c.mhi.type Keyer.smd
      then tell c antsw_wanted
      else c in
    set_state (record c' { mode_req = update (update c'.mode_req 1 none) 2 none }) CtlState.ok

-- `initializer_step`
unfoldable pub initializer_step : Control → List ℕ → Control
initializer_step c reply = step_from c.state c reply

-- `result == CMD_RESULT_OK`, and so on
unfoldable pub is_result : CmdResult → CmdResult → Bool
is_result CmdResult.ok CmdResult.ok = true
is_result CmdResult.error CmdResult.error = true
is_result CmdResult.timeout CmdResult.timeout = true
is_result CmdResult.not_supported CmdResult.not_supported = true
is_result CmdResult.offline CmdResult.offline = true
is_result _ _ = false

-- `initializer_cb`
unfoldable pub initializer_cb : Control → CmdResult → List ℕ → Control
unfolding is_result
initializer_cb c result reply =
    if is_state c.state CtlState.disc
    then c
    else if is_result result CmdResult.ok
    then initializer_step c reply
    else if is_result result CmdResult.error && is_state c.state CtlState.set_channels
    then initializer_step c []
    else set_state c CtlState.off

-- `heartbeat_completed_cb`
unfoldable pub heartbeat_completed_cb : Control → CmdResult → Control
unfolding is_result
heartbeat_completed_cb c result =
    if is_result result CmdResult.ok
    then if is_state c.state CtlState.off then initializer_step c [] else c
    else if is_result result CmdResult.timeout && is_state c.state CtlState.ok
    then set_state c CtlState.off
    else c

-- `radio_info_mode_cb`
unfoldable pub radio_info_mode_cb : Control → CmdResult → Control
unfolding is_result
radio_info_mode_cb c result =
    if is_result result CmdResult.timeout
      || is_result result CmdResult.offline
      || is_result result CmdResult.error
    then record c { mode_req = update (update c.mode_req 1 none) 2 none }
    else c

-- `send_cat_freq_info_cb`
unfoldable pub send_cat_freq_info_cb : Control → ℕ → CmdResult → Control
unfolding is_result
send_cat_freq_info_cb c radio result = record c {
  freq_sent_success = update c.freq_sent_success radio (is_result result CmdResult.ok);
}

-- A completion callback is called. What those of other files do is their own: calls of their own.
unfoldable pub callback : Control → Owner → CmdResult → List ℕ → Control
callback c generic result reply = c
callback c (client n) result reply = c
callback c initializer result reply = initializer_cb c result reply
callback c heartbeat result reply = heartbeat_completed_cb c result
callback c radio_mode result reply = radio_info_mode_cb c result
callback c (freq_info radio) result reply = send_cat_freq_info_cb c radio result

unfoldable pub complete : Control → Owner → CmdResult → List ℕ → Control
complete c o result reply =
    callback (record c { completed = (o, result) ∷ c.completed }) o result reply
