-- ===== src/Control/Kept.antt =====
-- src/mhcontrol.c: the order of the queue through the start of the connection and the callbacks.
use mhuxd.Base.{
  ℕ, ◌+◌, ◌-◌, Bool, not, ◌&&◌, ◌||◌, Option, none, some, List, [], ltb, if-elim, Option-elim,
  update,
}
use mhuxd.Mhinfo.{has, parse_version, Keyer, is_keyer}
use mhuxd.Mhinfo.Flags.{has_display}
use mhuxd.Kcfg.Create as Settings
use mhuxd.Control.Numbers
use mhuxd.Control.State.{
  Control, CtlState, CmdResult, Owner, generic, initializer, heartbeat, radio_mode, freq_info,
  client, SpeedCfg, num_channels, set_state, is_state, tell, antsw_wanted,
}
use mhuxd.Control.Queue.{submit_cmd_simple}
use mhuxd.Control.Speed.{submit_speed_cmd, speed_bytes}
use mhuxd.Control.Start.{
  load_kopts, display_host_string_event, next_speed, load_phase, channel_phase, off_phase, greet,
  step_from, initializer_step, is_result, initializer_cb, heartbeat_completed_cb,
  radio_info_mode_cb, send_cat_freq_info_cb, callback, complete,
}
use mhuxd.Control.Order.{IsControl, defer-IsControl, submit_cmd-IsControl, set_state-IsControl}

module _ (b : Bool) where
  pub load_kopts-IsControl :
      (c : Control) (cb : Option Owner) → IsControl b c → IsControl b (load_kopts c cb)
  unfolding load_kopts
  load_kopts-IsControl c cb h =
      Option-elim (IsControl b) c.kcfg _ _ (λ _. h) (λ k _. submit_cmd-IsControl b _ _ cb h)

  pub submit_speed-IsControl :
      (c : Control) (channel : ℕ) (s : SpeedCfg) (cb : Option Owner)
      → IsControl b c
      → IsControl b (submit_speed_cmd c channel s cb)
  unfolding submit_speed_cmd
  submit_speed-IsControl c channel s cb h =
      Option-elim (IsControl b) (speed_bytes c.mhi channel s) _ _
        (λ _. defer-IsControl b c cb CmdResult.error h)
        (λ bytes _. submit_cmd-IsControl b c bytes cb h)

  display-IsControl :
      (c : Control) (line : ℕ) (text : List ℕ) (disp_time : ℕ) (cb : Option Owner)
      → IsControl b c
      → IsControl b (display_host_string_event c line text disp_time cb)
  unfolding display_host_string_event
  display-IsControl c line text disp_time cb h =
      if-elim (IsControl b) (not (has c.mhi has_display)) _ _
        (λ _. defer-IsControl b c cb CmdResult.error h) (λ _. submit_cmd-IsControl b c _ cb h)

  load_phase-IsControl : (c : Control) → IsControl b c → IsControl b (load_phase c)
  unfolding load_phase
  load_phase-IsControl c h =
      Option-elim (IsControl b) (elim c.kcfg [ some k ↦ some k | none ↦ Settings.create c.mhi ]) _ _
        (λ _. set_state-IsControl b _ CtlState.disabled h)
        (λ k _.
          set_state-IsControl b _ CtlState.load_cfg (load_kopts-IsControl _ (some initializer) h))

  channel_phase-IsControl : (c : Control) → IsControl b c → IsControl b (channel_phase c)
  unfolding channel_phase
  channel_phase-IsControl c h =
      Option-elim (IsControl b) (next_speed c (num_channels - c.speed_idx) c.speed_idx) _ _
        (λ _. load_phase-IsControl _ h)
        (λ is _.
          if-elim (IsControl b) (ltb (is.0 + 1) num_channels) _ _ (λ _. sent is.0 is.1)
            (λ _. load_phase-IsControl _ (sent is.0 is.1)))
    where
      sent :
          (i : ℕ) (s : SpeedCfg)
          → IsControl b
              (submit_speed_cmd (set_state c CtlState.set_channels) i s (some initializer))
      sent i s =
          submit_speed-IsControl _ i s (some initializer)
            (set_state-IsControl b c CtlState.set_channels h)

  pub submit_simple-IsControl :
      (c : Control) (cmd : ℕ) (cb : Option Owner)
      → IsControl b c
      → IsControl b (submit_cmd_simple c cmd cb)
  unfolding submit_cmd_simple
  submit_simple-IsControl c cmd cb h = submit_cmd-IsControl b c _ cb h

  off_phase-IsControl : (c : Control) → IsControl b c → IsControl b (off_phase c)
  unfolding off_phase
  off_phase-IsControl c h = submit_simple-IsControl _ _ _ (set_state-IsControl b _ CtlState.init h)

  greet-IsControl : (c : Control) → IsControl b c → IsControl b (greet c)
  unfolding greet
  greet-IsControl c h =
      if-elim (IsControl b) (has c.mhi has_display) _ _
        (λ _. display-IsControl _ 1 [] 250 none (display-IsControl c 0 c.package_string 250 none h))
        (λ _. h)

  step_from-IsControl :
      (s : CtlState) (c : Control) (reply : List ℕ)
      → IsControl b c
      → IsControl b (step_from s c reply)
  unfolding step_from
  step_from-IsControl CtlState.disabled c reply h = h
  step_from-IsControl CtlState.disc c reply h = h
  step_from-IsControl CtlState.ok c reply h = h
  step_from-IsControl CtlState.off c reply h = off_phase-IsControl c h
  step_from-IsControl CtlState.init c reply h =
      submit_simple-IsControl _ _ _
        (set_state-IsControl b _ CtlState.get_version (greet-IsControl c h))
  step_from-IsControl CtlState.get_version c reply h =
      channel_phase-IsControl (record c { mhi = (parse_version c.mhi reply).1 }) h
  step_from-IsControl CtlState.set_channels c reply h = channel_phase-IsControl c h
  step_from-IsControl CtlState.load_cfg c reply h =
      set_state-IsControl b _ CtlState.on_connect
        (submit_simple-IsControl c Numbers.on_connect (some initializer) h)
  step_from-IsControl CtlState.on_connect c reply h = set_state-IsControl b _ CtlState.ok (
      if-elim (IsControl b) (is_keyer c.mhi.type Keyer.sm || is_keyer c.mhi.type Keyer.smd)
        (tell c antsw_wanted) c (λ _. h) (λ _. h))

  pub initializer_step-IsControl :
      (c : Control) (reply : List ℕ) → IsControl b c → IsControl b (initializer_step c reply)
  unfolding initializer_step
  initializer_step-IsControl c reply h = step_from-IsControl c.state c reply h

  initializer_cb-IsControl :
      (c : Control) (result : CmdResult) (reply : List ℕ)
      → IsControl b c
      → IsControl b (initializer_cb c result reply)
  unfolding initializer_cb
  initializer_cb-IsControl c result reply h =
      if-elim (IsControl b) (is_state c.state CtlState.disc) c _ (λ _. h)
        (λ _.
          if-elim (IsControl b) (is_result result CmdResult.ok) _ _
            (λ _. initializer_step-IsControl c reply h)
            (λ _.
              if-elim (IsControl b)
                (is_result result CmdResult.error && is_state c.state CtlState.set_channels) _ _
                (λ _. initializer_step-IsControl c [] h)
                (λ _. set_state-IsControl b c CtlState.off h)))

  heartbeat-IsControl :
      (c : Control) (result : CmdResult)
      → IsControl b c
      → IsControl b (heartbeat_completed_cb c result)
  unfolding heartbeat_completed_cb
  heartbeat-IsControl c result h =
      if-elim (IsControl b) (is_result result CmdResult.ok) _ _
        (λ _.
          if-elim (IsControl b) (is_state c.state CtlState.off) _ c
            (λ _. initializer_step-IsControl c [] h) (λ _. h))
        (λ _.
          if-elim (IsControl b) (is_result result CmdResult.timeout && is_state c.state CtlState.ok)
            _ c (λ _. set_state-IsControl b c CtlState.off h) (λ _. h))

  mode-IsControl :
      (c : Control) (result : CmdResult) → IsControl b c → IsControl b (radio_info_mode_cb c result)
  unfolding radio_info_mode_cb
  mode-IsControl c result h =
      if-elim (IsControl b)
        (is_result result CmdResult.timeout
          || is_result result CmdResult.offline
          || is_result result CmdResult.error)
        (record c { mode_req = update (update c.mode_req 1 none) 2 none }) c (λ _. h) (λ _. h)

  callback-IsControl :
      (c : Control) (o : Owner) (result : CmdResult) (reply : List ℕ)
      → IsControl b c
      → IsControl b (callback c o result reply)
  unfolding callback send_cat_freq_info_cb
  callback-IsControl c generic result reply h = h
  callback-IsControl c (client n) result reply h = h
  callback-IsControl c initializer result reply h = initializer_cb-IsControl c result reply h
  callback-IsControl c heartbeat result reply h = heartbeat-IsControl c result h
  callback-IsControl c radio_mode result reply h = mode-IsControl c result h
  callback-IsControl c (freq_info radio) result reply h = h

  pub complete-IsControl :
      (c : Control) (o : Owner) (result : CmdResult) (reply : List ℕ)
      → IsControl b c
      → IsControl b (complete c o result reply)
  unfolding complete
  complete-IsControl c o result reply h = callback-IsControl _ o result reply h
