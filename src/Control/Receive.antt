-- ===== src/Control/Receive.antt =====
-- src/mhcontrol.c: what comes from the keyer, its timers, and the router's news.
use mhuxd.Base.{
  ℕ, zero, suc, ◌-◌, ◌/◌, ◌%◌, Bool, false, not, ◌&&◌, ◌||◌, Option, none, some, List, [], ◌∷◌,
  ◌++◌, if◌then◌else◌, ◌==◌, ltb, length, get_or, take, drop, replicate, update, min, get_elem?,
  erase_idx,
}
use mhuxd.Mhinfo.{Keyer, is_keyer}
use mhuxd.Kcfg.Create as Settings
use mhuxd.Router.State.{set_wk_tx_focus}
use mhuxd.Control.Numbers
use mhuxd.Control.State.{
  Control, Command, CtlState, CmdResult, heartbeat, keyer_mode_answer_ms, set_state, is_state, tell,
  keyer_mode, mode_callback, mok_state, Event,
}
use mhuxd.Control.Queue.{submit_cmd_simple, push_cmds}
use mhuxd.Control.Start.{complete, initializer_step, load_kopts}

-- The first `n` bytes of the array are those, the others stay.
abbrev overwrite : List ℕ → List ℕ → List ℕ
overwrite buf bytes = bytes ++ drop (length bytes) buf

-- the keyers of a family
abbrev pub is_mk2_like : Keyer → Bool
is_mk2_like t = is_keyer t Keyer.mk2 || (is_keyer t Keyer.mk3 || is_keyer t Keyer.dk2)

abbrev pub is_mk2r_like : Keyer → Bool
is_mk2r_like t = is_keyer t Keyer.mk2r || is_keyer t Keyer.mk2rp

abbrev pub is_sm_like : Keyer → Bool
is_sm_like t = is_keyer t Keyer.sm || is_keyer t Keyer.smd

-- `mk2r_get_mok_value` of `wkTxFocus`, bit 22
unfoldable pub wk_tx_focus : List ℕ → ℕ
wk_tx_focus buf = get_or buf 2 0 / 64 % 2

-- `process_keyer_states`
unfoldable pub process_keyer_states : Control → List ℕ → Control
unfolding wk_tx_focus
process_keyer_states c bytes =
    let cmd = get_or bytes 0 0 in
    let len = length bytes in
    let buf = overwrite c.state_buf (take 8 (drop 1 bytes)) in
    if cmd == Numbers.mpk_state && is_mk2_like c.mhi.type
    then (if len == 6
        then record c { state_buf = overwrite c.state_buf (take 4 (drop 1 bytes)) }
        else c)
    else if cmd == Numbers.mok_state && is_mk2r_like c.mhi.type
    then (if len == 10
        then tell
            (record c { state_buf = buf; router = set_wk_tx_focus c.router (wk_tx_focus buf) })
            (mok_state (take 8 (drop 1 bytes)))
        else c)
    else if cmd == Numbers.acc_state && is_mk2r_like c.mhi.type
    then (if len == 10
        then tell (record c { acc_state = take 8 (drop 1 bytes) })
            (Event.acc_state (take 4 (drop 3 bytes)))
        else c)
    else if cmd == Numbers.sml_state && is_sm_like c.mhi.type
    then (if ltb len 11 then c else record c {
      state_buf = overwrite (replicate 13 0) (take (min 13 (len - 2)) (drop 1 bytes));
    })
    else c

-- the bit fields of a KEYER MODE report: the mode now, of radio 1 and of radio 2
unfoldable pub track_mode : Control → ℕ → ℕ → Control
track_mode c f t = record c {
  tracked_keyer_mode = f % 4;
  tracked_keyer_mode_r1r2 = update (update c.tracked_keyer_mode_r1r2 1 (f / 4 % 4)) 2 (f / 16 % 4);
  keyer_mode_changed =
      λ r. ltb keyer_mode_answer_ms (t - c.mode_req_time r) || c.keyer_mode_changed r;
}

-- the settings follow the mode, and listeners are told.
unfoldable pub publish_mode : Control → ℕ → ℕ → ℕ → Control
publish_mode c cur r1 r2 = elim c.kcfg [
  | none ↦ c
  | some k ↦
      tell (record c { kcfg = some (Settings.update_keyer_mode c.mhi k cur r1 r2) })
        (keyer_mode cur r1 r2)
]

-- the `case MHCMD_KEYER_MODE` of control_channel_cb
unfoldable pub mode_report : Control → ℕ → ℕ → Control
unfolding track_mode
mode_report c f t =
    let r1 = f / 4 % 4 in
    let r2 = f / 16 % 4 in
    let c' = publish_mode (track_mode c f t) (f % 4) r1 r2 in
    tell
      (if is_keyer c.mhi.type Keyer.mk && not (c.tracked_keyer_mode == f % 4)
        then load_kopts c' none
        else c')
      (mode_callback (f % 4) r1 r2)

-- the `switch` of control_channel_cb
unfoldable pub report : Control → List ℕ → ℕ → Control
report c bytes t =
    let cmd = get_or bytes 0 0 in
    if cmd == Numbers.mpk_state
      || (cmd == Numbers.mok_state || (cmd == Numbers.acc_state || cmd == Numbers.sml_state))
    then process_keyer_states c bytes
    else if cmd == Numbers.keyer_mode
    then mode_report c (get_or bytes 1 0) t
    else if cmd == Numbers.just_restarted && is_state c.state CtlState.ok
    then initializer_step (set_state c CtlState.set_channels) []
    else c

-- the command that waits for its answer, if one was sent
unfoldable pub sent_cmd : List Command → Option Command
sent_cmd [] = none
sent_cmd (m ∷ ms) = if m.sent then some m else none

-- `PG_Remove` of the first command
unfoldable pub remove_first : Control → Control
remove_first c = record c { cmds = drop 1 c.cmds }

-- The first command ends, and with it its timer.
unfoldable pub end_first : Control → Command → CmdResult → List ℕ → Control
end_first c m result reply =
    complete (remove_first (record c { cmd_timeout_timer = false })) m.owner result reply

-- control_channel_cb up to `out`
unfoldable pub answer_or_report : Control → List ℕ → ℕ → Control
answer_or_report c bytes t = elim (sent_cmd c.cmds) [
  | none ↦ report c bytes t
  | some m ↦
      (if get_or bytes 0 0 == get_or m.bytes 0 0
        then end_first c m CmdResult.ok bytes
        else if get_or bytes 0 0 == Numbers.not_supported
        then end_first c m CmdResult.not_supported bytes
        else report c bytes t)
]

-- a keyer that was not responsive and is heard of
unfoldable pub wake : Control → Control
wake c = if is_state c.state CtlState.off then initializer_step c [] else c

-- `control_channel_cb`
unfoldable pub control_channel_cb : Control → List ℕ → ℕ → Control
control_channel_cb c bytes t = push_cmds (wake (answer_or_report c bytes t))

-- `cmd_timeout_cb`; the timer has run off.
unfoldable pub cmd_timeout_cb : Control → Control
cmd_timeout_cb c = elim (sent_cmd c.cmds) [
  | none ↦ record c { cmd_timeout_timer = false }
  | some m ↦ push_cmds (end_first c m CmdResult.timeout [])
]

-- `heartbeat_cb`
unfoldable pub heartbeat_cb : Control → Control
heartbeat_cb c = submit_cmd_simple c Numbers.are_you_there (some heartbeat)

-- flush_cmds, with `n` rounds left
unfoldable pub flush_loop : ℕ → Control → CmdResult → Control
flush_loop zero c result = c
flush_loop (suc n) c result = elim c.cmds [
  | [] ↦ c
  | m ∷ ms ↦ flush_loop n (complete (record c { cmds = ms }) m.owner result []) result
]

-- `flush_cmds`
unfoldable pub flush_cmds : Control → CmdResult → Control
flush_cmds c result = flush_loop (length c.cmds) (record c { cmd_timeout_timer = false }) result

-- `router_status_cb` of `MHROUTER_CONNECTED`
unfoldable pub connected : Control → Control
connected c =
    if is_state c.state CtlState.disc || is_state c.state CtlState.off
    then initializer_step (set_state c CtlState.off) []
    else c

-- and of `MHROUTER_DISCONNECTED`
unfoldable pub disconnected : Control → Control
disconnected c = flush_cmds (set_state c CtlState.disc) CmdResult.offline

-- `handle_deferred` of one of the callbacks that were put off, whichever the event loop takes
unfoldable pub handle_deferred : Control → ℕ → Control
handle_deferred c i = elim (get_elem? c.deferred i) [
  | none ↦ c
  | some (o, result) ↦ complete (record c { deferred = erase_idx c.deferred i }) o result []
]
