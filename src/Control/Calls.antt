-- ===== src/Control/Calls.antt =====
-- src/mhcontrol.c: a new connection, and whatever happens to it.
use mhuxd.Base.{ℕ, false, Option, none, some, List, [], ◌∷◌, if◌then◌else◌, replicate}
use mhuxd.CatState.{RadioInfo}
use mhuxd.Mhinfo.{MhInfo, Keyer, is_keyer}
use mhuxd.Kcfg.Create as Settings
use mhuxd.Kcfg.Settings.{set_val}
use mhuxd.Router.State.{Router}
use mhuxd.Control.State.{Control, CtlState, KeyerState, Owner, SpeedCfg, set_state}
use mhuxd.Control.Queue.{submit_cmd}
use mhuxd.Control.Speed.{set_speed, set_speed_params}
use mhuxd.Control.Start.{load_kopts}
use mhuxd.Control.Receive.{
  control_channel_cb, cmd_timeout_cb, heartbeat_cb, connected, disconnected, handle_deferred,
}
use mhuxd.Control.Info.{update_radio_info, radio_info_timeout_cb}

-- `mhc_create`; `package_string` is the program's name and version, set by the build.
unfoldable pub create : Router → MhInfo → List ℕ → Control
create router mhi package_string =
    set_state
      (record {
        router = router;
        kcfg = Settings.create mhi;
        mhi = mhi;
        cmds = [];
        deferred = [];
        completed = [];
        events = [];
        crashed = false;
        heartbeat_timer = false;
        cmd_timeout_timer = false;
        state = CtlState.disabled;
        keyer_state = KeyerState.unknown;
        speed_args = λ ch. none;
        speed_params = λ ch. none;
        speed_idx = 0;
        radio_info = λ r. none;
        radio_info_valid = λ r. false;
        radio_info_source = λ r. [];
        radio_info_timer = λ r. false;
        freq_sent_success = λ r. false;
        mode_req = λ r. none;
        mode_req_time = λ r. 0;
        keyer_mode_changed = λ r. false;
        tracked_keyer_mode = 255;
        tracked_keyer_mode_r1r2 = λ r. 255;
        state_buf = replicate 13 0;
        acc_state = replicate 8 0;
        hfocus = replicate 8 0;
        package_string = package_string;
      })
      CtlState.disc

-- `mhc_set_kopt`: whether it was set.
unfoldable pub set_kopt : Control → List ℕ → ℕ → Control
set_kopt c key val =
    if is_keyer c.mhi.type Keyer.unknown
    then c
    else elim c.kcfg [ none ↦ c | some k ↦ record c { kcfg = some (set_val k key val).1 } ]

-- What happens to a connection: bytes of the keyer's control channel, the timers, the router's news, a
-- callback that was put off, calls of the other parts, and what they do to the router.
pub data Call : Type 0 where
  received : List ℕ → ℕ → Call
  cmd_timeout heartbeat connect disconnect : Call
  deferred : ℕ → Call
  submit : List ℕ → Option Owner → Call
  speed : ℕ → Option SpeedCfg → Option Owner → Call
  speed_params : ℕ → SpeedCfg → Option Owner → Call
  kopt : List ℕ → ℕ → Call
  kopts : Option Owner → Call
  info : List ℕ → RadioInfo → ℕ → Call
  info_timeout : ℕ → Call
  routed : Router → Call

-- A timer that does not run does not fire.
unfoldable pub perform : Control → Call → Control
perform c (Call.received bytes t) = control_channel_cb c bytes t
perform c Call.cmd_timeout = if c.cmd_timeout_timer then cmd_timeout_cb c else c
perform c Call.heartbeat = if c.heartbeat_timer then heartbeat_cb c else c
perform c Call.connect = connected c
perform c Call.disconnect = disconnected c
perform c (Call.deferred i) = handle_deferred c i
perform c (Call.submit bytes cb) = submit_cmd c bytes cb
perform c (Call.speed channel s cb) = set_speed c channel s cb
perform c (Call.speed_params channel s cb) = set_speed_params c channel s cb
perform c (Call.kopt key val) = set_kopt c key val
perform c (Call.kopts cb) = load_kopts c cb
perform c (Call.info source i t) = update_radio_info c source i t
perform c (Call.info_timeout radio) =
    if c.radio_info_timer radio then radio_info_timeout_cb c radio else c
perform c (Call.routed router) = record c { router = router }

-- one after the other
unfoldable pub run : Control → List Call → Control
run c [] = c
run c (x ∷ xs) = run (perform c x) xs
