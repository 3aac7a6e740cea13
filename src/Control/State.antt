-- ===== src/Control/State.antt =====
-- src/mhcontrol.c: `struct mh_control` and its parts, and the state as it is shown to others.
use mhuxd.Base.{ℕ, Bool, not, Option, List, ◌∷◌, if◌then◌else◌, ◌==◌, ◌&&◌}
use mhuxd.Mhinfo.{MhInfo}
use mhuxd.Kcfg.Settings.{Kcfg}
use mhuxd.CatState.{RadioInfo}
use mhuxd.Router.State.{Router}

abbrev pub max_cmd_len : ℕ
max_cmd_len = 128

abbrev pub max_cmd_queue_size : ℕ
max_cmd_queue_size = 16

-- `MH_NUM_CHANNELS`
abbrev pub num_channels : ℕ
num_channels = 8

-- `KEYER_MODE_ANSWER_TIME` in milliseconds
abbrev pub keyer_mode_answer_ms : ℕ
keyer_mode_answer_ms = 1000

-- the enumeration `CTL_STATE_*`
pub data CtlState : Type 0 where
  disabled off disc init get_version set_channels load_cfg on_connect ok : CtlState

unfoldable pub ctl_code : CtlState → ℕ
ctl_code disabled = 0
ctl_code off = 1
ctl_code disc = 2
ctl_code init = 3
ctl_code get_version = 4
ctl_code set_channels = 5
ctl_code load_cfg = 6
ctl_code on_connect = 7
ctl_code ok = 8

-- `ctl->state == s`
unfoldable pub is_state : CtlState → CtlState → Bool
unfolding ctl_code
is_state a b = ctl_code a == ctl_code b

-- the enumeration `MHC_KEYER_STATE_*`
pub data KeyerState : Type 0 where
  unknown disabled offline disc online : KeyerState

unfoldable pub ext_code : KeyerState → ℕ
ext_code KeyerState.unknown = 0
ext_code KeyerState.disabled = 1
ext_code KeyerState.offline = 2
ext_code KeyerState.disc = 3
ext_code KeyerState.online = 4

-- the enumeration `CMD_RESULT_*`
pub data CmdResult : Type 0 where
  ok error timeout not_supported offline : CmdResult

-- A completion callback with its user data: those of this file, and the others by number. `freq_info` has
-- the radio, 1 or 2.
pub data Owner : Type 0 where
  generic initializer heartbeat radio_mode : Owner
  freq_info : ℕ → Owner
  client : ℕ → Owner

-- `struct command`, of `cmd[0]` to `cmd[len - 1]`; `sent` says whether `state` is `CMD_STATE_SENT`.
pub record Command : Type 0 where
  pub bytes : List ℕ
  pub sent : Bool
  pub owner : Owner

-- `struct mhc_speed_cfg`. `baud` counts hundredths, `stopbits` halves.
pub record SpeedCfg : Type 0 where
  pub baud : ℕ
  pub stopbits : ℕ
  pub databits : ℕ
  pub rtscts : ℕ
  pub rigtype : ℕ
  pub icomaddress : ℕ
  pub icomsimulateautoinfo : ℕ
  pub digitalovervoicerule : ℕ
  pub usedecoderifconnected : ℕ
  pub dontinterfereusbcontrol : ℕ

-- what is told to listeners
pub data Event : Type 0 where
  keyer_state : KeyerState → Event
  keyer_mode mode_callback : ℕ → ℕ → ℕ → Event
  radio_info : ℕ → Bool → Event
  mok_state acc_state : List ℕ → Event
  antsw_wanted : Event

-- `struct mh_control`. A radio's entry in an array has the radio's number, 1 or 2. The timers are truth
-- values, whether they run; `deferred` are the callbacks that defer_callback has put off, `completed`
-- those that were called, the latest first, with what they were told, and `events` what listeners were.
-- `crashed` says whether a null pointer was read. Times are in milliseconds.
pub record Control : Type 0 where
  pub router : Router
  pub kcfg : Option Kcfg
  pub mhi : MhInfo
  pub cmds : List Command
  pub deferred : List (Owner × CmdResult)
  pub completed : List (Owner × CmdResult)
  pub events : List Event
  pub crashed : Bool
  pub heartbeat_timer : Bool
  pub cmd_timeout_timer : Bool
  pub state : CtlState
  pub keyer_state : KeyerState
  pub speed_args : ℕ → Option SpeedCfg
  pub speed_params : ℕ → Option SpeedCfg
  pub speed_idx : ℕ
  pub radio_info : ℕ → Option RadioInfo
  pub radio_info_valid : ℕ → Bool
  pub radio_info_source : ℕ → List ℕ
  pub radio_info_timer : ℕ → Bool
  pub freq_sent_success : ℕ → Bool
  pub mode_req : ℕ → Option ℕ
  pub mode_req_time : ℕ → ℕ
  pub keyer_mode_changed : ℕ → Bool
  pub tracked_keyer_mode : ℕ
  pub tracked_keyer_mode_r1r2 : ℕ → ℕ
  pub state_buf : List ℕ
  pub acc_state : List ℕ
  pub hfocus : List ℕ
  pub package_string : List ℕ

-- `state_to_ext_state`
unfoldable pub state_to_ext_state : CtlState → KeyerState
state_to_ext_state CtlState.disabled = KeyerState.disabled
state_to_ext_state CtlState.off = KeyerState.offline
state_to_ext_state CtlState.get_version = KeyerState.offline
state_to_ext_state CtlState.init = KeyerState.offline
state_to_ext_state CtlState.set_channels = KeyerState.offline
state_to_ext_state CtlState.load_cfg = KeyerState.offline
state_to_ext_state CtlState.on_connect = KeyerState.offline
state_to_ext_state CtlState.disc = KeyerState.disc
state_to_ext_state CtlState.ok = KeyerState.online

abbrev pub tell : Control → Event → Control
tell c e = record c { events = e ∷ c.events }

-- `set_state`
unfoldable pub set_state : Control → CtlState → Control
unfolding is_state ext_code state_to_ext_state
set_state c state =
    let ext = state_to_ext_state state in
    let c' = record c { state = state; heartbeat_timer = not (is_state state CtlState.disc) } in
    if ext_code ext == ext_code c'.keyer_state
    then c'
    else tell (record c' { keyer_state = ext }) (keyer_state ext)

-- `is_connected`
unfoldable pub is_connected : Control → Bool
unfolding is_state
is_connected c = not (is_state c.state CtlState.disc) && not (is_state c.state CtlState.off)

-- `mhc_is_online`
unfoldable pub is_online : Control → Bool
unfolding is_state
is_online c = is_state c.state CtlState.ok
