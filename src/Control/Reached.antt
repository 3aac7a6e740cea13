-- ===== src/Control/Reached.antt =====
-- src/mhcontrol.c: the order of the command queue holds whatever happens.
use mhuxd.Base.{
  ℕ, ◌%◌, refl, arith, Bool, true, false, not, ◌&&◌, ◌||◌, Option, none, some, List, [], ◌∷◌, ◌==◌,
  leb, get_elem?, if-elim, Option-elim, update,
}
use mhuxd.Mhinfo.{has, Keyer, is_keyer, MhInfo}
use mhuxd.Mhinfo.Flags.{has_keyer_mode, has_cat_cmd, has_r2}
use mhuxd.CatState.{RadioInfo}
use mhuxd.Kcfg.Settings.{get_val}
use mhuxd.Router.State.{Router}
use mhuxd.Control.State.{
  Control, CtlState, CmdResult, Owner, freq_info, radio_mode, SpeedCfg, num_channels, set_state,
  is_state, is_online,
}
use mhuxd.Control.Info.{
  set_force_keyer_mode, bad_radio, force_key, send_entries, send_cat_freq_info, follow_freq,
  follow_mode, update_known, update_radio_info, radio_info_timeout_cb, merge, freq_entries, mapped,
  mode_opt, freq_differs, wants_mode,
}
use mhuxd.Control.Calls.{Call, set_kopt, perform, run, create}
use mhuxd.Control.Flush.{disconnected-IsControl}
use mhuxd.Control.Speed.{call_now, set_speed, set_speed_params}
use mhuxd.Control.Receive.{connected, handle_deferred, heartbeat_cb}
use mhuxd.Control.Order.{IsControl, defer-IsControl, submit_cmd-IsControl, set_state-IsControl}
use mhuxd.Control.Kept.{
  load_kopts-IsControl, initializer_step-IsControl, complete-IsControl, submit_speed-IsControl,
  submit_simple-IsControl,
}
use mhuxd.Control.Answered.{received-IsControl, timeout-IsControl}

connected-IsControl : (c : Control) → IsControl true c → IsControl true (connected c)
unfolding connected
connected-IsControl c h =
    if-elim (IsControl true) (is_state c.state CtlState.disc || is_state c.state CtlState.off) _ c
      (λ _. initializer_step-IsControl true _ [] (set_state-IsControl true c CtlState.off h))
      (λ _. h)

deferred-IsControl : (c : Control) (i : ℕ) → IsControl true c → IsControl true (handle_deferred c i)
unfolding handle_deferred
deferred-IsControl c i h =
    Option-elim (IsControl true) (get_elem? c.deferred i) c _ (λ _. h)
      (λ d _. complete-IsControl true _ d.0 d.1 [] h)

set_speed-IsControl :
    (c : Control) (channel : ℕ) (s : Option SpeedCfg) (cb : Option Owner)
    → IsControl true c
    → IsControl true (set_speed c channel s cb)
unfolding set_speed
set_speed-IsControl c channel s cb h =
    if-elim (IsControl true) (leb num_channels channel) _ _
      (λ _. defer-IsControl true c cb CmdResult.error h)
      (λ _.
        Option-elim (IsControl true) s c _ (λ _. h)
          (λ cfg _.
            if-elim (IsControl true) (is_online c) _ _
              (λ _. submit_speed-IsControl true _ channel cfg cb h) (λ _. called _ cb h)))
  where
    called :
        (c : Control) (cb : Option Owner)
        → IsControl true c
        → IsControl true (call_now c cb CmdResult.ok)
    called c none h = h
    called c (some o) h = h

set_speed_params-IsControl :
    (c : Control) (channel : ℕ) (cfg : SpeedCfg) (cb : Option Owner)
    → IsControl true c
    → IsControl true (set_speed_params c channel cfg cb)
unfolding set_speed_params
set_speed_params-IsControl c channel cfg cb h =
    if-elim (IsControl true) (leb num_channels channel) _ _
      (λ _. defer-IsControl true c cb CmdResult.error h)
      (λ _.
        if-elim (IsControl true) (is_online c) _ _
          (λ _. submit_speed-IsControl true _ channel cfg cb h)
          (λ _. defer-IsControl true _ cb CmdResult.ok h))

kopt-IsControl :
    (c : Control) (key : List ℕ) (val : ℕ) → IsControl true c → IsControl true (set_kopt c key val)
unfolding set_kopt
kopt-IsControl c key val h =
    if-elim (IsControl true) (is_keyer c.mhi.type Keyer.unknown) c _ (λ _. h)
      (λ _. Option-elim (IsControl true) c.kcfg c _ (λ _. h) (λ k _. h))

force-IsControl :
    (c : Control) (radio enable : ℕ)
    → IsControl true c
    → IsControl true (set_force_keyer_mode c radio enable).1
unfolding set_force_keyer_mode
force-IsControl c radio enable h =
    if-elim {A = Bool × Control} (λ p. IsControl true p.1)
      (bad_radio radio || not (has c.mhi has_keyer_mode)) (false, c) _ (λ _. h)
      (λ _.
        Option-elim {B = Bool × Control} (λ p. IsControl true p.1) c.kcfg
          (false, record c { crashed = true }) _ (λ _. h)
          (λ k _.
            if-elim {A = Bool × Control} (λ p. IsControl true p.1)
              (get_val k (force_key radio) 1 == enable % 2) (false, c) _ (λ _. h)
              (λ _. load_kopts-IsControl true _ none h)))

entries-IsControl :
    (es : List (ℕ × ℕ)) (c : Control) (cmd radio : ℕ)
    → IsControl true c
    → IsControl true (send_entries c cmd radio es)
unfolding send_entries
entries-IsControl [] c cmd radio h = h
entries-IsControl ((f, m) ∷ es) c cmd radio h = entries-IsControl es _ cmd radio (
    if-elim (IsControl true) (m == 0 || f == 0) c _ (λ _. h)
      (λ _. submit_cmd-IsControl true c _ (some (freq_info radio)) h))

cat_freq-IsControl :
    (c : Control) (i : RadioInfo) (radio : ℕ)
    → IsControl true c
    → IsControl true (send_cat_freq_info c i radio)
unfolding send_cat_freq_info
cat_freq-IsControl c i radio h =
    if-elim (IsControl true) (bad_radio radio || not (has c.mhi has_cat_cmd)) c _ (λ _. h)
      (λ _. entries-IsControl (merge 5 (freq_entries i)) c _ radio h)

mode-IsControl :
    (c : Control) (forced : Bool) (r : ℕ) (m : Option ℕ) (t : ℕ)
    → IsControl true c
    → IsControl true (follow_mode c forced r m t)
unfolding follow_mode
mode-IsControl c forced r none t h = h
mode-IsControl c forced r (some m) t h =
    if-elim (IsControl true) (wants_mode c forced r m) _ c
      (λ _.
        if-elim (IsControl true) (has c.mhi has_r2) _ _
          (λ _. submit_cmd-IsControl true _ _ (some radio_mode) h)
          (λ _. submit_cmd-IsControl true _ _ (some radio_mode) h))
      (λ _. h)

freq-IsControl : (c : Control) (i : RadioInfo) → IsControl true c → IsControl true (follow_freq c i)
unfolding follow_freq
freq-IsControl c i h =
    if-elim (IsControl true)
      (has c.mhi has_cat_cmd
        && (not (c.freq_sent_success i.radio) || freq_differs (c.radio_info i.radio) i))
      _ c
      (λ _.
        if-elim (IsControl true) (is_online c) _ _ (λ _. cat_freq-IsControl c i i.radio h) (λ _. h))
      (λ _. h)

known-IsControl :
    (c : Control) (source : List ℕ) (i : RadioInfo) (t : ℕ)
    → IsControl true c
    → IsControl true (update_known c source i t)
unfolding update_known
known-IsControl c source i t h = if-elim (IsControl true) _ _ _ (λ _. followed) (λ _. followed)
  where
    forced : Bool × Control
    forced =
        set_force_keyer_mode
          (record c { radio_info_timer = update c.radio_info_timer i.radio true }) i.radio 0

    h1 : IsControl true forced.1
    h1 = force-IsControl _ i.radio 0 h

    followed : IsControl true (
        follow_freq
          (follow_mode
            (record forced.1 { radio_info_valid = update forced.1.radio_info_valid i.radio true })
            forced.0
            i.radio
            (mode_opt i.keyer_mode)
            t)
          i)
    followed = freq-IsControl _ i (mode-IsControl _ forced.0 i.radio (mode_opt i.keyer_mode) t h1)

info_timeout-IsControl :
    (c : Control) (radio : ℕ) → IsControl true c → IsControl true (radio_info_timeout_cb c radio)
unfolding radio_info_timeout_cb
info_timeout-IsControl c radio h = force-IsControl _ radio 1 h

perform-IsControl : (c : Control) (x : Call) → IsControl true c → IsControl true (perform c x)
unfolding perform heartbeat_cb update_radio_info
perform-IsControl c (Call.received bytes t) h = received-IsControl c bytes t h
perform-IsControl c Call.cmd_timeout h =
    if-elim (IsControl true) c.cmd_timeout_timer _ c (λ on. timeout-IsControl c on h) (λ _. h)
perform-IsControl c Call.heartbeat h =
    if-elim (IsControl true) c.heartbeat_timer _ c (λ _. submit_simple-IsControl true c _ _ h)
      (λ _. h)
perform-IsControl c Call.connect h = connected-IsControl c h
perform-IsControl c Call.disconnect h = (disconnected-IsControl c h).2
perform-IsControl c (Call.deferred i) h = deferred-IsControl c i h
perform-IsControl c (Call.submit bytes cb) h = submit_cmd-IsControl true c bytes cb h
perform-IsControl c (Call.speed channel s cb) h = set_speed-IsControl c channel s cb h
perform-IsControl c (Call.speed_params channel s cb) h = set_speed_params-IsControl c channel s cb h
perform-IsControl c (Call.kopt key val) h = kopt-IsControl c key val h
perform-IsControl c (Call.kopts cb) h = load_kopts-IsControl true c cb h
perform-IsControl c (Call.info source i t) h =
    if-elim (IsControl true) (bad_radio i.radio) c _ (λ _. h)
      (λ _. known-IsControl c source (mapped c i) t h)
perform-IsControl c (Call.info_timeout radio) h =
    if-elim (IsControl true) (c.radio_info_timer radio) _ c (λ _. info_timeout-IsControl c radio h)
      (λ _. h)
perform-IsControl c (Call.routed router) h = h

create-IsControl :
    (router : Router) (mhi : MhInfo) (package_string : List ℕ)
    → IsControl true (create router mhi package_string)
unfolding create set_state
create-IsControl router mhi package_string = record {
  queue = refl;
  short = _;
  few = omega arith;
  shows = refl;
  beating = refl;
}

run_on-IsControl : (c : Control) (xs : List Call) → IsControl true c → IsControl true (run c xs)
unfolding run
run_on-IsControl c [] h = h
run_on-IsControl c (x ∷ xs) h = run_on-IsControl (perform c x) xs (perform-IsControl c x h)

-- Whatever happens to a connection with a keyer, from its creation on and in any order: of the commands that
-- wait, at most the first is sent, and just then the timer for its answer runs; no command that can be sent
-- is left waiting; at most 17 wait, none too long for its buffer; the state that is shown to others is the
-- one inside; and the heartbeat runs unless the keyer is disconnected.
pub run-IsControl :
    (router : Router) (mhi : MhInfo) (package_string : List ℕ) (xs : List Call)
    → IsControl true (run (create router mhi package_string) xs)
run-IsControl router mhi package_string xs =
    run_on-IsControl (create router mhi package_string) xs
      (create-IsControl router mhi package_string)
