-- ===== src/Control/Info.antt =====
-- src/mhcontrol.c: what a radio does is passed on to the keyer and to listeners.
use mhuxd.Base.{
  ℕ, zero, suc, ◌/◌, ◌%◌, Bool, true, false, not, ◌&&◌, ◌||◌, Option, none, some, List, [], ◌∷◌,
  if◌then◌else◌, ◌==◌, ltb, bit_or, update, codes, bytes_eq, take,
}
use mhuxd.Mhinfo.{has}
use mhuxd.Mhinfo.Flags.{has_keyer_mode, has_cat_cmd, has_r2, has_no_voice_use_fsk}
use mhuxd.CatState.{RadioInfo}
use mhuxd.CatState.Modes.{KeyerMode, mod_cw, mod_voice, mod_fsk, mod_digital}
use mhuxd.Kcfg.Settings
use mhuxd.Control.Numbers
use mhuxd.Control.State.{Control, radio_mode, freq_info, radio_info, tell, is_online}
use mhuxd.Control.Queue.{framed, submit_cmd}
use mhuxd.Control.Start.{load_kopts}
use mhuxd.Control.Commands.{set_mode, set_mode_on_radio}

-- `force_key`
abbrev pub force_key : ℕ → List ℕ
force_key radio = if radio == 1 then codes "r1ForceKeyerMode" else codes "r2ForceKeyerMode"

abbrev pub bad_radio : ℕ → Bool
bad_radio radio = ltb radio 1 || ltb 2 radio

-- `set_force_keyer_mode`: whether a change was made.
unfoldable pub set_force_keyer_mode : Control → ℕ → ℕ → Bool × Control
set_force_keyer_mode c radio enable =
    if bad_radio radio || not (has c.mhi has_keyer_mode) then (false, c) else elim c.kcfg [
      | none ↦ (false, record c { crashed = true })
      | some k ↦
          (if Settings.get_val k (force_key radio) 1 == enable % 2 then (false, c) else (
            true,
            load_kopts
                (record c { kcfg = some (Settings.set_val k (force_key radio) (enable % 2)).1 })
                none,
          ))
    ]

-- `freq_changed`
unfoldable pub freq_changed : RadioInfo → RadioInfo → Bool
freq_changed old new =
    not (old.rx == new.rx)
    || (not (old.tx == new.tx)
        || (not (old.oper == new.oper)
            || (not (old.vfo_a == new.vfo_a) || not (old.vfo_b == new.vfo_b))))

-- A frequency and the bits of what has it: the inner loop of send_cat_freq_info, which joins the bits of
-- later entries to the one before and leaves those entries none.
unfoldable pub absorb : ℕ → ℕ → List (ℕ × ℕ) → ℕ × List (ℕ × ℕ)
absorb f m [] = (m, [])
absorb f m ((g, n) ∷ es) =
    let equal = not (n == 0) && g == f in
    let (m', es') = absorb f (if equal then bit_or m n else m) es in
    (m', (g, if equal then 0 else n) ∷ es')

-- and the outer one, with `k` rounds left
unfoldable pub merge : ℕ → List (ℕ × ℕ) → List (ℕ × ℕ)
unfolding absorb
merge zero es = es
merge (suc k) [] = []
merge (suc k) ((f, m) ∷ es) =
    let (m', es') = absorb f m es in if m == 0 then (f, m) ∷ merge k es else (f, m') ∷ merge k es'

-- the loop that sends one command for each frequency
unfoldable pub send_entries : Control → ℕ → ℕ → List (ℕ × ℕ) → Control
send_entries c cmd radio [] = c
send_entries c cmd radio ((f, m) ∷ es) =
    let mask = bit_or m 32 in
    let c' =
      submit_cmd c
        (framed cmd (
          f % 256
          ∷ f / 256 % 256
          ∷ f / 65536 % 256
          ∷ f / 16777216 % 256
          ∷ 0
          ∷ mask % 256
          ∷ mask / 256 % 256
          ∷ []))
        (some (freq_info radio)) in
    send_entries (if m == 0 || f == 0 then c else c') cmd radio es

-- the entries of send_cat_freq_info
unfoldable pub freq_entries : RadioInfo → List (ℕ × ℕ)
freq_entries info =
    (info.rx, 1) ∷ (info.tx, 2) ∷ (info.oper, 4) ∷ (info.vfo_a, 8) ∷ (info.vfo_b, 16) ∷ []

-- `send_cat_freq_info`
unfoldable pub send_cat_freq_info : Control → RadioInfo → ℕ → Control
unfolding merge freq_entries
send_cat_freq_info c info radio =
    let cmd = if radio == 1 then Numbers.cat_r1_frequency_info else Numbers.cat_r2_frequency_info in
    if bad_radio radio || not (has c.mhi has_cat_cmd)
    then c
    else send_entries c cmd radio (merge 5 (freq_entries info))

-- `info->mode` as a number, from 0 to 3
unfoldable pub mode_number : KeyerMode → ℕ
mode_number mod_cw = 0
mode_number mod_voice = 1
mode_number mod_fsk = 2
mode_number mod_digital = 3

abbrev pub mode_opt : Option KeyerMode → Option ℕ
mode_opt none = none
mode_opt (some m) = some (mode_number m)

-- `a == b` of two modes, where -1 is `none`
abbrev opt_eq : Option ℕ → Option ℕ → Bool
opt_eq none none = true
opt_eq (some a) (some b) = a == b
opt_eq _ _ = false

-- `keyer_mode_of_radio`
unfoldable pub keyer_mode_of_radio : Control → ℕ → ℕ
keyer_mode_of_radio c radio =
    if has c.mhi has_r2 then c.tracked_keyer_mode_r1r2 radio else c.tracked_keyer_mode

-- a keyer without a mode for voice takes the one for FSK
unfoldable pub mapped : Control → RadioInfo → RadioInfo
mapped c info =
    if has c.mhi has_no_voice_use_fsk && opt_eq (mode_opt info.keyer_mode) (some 1)
    then record info { keyer_mode = some mod_fsk }
    else info

-- what has changed since the last radio info, for listeners
unfoldable pub notify : Control → List ℕ → RadioInfo → Bool
unfolding freq_changed
notify c source info = elim (c.radio_info info.radio) [
  | none ↦ true
  | some old ↦
      not (c.radio_info_valid info.radio)
      || (not (opt_eq (mode_opt old.keyer_mode) (mode_opt info.keyer_mode))
          || (freq_changed old info
              || (not (bytes_eq old.mode_str info.mode_str)
                  || not (bytes_eq (c.radio_info_source info.radio) (take 16 source)))))
]

-- whether the keyer is asked for the mode `m`
unfoldable pub wants_mode : Control → Bool → ℕ → ℕ → Bool
unfolding keyer_mode_of_radio
wants_mode c forced r m =
    has c.mhi has_keyer_mode
    && (forced
        || (not (opt_eq (some m) (c.mode_req r))
            || c.keyer_mode_changed r && not (m == keyer_mode_of_radio c r)))

-- the keyer mode follows the radio's.
unfoldable pub follow_mode : Control → Bool → ℕ → Option ℕ → ℕ → Control
unfolding wants_mode set_mode set_mode_on_radio
follow_mode c forced r none t = c
follow_mode c forced r (some m) t =
    let c' = record c {
      mode_req = update c.mode_req r (some m);
      mode_req_time = update c.mode_req_time r t;
      keyer_mode_changed = update c.keyer_mode_changed r false;
    } in
    if wants_mode c forced r m
    then (if has c.mhi has_r2
        then set_mode_on_radio c' m r (some radio_mode)
        else set_mode c' m (some radio_mode))
    else c

-- Whether the frequencies differ from those of the last radio info; there are none at first.
abbrev pub freq_differs : Option RadioInfo → RadioInfo → Bool
freq_differs none info =
    freq_changed
      (record {
        radio = 0;
        keyer_mode = none;
        mode_str = [];
        rx = 0;
        tx = 0;
        oper = 0;
        vfo_a = 0;
        vfo_b = 0;
      })
      info
freq_differs (some old) info = freq_changed old info

-- the frequencies are sent where they changed or were not received.
unfoldable pub follow_freq : Control → RadioInfo → Control
unfolding freq_changed
follow_freq c info =
    let r = info.radio in
    if has c.mhi has_cat_cmd && (not (c.freq_sent_success r) || freq_differs (c.radio_info r) info)
    then (if is_online c
        then send_cat_freq_info c info r
        else record c { freq_sent_success = update c.freq_sent_success r false })
    else c

-- `mhc_update_radio_info` of a radio 1 or 2
unfoldable pub update_known : Control → List ℕ → RadioInfo → ℕ → Control
update_known c source info t =
    let r = info.radio in
    let (forced, c1) =
      set_force_keyer_mode (record c { radio_info_timer = update c.radio_info_timer r true }) r 0 in
    let told = notify c1 source info in
    let c2 = record c1 { radio_info_valid = update c1.radio_info_valid r true } in
    let c3 = follow_freq (follow_mode c2 forced r (mode_opt info.keyer_mode) t) info in
    let c4 = record c3 {
      radio_info = update c3.radio_info r (some info);
      radio_info_source = update c3.radio_info_source r (take 15 source);
    } in
    if told then tell c4 (radio_info r true) else c4

-- `mhc_update_radio_info`
unfoldable pub update_radio_info : Control → List ℕ → RadioInfo → ℕ → Control
update_radio_info c source info t =
    if bad_radio info.radio then c else update_known c source (mapped c info) t

-- `radio_info_timeout_cb` of a radio
unfoldable pub radio_info_timeout_cb : Control → ℕ → Control
radio_info_timeout_cb c radio =
    tell
      (set_force_keyer_mode
        (record c {
          radio_info_valid = update c.radio_info_valid radio false;
          radio_info_timer = update c.radio_info_timer radio false;
        })
        radio 1).1
      (radio_info radio false)
