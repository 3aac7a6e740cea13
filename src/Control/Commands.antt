-- ===== src/Control/Commands.antt =====
-- src/mhcontrol.c: the calls that send one command to the keyer.
use mhuxd.Base.{
  ℕ, ◌+◌, ◌-◌, ◌/◌, ◌%◌, Bool, not, ◌||◌, Option, List, [], ◌∷◌, ◌++◌, if◌then◌else◌, ltb, length,
  u8, take, drop,
}
use mhuxd.Mhinfo.{has}
use mhuxd.Mhinfo.Flags.{has_display, has_frbase_voice}
use mhuxd.Control.Numbers
use mhuxd.Control.State.{Control, Owner, CmdResult, is_online}
use mhuxd.Control.Queue.{framed, submit_cmd, defer_callback}

-- `mhc_set_mode`
unfoldable pub set_mode : Control → ℕ → Option Owner → Control
set_mode c mode cb = submit_cmd c (framed Numbers.set_keyer_mode (mode ∷ [])) cb

-- `mhc_set_mode_on_radio`
unfoldable pub set_mode_on_radio : Control → ℕ → ℕ → Option Owner → Control
set_mode_on_radio c mode radio cb =
    submit_cmd c (framed Numbers.set_keyer_mode_on_radio (radio ∷ mode ∷ [])) cb

-- `mhc_mk2r_set_hfocus`
unfoldable pub set_hfocus : Control → List ℕ → Option Owner → Control
set_hfocus c hfocus cb =
    submit_cmd (record c { hfocus = take 8 hfocus })
      (framed Numbers.host_focus_control (take 8 hfocus)) cb

-- `mhc_mk2r_set_acc_outputs`
unfoldable pub set_acc_outputs : Control → List ℕ → Option Owner → Control
set_acc_outputs c outputs cb =
    submit_cmd (record c { acc_state = take 2 c.acc_state ++ take 4 outputs ++ drop 6 c.acc_state })
      (framed Numbers.host_acc_outputs_control (take 4 outputs)) cb

-- `mhc_mk2r_set_scenario`
unfoldable pub set_scenario : Control → ℕ → Option Owner → Control
set_scenario c idx cb = submit_cmd c (framed Numbers.apply_scenario (idx ∷ [])) cb

-- `mhc_sm_turn_to_azimuth`
unfoldable pub turn_to_azimuth : Control → ℕ → Option Owner → Control
turn_to_azimuth c bearing cb =
    submit_cmd c (framed Numbers.turn_to_azimuth (bearing % 256 ∷ bearing / 256 % 256 ∷ [])) cb

-- `mhc_sm_get_antsw_block`
unfoldable pub get_antsw_block : Control → ℕ → Option Owner → Control
get_antsw_block c offset cb =
    submit_cmd c (framed Numbers.get_antsw_block (offset % 256 ∷ offset / 256 % 256 ∷ [])) cb

-- `mhc_sm_set_antsw_validity`
unfoldable pub set_antsw_validity : Control → ℕ → Option Owner → Control
set_antsw_validity c param cb = submit_cmd c (framed Numbers.set_antsw_validity (param ∷ [])) cb

-- `mhc_sm_store_antsw_block`, which sends the number of GET ANTSW BLOCK
unfoldable pub store_antsw_block : Control → ℕ → List ℕ → Option Owner → Control
store_antsw_block c offset block cb =
    submit_cmd c
      (framed Numbers.get_antsw_block (offset % 256 ∷ offset / 256 % 256 ∷ take 32 block)) cb

-- `mhc_record_message`; messages are numbered from 1.
unfoldable pub record_message : Control → ℕ → Option Owner → Control
record_message c idx cb = submit_cmd c (framed Numbers.record_fsk_cw_msg (u8 (idx + 255) ∷ [])) cb

-- `mhc_stop_recording`
unfoldable pub stop_recording : Control → Option Owner → Control
stop_recording c cb = submit_cmd c (framed Numbers.record_fsk_cw_msg (0xff ∷ [])) cb

-- `mhc_play_message`
unfoldable pub play_message : Control → ℕ → Option Owner → Control
play_message c idx cb = submit_cmd c (framed Numbers.play_fsk_cw_msg (u8 (idx + 255) ∷ [])) cb

-- `mhc_abort_message`
unfoldable pub abort_message : Control → Option Owner → Control
abort_message c cb = submit_cmd c (framed Numbers.abort_fsk_cw_msg []) cb

-- what mhc_store_cw_message and mhc_store_fsk_message send, of the first of nine numbers; the texts that
-- the program keeps are left out.
unfoldable pub store_message : Control → ℕ → ℕ → List ℕ → ℕ → ℕ → Option Owner → Control
store_message c first idx text next_idx delay cb =
    if ltb 50 (length text) || (ltb idx 1 || ltb 9 idx)
    then defer_callback c cb CmdResult.error
    else if not (is_online c)
    then defer_callback c cb CmdResult.ok
    else submit_cmd c (framed (first + (idx - 1)) (next_idx ∷ delay ∷ text)) cb

-- `mhc_store_cw_message`
unfoldable pub store_cw_message : Control → ℕ → List ℕ → ℕ → ℕ → Option Owner → Control
unfolding store_message
store_cw_message c = store_message c Numbers.store_cw_fsk_msg_1

-- `mhc_store_fsk_message`
unfoldable pub store_fsk_message : Control → ℕ → List ℕ → ℕ → ℕ → Option Owner → Control
unfolding store_message
store_fsk_message c = store_message c Numbers.store_fsk_msg_1

-- `mhc_dvk_state`
unfoldable pub dvk_state : Control → Bool → ℕ → ℕ → ℕ → Option Owner → Control
dvk_state c recording msg_idx progress level cb =
    if not (has c.mhi has_display) || not (has c.mhi has_frbase_voice)
    then defer_callback c cb CmdResult.not_supported
    else submit_cmd c
        (framed (if recording then Numbers.dvk_rec else Numbers.dvk_play)
          (msg_idx ∷ progress ∷ level ∷ []))
        cb
