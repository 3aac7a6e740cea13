-- ===== src/Control/Numbers.antt =====
-- src/mhcontrol.c: the numbers of the keyer's commands, `MHCMD_*`.
use mhuxd.Base.{ℕ}

abbrev pub set_channel_r1 : ℕ
set_channel_r1 = 0x01

abbrev pub set_channel_aux_r2 : ℕ
set_channel_aux_r2 = 0x02

abbrev pub set_channel_fsk_r1 : ℕ
set_channel_fsk_r1 = 0x03

abbrev pub set_channel_fsk_r2 : ℕ
set_channel_fsk_r2 = 0x04

abbrev pub get_version : ℕ
get_version = 0x05

abbrev pub just_restarted : ℕ
just_restarted = 0x07

abbrev pub set_settings : ℕ
set_settings = 0x09

abbrev pub set_keyer_mode : ℕ
set_keyer_mode = 0x0a

abbrev pub on_connect : ℕ
on_connect = 0x1a

abbrev pub cat_r1_frequency_info : ℕ
cat_r1_frequency_info = 0x1f

abbrev pub cat_r2_frequency_info : ℕ
cat_r2_frequency_info = 0x37

abbrev pub display_host_string_event : ℕ
display_host_string_event = 0x2b

abbrev pub set_keyer_mode_on_radio : ℕ
set_keyer_mode_on_radio = 0x3b

abbrev pub sml_state : ℕ
sml_state = 0x76

abbrev pub mpk_state : ℕ
mpk_state = 0x78

abbrev pub acc_state : ℕ
acc_state = 0x79

abbrev pub mok_state : ℕ
mok_state = 0x7b

abbrev pub keyer_mode : ℕ
keyer_mode = 0x7c

abbrev pub are_you_there : ℕ
are_you_there = 0x7e

abbrev pub not_supported : ℕ
not_supported = 0x7f

abbrev pub host_focus_control : ℕ
host_focus_control = 0x31

abbrev pub host_acc_outputs_control : ℕ
host_acc_outputs_control = 0x35

abbrev pub apply_scenario : ℕ
apply_scenario = 0x34

abbrev pub turn_to_azimuth : ℕ
turn_to_azimuth = 0x49

abbrev pub get_antsw_block : ℕ
get_antsw_block = 0x43

abbrev pub set_antsw_validity : ℕ
set_antsw_validity = 0x41

abbrev pub record_fsk_cw_msg : ℕ
record_fsk_cw_msg = 0x0c

abbrev pub play_fsk_cw_msg : ℕ
play_fsk_cw_msg = 0x0d

abbrev pub abort_fsk_cw_msg : ℕ
abort_fsk_cw_msg = 0x0e

abbrev pub store_cw_fsk_msg_1 : ℕ
store_cw_fsk_msg_1 = 0x10

abbrev pub store_fsk_msg_1 : ℕ
store_fsk_msg_1 = 0x20

abbrev pub dvk_rec : ℕ
dvk_rec = 0x29

abbrev pub dvk_play : ℕ
dvk_play = 0x2a
