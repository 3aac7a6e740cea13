-- ===== src/Mhinfo/Flags.antt =====
-- src/mhinfo.h: the enumeration `MHF_*`, what a keyer can do. Each name stands for the number of its
-- bit.
use mhuxd.Base.{ℕ}

abbrev pub has_r1 : ℕ
has_r1 = 0

abbrev pub has_r2 : ℕ
has_r2 = 1

abbrev pub has_r1_radio_support : ℕ
has_r1_radio_support = 2

abbrev pub has_r2_radio_support : ℕ
has_r2_radio_support = 3

abbrev pub has_aux : ℕ
has_aux = 4

abbrev pub has_winkey : ℕ
has_winkey = 5

abbrev pub has_fsk1 : ℕ
has_fsk1 = 6

abbrev pub has_fsk2 : ℕ
has_fsk2 = 7

abbrev pub has_frbase : ℕ
has_frbase = 8

abbrev pub has_frbase_cw : ℕ
has_frbase_cw = 9

abbrev pub has_frbase_digital : ℕ
has_frbase_digital = 10

abbrev pub has_frbase_voice : ℕ
has_frbase_voice = 11

abbrev pub has_lna_pa_ptt : ℕ
has_lna_pa_ptt = 12

abbrev pub has_lna_pa_ptt_tail : ℕ
has_lna_pa_ptt_tail = 13

abbrev pub has_soundcard_ptt : ℕ
has_soundcard_ptt = 14

abbrev pub has_cw_in_voice : ℕ
has_cw_in_voice = 15

abbrev pub has_audio_switching : ℕ
has_audio_switching = 16

abbrev pub has_display : ℕ
has_display = 17

abbrev pub has_follow_tx_mode : ℕ
has_follow_tx_mode = 18

abbrev pub has_ptt_settings : ℕ
has_ptt_settings = 19

abbrev pub has_keyer_mode : ℕ
has_keyer_mode = 20

abbrev pub has_flags_channel : ℕ
has_flags_channel = 21

abbrev pub has_mcp_support : ℕ
has_mcp_support = 22

abbrev pub has_rotator_support : ℕ
has_rotator_support = 23

abbrev pub has_sm_commands : ℕ
has_sm_commands = 24

abbrev pub has_pfsk : ℕ
has_pfsk = 25

abbrev pub has_pcw : ℕ
has_pcw = 26

abbrev pub has_cat_cmd : ℕ
has_cat_cmd = 27

abbrev pub has_no_voice_use_fsk : ℕ
has_no_voice_use_fsk = 28

abbrev pub mhuxd_supported : ℕ
mhuxd_supported = 31
