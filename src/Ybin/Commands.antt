-- ===== src/Ybin/Commands.antt =====
-- src/cat_ybin.c: what a command of a client does to the state.
use mhuxd.Base.{
  ℕ, ◌*◌, true, false, not, ◌&&◌, ◌||◌, Option, none, some, List, take, if◌then◌else◌, ◌==◌, ltb,
  get_or, bit, u32,
}
use mhuxd.Cat.{updated, nothing, invalid}
use mhuxd.CatState
use mhuxd.CatState.{CatState, is_unknown, select_vfo, set_split}
use mhuxd.CatState.Modes.{Mode}
use mhuxd.Ybin.Models.{
  Family, fam_757, fam_900, fam_920, fam_mp, Model, fam_of, is_fam_817, is_fam_847, is_fam_920,
  is_fam_1000, is_fam_mp,
}
use mhuxd.Ybin.Lengths.{op_of, u_of}
use mhuxd.Ybin.Modes.{mode_817, mode_757, modeset_900, modeset_920, modeset_1000}
use mhuxd.Ybin.Fields.{Applied, VfoAb, dec_bcd, slot_of, set_mode}

-- A frequency parameter, four BCD bytes: the tail of the cases 0x01, 0x0a and 0x8a.
unfoldable pub command_freq : CatState → VfoAb → Option ℕ → ℕ → Applied
unfolding slot_of
command_freq st ab none t = (invalid, st)
command_freq st ab (some hz) t =
    if hz == 0
    then (invalid, st)
    else (updated, CatState.set_freq st (slot_of st ab) (u32 (hz * 10)) t)

-- The tail of the cases 0x07 and 0x0c.
unfoldable pub command_mode : CatState → VfoAb → Mode → ℕ → Applied
unfolding set_mode
command_mode st ab mode t =
    if is_unknown mode then (invalid, st) else (updated, set_mode st ab mode t)

-- `case FAM_817`, `case FAM_847`
unfoldable pub command_817 : Family → CatState → List ℕ → ℕ → Applied
unfolding dec_bcd mode_817 command_freq command_mode
command_817 fam st c t =
    if op_of c == 0x01
    then command_freq st none (dec_bcd true (take 4 c)) t
    else if op_of c == 0x07
    then command_mode st none (mode_817 (get_or c 0 0)) t
    else if is_fam_847 fam
    then (nothing, st)
    else if op_of c == 0x81
    then (updated, select_vfo st (not st.vfo_ab.val) t)
    else if op_of c == 0x02 || op_of c == 0x82
    then (updated, set_split st (op_of c == 0x02) t)
    else (nothing, st)

-- `case 0x0c`: the mode, and the VFO it is for
unfoldable pub mode_param : Family → ℕ → Mode × VfoAb
unfolding mode_757 modeset_900 modeset_920 modeset_1000
mode_param fam_757 u = (mode_757 u, none)
mode_param fam_900 u = (modeset_900 u, none)
mode_param fam_920 u = (modeset_920 u, some (bit 7 u))
mode_param fam_mp u = (modeset_1000 u, some (bit 7 u))
mode_param _ u = (modeset_1000 u, if bit 7 u then some true else none)

-- the VFO of the cases 0x0a and 0x8a
abbrev pub freq_vfo : Family → ℕ → VfoAb
freq_vfo fam op =
    if op == 0x8a then some true else if is_fam_mp fam || is_fam_920 fam then some false else none

-- the second `switch`
unfoldable pub command_others : Family → CatState → List ℕ → ℕ → Applied
unfolding dec_bcd command_freq command_mode mode_param
command_others fam st c t =
    let op = op_of c in
    let u = u_of c in
    if op == 0x0a || op == 0x8a
    then if op == 0x8a && not (is_fam_mp fam) && not (is_fam_920 fam) && not (is_fam_1000 fam)
      then (nothing, st)
      else command_freq st (freq_vfo fam op) (dec_bcd false (take 4 c)) t
    else if op == 0x0c
    then command_mode st (mode_param fam u).1 (mode_param fam u).0 t
    else if op == 0x05
    then if ltb 1 u then (nothing, st) else (updated, select_vfo st (u == 1) t)
    else (nothing, st)

-- `apply_command`
unfoldable pub apply_command : Model → CatState → List ℕ → ℕ → Applied
unfolding command_817 command_others
apply_command m st c t =
    if is_fam_817 (fam_of m) || is_fam_847 (fam_of m)
    then command_817 (fam_of m) st c t
    else command_others (fam_of m) st c t
