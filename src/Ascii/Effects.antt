-- ===== src/Ascii/Effects.antt =====
-- src/cat_ascii.c: what frames do to the state: `set_freq`, `set_mode`, `select_rx` and the others that
-- the commands share. A decoder answers with its outcome beside the state.
use mhuxd.Base.{
  ℕ, Bool, true, false, not, ◌&&◌, ◌||◌, Option, none, some, List, if◌then◌else◌, ◌==◌, get_or,
  bool_eq, between,
}
use mhuxd.Cat.{Outcome, updated, invalid}
use mhuxd.CatState
use mhuxd.CatState.{CatState}
use mhuxd.CatState.Modes.{Mode, with_data, mode_eq}
use mhuxd.Ascii.State.{Dialect, kenwood, elecraft, yaesu, flex, Decoder, put_ab}
use mhuxd.Ascii.Fields.{Coded, dec_mode_kenwood, dec_mode_flex, dec_mode_yaesu, k3_data_mode}

abbrev pub Applied : Type 0
Applied = Outcome × Decoder

-- the character at an index, and the rest from an index on
abbrev pub char_at : List ℕ → ℕ → ℕ
char_at s i = get_or s i 0

-- The receive VFO, `st->vfo_ab.val`.
abbrev pub rx_ab : Decoder → Bool
rx_ab d = d.st.vfo_ab.val

abbrev pub with_st : Decoder → CatState → Decoder
with_st d st = record d { st = st }

-- `slot_of`
abbrev slot_of : Decoder → Bool → ℕ
slot_of d ab = if bool_eq ab (rx_ab d) then 0 else 1

-- `set_freq`
abbrev pub set_freq : Decoder → Bool → ℕ → ℕ → Decoder
set_freq d ab hz t = with_st d (CatState.set_freq d.st (slot_of d ab) hz t)

abbrev told_off : Option Bool → Bool
told_off none = false
told_off (some b) = not b

-- `set_mode`; `flag` is `data`.
unfoldable pub set_mode : Decoder → ℕ → Mode → Option Bool → ℕ → Decoder
set_mode d slot mode flag t =
    let st = CatState.set_mode d.st slot mode t in
    with_st d (
      if told_off flag && not (mode_eq (with_data mode true) mode)
      then CatState.set_data st slot false t
      else st)

-- `update_split`
unfoldable pub update_split : Decoder → ℕ → Decoder
update_split d t = elim d.tx_ab [
  | none ↦ d
  | some tx ↦ with_st d (CatState.set_split d.st (not (bool_eq tx (rx_ab d))) t)
]

-- `set_split`
unfoldable pub set_split : Decoder → Bool → ℕ → Decoder
set_split d split t = record d {
  st = CatState.set_split d.st split t;
  tx_ab = some (if split then not (rx_ab d) else rx_ab d);
}

-- `select_rx`
unfoldable pub select_rx : Decoder → Bool → ℕ → Decoder
unfolding update_split
select_rx d ab t = update_split (with_st d (CatState.select_vfo d.st ab t)) t

abbrev set_coded : Decoder → ℕ → Option Coded → Option Bool → ℕ → Decoder
set_coded d slot none flag t = d
set_coded d slot (some (mode, _)) flag t = set_mode d slot mode flag t

-- `k3_apply`
unfoldable pub k3_apply : Decoder → Bool → ℕ → Decoder
unfolding set_mode
k3_apply d ab t =
    let md = d.k3_md ab in
    if md == 0
    then d
    else if md == b'6' || md == b'9'
    then set_mode d (slot_of d ab) (k3_data_mode md (d.k3_dt ab)) (some true) t
    else set_coded d (slot_of d ab) (dec_mode_kenwood d.no_data false md) (some false) t

abbrev pub apply_coded : Decoder → Bool → Option Coded → ℕ → Applied
apply_coded d ab none t = (invalid, d)
apply_coded d ab (some (mode, flag)) t = (updated, set_mode d (slot_of d ab) mode flag t)

-- the `switch` of `apply_mode_code`
unfoldable pub mode_code_in : Dialect → Decoder → Bool → ℕ → Bool → ℕ → Applied
unfolding k3_apply set_mode
mode_code_in elecraft d ab c data_codes t =
    if not (between b'1' b'9' c) || c == b'8'
    then (invalid, d)
    else (updated, k3_apply (record d { k3_md = put_ab d.k3_md ab c }) ab t)
mode_code_in flex d ab c data_codes t = apply_coded d ab (dec_mode_flex c) t
mode_code_in yaesu d ab c data_codes t = apply_coded d ab (dec_mode_yaesu c) t
mode_code_in kenwood d ab c data_codes t =
    apply_coded d ab (dec_mode_kenwood d.no_data data_codes c) t

-- `apply_mode_code`
abbrev pub apply_mode_code : Decoder → Bool → ℕ → Bool → ℕ → Applied
apply_mode_code d = mode_code_in d.dialect d
