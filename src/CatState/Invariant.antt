-- ===== src/CatState/Invariant.antt =====
-- src/cat_state.c: the well-formed states.
use mhuxd.Base.{ℕ, ◌<◌, ◌≡◌, refl, Bool, true, false, arith}
use mhuxd.CatState.Modes.{Mode, without_data}
use mhuxd.CatState.Updates.{
  Update, perform, freq_call, mode_call, data_call, split_call, select_call, exchange_call,
  equalize_call,
}
use mhuxd.CatState.{
  CatState, Vfo, is_unknown, init, set_freq, set_mode, set_data, set_split, select_vfo,
  slots_selected, swap_vfos, invalidate_vfos, vfo_invalidate, vfo_set_mode, exchange_vfos,
  equalize_vfos,
}

-- The mode of a slot is a base mode, never one of the data modes, and a known mode is not the
-- unknown one.
pub record IsVfo (v : Vfo) : Type 0 where
  pub base : (without_data v.mode.val).1 ≡ false
  pub decoded : v.mode.valid ≡ true → is_unknown v.mode.val ≡ false

pub record IsState (st : CatState) : Type 0 where
  pub sel : IsVfo st.sel
  pub unsel : IsVfo st.unsel
  pub counter : st.changes < 4294967296

without_data_base :
    (m : Mode)
    → is_unknown m ≡ false
    → ((without_data (without_data m).0).1 ≡ false) × (is_unknown (without_data m).0 ≡ false)
unfolding without_data
without_data_base = elim [ Mode.unknown ↦ λ h. cc | _ ↦ λ h. (refl, refl) ]

vfo_set_mode-IsVfo :
    (m : Mode) (t : ℕ) (v : Vfo) (n : ℕ) → is_unknown m ≡ false → IsVfo (vfo_set_mode m t (v, n)).0
unfolding vfo_set_mode
vfo_set_mode-IsVfo m t v n h = ground (arith, without_data_base m h)

vfo_set_mode-counter :
    (m : Mode) (t : ℕ) (v : Vfo) (n : ℕ) → n < 4294967296 → (vfo_set_mode m t (v, n)).1 < 4294967296
unfolding vfo_set_mode
vfo_set_mode-counter m t v n h = ground arith

invalidate_vfos-IsState : (st : CatState) → IsState st → IsState (invalidate_vfos st)
unfolding invalidate_vfos vfo_invalidate
invalidate_vfos-IsState st h = ground arith

slots_selected-IsState : (st : CatState) (ab : Bool) → IsState st → IsState (slots_selected st ab)
unfolding slots_selected swap_vfos
slots_selected-IsState st ab h = ground (arith, invalidate_vfos-IsState st h)

-- `cat_state_init` gives a well-formed state.
pub init-IsState : IsState init
unfolding without_data
init-IsState = ground arith

-- Every call keeps the state well formed: no slot holds a data mode as its base mode, a known mode
-- is a mode, and the counter stays a 32-bit number.
pub perform-IsState : (u : Update) (st : CatState) (t : ℕ) → IsState st → IsState (perform u st t)
unfolding set_freq set_mode set_data set_split select_vfo exchange_vfos equalize_vfos swap_vfos
perform-IsState (freq_call vfo hz) st t h = ground arith
perform-IsState (mode_call vfo m) st t h = ground (
  arith,
  vfo_set_mode-IsVfo m t st.sel st.changes,
  vfo_set_mode-IsVfo m t st.unsel st.changes,
  vfo_set_mode-counter m t st.sel st.changes,
  vfo_set_mode-counter m t st.unsel st.changes,
)
perform-IsState (data_call vfo on) st t h = ground arith
perform-IsState (split_call on) st t h = ground arith
perform-IsState (select_call ab) st t h = ground (arith, slots_selected-IsState st ab h)
perform-IsState exchange_call st t h = ground arith
perform-IsState equalize_call st t h = ground arith
