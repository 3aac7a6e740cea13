-- ===== src/CatState/Updates.antt =====
-- src/cat_state.c: the calls that change the state, as one type.
use mhuxd.Base.{ℕ, Bool}
use mhuxd.CatState.Modes.{Mode}
use mhuxd.CatState.{
  CatState, set_freq, set_mode, set_data, set_split, select_vfo, exchange_vfos, equalize_vfos,
}

-- The calls that change the state.
pub data Update : Type 0 where
  freq_call : ℕ → ℕ → Update
  mode_call : ℕ → Mode → Update
  data_call : ℕ → Bool → Update
  split_call : Bool → Update
  select_call : Bool → Update
  exchange_call : Update
  equalize_call : Update

abbrev pub perform : Update → CatState → ℕ → CatState
perform (freq_call vfo hz) st t = set_freq st vfo hz t
perform (mode_call vfo m) st t = set_mode st vfo m t
perform (data_call vfo b) st t = set_data st vfo b t
perform (split_call b) st t = set_split st b t
perform (select_call ab) st t = select_vfo st ab t
perform exchange_call st t = exchange_vfos st
perform equalize_call st t = equalize_vfos st
