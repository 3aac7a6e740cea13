-- ===== src/CatState/Reads.antt =====
-- src/cat_state.c: the mode of a VFO, read back after it was written.
use mhuxd.Base.{ℕ, ◌<◌, ◌≡◌, refl, Bool, ◌||◌, if◌then◌else◌, arith, ◌≢◌}
use mhuxd.CatState.Modes.{Mode, mode_eq_iff, with_data, without_data, enum_eq}
use mhuxd.CatState.{
  CatState, Vfo, set_mode, set_data, mode_of, slot, vfo_mode, vfo_set_mode, differs,
}

-- A base mode and its data flag make the mode again.
with_data-without_data : (m : Mode) → with_data (without_data m).0 (without_data m).1 ≡ m
unfolding with_data without_data
with_data-without_data = elim [ Mode.unknown ↦ refl | _ ↦ refl ]

module _ (m : Mode) (t : ℕ) (v : Vfo) (n : ℕ) where
  vfo_mode-vfo_set_mode :
      vfo_mode (vfo_set_mode m t (v, n)).0
      ≡ (if differs v.mode (without_data m).0 || (without_data m).1 then m else vfo_mode v)
  unfolding vfo_set_mode
  vfo_mode-vfo_set_mode =
      ground (arith, with_data-without_data m, mode_eq_iff v.mode.val (without_data m).0)

-- A mode other than the unknown one, set for a VFO, is the mode read back, but for one case: where
-- it names no data mode and repeats the base mode already known, the data flag stays in force.
pub mode_of-set_mode :
    (st : CatState) (vfo : ℕ) (m : Mode) (t : ℕ)
    → vfo < 2
    → m ≢ Mode.unknown
    → mode_of (set_mode st vfo m t) vfo ≡ (
        if differs (slot st vfo).mode (without_data m).0 || (without_data m).1
        then m
        else mode_of st vfo)
unfolding mode_of set_mode
mode_of-set_mode st vfo m t h k = ground (
  arith,
  vfo_mode-vfo_set_mode m t st.sel st.changes,
  vfo_mode-vfo_set_mode m t st.unsel st.changes,
)

-- Base mode and data flag set one after the other read back as the mode they make together.
pub mode_of-set_data-set_mode :
    (st : CatState) (vfo : ℕ) (m : Mode) (b : Bool) (t u : ℕ)
    → vfo < 2
    → m ≢ Mode.unknown
    → mode_of (set_data (set_mode st vfo m t) vfo b u) vfo ≡ with_data (without_data m).0 b
unfolding mode_of set_data set_mode vfo_set_mode
mode_of-set_data-set_mode st vfo m b t u h k = ground arith
