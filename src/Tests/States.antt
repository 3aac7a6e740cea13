-- ===== src/Tests/States.antt =====
-- src/cat_state.c, run on a few calls.
use mhuxd.Base.{◌≡◌, refl, true, false}
use mhuxd.CatState.{
  CatState, init, set_freq, select_vfo, exchange_vfos, equalize_vfos, slots_selected,
  invalidate_vfos, vfo_invalidate,
}
use mhuxd.CatState.Modes.{Mode, enum_eq}
use mhuxd.CatState.Letters.{letters, letters_refine}
use mhuxd.CatState.Updates.{perform, mode_call}
use mhuxd.CatState.Invariant.{IsState, init-IsState, perform-IsState}

-- VFO B is selected, at 14.1 MHz.
abbrev on_b : CatState
on_b = set_freq (select_vfo init true 5) 0 14100000 6

perform-IsState_example : IsState (perform (mode_call 0 Mode.pktusb) init 7)
perform-IsState_example = perform-IsState (mode_call 0 Mode.pktusb) init 7 init-IsState

letters_refine_example :
    (letters (select_vfo on_b false 8)
      ≡ record { a = (letters on_b).a; b = (letters on_b).b; b_selected = false })
    × (letters (exchange_vfos on_b)
        ≡ record { a = (letters on_b).b; b = (letters on_b).a; b_selected = on_b.vfo_ab.val })
    × (letters (equalize_vfos on_b)
        ≡ record { a = on_b.sel; b = on_b.sel; b_selected = on_b.vfo_ab.val })
unfolding set_freq select_vfo slots_selected invalidate_vfos vfo_invalidate
letters_refine_example = letters_refine on_b false 8 refl
