-- ===== src/CatState/Letters.antt =====
-- src/cat_state.c: the state as the operator sees it: VFO A, VFO B and which one is selected.
use mhuxd.Base.{ℕ, ◌≡◌, Bool, true, if◌then◌else◌, arith}
use mhuxd.CatState.{
  CatState, Vfo, select_vfo, exchange_vfos, equalize_vfos, swap_vfos, slots_selected,
}

-- The two VFOs by their letters; `b_selected` is the selection.
pub record Letters : Type 0 where
  pub a : Vfo
  pub b : Vfo
  pub b_selected : Bool

abbrev pub letters : CatState → Letters
letters st = record {
  a = if st.vfo_ab.val then st.unsel else st.sel;
  b = if st.vfo_ab.val then st.sel else st.unsel;
  b_selected = st.vfo_ab.val;
}

-- Where the selection is known, `cat_state_select_vfo` only moves it: both lettered VFOs keep their
-- contents. `cat_state_exchange_vfos` exchanges them, and `cat_state_equalize_vfos` copies the selected
-- one over the other.
pub letters_refine :
    (st : CatState) (ab : Bool) (t : ℕ)
    → st.vfo_ab.valid ≡ true
    → (letters (select_vfo st ab t)
        ≡ record { a = (letters st).a; b = (letters st).b; b_selected = ab })
      × (letters (exchange_vfos st)
          ≡ record { a = (letters st).b; b = (letters st).a; b_selected = st.vfo_ab.val })
      × (letters (equalize_vfos st) ≡ record { a = st.sel; b = st.sel; b_selected = st.vfo_ab.val })
unfolding select_vfo slots_selected swap_vfos exchange_vfos equalize_vfos
letters_refine st ab t h = (ground arith, ground arith, ground arith)
