-- ===== src/CatState/Changes.antt =====
-- src/cat_state.c: the change counter: what a caller may conclude from it, as the monitor and the keyer's mode
-- synchronisation do.
use mhuxd.Base.{
  ℕ, ◌+◌, ◌≤◌, ◌<◌, ◌≡◌, refl, Bool, true, false, not, Option, none, some, if◌then◌else◌, arith,
  bool_eq, bool_eq_iff, u32, Bool-cases, inl, inr,
}
use mhuxd.CatState.Modes.{Mode, mode_eq_iff, enum_eq, without_data}
use mhuxd.CatState.Updates.{
  Update, perform, freq_call, mode_call, data_call, split_call, select_call, exchange_call,
  equalize_call,
}
use mhuxd.CatState.{
  CatState, Vfo, Item, set_freq, set_mode, set_data, set_split, select_vfo, exchange_vfos,
  equalize_vfos, swap_vfos, vfo_eq, vfo_set_mode, vfo_invalidate, invalidate_vfos, slots_selected,
  count,
}

abbrev weight : Bool → ℕ
weight false = 0
weight true = 1

-- The value of an item, if it is known.
abbrev pub seen : {A : Type 0} → Item A → Option A
seen it = if it.valid then some it.val else none

abbrev pub SameVfo : Vfo → Vfo → Type 0
SameVfo v w =
    (seen v.freq ≡ seen w.freq)
    × (seen v.mode ≡ seen w.mode)
    × (seen v.data_flag ≡ seen w.data_flag)

-- Two states tell the same of the radio, whenever their values were updated.
pub record SameValues (st st' : CatState) : Type 0 where
  pub sel : SameVfo st.sel st'.sel
  pub unsel : SameVfo st.unsel st'.unsel
  pub split : seen st.split ≡ seen st'.split
  pub vfo_ab : seen st.vfo_ab ≡ seen st'.vfo_ab

vfo_eq-SameVfo : (v w : Vfo) → vfo_eq v w ≡ true → SameVfo v w
unfolding vfo_eq
vfo_eq-SameVfo v w h = ground (arith, mode_eq_iff v.mode.val w.mode.val)

module _ (v : Vfo) (n : ℕ) where
  -- how many items are dropped
  abbrev dropped_items : ℕ
  dropped_items = weight v.freq.valid + weight v.mode.valid + weight v.data_flag.valid

  vfo_invalidate_counts : n < 4294967296 → (vfo_invalidate (v, n)).1 ≡ u32 (n + dropped_items)
  unfolding vfo_invalidate
  vfo_invalidate_counts h = ground arith

invalidate_vfos_counts :
    (st : CatState)
    → st.changes < 4294967296
    → (k : ℕ) × (k ≤ 6) × ((invalidate_vfos st).changes ≡ u32 (st.changes + k))
unfolding invalidate_vfos
invalidate_vfos_counts st h =
    let n = (vfo_invalidate (st.sel, st.changes)).1 in
    (
      dropped_items st.sel st.changes + dropped_items st.unsel n,
      ground arith,
      ground (arith, vfo_invalidate_counts st.sel st.changes h, vfo_invalidate_counts st.unsel n),
    )

set_mode_silent :
    (v : Vfo) (n : ℕ) (m : Mode) (t : ℕ)
    → n < 4294967296
    → (vfo_set_mode m t (v, n)).1 ≡ n
    → SameVfo v (vfo_set_mode m t (v, n)).0
unfolding vfo_set_mode
set_mode_silent v n m t b h = ground (arith, mode_eq_iff v.mode.val (without_data m).0)

vfo_ab-invalidate_vfos : (st : CatState) → (invalidate_vfos st).vfo_ab ≡ st.vfo_ab
unfolding invalidate_vfos
vfo_ab-invalidate_vfos st = refl

-- A selection is silent only where it was known, and repeats it.
select_known :
    (st : CatState) (ab : Bool) (t : ℕ)
    → st.changes < 4294967296
    → (select_vfo st ab t).changes ≡ st.changes
    → st.vfo_ab.valid ≡ true
unfolding select_vfo
select_known st ab t b h = elim (Bool-cases st.vfo_ab.valid) [
  | inl e ↦ e
  | inr e ↦
      let s : slots_selected st ab ≡ invalidate_vfos st = unfold slots_selected in rw e in
      ground (arith, s, vfo_ab-invalidate_vfos st, invalidate_vfos_counts st b)
]

select_repeats :
    (st : CatState) (ab : Bool) (t : ℕ)
    → st.vfo_ab.valid ≡ true
    → (select_vfo st ab t).changes ≡ st.changes
    → st.changes < 4294967296
    → bool_eq st.vfo_ab.val ab ≡ true
unfolding select_vfo
select_repeats st ab t v h b = elim (Bool-cases (bool_eq st.vfo_ab.val ab)) [
  | inl e ↦ e
  | inr e ↦
      let s : slots_selected st ab ≡ swap_vfos st = unfold slots_selected in rw (v, e) in
      ground (arith, s, count_swap)
]
  where
    count_swap :
        ((swap_vfos st).changes ≡ count (not (vfo_eq st.sel st.unsel)) st.changes)
        × ((swap_vfos st).vfo_ab ≡ st.vfo_ab)
    count_swap = unfold swap_vfos in (refl, refl)

select_silent :
    (st : CatState) (ab : Bool) (t : ℕ)
    → st.changes < 4294967296
    → (select_vfo st ab t).changes ≡ st.changes
    → SameValues st (select_vfo st ab t)
select_silent st ab t b h =
    let v = select_known st ab t b h in
    let e = select_repeats st ab t v h b in
    let s : slots_selected st ab ≡ st = unfold slots_selected in rw (v, e) in
    unfold select_vfo in ground (arith, s, (bool_eq_iff st.vfo_ab.val ab).0 e)

-- An update that leaves `changes` alone changes no known value, and makes none known or unknown.
pub perform_silent :
    (u : Update) (st : CatState) (t : ℕ)
    → st.changes < 4294967296
    → (perform u st t).changes ≡ st.changes
    → SameValues st (perform u st t)
unfolding set_freq set_mode set_data set_split exchange_vfos equalize_vfos
perform_silent (freq_call vfo hz) st t b h = ground arith
perform_silent (mode_call vfo m) st t b h =
    ground (arith, set_mode_silent st.sel st.changes m t, set_mode_silent st.unsel st.changes m t)
perform_silent (data_call vfo on) st t b h = ground arith
perform_silent (split_call on) st t b h = ground arith
perform_silent (select_call ab) st t b h = select_silent st ab t b h
perform_silent exchange_call st t b h = ground (arith, vfo_eq-SameVfo st.sel st.unsel)
perform_silent equalize_call st t b h = ground (arith, vfo_eq-SameVfo st.sel st.unsel)
