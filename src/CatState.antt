-- ===== src/CatState.antt =====
-- src/cat_state.h, src/cat_state.c: the radio's state as decoded from CAT traffic. Values carry the
-- time of their last update; `changes` counts value changes. Slot 0 is the selected VFO, slot 1 the
-- other one.
pub mod Modes
pub mod Tokens
pub mod Reads
pub mod Letters
pub mod Updates
pub mod Changes
pub mod Invariant
use mhuxd.Base.{
  ℕ, ◌+◌, Bool, true, false, not, ◌&&◌, ◌||◌, Option, none, some, List, if◌then◌else◌, ◌==◌, u32,
  leb, take, Eq, bool_eq, nat_eq, flag_eq,
}
use Modes.{Mode, enum_eq, unknown, KeyerMode, token, to_keyer, with_data, without_data}

-- `struct cat_item`
pub record Item (A : Type 0) : Type 0 where
  pub val : A
  pub t_ms : ℕ
  pub valid : Bool

-- `struct cat_vfo_state`. The source keeps the mode's number in `mode.val`; `data_flag` is `data`.
pub record Vfo : Type 0 where
  pub freq : Item ℕ
  pub mode : Item Mode
  pub data_flag : Item Bool

-- `struct cat_state`. Items of 0 or 1 hold truth values here, `vfo_ab` is true for VFO B.
pub record CatState : Type 0 where
  pub sel : Vfo
  pub unsel : Vfo
  pub split : Item Bool
  pub vfo_ab : Item Bool
  pub changes : ℕ

abbrev zero_item : {A : Type 0} → A → Item A
zero_item a = record { val = a; t_ms = 0; valid = false }

abbrev zero_vfo : Vfo
zero_vfo = record { freq = zero_item 0; mode = zero_item unknown; data_flag = zero_item false }

-- `cat_state_init`
abbrev pub init : CatState
init = record {
  sel = zero_vfo;
  unsel = zero_vfo;
  split = zero_item false;
  vfo_ab = zero_item false;
  changes = 0;
}

-- `changes++`, if the flag is set
abbrev pub count : Bool → ℕ → ℕ
count changed n = if changed then u32 (n + 1) else n

-- `item_set`: the item written, and whether the write counts as a change.
abbrev pub item_set : {A : Type 0} → A → ℕ → Item A
item_set a t = record { val = a; t_ms = t; valid = true }

abbrev pub differs : {A : Type 0} ⦃e : Eq A⦄ → Item A → A → Bool
differs ⦃e⦄ it a = not it.valid || not (e.beq it.val a)

-- `item_invalidate`; it counts as a change if the item was valid.
abbrev pub item_invalidate : {A : Type 0} → Item A → Item A
item_invalidate it = record it { valid = false }

-- A VFO slot together with the change counter.
abbrev pub Counted : Type 0
Counted = Vfo × ℕ

abbrev pub vfo_set_freq : ℕ → ℕ → Counted → Counted
vfo_set_freq hz t (v, n) = (record v { freq = item_set hz t }, count (differs v.freq hz) n)

abbrev pub vfo_set_data : Bool → ℕ → Counted → Counted
vfo_set_data b t (v, n) = (record v { data_flag = item_set b t }, count (differs v.data_flag b) n)

abbrev pub vfo_drop_data : Counted → Counted
vfo_drop_data (v, n) =
    (record v { data_flag = item_invalidate v.data_flag }, count v.data_flag.valid n)

abbrev pub vfo_put_mode : Mode → ℕ → Counted → Counted
vfo_put_mode base t (v, n) = (record v { mode = item_set base t }, count (differs v.mode base) n)

-- A changed base mode drops the data flag, unless the mode carries one.
unfoldable pub vfo_set_mode : Mode → ℕ → Counted → Counted
vfo_set_mode mode t (v, n) =
    let (base, data_on) = without_data mode in
    let c = vfo_put_mode base t (if differs v.mode base then vfo_drop_data (v, n) else (v, n)) in
    if data_on then vfo_set_data true t c else c

abbrev put_sel : CatState → Counted → CatState
put_sel st (v, n) = record st { sel = v; changes = n }

abbrev put_unsel : CatState → Counted → CatState
put_unsel st (v, n) = record st { unsel = v; changes = n }

-- An update of one slot. `valid_vfo` refuses any other number.
abbrev pub on_vfo : CatState → ℕ → (Counted → Counted) → CatState
on_vfo st vfo f =
    if vfo == 0
    then put_sel st (f (st.sel, st.changes))
    else if vfo == 1
    then put_unsel st (f (st.unsel, st.changes))
    else st

-- `cat_state_set_freq`
unfoldable pub set_freq : CatState → ℕ → ℕ → ℕ → CatState
set_freq st vfo hz t = on_vfo st vfo (vfo_set_freq hz t)

abbrev pub is_unknown : Mode → Bool
is_unknown unknown = true
is_unknown _ = false

-- `cat_state_set_mode`
unfoldable pub set_mode : CatState → ℕ → Mode → ℕ → CatState
set_mode st vfo mode t = if is_unknown mode then st else on_vfo st vfo (vfo_set_mode mode t)

-- `cat_state_set_data`
unfoldable pub set_data : CatState → ℕ → Bool → ℕ → CatState
set_data st vfo b t = on_vfo st vfo (vfo_set_data b t)

-- `cat_state_set_split`
unfoldable pub set_split : CatState → Bool → ℕ → CatState
set_split st b t = record st {
  split = item_set b t;
  changes = count (differs st.split b) st.changes;
}

abbrev pub item_eq : {A : Type 0} ⦃e : Eq A⦄ → Item A → Item A → Bool
item_eq ⦃e⦄ x y = e.beq x.val y.val && x.t_ms == y.t_ms && bool_eq x.valid y.valid

-- `!memcmp` of two slots; the padding of the struct is zero throughout.
unfoldable pub vfo_eq : Vfo → Vfo → Bool
vfo_eq v w = item_eq v.freq w.freq && item_eq v.mode w.mode && item_eq v.data_flag w.data_flag

-- `swap_vfos`
unfoldable pub swap_vfos : CatState → CatState
swap_vfos st = record st {
  sel = st.unsel;
  unsel = st.sel;
  changes = count (not (vfo_eq st.sel st.unsel)) st.changes;
}

-- The loop body of `cat_state_select_vfo` for an unknown selection.
unfoldable pub vfo_invalidate : Counted → Counted
vfo_invalidate (v, n) =
    let n1 = count v.freq.valid n in
    let n2 = count v.mode.valid n1 in
    (
      record {
        freq = item_invalidate v.freq;
        mode = item_invalidate v.mode;
        data_flag = item_invalidate v.data_flag;
      },
      count v.data_flag.valid n2,
    )

unfoldable pub invalidate_vfos : CatState → CatState
invalidate_vfos st = on_vfo (on_vfo st 0 vfo_invalidate) 1 vfo_invalidate

-- The slots after a selection: swapped if it changed, unknown if that is not known.
unfoldable pub slots_selected : CatState → Bool → CatState
slots_selected st ab =
    if st.vfo_ab.valid
    then if bool_eq st.vfo_ab.val ab then st else swap_vfos st
    else invalidate_vfos st

-- `cat_state_select_vfo`
unfoldable pub select_vfo : CatState → Bool → ℕ → CatState
select_vfo st ab t =
    let st' = slots_selected st ab in
    record st' { vfo_ab = item_set ab t; changes = count (differs st'.vfo_ab ab) st'.changes }

-- `cat_state_exchange_vfos`; the time is not used.
unfoldable pub exchange_vfos : CatState → CatState
unfolding swap_vfos
exchange_vfos st = swap_vfos st

-- `cat_state_equalize_vfos`
unfoldable pub equalize_vfos : CatState → CatState
equalize_vfos st = record st {
  unsel = st.sel;
  changes = count (not (vfo_eq st.sel st.unsel)) st.changes;
}

-- `st->vfo[vfo]`, for a valid number
abbrev pub slot : CatState → ℕ → Vfo
slot st vfo = if vfo == 0 then st.sel else st.unsel

-- `cat_state_mode`
abbrev pub vfo_mode : Vfo → Mode
vfo_mode v =
    if v.mode.valid then with_data v.mode.val (v.data_flag.valid && v.data_flag.val) else unknown

pub mode_of : CatState → ℕ → Mode
mode_of st vfo =
    if vfo == 0 then vfo_mode st.sel else if vfo == 1 then vfo_mode st.unsel else unknown

abbrev pub freq_or_zero : Item ℕ → ℕ
freq_or_zero f = if f.valid then f.val else 0

-- `cat_state_rx_freq`, `cat_state_tx_freq`
unfoldable pub rx_freq : CatState → ℕ
rx_freq st = freq_or_zero st.sel.freq

pub tx_freq : CatState → ℕ
unfolding rx_freq
tx_freq st = if st.split.valid && st.split.val then freq_or_zero st.unsel.freq else rx_freq st

-- `struct mhc_radio_info`, without the sub receiver's frequencies, which stay 0
pub record RadioInfo : Type 0 where
  pub radio : ℕ
  pub keyer_mode : Option KeyerMode
  pub mode_str : List ℕ
  pub rx : ℕ
  pub tx : ℕ
  pub oper : ℕ
  pub vfo_a : ℕ
  pub vfo_b : ℕ

abbrev known : Option KeyerMode → Bool
known none = false
known (some k) = true

-- `cat_state_to_radio_info`: the information, and whether it is usable (true for 0, false for -1).
-- `mode_str` holds seven characters, and a token has at most six.
pub to_radio_info : CatState → ℕ → RadioInfo × Bool
unfolding mode_of rx_freq tx_freq
to_radio_info st radio =
    let sel_hz = freq_or_zero st.sel.freq in
    let unsel_hz = freq_or_zero st.unsel.freq in
    let mode = mode_of st 0 in
    let b_selected = st.vfo_ab.valid && st.vfo_ab.val in
    (
      record {
        radio = radio;
        keyer_mode = to_keyer mode;
        mode_str = take 7 (token mode);
        rx = sel_hz;
        tx = tx_freq st;
        oper = sel_hz;
        vfo_a = if b_selected then unsel_hz else sel_hz;
        vfo_b = if b_selected then sel_hz else unsel_hz;
      },
      known (to_keyer mode) || not (sel_hz == 0),
    )
