-- ===== src/Ybin/Fields.antt =====
-- src/cat_ybin.c: frequencies, and the records of status data.
use mhuxd.Base.{
  ℕ, zero, suc, ◌+◌, ◌*◌, ◌/◌, ◌%◌, Bool, true, false, not, ◌||◌, Option, none, some, List, [], ◌∷◌,
  if◌then◌else◌, ◌==◌, ltb, get_or, u32, bool_eq, reverse,
}
use mhuxd.Cat.{Outcome, updated, invalid, is_invalid}
use mhuxd.CatState
use mhuxd.CatState.{CatState, is_unknown}
use mhuxd.CatState.Modes.{Mode, with_data, mode_eq}
use mhuxd.Ybin.Models.{Family, fam_757, fam_920, fam_mp}
use mhuxd.Ybin.Modes.{rec_mode}

-- The loop of `dec_bcd`, most significant byte first.
unfoldable pub bcd_loop : ℕ → List ℕ → Option ℕ
bcd_loop r [] = some r
bcd_loop r (b ∷ bs) =
    let hi = b / 16 in
    let lo = b % 16 in
    let rest = bcd_loop (u32 (r * 100 + hi * 10 + lo)) bs in
    if ltb 9 hi || ltb 9 lo then none else rest

-- `dec_bcd`; the flag is `be`.
unfoldable pub dec_bcd : Bool → List ℕ → Option ℕ
unfolding bcd_loop
dec_bcd be p = bcd_loop 0 (if be then p else reverse p)

-- The loop of `dec_be`.
unfoldable pub be_loop : ℕ → List ℕ → ℕ
be_loop r [] = r
be_loop r (b ∷ bs) = be_loop (u32 (r * 256) + b) bs

-- `dec_be`
unfoldable pub dec_be : List ℕ → ℕ
unfolding be_loop
dec_be p = be_loop 0 p

-- What memory holds, by the index of an array that it is read through.
abbrev pub Memory : Type 0
Memory = ℕ → ℕ

-- The byte at an index of an answer. The bytes behind the received ones are not initialised in the
-- source: `filler` has one for each index.
unfoldable pub byte_at : Memory → List ℕ → ℕ → ℕ
byte_at filler a i = get_or a i (filler i)

-- `n` bytes from an index on
unfoldable pub bytes_at : Memory → List ℕ → ℕ → ℕ → List ℕ
unfolding byte_at
bytes_at filler a zero i = []
bytes_at filler a (suc n) i = byte_at filler a i ∷ bytes_at filler a n (i + 1)

-- A VFO: true for B, and `none` for the selected one, which is -1 in the source.
abbrev pub VfoAb : Type 0
VfoAb = Option Bool

-- `slot_of`
unfoldable pub slot_of : CatState → VfoAb → ℕ
slot_of st none = 0
slot_of st (some ab) = if bool_eq ab st.vfo_ab.val then 0 else 1

-- `set_mode`
unfoldable pub set_mode : CatState → VfoAb → Mode → ℕ → CatState
unfolding slot_of
set_mode st ab mode t =
    let slot = slot_of st ab in
    let st' = CatState.set_mode st slot mode t in
    if not (mode_eq (with_data mode true) mode) then CatState.set_data st' slot false t else st'

-- `struct rec`
pub record Rec : Type 0 where
  pub fo : ℕ
  pub mo : ℕ
  pub fl : ℕ

abbrev pub rec_at : ℕ → ℕ → ℕ → Rec
rec_at fo mo fl = record { fo = fo; mo = mo; fl = fl }

abbrev pub times_ten : Option ℕ → Option ℕ
times_ten none = none
times_ten (some hz) = some (u32 (hz * 10))

-- the `switch` of `rec_apply`
unfoldable pub rec_freq : Family → Memory → List ℕ → ℕ → Option ℕ
unfolding dec_bcd dec_be bytes_at
rec_freq fam_757 filler a fo = times_ten (dec_bcd false (bytes_at filler a 4 fo))
rec_freq fam_920 filler a fo = some (dec_be (bytes_at filler a 4 fo))
rec_freq fam_mp filler a fo = some (u32 (dec_be (bytes_at filler a 4 fo) * 10 / 16))
rec_freq fam filler a fo = some (u32 (dec_be (bytes_at filler a 3 fo) * 10))

-- what a decoder of the state leaves
abbrev pub Applied : Type 0
Applied = Outcome × CatState

-- frequency and mode of a VFO
unfoldable pub put : CatState → VfoAb → ℕ → Mode → ℕ → CatState
unfolding slot_of set_mode
put st ab hz mode t = set_mode (CatState.set_freq st (slot_of st ab) hz t) ab mode t

-- They are set unless one of them is not known.
unfoldable pub put_both : CatState → VfoAb → Option ℕ → Mode → ℕ → Applied
unfolding put
put_both st ab none mode t = (invalid, st)
put_both st ab (some hz) mode t =
    if hz == 0 || is_unknown mode then (invalid, st) else (updated, put st ab hz mode t)

-- `rec_apply`
unfoldable pub rec_apply : Family → CatState → VfoAb → Memory → List ℕ → Rec → ℕ → Applied
unfolding rec_freq rec_mode put_both byte_at
rec_apply fam st ab filler a r t =
    put_both st ab (rec_freq fam filler a r.fo)
      (rec_mode fam (byte_at filler a r.mo) (byte_at filler a (r.mo + r.fl))) t

-- `if(… < 0) return -1;`
abbrev pub unless_invalid : Applied → (CatState → Applied) → Applied
unless_invalid (r, st) f = if is_invalid r then (invalid, st) else f st
