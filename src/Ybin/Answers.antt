-- ===== src/Ybin/Answers.antt =====
-- src/cat_ybin.c: what an answer of the radio does to the state.
use mhuxd.Base.{
  ℕ, ◌+◌, ◌*◌, ◌%◌, Bool, true, false, not, ◌&&◌, ◌||◌, Option, none, some, List, drop, length,
  if◌then◌else◌, ◌==◌, ltb, get_or, bit, bool_eq, u32,
}
use mhuxd.Cat.{updated, nothing, invalid}
use mhuxd.CatState.{CatState, is_unknown, select_vfo, set_split}
use mhuxd.CatState.Modes.{Mode}
use mhuxd.Ybin.Models.{
  Family, fam_757, fam_817, fam_847, fam_900, fam_920, fam_990, fam_1000, fam_mp, Model, fam_of,
  is_fam_817, is_fam_847, is_ft817,
}
use mhuxd.Ybin.Lengths.{op_of, u_of}
use mhuxd.Ybin.Modes.{mode_817}
use mhuxd.Ybin.Fields.{
  Applied, Memory, dec_bcd, byte_at, bytes_at, put, Rec, rec_at, rec_apply, unless_invalid,
}

-- `apply_eeprom`
unfoldable pub apply_eeprom : Model → CatState → ℕ → ℕ → ℕ → Applied
apply_eeprom m st addr v t =
    if not (is_fam_817 (fam_of m))
    then (nothing, st)
    else if addr == (if is_ft817 m then 0x55 else 0x68)
    then (updated, select_vfo st (bit 0 v) t)
    else if addr == (if is_ft817 m then 0x7a else 0x8d)
    then (updated, set_split st (bit 7 v) t)
    else (nothing, st)

-- The status of the FT-817 and the FT-847: a frequency of 0, and a mode that the FT-847 does not have,
-- are refused.
unfoldable pub put_status : CatState → Option ℕ → Bool → Mode → ℕ → Applied
unfolding put
put_status st none bad_mode mode t = (invalid, st)
put_status st (some hz) bad_mode mode t =
    if hz == 0 || is_unknown mode || bad_mode
    then (invalid, st)
    else (updated, put st none (u32 (hz * 10)) mode t)

-- `case FAM_817`, `case FAM_847`
unfoldable pub apply_817 : Model → CatState → Memory → List ℕ → List ℕ → ℕ → Applied
unfolding apply_eeprom dec_bcd mode_817 put_status byte_at bytes_at
apply_817 m st filler c a t =
    let md = byte_at filler a 4 in
    if op_of c == 0xbb && length a == 2
    then apply_eeprom m st (get_or c 0 0 * 256 + get_or c 1 0) (byte_at filler a 0) t
    else if not (op_of c == 0x03 && length a == 5)
    then (nothing, st)
    else put_status st (dec_bcd true (bytes_at filler a 4 0))
        (is_fam_847 (fam_of m) && ltb 0x08 (md % 128)) (mode_817 md) t

-- `case FAM_757`; bit 3 is VFO B, bit 4 the memory.
unfoldable pub apply_757 : CatState → Memory → List ℕ → List ℕ → ℕ → Applied
unfolding rec_apply byte_at
apply_757 st filler c a t =
    let flags = byte_at filler a 0 in
    if not ((op_of c == 0x10 || op_of c == 0x0e) && length a == 75)
    then (nothing, st)
    else unless_invalid
        (rec_apply fam_757 (if bit 4 flags then st else select_vfo st (bit 3 flags) t) none filler a
          (rec_at 5 9 0) t)
        (λ st1.
          unless_invalid (rec_apply fam_757 st1 (some false) filler a (rec_at 10 14 0) t)
            (λ st2. rec_apply fam_757 st2 (some true) filler a (rec_at 15 19 0) t))

-- the flags, 0xfa, of which only the first byte is read
unfoldable pub apply_flags : Family → CatState → ℕ → ℕ → Applied
apply_flags fam_mp st v t = (updated, set_split (select_vfo st (bit 4 v) t) (bit 0 v) t)
apply_flags fam_990 st v t = (updated, set_split (select_vfo st (bit 1 v) t) (bit 0 v) t)
apply_flags fam_1000 st v t = (updated, set_split st (bit 0 v) t)
apply_flags fam_920 st v t =
    (updated, set_split (select_vfo st (bit 1 v) t) (not (bool_eq (bit 1 v) (bit 0 v))) t)
apply_flags fam_900 st v t =
    (updated, set_split (if bit 7 v then select_vfo st (bit 6 v) t else st) (bit 2 v) t)
apply_flags _ st v t = (nothing, st)

-- VFO A and VFO B, unless A's record is refused
abbrev pub both_vfos :
    Family → CatState → Memory → List ℕ → Rec → Memory → List ℕ → Rec → ℕ → Applied
both_vfos fam st filler a r filler' b r' t =
    unless_invalid (rec_apply fam st (some false) filler a r t)
      (λ st1. rec_apply fam st1 (some true) filler' b r' t)

-- the last `switch`; `u` is 2 or 3
unfoldable pub apply_records : Family → CatState → Memory → ℕ → List ℕ → ℕ → Applied
unfolding rec_apply
apply_records fam_900 st filler u a t =
    if u == 2
    then rec_apply fam_900 st none filler a (rec_at 2 7 2) t
    else both_vfos fam_900 st filler a (rec_at 1 6 2) filler a (rec_at 10 15 2) t
apply_records fam_920 st filler u a t =
    both_vfos fam_920 st filler a (rec_at 1 7 1) filler a (rec_at 15 21 1) t
apply_records fam st filler u a t =
    if u == 2
    then rec_apply fam st none filler a (rec_at 1 7 1) t
    else both_vfos fam st filler a (rec_at 1 7 1) (λ i. filler (16 + i)) (drop 16 a) (rec_at 1 7 1)
        t

-- what follows the first `switch`
unfoldable pub apply_others : Family → CatState → Memory → List ℕ → List ℕ → ℕ → Applied
unfolding apply_flags apply_records byte_at
apply_others fam st filler c a t =
    if op_of c == 0xfa
    then apply_flags fam st (byte_at filler a 0) t
    else if not (op_of c == 0x10) || not (u_of c == 2) && not (u_of c == 3)
    then (nothing, st)
    else apply_records fam st filler (u_of c) a t

-- the first `switch`
unfoldable pub apply_in : Family → Model → CatState → Memory → List ℕ → List ℕ → ℕ → Applied
unfolding apply_817 apply_757 apply_others
apply_in fam_817 m st filler c a t = apply_817 m st filler c a t
apply_in fam_847 m st filler c a t = apply_817 m st filler c a t
apply_in fam_757 m st filler c a t = apply_757 st filler c a t
apply_in fam m st filler c a t = apply_others fam st filler c a t

-- `apply_answer`; the answer `a` is a list of `n` bytes.
unfoldable pub apply_answer : Model → CatState → Memory → List ℕ → List ℕ → ℕ → Applied
unfolding apply_in
apply_answer m st filler c a t = apply_in (fam_of m) m st filler c a t
