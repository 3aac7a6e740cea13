-- ===== src/Ybin/Lengths.antt =====
-- src/cat_ybin.c: how many bytes the radio answers a command with.
use mhuxd.Base.{ℕ, Bool, true, false, not, ◌&&◌, ◌||◌, List, if◌then◌else◌, ◌==◌, ltb, get_or, bit}
use mhuxd.Ybin.Models.{
  Family, fam_757, fam_817, fam_847, fam_900, fam_920, fam_990, fam_1000, fam_mp, Model, models,
  fam_of, is_fam_817, is_fam_847, is_fam_920,
}

abbrev pub ybin_cmd_len : ℕ
ybin_cmd_len = 5

abbrev pub ybin_max_frame : ℕ
ybin_max_frame = 80

abbrev pub len_mask : ℕ
len_mask = 0x7fff

-- The parts of a command: the opcode `c[4]`, and its last parameter, `c[3]`.
abbrev pub op_of : List ℕ → ℕ
op_of c = get_or c 4 0

abbrev pub u_of : List ℕ → ℕ
u_of c = get_or c 3 0

-- An answer's length, and whether it is a guess: `len | VAR`.
abbrev pub Length : Type 0
Length = ℕ × Bool

abbrev exactly : ℕ → Length
exactly n = (n, false)

abbrev about : ℕ → Length
about n = (n, true)

-- `dump`
abbrev pub dump_of : Model → Length
dump_of m = about (if (models m).dump_len == 0 then len_mask else (models m).dump_len)

-- `lens[fam]`, for a parameter of 1 to 4
abbrev row : ℕ → ℕ → ℕ → ℕ → ℕ
row current both memory u =
    if u == 1 then 1 else if u == 2 then current else if u == 3 then both else memory

-- The rows that the table leaves out are zero; their families do not get here.
unfoldable pub lens : Family → ℕ → ℕ
lens fam_900 u = row 19 18 19 u
lens fam_920 u = row 28 28 14 u
lens fam_990 u = row 32 32 16 u
lens fam_1000 u = row 16 32 16 u
lens fam_mp u = row 16 32 16 u
lens _ u = 0

-- The flags, 0xfa.
unfoldable pub flags_len : Family → ℕ → Length
flags_len fam_mp u = exactly (if bit 0 u then 6 else 5)
flags_len fam_920 u = if u == 1 then exactly 8 else about 8
flags_len _ u = exactly 5

unfoldable pub len_757 : ℕ → ℕ → Length
len_757 op u =
    if op == 0x10
    then exactly (if u == 0x01 then 1 else 75)
    else exactly (if op == 0x0e then 75 else 0)

unfoldable pub len_817 : ℕ → Length
len_817 op =
    if op == 0x03
    then exactly 5
    else if op == 0xbb
    then exactly 2
    else if op == 0xbd
    then exactly 2
    else if op == 0xff
    then exactly 0
    else exactly 1

unfoldable pub len_847 : ℕ → Length
len_847 op =
    if op == 0x03 || op == 0x13 || op == 0x23
    then exactly 5
    else if op == 0xe7 || op == 0xf7
    then exactly 1
    else exactly 0

-- What follows the first `switch`.
unfoldable pub len_record : Model → ℕ → ℕ → Length
unfolding lens flags_len
len_record m op u =
    if op == 0x10
    then if ltb 4 u then exactly 0 else if u == 0 then dump_of m else exactly (lens (fam_of m) u)
    else if op == 0xfa
    then flags_len (fam_of m) u
    else if op == 0xf7 && not (is_fam_920 (fam_of m))
    then exactly 5
    else exactly 0

-- the first `switch`
unfoldable pub len_in : Family → Model → ℕ → ℕ → Length
unfolding len_757 len_817 len_847 len_record
len_in fam_757 m op u = len_757 op u
len_in fam_817 m op u = len_817 op
len_in fam_847 m op u = len_847 op
len_in fam m op u = len_record m op u

-- `answer_len`
unfoldable pub answer_len : Model → List ℕ → Length
unfolding len_in
answer_len m c = len_in (fam_of m) m (op_of c) (u_of c)

-- `has_pacing`
unfoldable pub has_pacing : Model → Bool
has_pacing m = not (is_fam_817 (fam_of m)) && not (is_fam_847 (fam_of m))
