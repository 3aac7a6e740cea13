-- ===== src/Ybin/Bounds/Sizes.antt =====
-- src/cat_ybin.c: the lengths of `answer_len`.
use mhuxd.Base.{
  ℕ, ◌≤◌, ◌≡◌, arith, Bool, true, false, not, ◌&&◌, ◌||◌, List, if◌then◌else◌, ◌==◌, ltb,
}
use mhuxd.Ybin.Models.{
  Family, fam_757, fam_817, fam_847, fam_900, fam_920, fam_990, fam_1000, fam_mp, Model, models,
  fam_of, is_fam_920, ft757gx2,
}
use mhuxd.Ybin.Lengths.{
  Length, answer_len, dump_of, len_in, len_757, len_817, len_847, len_record, lens, flags_len,
  op_of, u_of,
}

-- A length of `answer_len` fits its 15 bits, and a guess is never zero.
pub record IsLength (l : Length) : Type 0 where
  pub fits : l.0 ≤ 32767
  pub some : (not (l.0 == 0) || l.1) ≡ true → 1 ≤ l.0

len_757-IsLength : (op u : ℕ) → IsLength (len_757 op u)
unfolding len_757
len_757-IsLength op u = record { fits = ground arith; some = ground arith }

len_817-IsLength : (op : ℕ) → IsLength (len_817 op)
unfolding len_817
len_817-IsLength op = record { fits = ground arith; some = ground arith }

len_847-IsLength : (op : ℕ) → IsLength (len_847 op)
unfolding len_847
len_847-IsLength op = record { fits = ground arith; some = ground arith }

lens_le : (fam : Family) (u : ℕ) → lens fam u ≤ 32
unfolding lens
lens_le fam_900 u = ground arith
lens_le fam_920 u = ground arith
lens_le fam_990 u = ground arith
lens_le fam_1000 u = ground arith
lens_le fam_mp u = ground arith
lens_le fam u = omega arith

flags_len-IsLength : (fam : Family) (u : ℕ) → IsLength (flags_len fam u)
unfolding flags_len
flags_len-IsLength fam_mp u = record { fits = ground arith; some = ground arith }
flags_len-IsLength fam_920 u = record { fits = ground arith; some = ground arith }
flags_len-IsLength fam u = record { fits = omega arith; some = λ _. omega arith }

dump_IsLength : (m : Model) → IsLength (dump_of m)
unfolding models
dump_IsLength ft757gx2 = record { fits = omega arith; some = λ _. omega arith }
dump_IsLength m = record { fits = omega arith; some = λ _. omega arith }

if_IsLength : (b : Bool) {k l : Length} → IsLength k → IsLength l → IsLength (if b then k else l)
if_IsLength true p q = p
if_IsLength false p q = q

exactly_IsLength : (n : ℕ) → n ≤ 32767 → IsLength (n, false)
exactly_IsLength n h = record { fits = h; some = ground arith }

len_record-IsLength : (m : Model) (op u : ℕ) → IsLength (len_record m op u)
unfolding len_record
len_record-IsLength m op u =
    if_IsLength (op == 0x10)
      (if_IsLength (ltb 4 u) (exactly_IsLength 0 (omega arith)) (
        if_IsLength (u == 0) (dump_IsLength m)
          (exactly_IsLength (lens (fam_of m) u) (omega (arith, lens_le (fam_of m) u)))))
      (if_IsLength (op == 0xfa) (flags_len-IsLength (fam_of m) u) (
        if_IsLength (op == 0xf7 && not (is_fam_920 (fam_of m))) (exactly_IsLength 5 (omega arith))
          (exactly_IsLength 0 (omega arith))))

len_in-IsLength : (fam : Family) (m : Model) (op u : ℕ) → IsLength (len_in fam m op u)
unfolding len_in
len_in-IsLength fam_757 m op u = len_757-IsLength op u
len_in-IsLength fam_817 m op u = len_817-IsLength op
len_in-IsLength fam_847 m op u = len_847-IsLength op
len_in-IsLength fam m op u = len_record-IsLength m op u

pub answer_len-IsLength : (m : Model) (c : List ℕ) → IsLength (answer_len m c)
unfolding answer_len
answer_len-IsLength m c = len_in-IsLength (fam_of m) m (op_of c) (u_of c)
