-- ===== src/Ybin/Filler.antt =====
-- src/cat_ybin.c: `apply_answer` does not depend on what stands behind an answer.
use mhuxd.Base.{
  get_or, if_cong, ◌*◌, ◌/◌, not, ◌&&◌, ◌||◌, ltb, ◌%◌, ℕ, zero, suc, ◌+◌, ◌≤◌, ◌<◌, ◌≡◌, refl,
  arith, true, false, none, some, List, [], ◌∷◌, drop, length, length-drop, bit, if◌then◌else◌,
  ◌==◌, ap, ap₂, u32,
}
use mhuxd.Cat.{invalid, is_invalid}
use mhuxd.CatState.{CatState, select_vfo}
use mhuxd.Ybin.Models.{
  Family, fam_757, fam_817, fam_847, fam_900, fam_920, fam_990, fam_1000, fam_mp, Model, models,
  fam_of, is_fam_847, ft757gx2, ft817, ft857, ft897, ft847, ft840, ft890, ft900, ft920, ft990,
  ft1000, ft1000mp,
}
use mhuxd.Ybin.Lengths.{op_of, u_of, answer_len, len_in, len_record, flags_len, lens}
use mhuxd.Ybin.Fields.{
  Applied, Memory, dec_bcd, dec_be, times_ten, unless_invalid, byte_at, bytes_at, VfoAb, Rec,
  rec_at, rec_apply, rec_freq,
}
use mhuxd.Ybin.Modes.{mode_817}
use mhuxd.Ybin.Answers.{
  both_vfos, put_status, apply_answer, apply_in, apply_817, apply_757, apply_flags, apply_records,
  apply_others,
}

get_or-within : (a : List ℕ) (i x y : ℕ) → i < length a → get_or a i x ≡ get_or a i y
get_or-within [] i x y h = omega (arith, h)
get_or-within (z ∷ a) zero x y h = refl
get_or-within (z ∷ a) (suc i) x y h = get_or-within a i x y (omega (arith, h))

byte_at-filler : (f g : Memory) (a : List ℕ) (i : ℕ) → i < length a → byte_at f a i ≡ byte_at g a i
unfolding byte_at
byte_at-filler f g a i h = get_or-within a i (f i) (g i) h

bytes_at-filler :
    (f g : Memory) (a : List ℕ) (n i : ℕ) → i + n ≤ length a → bytes_at f a n i ≡ bytes_at g a n i
unfolding bytes_at
bytes_at-filler f g a zero i h = refl
bytes_at-filler f g a (suc n) i h =
    ap₂ ◌∷◌ (byte_at-filler f g a i (omega (arith, h)))
      (bytes_at-filler f g a n (i + 1) (omega (arith, h)))

rec_freq-filler :
    (fam : Family) (f g : Memory) (a : List ℕ) (i : ℕ)
    → i + 4 ≤ length a
    → rec_freq fam f a i ≡ rec_freq fam g a i
unfolding rec_freq
rec_freq-filler fam_757 f g a i h =
    ap (λ b. times_ten (dec_bcd false b)) (bytes_at-filler f g a 4 i h)
rec_freq-filler fam_920 f g a i h = ap (λ b. some (dec_be b)) (bytes_at-filler f g a 4 i h)
rec_freq-filler fam_mp f g a i h =
    ap (λ b. some (u32 (dec_be b * 10 / 16))) (bytes_at-filler f g a 4 i h)
rec_freq-filler fam f g a i h =
    ap (λ b. some (u32 (dec_be b * 10))) (bytes_at-filler f g a 3 i (omega (arith, h)))

rec_apply-filler :
    (fam : Family) (st : CatState) (ab : VfoAb) (f g : Memory) (a : List ℕ) (r : Rec) (t : ℕ)
    → r.fo + 4 ≤ length a
    → r.mo + r.fl < length a
    → rec_apply fam st ab f a r t ≡ rec_apply fam st ab g a r t
unfolding rec_apply
rec_apply-filler fam st ab f g a r t h k =
    rw
      (
        rec_freq-filler fam f g a r.fo h,
        byte_at-filler f g a r.mo (omega (arith, k)),
        byte_at-filler f g a (r.mo + r.fl) k,
      )
      refl

unless_invalid-cong :
    (x : Applied) (k l : CatState → Applied)
    → ((st : CatState) → k st ≡ l st)
    → unless_invalid x k ≡ unless_invalid x l
unless_invalid-cong (r, st) k l h = ap (λ y. if is_invalid r then (invalid, st) else y) (h st)

-- Two records one after the other, the second one of `b`.
both-filler :
    (fam : Family) (st : CatState) (ab : VfoAb) (f g : Memory) (a : List ℕ) (f' g' : Memory)
    (b : List ℕ) (r s : Rec) (t : ℕ)
    → r.fo + 4 ≤ length a
    → r.mo + r.fl < length a
    → s.fo + 4 ≤ length b
    → s.mo + s.fl < length b
    → unless_invalid (rec_apply fam st ab f a r t) (λ st1. rec_apply fam st1 (some true) f' b s t)
      ≡ unless_invalid (rec_apply fam st ab g a r t) (λ st1. rec_apply fam st1 (some true) g' b s t)
both-filler fam st ab f g a f' g' b r s t h k h' k' =
    rw (rec_apply-filler fam st ab f g a r t h k) (
      unless_invalid-cong (rec_apply fam st ab g a r t)
        (λ st1. rec_apply fam st1 (some true) f' b s t)
        (λ st1. rec_apply fam st1 (some true) g' b s t)
        (λ st1. rec_apply-filler fam st1 (some true) f' g' b s t h' k'))

apply_817-filler :
    (m : Model) (st : CatState) (f g : Memory) (c a : List ℕ) (t : ℕ)
    → apply_817 m st f c a t ≡ apply_817 m st g c a t
unfolding apply_817
apply_817-filler m st f g c a t =
    if_cong (op_of c == 0xbb && length a == 2)
      (λ e. rw (byte_at-filler f g a 0 (ground (arith, e))) refl)
      (λ _.
        if_cong (not (op_of c == 0x03 && length a == 5)) (λ _. refl)
          (λ e.
            ap₂
              (λ b md.
                put_status st (dec_bcd true b) (is_fam_847 (fam_of m) && ltb 8 (md % 128))
                  (mode_817 md) t)
              (bytes_at-filler f g a 4 0 (ground (arith, e)))
              (byte_at-filler f g a 4 (ground (arith, e)))))

apply_757-filler :
    (st : CatState) (f g : Memory) (c a : List ℕ) (t : ℕ)
    → apply_757 st f c a t ≡ apply_757 st g c a t
unfolding apply_757
apply_757-filler st f g c a t =
    if_cong (not ((op_of c == 0x10 || op_of c == 0x0e) && length a == 75)) (λ _. refl)
      (λ e.
        rw
          (
            byte_at-filler f g a 0 (ground (arith, e)),
            rec_apply-filler fam_757
                (if bit 4 (byte_at g a 0) then st else select_vfo st (bit 3 (byte_at g a 0)) t) none
                f g a (rec_at 5 9 0) t (ground (arith, e)) (ground (arith, e)),
          )
          (unless_invalid-cong _ _ _ (λ st1.
            both-filler fam_757 st1 (some false) f g a f g a (rec_at 10 14 0) (rec_at 15 19 0) t
              (ground (arith, e)) (ground (arith, e)) (ground (arith, e)) (ground (arith, e)))))

-- The records of 16 bytes of the FT-1000MP, the FT-1000 and the FT-990.
sixteen-filler :
    (fam : Family) (st : CatState) (f g : Memory) (u : ℕ) (a : List ℕ) (t : ℕ)
    → 16 ≤ length a
    → ((u == 2) ≡ false → 32 ≤ length a)
    → (if u == 2
        then rec_apply fam st none f a (rec_at 1 7 1) t
        else both_vfos fam st f a (rec_at 1 7 1) (λ i. f (16 + i)) (drop 16 a) (rec_at 1 7 1) t)
      ≡ (if u == 2
          then rec_apply fam st none g a (rec_at 1 7 1) t
          else both_vfos fam st g a (rec_at 1 7 1) (λ i. g (16 + i)) (drop 16 a) (rec_at 1 7 1) t)
sixteen-filler fam st f g u a t h k =
    if_cong (u == 2)
      (λ _.
        rec_apply-filler fam st none f g a (rec_at 1 7 1) t (omega (arith, h)) (omega (arith, h)))
      (λ e.
        both-filler fam st (some false) f g a (λ i. f (16 + i)) (λ i. g (16 + i)) (drop 16 a)
          (rec_at 1 7 1) (rec_at 1 7 1) t (omega (arith, h)) (omega (arith, h))
          (omega (arith, k e, length-drop {0} 16 a)) (omega (arith, k e, length-drop {0} 16 a)))

pub data HasRecords : Family → Type 0 where
  of_900 : HasRecords fam_900
  of_920 : HasRecords fam_920
  of_990 : HasRecords fam_990
  of_1000 : HasRecords fam_1000
  of_mp : HasRecords fam_mp

apply_records-filler :
    (fam : Family) (st : CatState) (f g : Memory) (u : ℕ) (a : List ℕ) (t : ℕ)
    → HasRecords fam
    → (not (u == 2) && not (u == 3)) ≡ false
    → length a ≡ lens fam u
    → apply_records fam st f u a t ≡ apply_records fam st g u a t
unfolding apply_records lens
apply_records-filler fam_757 st f g u a t r o h = elim r [ ]
apply_records-filler fam_817 st f g u a t r o h = elim r [ ]
apply_records-filler fam_847 st f g u a t r o h = elim r [ ]
apply_records-filler fam_900 st f g u a t r o h =
    if_cong (u == 2)
      (λ e.
        rec_apply-filler fam_900 st none f g a (rec_at 2 7 2) t (ground (arith, h, e))
          (ground (arith, h, e)))
      (λ e.
        both-filler fam_900 st (some false) f g a f g a (rec_at 1 6 2) (rec_at 10 15 2) t
          (ground (arith, h, e, o)) (ground (arith, h, e, o)) (ground (arith, h, e, o))
          (ground (arith, h, e, o)))
apply_records-filler fam_920 st f g u a t r o h =
    both-filler fam_920 st (some false) f g a f g a (rec_at 1 7 1) (rec_at 15 21 1) t
      (ground (arith, h, o)) (ground (arith, h, o)) (ground (arith, h, o)) (ground (arith, h, o))
apply_records-filler fam_990 st f g u a t r o h =
    sixteen-filler fam_990 st f g u a t (ground (arith, h, o)) (ground (arith, h, o))
apply_records-filler fam_1000 st f g u a t r o h =
    sixteen-filler fam_1000 st f g u a t (ground (arith, h, o)) (ground (arith, h, o))
apply_records-filler fam_mp st f g u a t r o h =
    sixteen-filler fam_mp st f g u a t (ground (arith, h, o)) (ground (arith, h, o))

flags_len_pos : (fam : Family) (u : ℕ) → 1 ≤ (flags_len fam u).0
unfolding flags_len
flags_len_pos fam_mp u = ground arith
flags_len_pos fam_920 u = ground arith
flags_len_pos fam u = omega arith

apply_others-filler :
    (fam : Family) (m : Model) (st : CatState) (f g : Memory) (c a : List ℕ) (t : ℕ)
    → HasRecords fam
    → fam_of m ≡ fam
    → length a ≡ (len_record m (op_of c) (u_of c)).0
    → apply_others fam st f c a t ≡ apply_others fam st g c a t
unfolding apply_others len_record
apply_others-filler fam m st f g c a t r e h =
    if_cong (op_of c == 0xfa)
      (λ i.
        ap (λ v. apply_flags fam st v t)
          (byte_at-filler f g a 0 (ground (arith, h, i, flags_len_pos (fam_of m) (u_of c)))))
      (λ _.
        if_cong (not (op_of c == 0x10) || not (u_of c == 2) && not (u_of c == 3)) (λ _. refl)
          (λ i.
            apply_records-filler fam st f g (u_of c) a t r (ground (arith, i))
              (ground (arith, h, i, ap (λ x. lens x (u_of c)) e))))

-- An answer of the length that its command has: whatever the memory behind it holds, the outcome and the
-- state are the same.
pub apply_answer-filler :
    (m : Model) (st : CatState) (f g : Memory) (c a : List ℕ) (t : ℕ)
    → length a ≡ (answer_len m c).0
    → apply_answer m st f c a t ≡ apply_answer m st g c a t
unfolding apply_answer apply_in answer_len len_in models
apply_answer-filler ft757gx2 st f g c a t h = apply_757-filler st f g c a t
apply_answer-filler ft817 st f g c a t h = apply_817-filler ft817 st f g c a t
apply_answer-filler ft857 st f g c a t h = apply_817-filler ft857 st f g c a t
apply_answer-filler ft897 st f g c a t h = apply_817-filler ft897 st f g c a t
apply_answer-filler ft847 st f g c a t h = apply_817-filler ft847 st f g c a t
apply_answer-filler ft840 st f g c a t h =
    apply_others-filler fam_900 ft840 st f g c a t of_900 refl h
apply_answer-filler ft890 st f g c a t h =
    apply_others-filler fam_900 ft890 st f g c a t of_900 refl h
apply_answer-filler ft900 st f g c a t h =
    apply_others-filler fam_900 ft900 st f g c a t of_900 refl h
apply_answer-filler ft920 st f g c a t h =
    apply_others-filler fam_920 ft920 st f g c a t of_920 refl h
apply_answer-filler ft990 st f g c a t h =
    apply_others-filler fam_990 ft990 st f g c a t of_990 refl h
apply_answer-filler ft1000 st f g c a t h =
    apply_others-filler fam_1000 ft1000 st f g c a t of_1000 refl h
apply_answer-filler ft1000mp st f g c a t h =
    apply_others-filler fam_mp ft1000mp st f g c a t of_mp refl h
