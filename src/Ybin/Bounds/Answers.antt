-- ===== src/Ybin/Bounds/Answers.antt =====
-- src/cat_ybin.c: the end of an answer, and commands that are given up.
use mhuxd.Base.{
  ℕ, zero, suc, ◌-◌, ◌≤◌, ◌≡◌, refl, ◌∙◌, arith, Bool, true, false, not, ◌&&◌, List, [], ◌∷◌,
  length, erase_idx, if◌then◌else◌, ◌==◌, ltb,
}
use mhuxd.Cat.{FrameKind, Frame, reply}
use mhuxd.CatState.{CatState}
use mhuxd.Ybin.State.{Ybin, Pending, emit}
use mhuxd.Ybin.Pending.{
  pend_at, is_empty, pend_remove, pend_live, next_due, emit_answer, answer_ended, answer_complete,
  end_oldest, expire_loop, pend_expire, giveup_loop, pend_giveup, due_from,
}
use mhuxd.Ybin.Framer.{assume_vfo}
use mhuxd.Ybin.Bounds.Table.{
  IsTable, FreshTail, IsTable-FreshTail, IsTable-tail, IsTable-erase_idx, due_from-IsTable,
}

-- A call keeps the framers and the model, and the table within its bounds.
pub record Keeps (y z : Ybin) : Type 0 where
  pub rx : z.rx ≡ y.rx
  pub model : z.model ≡ y.model
  pub table : IsTable y.model y.pend y.ans → IsTable z.model z.pend z.ans

pub Keeps-refl : (y : Ybin) → Keeps y y
Keeps-refl y = record { rx = refl; model = refl; table = λ h. h }

pub Keeps-trans : (x y z : Ybin) → Keeps x y → Keeps y z → Keeps x z
Keeps-trans x y z p q = record {
  rx = q.rx ∙ p.rx;
  model = q.model ∙ p.model;
  table = λ h. q.table (p.table h);
}

pub if_Keeps :
    (y : Ybin) (b : Bool) {p q : Ybin}
    → (b ≡ true → Keeps y p)
    → (b ≡ false → Keeps y q)
    → Keeps y (if b then p else q)
if_Keeps y true p q = p refl
if_Keeps y false p q = q refl

pub emit-Keeps : (y : Ybin) (f : Frame) → Keeps y (emit y f)
unfolding emit
emit-Keeps y f = record { rx = refl; model = refl; table = λ h. h }

pub suc_not_zero : (i : ℕ) → (suc i == 0) ≡ false
suc_not_zero i = ground arith

-- The answer to the oldest command ends: what is held of it need not be within its bounds.
pub record Ends (y z : Ybin) : Type 0 where
  pub rx : z.rx ≡ y.rx
  pub model : z.model ≡ y.model
  pub table : length y.pend ≤ 8 → FreshTail y.model y.pend → IsTable z.model z.pend z.ans

pub Ends-Keeps : (y z : Ybin) → Ends y z → Keeps y z
Ends-Keeps y z e = record {
  rx = e.rx;
  model = e.model;
  table = λ h. e.table h.few (IsTable-FreshTail y.model y.pend y.ans h);
}

Ends-trans : (x y z : Ybin) → Ends x y → Keeps y z → Ends x z
Ends-trans x y z p q = record {
  rx = q.rx ∙ p.rx;
  model = q.model ∙ p.model;
  table = λ l h. q.table (p.table l h);
}

if_Ends : (y : Ybin) (b : Bool) {p q : Ybin} → Ends y p → Ends y q → Ends y (if b then p else q)
if_Ends y true p q = p
if_Ends y false p q = q

pend_remove-Ends : (y : Ybin) → Ends y (pend_remove y 0)
unfolding pend_remove
pend_remove-Ends y = record { rx = refl; model = refl; table = IsTable-tail y.model y.pend }

pub pend_remove-Keeps : (y : Ybin) (i : ℕ) → Keeps y (pend_remove y i)
unfolding pend_remove
pend_remove-Keeps y zero = Ends-Keeps y (pend_remove y 0) (pend_remove-Ends y)
pend_remove-Keeps y (suc i) = record {
  rx = refl;
  model = refl;
  table = rw (suc_not_zero i) (IsTable-erase_idx y.model y.pend y.ans i);
}

next_due-Ends : (y : Ybin) (t : ℕ) → Ends y (next_due y t)
unfolding next_due
next_due-Ends y t = Ends-trans y (pend_remove y 0) (next_due y t) (pend_remove-Ends y) (record {
  rx = refl;
  model = refl;
  table = due_from-IsTable (pend_remove y 0).model (pend_remove y 0).pend (pend_remove y 0).ans t;
})

emit_answer-Keeps :
    (y : Ybin) (kind : FrameKind) (a : List ℕ) (applied : Bool) (p : Pending) (t : ℕ)
    → Keeps y (emit_answer y kind a applied p t)
emit_answer-Keeps y kind a applied p t =
    if_Keeps y (is_empty a) (λ _. Keeps-refl y) (λ _. emit-Keeps y _)

pub answer_ended-Keeps : (y : Ybin) (t : ℕ) → Keeps y (answer_ended y t)
unfolding answer_ended
answer_ended-Keeps y t = Ends-Keeps y _ (
    Ends-trans y (next_due y t) _ (next_due-Ends y t)
      (emit_answer-Keeps (next_due y t) _ y.ans false (pend_at y.pend 0) (pend_at y.pend 0).t_last))

pub with_st-Keeps : (y : Ybin) (st : CatState) → Keeps y (record y { st = st })
with_st-Keeps y st = record { rx = refl; model = refl; table = λ h. h }

pub answer_complete-Ends : (y : Ybin) (t : ℕ) → Ends y (answer_complete y t)
unfolding answer_complete
answer_complete-Ends y t =
    if_Ends y (ltb 80 (pend_at y.pend 0).len)
      (Ends-trans y (next_due y t) _ (next_due-Ends y t)
        (emit_answer-Keeps (next_due y t) reply y.ans false (pend_at y.pend 0) t))
      (Ends-trans y (next_due y t) _ (next_due-Ends y t) (
        Keeps-trans (next_due y t) _ _ (with_st-Keeps (next_due y t) _)
          (emit_answer-Keeps _ _ y.ans _ (pend_at y.pend 0) t)))

pub end_oldest-Keeps : (y : Ybin) (t : ℕ) → Keeps y (end_oldest y t)
unfolding end_oldest
end_oldest-Keeps y t =
    if_Keeps y ((pend_at y.pend 0).got == 0) (λ _. pend_remove-Keeps y 0)
      (λ _. answer_ended-Keeps y t)

expire_loop-Keeps : (n : ℕ) (y : Ybin) (t : ℕ) → Keeps y (expire_loop n y t)
unfolding expire_loop
expire_loop-Keeps zero y t = Keeps-refl y
expire_loop-Keeps (suc n) y t =
    if_Keeps y (not (is_empty y.pend) && not (pend_live y.pacing_ms (pend_at y.pend 0) t))
      (λ _.
        Keeps-trans y (end_oldest y t) _ (end_oldest-Keeps y t)
          (expire_loop-Keeps n (end_oldest y t) t))
      (λ _. Keeps-refl y)

pub pend_expire-Keeps : (y : Ybin) (t : ℕ) → Keeps y (pend_expire y t)
unfolding pend_expire
pend_expire-Keeps y t = expire_loop-Keeps (length y.pend) y t

giveup_loop-Keeps : (n : ℕ) (y : Ybin) (t : ℕ) → Keeps y (giveup_loop n y t)
unfolding giveup_loop
giveup_loop-Keeps zero y t = Keeps-refl y
giveup_loop-Keeps (suc n) y t =
    if_Keeps y _
      (λ _.
        Keeps-trans y (pend_remove y 0) _ (pend_remove-Keeps y 0)
          (giveup_loop-Keeps n (pend_remove y 0) t))
      (λ _. Keeps-refl y)

pub giveup-Keeps : (y : Ybin) (t : ℕ) → Keeps y (pend_giveup y t)
unfolding pend_giveup
giveup-Keeps y t = giveup_loop-Keeps (length y.pend) y t

pub assume_vfo-Keeps : (y : Ybin) (t : ℕ) → Keeps y (assume_vfo y t)
unfolding assume_vfo
assume_vfo-Keeps y t = if_Keeps y y.st.vfo_ab.valid (λ _. Keeps-refl y) (λ _. with_st-Keeps y _)

length-due_from : (t : ℕ) (ps : List Pending) → length (due_from t ps) ≡ length ps
length-due_from t [] = refl
length-due_from t (p ∷ ps) = refl

pub length-tail : (ps : List Pending) → length (erase_idx ps 0) ≡ length ps - 1
length-tail [] = omega arith
length-tail (p ∷ ps) = omega arith

if_length :
    (b : Bool) (p q : Ybin) (n : ℕ)
    → length p.pend ≡ n
    → length q.pend ≡ n
    → length (if b then p else q).pend ≡ n
if_length true p q n h k = h
if_length false p q n h k = k

length-next_due : (y : Ybin) (t : ℕ) → length (next_due y t).pend ≡ length y.pend - 1
unfolding next_due pend_remove
length-next_due y t = length-due_from t (erase_idx y.pend 0) ∙ length-tail y.pend

-- One command fewer waits.
pub length-end_oldest : (y : Ybin) (t : ℕ) → length (end_oldest y t).pend ≡ length y.pend - 1
unfolding end_oldest answer_ended pend_remove emit
length-end_oldest y t =
    if_length ((pend_at y.pend 0).got == 0) (pend_remove y 0) (answer_ended y t) (length y.pend - 1)
      (length-tail y.pend)
      (if_length (is_empty y.ans) (next_due y t) (emit (next_due y t) _) (length y.pend - 1)
        (length-next_due y t) (length-next_due y t))
