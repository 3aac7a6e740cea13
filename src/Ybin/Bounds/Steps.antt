-- ===== src/Ybin/Bounds/Steps.antt =====
-- src/cat_ybin.c: the calls that change the table of pending commands.
use mhuxd.Base.{
  ℕ, zero, suc, ◌≤◌, ◌≡◌, refl, sym, ◌∙◌, ap, arith, Bool, false, not, ◌&&◌, ◌||◌, ◌≢◌, List, [],
  ◌∷◌, ◌++◌, length, ◌==◌, Bool-cases, inl, inr,
}
use mhuxd.Cat.{Dir, is_own}
use mhuxd.Ybin.Lengths.{Length, answer_len}
use mhuxd.Ybin.Commands.{apply_command}
use mhuxd.Ybin.State.{Ybin, emit}
use mhuxd.Ybin.Pending.{
  pend_at, is_empty, end_oldest, pend_expire, pend_giveup, pend_add, new_pending,
}
use mhuxd.Ybin.Framer.{
  set_pacing, assume_vfo, await, take_command, command, count_byte, answer_byte, radio_byte,
  discard_loop,
}
use mhuxd.Ybin.Bounds.Table.{
  count_byte-IsTable, piece_IsTable, count_byte-FreshTail, length-count_byte, new_pending-IsTable,
}
use mhuxd.Ybin.Bounds.Sizes.{answer_len-IsLength}
use mhuxd.Ybin.Bounds.Answers.{
  Keeps, Keeps-refl, Keeps-trans, if_Keeps, emit-Keeps, Ends, Ends-Keeps, pend_remove-Keeps,
  answer_ended-Keeps, with_st-Keeps, answer_complete-Ends, end_oldest-Keeps, pend_expire-Keeps,
  giveup-Keeps, assume_vfo-Keeps, length-end_oldest,
}

-- A command is added where there is room.
add_new-Keeps :
    (y : Ybin) (c : List ℕ) (l : Length) (own : Bool) (client t : ℕ)
    → l ≡ answer_len y.model c
    → length y.pend ≢ 8
    → 1 ≤ l.0
    → Keeps y (record y { pend = y.pend ++ new_pending c l own client t ∷ [] })
add_new-Keeps y c l own client t e r k = record {
  rx = refl;
  model = refl;
  table = λ h. rw e (
      new_pending-IsTable y.model y.pend y.ans c own client t (omega (arith, r, h.few))
        (omega (arith, k, ap (λ x. x.0) e)) h);
}

-- Room is made for a command in a full table.
pend_add-Keeps :
    (y : Ybin) (c : List ℕ) (l : Length) (own : Bool) (client t : ℕ)
    → l ≡ answer_len y.model c
    → 1 ≤ l.0
    → Keeps y (pend_add y c l own client t)
unfolding pend_add
pend_add-Keeps y c l own client t i k = elim (Bool-cases (length y.pend == 8)) [
  | inl e ↦ rw e (
      Keeps-trans y (end_oldest y t) _ (end_oldest-Keeps y t) (
        add_new-Keeps (end_oldest y t) c l own client t (rw (end_oldest-Keeps y t).model i)
          (ground (arith, e, length-end_oldest y t)) k))
  | inr e ↦ rw e (add_new-Keeps y c l own client t i (ground (arith, e)) k)
]

await-Keeps :
    (y : Ybin) (c : List ℕ) (l : Length) (own : Bool) (client t : ℕ)
    → l ≡ answer_len y.model c
    → Keeps y (await y c l own client t)
unfolding await
await-Keeps y c l own client t i =
    if_Keeps y (not (l.0 == 0) || l.1)
      (λ e.
        pend_add-Keeps y c l own client t i (
          rw i
            ((answer_len-IsLength y.model c).some (sym (ap (λ x. not (x.0 == 0) || x.1) i) ∙ e))))
      (λ _. record { rx = refl; model = refl; table = λ h. h })

take_command-Keeps :
    (y : Ybin) (dir : Dir) (client : ℕ) (c : List ℕ) (t : ℕ)
    → Keeps y (take_command y dir client c t)
unfolding take_command
take_command-Keeps y dir client c t =
    Keeps-trans y _ _ (with_st-Keeps y (apply_command y.model y.st c t).1) (emit-Keeps _ _)

set_pacing-Keeps : (y : Ybin) (c : List ℕ) → Keeps y (set_pacing y c)
set_pacing-Keeps y c =
    if_Keeps y _ (λ _. record { rx = refl; model = refl; table = λ h. h }) (λ _. Keeps-refl y)

pub command-Keeps :
    (y : Ybin) (dir : Dir) (client : ℕ) (c : List ℕ) (t : ℕ) → Keeps y (command y dir client c t)
unfolding command
command-Keeps y dir client c t = Keeps-trans y z _ p (
    Keeps-trans z _ _
      (await-Keeps z c (answer_len y.model c) (is_own dir) client t
        (ap (λ m. answer_len m c) (sym p.model)))
      (take_command-Keeps _ dir client c t))
  where
    y1 : Ybin
    y1 = assume_vfo y t

    y2 : Ybin
    y2 = pend_expire y1 t

    y3 : Ybin
    y3 = pend_giveup y2 t

    z : Ybin
    z = set_pacing y3 c

    p : Keeps y z
    p = Keeps-trans y y1 z (assume_vfo-Keeps y t) (
        Keeps-trans y1 y2 z (pend_expire-Keeps y1 t)
          (Keeps-trans y2 y3 z (giveup-Keeps y2 t) (set_pacing-Keeps y3 c)))

-- The oldest command with a byte more of its answer.
abbrev counted : Ybin → ℕ → ℕ → Ybin
counted y b t = record y { ans = y.ans ++ b ∷ []; pend = count_byte t y.pend }

counted-Ends : (y z : Ybin) (b t : ℕ) → Ends (counted y b t) z → Ends y z
counted-Ends y z b t e = record {
  rx = e.rx;
  model = e.model;
  table = λ l h.
      e.table (omega (arith, l, length-count_byte t y.pend))
        (count_byte-FreshTail y.model y.pend t h);
}

answer_byte-Keeps : (y : Ybin) (b t : ℕ) → is_empty y.pend ≡ false → Keeps y (answer_byte y b t)
unfolding answer_byte emit
answer_byte-Keeps y b t i =
    if_Keeps y ((pend_at (count_byte t y.pend) 0).got == (pend_at (count_byte t y.pend) 0).len)
      (λ _. Ends-Keeps y _ (counted-Ends y _ b t (answer_complete-Ends (counted y b t) t)))
      (λ e.
        if_Keeps y (length (y.ans ++ b ∷ []) == 80)
          (λ f. record {
            rx = refl;
            model = refl;
            table = λ h. piece_IsTable y.model y.pend y.ans b t h i e f;
          })
          (λ f. record {
            rx = refl;
            model = refl;
            table = λ h. count_byte-IsTable y.model y.pend y.ans b t h i e f;
          }))

pub assume_vfo-pend : (y : Ybin) (t : ℕ) → (assume_vfo y t).pend ≡ y.pend
unfolding assume_vfo
assume_vfo-pend y t = ground arith

pub radio_byte-Keeps : (y : Ybin) (b t : ℕ) → Keeps y (radio_byte y b t)
unfolding radio_byte
radio_byte-Keeps y b t = Keeps-trans y z _ (pend_expire-Keeps y t) (
    if_Keeps z (is_empty z.pend) (λ _. emit-Keeps z _)
      (λ e.
        Keeps-trans z (assume_vfo z t) _ (assume_vfo-Keeps z t)
          (answer_byte-Keeps (assume_vfo z t) b t (rw (assume_vfo-pend z t) e))))
  where
    z : Ybin
    z = pend_expire y t

pub discard_loop-Keeps : (client n : ℕ) (y : Ybin) → Keeps y (discard_loop client n y)
unfolding discard_loop
discard_loop-Keeps client zero y = Keeps-refl y
discard_loop-Keeps client (suc i) y =
    Keeps-trans y _ _
      (if_Keeps y (not ((pend_at y.pend i).client == client) || (pend_at y.pend i).own)
        (λ _. Keeps-refl y)
        (λ _.
          if_Keeps y (i == 0 && not ((pend_at y.pend i).got == 0))
            (λ _. answer_ended-Keeps y (pend_at y.pend i).t_last) (λ _. pend_remove-Keeps y i)))
      (discard_loop-Keeps client i _)
