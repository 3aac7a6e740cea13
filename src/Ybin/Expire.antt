-- ===== src/Ybin/Expire.antt =====
-- src/cat_ybin.c: commands that are given up, and how many rounds that takes.
use mhuxd.Base.{
  ℕ, zero, suc, ◌≤◌, ◌≡◌, refl, arith, Bool, true, false, not, ◌&&◌, List, [], ◌∷◌, length, ◌==◌,
  ltb, u64, ◌+◌, Bool-cases, inl, inr,
}
use mhuxd.Ybin.State.{Ybin, Pending, giveup_ms}
use mhuxd.Ybin.Pending.{
  pend_at, is_empty, pend_live, end_oldest, expire_loop, pend_expire, giveup_loop, pend_giveup,
  pend_remove,
}
use mhuxd.Ybin.Bounds.Answers.{length-end_oldest, length-tail}

-- The condition of the loop of `pend_expire`.
abbrev pub overdue : Ybin → ℕ → Bool
overdue y t = not (is_empty y.pend) && not (pend_live y.pacing_ms (pend_at y.pend 0) t)

-- The condition of the loop of `pend_giveup`.
abbrev pub unanswered : Ybin → ℕ → Bool
unanswered y t =
    not (is_empty y.pend)
    && (pend_at y.pend 0).got == 0
    && ltb (u64 ((pend_at y.pend 0).t_ms + giveup_ms)) t

empty_of_none : (ps : List Pending) → length ps ≤ 0 → is_empty ps ≡ true
empty_of_none [] h = refl
empty_of_none (p ∷ ps) h = ground arith

expire_loop-done :
    (n : ℕ) (y : Ybin) (t : ℕ) → length y.pend ≤ n → overdue (expire_loop n y t) t ≡ false
unfolding expire_loop
expire_loop-done zero y t h = rw (empty_of_none y.pend h) refl
expire_loop-done (suc n) y t h = elim (Bool-cases (overdue y t)) [
  | inl e ↦ rw e (expire_loop-done n (end_oldest y t) t (omega (arith, h, length-end_oldest y t)))
  | inr e ↦ rw e e
]

giveup_loop-done :
    (n : ℕ) (y : Ybin) (t : ℕ) → length y.pend ≤ n → unanswered (giveup_loop n y t) t ≡ false
unfolding giveup_loop pend_remove
giveup_loop-done zero y t h = rw (empty_of_none y.pend h) refl
giveup_loop-done (suc n) y t h = elim (Bool-cases (unanswered y t)) [
  | inl e ↦ rw e (giveup_loop-done n (pend_remove y 0) t (omega (arith, h, length-tail y.pend)))
  | inr e ↦ rw e e
]

-- The loops of pend_expire and pend_giveup end: their conditions are false of what they leave. After
-- the first no command waits, or the oldest one still has time; after the second the oldest one,
-- if any, has an answer byte or was sent within 200 ms.
pub pend_expire-done :
    (y : Ybin) (t : ℕ)
    → (overdue (pend_expire y t) t ≡ false) × (unanswered (pend_giveup y t) t ≡ false)
unfolding pend_expire pend_giveup
pend_expire-done y t = (
  expire_loop-done (length y.pend) y t (omega arith),
  giveup_loop-done (length y.pend) y t (omega arith),
)
