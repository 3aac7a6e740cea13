-- ===== src/Ascii/Answers.antt =====
-- src/cat_ascii.c: whose command a frame of the radio answers.
use mhuxd.Base.{
  ℕ, ◌≡◌, refl, Bool, true, List, none, some, arith, find_idx, find_idx_lem, erase_idx,
  Option-cases, inl, inr,
}
use mhuxd.Ascii.State.{Pending}
use mhuxd.Ascii.Pending.{
  Answer, fits, pend_at, no_pending, pend_live, live_query, live_fit, take_oldest, pend_take,
}

-- The command at an index is still awaited, the frame answers it, it is the one that is taken, and
-- its owner is told.
pub record IsTaken (ps : List Pending) (a : Answer) (t : ℕ) (o : Bool × ℕ) : Type 0 where
  pub at : ℕ
  pub live : pend_live (pend_at ps at) t ≡ true
  pub fit : fits a (pend_at ps at) ≡ true
  pub told : o ≡ ((pend_at ps at).own, (pend_at ps at).client)
  pub rest : (pend_take ps a t).1 ≡ erase_idx ps at

module _ (ps : List Pending) (a : Answer) (t : ℕ) (o : Bool × ℕ) where
  take_oldest-IsTaken :
      find_idx (live_query a t) ps ≡ none → (take_oldest ps a t).0 ≡ some o → IsTaken ps a t o
  unfolding pend_take take_oldest live_fit
  take_oldest-IsTaken e h = elim (Option-cases (find_idx (live_fit a t) ps)) [
    | inl n ↦ ground (arith, n, h)
    | inr (i, n) ↦ record {
      at = i;
      live = ground (arith, find_idx_lem (live_fit a t) no_pending ps i n);
      fit = ground (arith, find_idx_lem (live_fit a t) no_pending ps i n);
      told = ground (arith, n, h);
      rest = rw (e, pend_take) (ground (arith, n, h));
    }
  ]

-- A command that a frame of the radio is taken to answer was awaited when the frame came and fits it,
-- by its prefix or because the frame reports an error; its owner is told, and that command only no
-- longer waits.
pub pend_take-IsTaken :
    (ps : List Pending) (a : Answer) (t : ℕ) (o : Bool × ℕ)
    → (pend_take ps a t).0 ≡ some o
    → IsTaken ps a t o
unfolding pend_take live_query
pend_take-IsTaken ps a t o h = elim (Option-cases (find_idx (live_query a t) ps)) [
  | inl n ↦ take_oldest-IsTaken ps a t o n (ground (arith, n, h))
  | inr (i, n) ↦ record {
    at = i;
    live = ground (arith, find_idx_lem (live_query a t) no_pending ps i n);
    fit = ground (arith, find_idx_lem (live_query a t) no_pending ps i n);
    told = ground (arith, n, h);
    rest = rw (n, pend_take) refl;
  }
]
