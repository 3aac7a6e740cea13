-- ===== src/Civ/Resends.antt =====
-- src/cat_civ.c: commands lost to a collision, handed out again by `cat_civ_resend`.
use mhuxd.Base.{ℕ, ◌<◌, ◌≡◌, List, [], ◌∷◌, none, some, arith, length}
use mhuxd.Civ.State.{Pending}
use mhuxd.Civ.Pending.{Resend, resend_loop, lost_count}

-- When nothing is handed out, no lost command is left: each was either absent or given up.
pub resend_loop-none :
    (ps : List Pending) (max t : ℕ)
    → (resend_loop ps max t).1 ≡ none
    → lost_count (resend_loop ps max t).0 ≡ 0
unfolding resend_loop lost_count
resend_loop-none [] max t h = ground arith
resend_loop-none (p ∷ ps) max t h = ground (arith, resend_loop-none ps max t)

-- When a command is handed out, fewer are lost than before, so that asking until nothing comes ends;
-- the waiting commands are as many as before.
pub resend_loop-some :
    (ps : List Pending) (max t : ℕ) (r : Resend)
    → (resend_loop ps max t).1 ≡ some r
    → (lost_count (resend_loop ps max t).0 < lost_count ps)
      × (length (resend_loop ps max t).0 ≡ length ps)
unfolding resend_loop lost_count
resend_loop-some [] max t r h = ground arith
resend_loop-some (p ∷ ps) max t r h = ground (arith, resend_loop-some ps max t r)
