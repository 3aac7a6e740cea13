-- ===== src/Ascii/Discard.antt =====
-- src/cat_ascii.c: commands that are discarded or have waited too long.
use mhuxd.Base.{
  ℕ, zero, suc, ◌≡◌, refl, ◌∙◌, Bool, false, List, arith, not, ◌&&◌, Bool-cases, inl, inr, ◌==◌,
  length, erase_idx, reject, sweep, sweep-all, any_of-reject,
}
use mhuxd.Cat.{bad_client}
use mhuxd.Ascii.State.{Ascii, Pending}
use mhuxd.Ascii.Pending.{pend_at, no_pending, pend_live, expire_loop}
use mhuxd.Ascii.Framer.{discard_loop, client_discard, client_busy, rx_partial}

abbrev pub of_client : ℕ → Pending → Bool
of_client client p = p.client == client

abbrev pub dead : ℕ → Pending → Bool
dead t p = not (pend_live p t)

expire_loop-sweep :
    (n : ℕ) (ps : List Pending) (t : ℕ) → expire_loop n ps t ≡ sweep (dead t) no_pending n ps
unfolding expire_loop
expire_loop-sweep zero ps t = refl
expire_loop-sweep (suc n) ps t = elim (Bool-cases (pend_live (pend_at ps n) t)) [
  | inl e ↦ rw e (expire_loop-sweep n ps t)
  | inr e ↦ rw e (expire_loop-sweep n (erase_idx ps n) t)
]

-- Before a command is added, exactly the entries that nobody will answer any more are removed; the
-- others stay, in their order.
pub expire_loop-reject :
    (ps : List Pending) (t : ℕ) → expire_loop (length ps) ps t ≡ reject (dead t) ps
expire_loop-reject ps t = expire_loop-sweep (length ps) ps t ∙ sweep-all (dead t) no_pending ps

discard_loop-sweep :
    (client n : ℕ) (ps : List Pending)
    → discard_loop client n ps ≡ sweep (of_client client) no_pending n ps
unfolding discard_loop
discard_loop-sweep client zero ps = refl
discard_loop-sweep client (suc n) ps = discard_loop-sweep client n _

-- A client of the text decoder with a valid number, when it is discarded, leaves exactly the pending
-- commands of the others, in their order.
pub client_discard-others :
    (a : Ascii) (client : ℕ)
    → bad_client client ≡ false
    → (client_discard a client).pend ≡ reject (of_client client) a.pend
unfolding client_discard
client_discard-others a client h = rw h (
    discard_loop-sweep client (length a.pend) a.pend
    ∙ sweep-all (of_client client) no_pending a.pend)

-- A client of the text decoder that is discarded has nothing left to wait for, at any time.
pub client_discard-idle :
    (a : Ascii) (client t : ℕ) → client_busy (client_discard a client) client t ≡ false
unfolding client_busy client_discard rx_partial
client_discard-idle a client t = elim (Bool-cases (bad_client client)) [
  | inl e ↦ rw e refl
  | inr e ↦ ground (
    arith,
    e,
    discard_loop-sweep client (length a.pend) a.pend,
    sweep-all (of_client client) no_pending a.pend,
    any_of-reject (of_client client) (λ p. p.client == client && pend_live p t) a.pend
        (λ p h. ground arith),
  )
]
