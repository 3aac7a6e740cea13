-- ===== src/Civ/Discard.antt =====
-- src/cat_civ.c: commands that are discarded, consumed by a reply, or handed out again.
use mhuxd.Base.{
  ℕ, zero, suc, ◌≡◌, refl, ◌∙◌, Bool, false, List, arith, ◌&&◌, Bool-cases, inl, inr, ◌==◌, ◌++◌,
  length, take, drop, reject, sweep, sweep-all, sweep-reject, any_of-reject,
}
use mhuxd.Cat.{bad_client}
use mhuxd.Civ.State.{Civ, Pending, f_from}
use mhuxd.Civ.Pending.{
  pend_at, no_pending, consume_loop, pend_consume, discard_loop, client_busy, rx_partial, waiting,
}
use mhuxd.Civ.Framer.{client_discard}

-- Whether a command of this sender, of this client, waits.
abbrev pub sent_by : ℕ → ℕ → Pending → Bool
sent_by ctrl client p = f_from p.buf == ctrl && p.client == client

abbrev pub of_client : ℕ → Pending → Bool
of_client client p = p.client == client

consume_loop-sweep :
    (ctrl client n : ℕ) (ps : List Pending)
    → consume_loop ctrl client n ps ≡ sweep (sent_by ctrl client) no_pending n ps
unfolding consume_loop
consume_loop-sweep ctrl client zero ps = refl
consume_loop-sweep ctrl client (suc n) ps = consume_loop-sweep ctrl client n _

-- What a reply consumes: of the entries up to the one it answers, those of the same sender and client
-- go; all others stay, in their order.
pub pend_consume-reject :
    (ps : List Pending) (i : ℕ)
    → pend_consume ps i
      ≡ reject (sent_by (f_from (pend_at ps i).buf) (pend_at ps i).client) (take (suc i) ps)
        ++ drop (suc i) ps
unfolding pend_consume
pend_consume-reject ps i =
    consume_loop-sweep _ _ (suc i) ps
    ∙ sweep-reject (sent_by (f_from (pend_at ps i).buf) (pend_at ps i).client) no_pending (suc i) ps

discard_loop-sweep :
    (client n : ℕ) (ps : List Pending)
    → discard_loop client n ps ≡ sweep (of_client client) no_pending n ps
unfolding discard_loop
discard_loop-sweep client zero ps = refl
discard_loop-sweep client (suc n) ps = discard_loop-sweep client n _

-- A client with a valid number, when it is discarded, leaves exactly the pending commands of the others, in their order.
pub client_discard-reject :
    (c : Civ) (client : ℕ)
    → bad_client client ≡ false
    → (client_discard c client).pend ≡ reject (of_client client) c.pend
unfolding client_discard
client_discard-reject c client h = rw h (
    discard_loop-sweep client (length c.pend) c.pend
    ∙ sweep-all (of_client client) no_pending c.pend)

-- A client discarded has nothing left to wait for, neither a frame half received nor an answer, at
-- any time.
pub client_busy-client_discard :
    (c : Civ) (client t : ℕ) → client_busy (client_discard c client) client t ≡ false
unfolding client_busy client_discard rx_partial
client_busy-client_discard c client t = elim (Bool-cases (bad_client client)) [
  | inl e ↦ rw e refl
  | inr e ↦ ground (
    arith,
    e,
    discard_loop-sweep client (length c.pend) c.pend,
    sweep-all (of_client client) no_pending c.pend,
    any_of-reject (of_client client) (λ p. p.client == client && waiting p t) c.pend
        (λ p h. ground arith),
  )
]
