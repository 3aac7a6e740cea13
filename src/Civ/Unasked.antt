-- ===== src/Civ/Unasked.antt =====
-- src/cat_civ.c: what the radio says without being asked.
use mhuxd.Base.{
  ℕ, ◌≡◌, refl, Bool, true, false, none, List, [], ◌∷◌, arith, ◌==◌, All, find_idx, Bool-cases, inl,
  inr,
}
use mhuxd.Cat.{radio}
use mhuxd.Civ.State.{Civ, Pending, f_to, f_from, f_cmd, civ_ok, civ_bcast, emit}
use mhuxd.Civ.Decode.{intent, is_set_intent, is_query_intent}
use mhuxd.Civ.Pending.{pend_expire, pend_find_query, pend_find_ack, answers, acked, waiting}
use mhuxd.Civ.Classify.{
  process_frame, dispatch_frame, process_radio_frame, radio_ack, radio_reply, radio_command, is_ack,
  begin_frame,
}

-- A pending command that the frame `f` of the radio does not answer: that of another controller; for a
-- reply, a command of another number or one that sets something; for an acceptance FB, a query.
pub data Unasked (f : List ℕ) (p : Pending) : Type 0 where
  other_controller : (f_from p.buf == f_to f) ≡ false → Unasked f p
  other_command : is_ack f ≡ false → (f_cmd p.buf == f_cmd f) ≡ false → Unasked f p
  a_set : is_ack f ≡ false → is_set_intent (intent p.buf) ≡ true → Unasked f p
  a_query : (f_cmd f == civ_ok) ≡ true → is_query_intent (intent p.buf) ≡ true → Unasked f p

pend_expire-All :
    (f : List ℕ) (ps : List Pending) (t : ℕ)
    → All (Unasked f) ps
    → All (Unasked f) (pend_expire ps t)
unfolding pend_expire
pend_expire-All f [] t h = h
pend_expire-All f (p ∷ ps) t h = elim (Bool-cases (waiting p t)) [
  | inl e ↦ rw e h
  | inr e ↦ rw e (pend_expire-All f ps t h.1)
]

find_none :
    (test : Pending → Bool) (P : Pending → Type 0) (ps : List Pending)
    → ((p : Pending) → P p → test p ≡ false)
    → All P ps
    → find_idx test ps ≡ none
find_none test P [] fails h = refl
find_none test P (p ∷ ps) fails h = rw (fails p h.0, find_none test P ps fails h.1) refl

acked-Unasked :
    (f : List ℕ)
    → is_ack f ≡ true
    → (p : Pending) → Unasked f p
    → acked (f_to f) (f_cmd f == civ_ok) p ≡ false
unfolding acked
acked-Unasked f k p (other_controller e) = rw e refl
acked-Unasked f k p (other_command e _) = absurd (cc)
acked-Unasked f k p (a_set e _) = absurd (cc)
acked-Unasked f k p (a_query e q) = ground (arith, e, q)

answers-Unasked :
    (f : List ℕ) → is_ack f ≡ false → (p : Pending) → Unasked f p → answers f p ≡ false
unfolding answers
answers-Unasked f k p (other_controller e) = ground (arith, e)
answers-Unasked f k p (other_command _ e) = ground (arith, e)
answers-Unasked f k p (a_set _ e) = ground (arith, e)
answers-Unasked f k p (a_query e q) = ground (arith, e, k)

module _ (c : Civ) (f : List ℕ) (t : ℕ) (h : All (Unasked f) c.pend) where
  radio_ack-st : is_ack f ≡ true → (radio_ack c f t).st ≡ c.st
  unfolding radio_ack pend_find_ack emit
  radio_ack-st k =
      rw
        (
          find_none (acked (f_to f) (f_cmd f == civ_ok)) (Unasked f) c.pend (acked-Unasked f k) h,
          radio_ack,
        )
        refl

  radio_reply-st : is_ack f ≡ false → (radio_reply c f t).st ≡ c.st
  unfolding radio_reply pend_find_query emit
  radio_reply-st k =
      rw (find_none (answers f) (Unasked f) c.pend (answers-Unasked f k) h, radio_reply) refl

  radio_command-st : (radio_command c f t).st ≡ c.st
  unfolding radio_command emit
  radio_command-st = ground arith

  process_radio_frame-st : (f_to f == civ_bcast) ≡ false → (process_radio_frame c f t).st ≡ c.st
  unfolding process_radio_frame emit
  process_radio_frame-st to = elim (Bool-cases (is_ack f)) [
    | inl e ↦ ground (arith, to, e, radio_ack-st e, radio_command-st)
    | inr e ↦ ground (arith, to, e, radio_reply-st e, radio_command-st)
  ]

-- A frame of the radio that is addressed to a controller, and not to all, leaves the decoded state as it
-- is when it answers none of the pending commands: each of them is of another controller, or the frame is
-- a reply and the command has another number or sets something, or the frame is an acceptance and the
-- command a query. The radio's address is known.
pub process_frame-Unasked :
    (c : Civ) (client : ℕ) (f : List ℕ) (t : ℕ)
    → (c.radio_addr == 0) ≡ false
    → (f_to f == 0) ≡ false
    → All (Unasked f) c.pend
    → (process_frame c radio client f t).st ≡ c.st
unfolding process_frame dispatch_frame
process_frame-Unasked c client f t ha hf h =
    rw (ha, ha) (process_radio_frame-st (begin_frame c t) f t (pend_expire-All f c.pend t h) hf)
