-- ===== src/Router/Calls.antt =====
-- src/mhrouter.c: the invariant over every call.
use mhuxd.Base.{
  ℕ, ◌+◌, ◌/◌, ◌%◌, ◌≡◌, refl, sym, ap, ◌∙◌, arith, Bool, true, false, not, ◌&&◌, ◌||◌, Option,
  none, some, List, [], ◌∷◌, ◌++◌, if◌then◌else◌, ◌==◌, map, All, All-append, ==_iff, All-erase_idx,
  erase_idx, bit, find_idx, Option-cases, inl, inr,
}
use mhuxd.Channel
use mhuxd.Router.State.{
  Router, Producer, create, bad_channel, is_open, fd_eq, may_read, put_producers, set_wk_tx_focus,
}
use mhuxd.Router.Sends.{send_in}
use mhuxd.Router.Producers.{
  process_ptt, drop_ptt, unmasked, set_keyer_fd, add_producer, without_producer, rem_producer,
  closes, has_consumer_fd, has_producer_fd, hold_producers, set_producer_turn, mask_at,
}
use mhuxd.Router.Consumers.{add_consumer, rem_consumer, add_endpoint_fd, rem_endpoint_fd}
use mhuxd.Router.Ptt.{
  keys, radio_bit, radio_bit-held_loop, append_idle, erase_idle, none_held, IsMask, Masks,
}
use mhuxd.Router.Invariant.{
  send_in-Kept, Kept-IsRouter, if_IsRouter, zero-IsMask, IsRouter-IsReady, push_ptt-IsRouter,
  put_producers-IsReady, put_producers-IsRouter, process_ptt-IsRouter, create-IsRouter, Allowed,
  IsRouter, Kept,
}
use mhuxd.Router.Watchers.{
  both_true, hold_producers-IsRouter, set_producer_turn-IsRouter, switch-IsRouter,
}

All-unmasked :
    (r : Router) (ch : ℕ) (ps : List Producer)
    → All (Allowed r ch) ps
    → All (Allowed r ch) (map unmasked ps)
All-unmasked r ch [] h = _
All-unmasked r ch (p ∷ ps) h = (h.0, All-unmasked r ch ps h.1)

unmasked-Masks : (ps : List Producer) → Masks (map unmasked ps)
unmasked-Masks [] = _
unmasked-Masks (p ∷ ps) = (zero-IsMask, unmasked-Masks ps)

drop_ptt-IsRouter : (r : Router) → IsRouter r → IsRouter (drop_ptt r)
unfolding drop_ptt may_read
drop_ptt-IsRouter r h = record {
  allowed = λ ch. All-unmasked r ch (r.producers ch) (h.allowed ch);
  masks = λ ch. unmasked-Masks (r.producers ch);
  keyed =
      omega (arith, (IsRouter-IsReady r h).flag.small, (IsRouter-IsReady r h).flag.only)
      ∙ sym (none_held 14 0 r.producers);
}

-- Neither depends on the keyer's descriptor.
with_fd-IsRouter :
    (r : Router) (writing : Bool) (fd : Option ℕ)
    → IsRouter r
    → IsRouter (record r { writing = writing; fd = fd })
unfolding may_read
with_fd-IsRouter r writing fd h = record { allowed = h.allowed; masks = h.masks; keyed = h.keyed }

set_keyer_fd-IsRouter : (r : Router) (fd : Option ℕ) → IsRouter r → IsRouter (set_keyer_fd r fd)
unfolding set_keyer_fd
set_keyer_fd-IsRouter r fd h =
    if_IsRouter (fd_eq fd r.fd) r _ (λ _. h)
      (λ _.
        switch-IsRouter (record r1 { fd = fd }) (is_open fd)
          (with_fd-IsRouter r1 r1.writing fd old))
  where
    r1 : Router
    r1 = if is_open r.fd then record (drop_ptt r) { writing = false } else r

    old : IsRouter r1
    old =
        if_IsRouter (is_open r.fd) (record (drop_ptt r) { writing = false }) r
          (λ _. with_fd-IsRouter (drop_ptt r) false (drop_ptt r).fd (drop_ptt-IsRouter r h))
          (λ _. h)

closes-IsRouter : (r : Router) (fd channel : ℕ) → IsRouter r → IsRouter (closes r fd channel)
unfolding may_read
closes-IsRouter r fd channel h =
    if_IsRouter (has_consumer_fd r fd channel) r _ (λ _. h)
      (λ _. record { allowed = h.allowed; masks = h.masks; keyed = h.keyed })

without_producer-IsRouter :
    (r : Router) (channel fd i : ℕ) → IsRouter r → IsRouter (without_producer r channel fd i)
unfolding without_producer
without_producer-IsRouter r channel fd i h = closes-IsRouter _ fd channel (
    if_IsRouter (mask_at ps i == 0) (put_producers r channel (erase_idx ps i)) _
      (λ e.
        put_producers-IsRouter r channel (erase_idx ps i) h allowed masks
          (erase_idle ps i (h.masks channel) ((==_iff (mask_at ps i) 0).0 e)))
      (λ _.
        push_ptt-IsRouter (put_producers r channel (erase_idx ps i))
          (put_producers-IsReady r channel (erase_idx ps i) (IsRouter-IsReady r h) allowed masks)))
  where
    ps : List Producer
    ps = r.producers channel

    allowed : All (Allowed r channel) (erase_idx ps i)
    allowed = All-erase_idx (Allowed r channel) ps i (h.allowed channel)

    masks : Masks (erase_idx ps i)
    masks = All-erase_idx (λ p. IsMask p.ptt_mask) ps i (h.masks channel)

rem_producer-IsRouter :
    (r : Router) (fd channel : ℕ) → IsRouter r → IsRouter (rem_producer r fd channel)
unfolding rem_producer
rem_producer-IsRouter r fd channel h =
    if_IsRouter (bad_channel channel) r _ (λ _. h)
      (λ _. elim (Option-cases (find_idx (λ p. p.fd == fd) (r.producers channel))) [
        | inl e ↦ rw e h
        | inr (i, e) ↦ rw e (without_producer-IsRouter r channel fd i h)
      ])

add_producer-IsRouter :
    (r : Router) (fd : Option ℕ) (channel : ℕ) (tag : Option (List ℕ))
    → IsRouter r
    → IsRouter (add_producer r fd channel tag)
unfolding add_producer may_read
add_producer-IsRouter r none channel tag h = h
add_producer-IsRouter r (some fd) channel tag h =
    if_IsRouter (bad_channel channel || channel == Channel.flags && not r.has_flags_channel) r _
      (λ _. h)
      (λ _.
        put_producers-IsRouter r channel (r.producers channel ++ p ∷ []) h
          (All-append (Allowed r channel) (r.producers channel) (p ∷ []) (h.allowed channel)
            (both_true (is_open r.fd) (may_read r channel fd), _))
          (All-append (λ p. IsMask p.ptt_mask) (r.producers channel) (p ∷ []) (h.masks channel)
            (zero-IsMask, _))
          (append_idle (r.producers channel) p (h.masks channel) refl))
  where
    p : Producer
    p = record { fd = fd; tag = tag; ptt_mask = 0; reading = is_open r.fd && may_read r channel fd }

-- The calls that change who is connected, who may send and what is keyed.
pub data Call : Type 0 where
  keyer : Option ℕ → Call
  connect : Option ℕ → ℕ → Option (List ℕ) → Call
  disconnect : ℕ → ℕ → Call
  hold : ℕ → Bool → Call
  turn : ℕ → Option ℕ → Call
  ptt : ℕ → ℕ → List ℕ → Call
  focus : ℕ → Call
  send : List ℕ → ℕ → Call

abbrev pub perform : Call → Router → Router
perform (keyer fd) r = set_keyer_fd r fd
perform (connect fd channel tag) r = add_endpoint_fd r fd channel tag
perform (disconnect fd channel) r = rem_endpoint_fd r fd channel
perform (hold channel on) r = hold_producers r channel on
perform (turn channel fd) r = set_producer_turn r channel fd
perform (ptt channel i bytes) r = process_ptt r channel i bytes
perform (focus n) r = set_wk_tx_focus r n
perform (send bytes channel) r = (send_in r bytes channel).1

same_Kept : (r : Router) → Kept r r
same_Kept r = record { producers = refl; hold = refl; turn = refl; wflag = refl }

if_Kept : (r : Router) (b : Bool) (s t : Router) → Kept r s → Kept r t → Kept r (if b then s else t)
if_Kept r true s t h k = h
if_Kept r false s t h k = k

add_consumer-Kept :
    (r : Router) (fd : Option ℕ) (channel : ℕ) (tag : Option (List ℕ))
    → Kept r (add_consumer r fd channel tag)
unfolding add_consumer
add_consumer-Kept r none channel tag = same_Kept r
add_consumer-Kept r (some fd) channel tag =
    if_Kept r (bad_channel channel || channel == Channel.flags && not r.has_flags_channel) _ _
      (same_Kept r) (record { producers = refl; hold = refl; turn = refl; wflag = refl })

rem_consumer-Kept : (r : Router) (fd channel : ℕ) → Kept r (rem_consumer r fd channel)
unfolding rem_consumer
rem_consumer-Kept r fd channel =
    if_Kept r (bad_channel channel) _ _ (same_Kept r)
      (elim (Option-cases (find_idx (λ c. c.fd == fd) (r.consumers channel))) [
        | inl e ↦ rw e (same_Kept r)
        | inr (i, e) ↦ rw e (
            if_Kept r (has_producer_fd r fd channel) _ _
              (record { producers = refl; hold = refl; turn = refl; wflag = refl })
              (record { producers = refl; hold = refl; turn = refl; wflag = refl }))
      ])

perform-IsRouter : (c : Call) (r : Router) → IsRouter r → IsRouter (perform c r)
unfolding add_endpoint_fd rem_endpoint_fd set_wk_tx_focus may_read
perform-IsRouter (keyer fd) r h = set_keyer_fd-IsRouter r fd h
perform-IsRouter (connect fd channel tag) r h =
    add_producer-IsRouter (add_consumer r fd channel tag) fd channel tag
      (Kept-IsRouter r _ (add_consumer-Kept r fd channel tag) h)
perform-IsRouter (disconnect fd channel) r h =
    Kept-IsRouter (rem_producer r fd channel) _
      (rem_consumer-Kept (rem_producer r fd channel) fd channel)
      (rem_producer-IsRouter r fd channel h)
perform-IsRouter (hold channel on) r h = hold_producers-IsRouter r channel on h
perform-IsRouter (turn channel fd) r h = set_producer_turn-IsRouter r channel fd h
perform-IsRouter (ptt channel i bytes) r h = process_ptt-IsRouter r channel i bytes h
perform-IsRouter (focus n) r h = record { allowed = h.allowed; masks = h.masks; keyed = h.keyed }
perform-IsRouter (send bytes channel) r h = Kept-IsRouter r _ (send_in-Kept r bytes channel) h

-- The calls in turn.
abbrev pub run : List Call → Router → Router
run [] r = r
run (c ∷ cs) r = run cs (perform c r)

run_lem : (cs : List Call) (r : Router) → IsRouter r → IsRouter (run cs r)
run_lem [] r h = h
run_lem (c ∷ cs) r h = run_lem cs (perform c r) (perform-IsRouter c r h)

-- What the invariant says of the flags byte and of the producers.
pub record IsRouted (r : Router) : Type 0 where
  pub ptt_r1 :
      bit 2 r.wflag
      ≡ (keys true (r.producers 9) || keys true (r.producers 10) || keys true (r.producers 11))
  pub ptt_r2 :
      bit 3 r.wflag
      ≡ (keys false (r.producers 9) || keys false (r.producers 10) || keys false (r.producers 11))
  pub no_others : r.wflag % 4 + r.wflag / 16 ≡ 0
  pub allowed : (ch : ℕ) → All (Allowed r ch) (r.producers ch)

IsRouter-IsRouted : (r : Router) → IsRouter r → IsRouted r
IsRouter-IsRouted r h = record {
  ptt_r1 = ap (radio_bit true) h.keyed ∙ radio_bit-held_loop true r.producers h.masks;
  ptt_r2 = ap (radio_bit false) h.keyed ∙ radio_bit-held_loop false r.producers h.masks;
  no_others = omega (arith, (IsRouter-IsReady r h).flag.small, (IsRouter-IsReady r h).flag.only);
  allowed = h.allowed;
}

-- Whatever is called of a new router, in whatever order: the bit of a radio in the flags byte is set
-- just when a producer of a PTT channel holds it, no other bit is set, and a producer is read only
-- while its channel is not held and nobody else has the turn.
pub run-IsRouted : (has_flags : Bool) (cs : List Call) → IsRouted (run cs (create has_flags))
run-IsRouted has_flags cs =
    IsRouter-IsRouted (run cs (create has_flags))
      (run_lem cs (create has_flags) (create-IsRouter has_flags))
