-- ===== src/Router/Watchers.antt =====
-- src/mhrouter.c: the calls that start and stop the reading of producers.
use mathlib.Core.Path.{subst}
use mhuxd.Base.{
  ℕ, ◌≡◌, refl, sym, ◌∙◌, arith, Bool, true, false, not, ◌&&◌, ◌||◌, Option, List, [], ◌∷◌, ◌==◌,
  map, All, ==_iff, update, bool_eq, Bool-cases, inl, inr,
}
use mhuxd.Router.State.{Router, Producer, bad_channel, is_open, fd_eq, may_read}
use mhuxd.Router.Producers.{
  held_loop, switched, switch_producer_events, updated, update_producers, hold_producers,
  set_producer_turn,
}
use mhuxd.Router.Ptt.{SameHeld, Masks, held_loop-same, map-SameHeld, map-Masks}
use mhuxd.Router.Invariant.{if_IsRouter, zero-IsMask, put_producers-all, Allowed, IsRouter}

pub both_true : (a b : Bool) → (a && b) ≡ true → b ≡ true
both_true a b e = ground (arith, e)

-- Watchers set anew, by what decides whether a producer may be read.
module _ (r : Router) (ch : ℕ) where
  All-updated : (ps : List Producer) → All (Allowed r ch) (map (updated r ch) ps)
  All-updated [] = _
  All-updated (p ∷ ps) = (both_true (is_open r.fd) (may_read r ch p.fd), All-updated ps)

  switched-Allowed :
      (active : Bool) (p : Producer) → Allowed r ch p → Allowed r ch (switched r active ch p)
  switched-Allowed active p h = elim (Bool-cases (not active || may_read r ch p.fd)) [
    | inl e ↦ rw e (λ i. started active (may_read r ch p.fd) e i)
    | inr e ↦ rw e h
  ]
    where
      started : (a b : Bool) → (not a || b) ≡ true → a ≡ true → b ≡ true
      started a b e i = ground (arith, e, i)

  All-switched :
      (active : Bool) (ps : List Producer)
      → All (Allowed r ch) ps
      → All (Allowed r ch) (map (switched r active ch) ps)
  All-switched active [] h = _
  All-switched active (p ∷ ps) h = (switched-Allowed active p h.0, All-switched active ps h.1)

  switched_mask : (active : Bool) (p : Producer) → (switched r active ch p).ptt_mask ≡ p.ptt_mask
  switched_mask active p = elim (Bool-cases (not active || may_read r ch p.fd)) [
    | inl e ↦ rw e refl
    | inr e ↦ rw e refl
  ]

update_producers-IsRouter :
    (r : Router) (channel : ℕ)
    → ((ch : ℕ) → (channel == ch) ≡ false → All (Allowed r ch) (r.producers ch))
    → ((ch : ℕ) → Masks (r.producers ch))
    → r.wflag ≡ held_loop 14 0 r.producers 0
    → IsRouter (update_producers r channel)
unfolding update_producers may_read
update_producers-IsRouter r channel a m k = record {
  allowed = λ ch. elim (Bool-cases (channel == ch)) [
    | inl e ↦ rw e (
        subst (λ c. All (Allowed r c) (map (updated r channel) (r.producers channel)))
          ((==_iff channel ch).0 e) (All-updated r channel (r.producers channel)))
    | inr e ↦ rw e (a ch e)
  ];
  masks = masks;
  keyed =
      k
      ∙ sym (
          held_loop-same 14 0 0 (update_producers r channel).producers r.producers zero-IsMask masks
            same);
}
  where
    masks : (ch : ℕ) → Masks ((update_producers r channel).producers ch)
    masks =
        put_producers-all (λ ch qs. Masks qs) r channel _ m
          (map-Masks (updated r channel) (λ p. refl) (r.producers channel) (m channel))

    same : (ch : ℕ) → SameHeld ((update_producers r channel).producers ch) (r.producers ch)
    same =
        put_producers-all (λ ch qs. SameHeld qs (r.producers ch)) r channel _ (λ ch k i. refl)
          (map-SameHeld (updated r channel) (λ p. refl) (r.producers channel))

-- What decides of a channel is the same for both routers.
same_Allowed :
    (r s : Router) (ch : ℕ) (ps : List Producer)
    → s.hold ch ≡ r.hold ch
    → s.turn ch ≡ r.turn ch
    → All (Allowed r ch) ps
    → All (Allowed s ch) ps
unfolding may_read
same_Allowed r s ch [] a b h = _
same_Allowed r s ch (p ∷ ps) a b h = (rw (a, b) h.0, same_Allowed r s ch ps a b h.1)

pub hold_producers-IsRouter :
    (r : Router) (channel : ℕ) (hold : Bool) → IsRouter r → IsRouter (hold_producers r channel hold)
unfolding hold_producers may_read
hold_producers-IsRouter r channel hold h =
    if_IsRouter (bad_channel channel || bool_eq (r.hold channel) hold) r _ (λ _. h)
      (λ _.
        update_producers-IsRouter (record r { hold = update r.hold channel hold }) channel
          (λ ch e.
            same_Allowed r (record r { hold = update r.hold channel hold }) ch (r.producers ch)
              (rw e refl) refl (h.allowed ch))
          h.masks h.keyed)

pub set_producer_turn-IsRouter :
    (r : Router) (channel : ℕ) (fd : Option ℕ)
    → IsRouter r
    → IsRouter (set_producer_turn r channel fd)
unfolding set_producer_turn may_read
set_producer_turn-IsRouter r channel fd h =
    if_IsRouter (bad_channel channel || fd_eq (r.turn channel) fd) r _ (λ _. h)
      (λ _.
        update_producers-IsRouter (record r { turn = update r.turn channel fd }) channel
          (λ ch e.
            same_Allowed r (record r { turn = update r.turn channel fd }) ch (r.producers ch) refl
              (rw e refl) (h.allowed ch))
          h.masks h.keyed)

pub switch-IsRouter :
    (r : Router) (active : Bool) → IsRouter r → IsRouter (switch_producer_events r active)
unfolding switch_producer_events may_read
switch-IsRouter r active h = record {
  allowed = λ ch. All-switched r ch active (r.producers ch) (h.allowed ch);
  masks = masks;
  keyed =
      h.keyed
      ∙ sym (
          held_loop-same 14 0 0 (switch_producer_events r active).producers r.producers zero-IsMask
            masks
            (λ ch.
              map-SameHeld (switched r active ch) (switched_mask r ch active) (r.producers ch)));
}
  where
    masks : (ch : ℕ) → Masks ((switch_producer_events r active).producers ch)
    masks ch =
        map-Masks (switched r active ch) (switched_mask r ch active) (r.producers ch) (h.masks ch)
