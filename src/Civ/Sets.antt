-- ===== src/Civ/Sets.antt =====
-- src/cat_civ.c: a set of the frequency, and the radio's acknowledgement or refusal.
use mathlib.Core.Path.{subst}
use mhuxd.Base.{
  ℕ, ◌%◌, ◌^◌, ◌+◌, ◌≤◌, ◌<◌, ◌≡◌, refl, ap, ◌∙◌, Bool, true, false, List, [], ◌∷◌, ◌++◌, arith,
  if◌then◌else◌, ◌==◌, some,
}
use mhuxd.Cat.{host, radio}
use mhuxd.CatState.{CatState, set_freq}
use mhuxd.Civ.State.{Civ, Pending, emit}
use mhuxd.Civ.Decode.{apply_set, apply_freq, intent}
use mhuxd.Civ.Pending.{pend_expire, pend_add, pend_consume, consume_loop, pend_find_ack, acked}
use mhuxd.Civ.Classify.{process_frame, dispatch_frame, process_radio_frame, radio_ack, begin_frame}
use mhuxd.Civ.Bcd.{bcd, dec_freq-bcd}

-- 05: the set of the frequency, from the controller `ctrl` to the radio `ra`
abbrev pub set_frame : ℕ → ℕ → ℕ → List ℕ
set_frame ra ctrl f = 254 ∷ 254 ∷ ra ∷ ctrl ∷ 5 ∷ bcd 5 f ++ 253 ∷ []

-- FB, the radio accepts, or FA, it refuses
abbrev pub verdict_frame : Bool → ℕ → ℕ → List ℕ
verdict_frame ok ra ctrl = 254 ∷ 254 ∷ ctrl ∷ ra ∷ (if ok then 251 else 250) ∷ 253 ∷ []

abbrev sent : ℕ → ℕ → ℕ → ℕ → ℕ → Pending
sent ra ctrl f client t = record {
  buf = set_frame ra ctrl f;
  t_ms = t;
  from_host = true;
  echoed = false;
  own = false;
  client = client % 256;
  lost = false;
  resends = 0;
}

process_frame-set :
    (c : Civ) (client ctrl f t : ℕ)
    → (c.radio_addr == 0) ≡ false
    → (ctrl == 0) ≡ false
    → c.pend ≡ []
    → (process_frame c host client (set_frame c.radio_addr ctrl f) t).pend
      ≡ sent c.radio_addr ctrl f client t ∷ []
unfolding process_frame dispatch_frame pend_expire pend_add emit
process_frame-set c client ctrl f t ha hc hp = ground arith

process_frame-kept :
    (c : Civ) (client ctrl f t : ℕ)
    → (c.radio_addr == 0) ≡ false
    → ((process_frame c host client (set_frame c.radio_addr ctrl f) t).radio_addr ≡ c.radio_addr)
      × ((process_frame c host client (set_frame c.radio_addr ctrl f) t).freq_len ≡ c.freq_len)
      × ((process_frame c host client (set_frame c.radio_addr ctrl f) t).st ≡ c.st)
unfolding process_frame dispatch_frame emit
process_frame-kept c client ctrl f t ha = (ground arith, ground arith, ground arith)

apply_freq-bcd :
    (st : CatState) (f t : ℕ)
    → 0 < f
    → f < 2 ^ 32
    → (apply_freq 5 st 0 (bcd 5 f) t).1 ≡ set_freq st 0 f t
unfolding apply_freq
apply_freq-bcd st f t p h = rw (dec_freq-bcd f p h, apply_freq) refl

apply_set-bcd :
    (n : ℕ) (st : CatState) (ra ctrl f t : ℕ)
    → n ≡ 5
    → 0 < f
    → f < 2 ^ 32
    → (apply_set n st (set_frame ra ctrl f) t).1 ≡ set_freq st 0 f t
unfolding apply_set
apply_set-bcd n st ra ctrl f t e p h = rw e (apply_freq-bcd st f t p h)

pend_find_ack-sent :
    (ok : Bool) (ra ctrl client f t : ℕ)
    → pend_find_ack (sent ra ctrl f client t ∷ []) ctrl ok ≡ some 0
unfolding pend_find_ack acked intent
pend_find_ack-sent ok ra ctrl client f t = ground arith

pend_expire-sent :
    (ra ctrl f client s t : ℕ)
    → t ≤ s + 2000
    → s + 2000 < 2 ^ 64
    → pend_expire (sent ra ctrl f client s ∷ []) t ≡ sent ra ctrl f client s ∷ []
unfolding pend_expire
pend_expire-sent ra ctrl f client s t w b = ground arith

radio_ack-sent :
    (ok : Bool) (c : Civ) (ra ctrl client f s t : ℕ)
    → c.freq_len ≡ 5
    → c.pend ≡ sent ra ctrl f client s ∷ []
    → 0 < f
    → f < 2 ^ 32
    → ((radio_ack c (verdict_frame ok ra ctrl) t).st ≡ (if ok then set_freq c.st 0 f t else c.st))
      × ((radio_ack c (verdict_frame ok ra ctrl) t).pend ≡ [])
unfolding radio_ack pend_consume consume_loop emit intent
radio_ack-sent true c ra ctrl client f s t he hp p h = (
  rw (hp, radio_ack, pend_find_ack-sent true ra ctrl client f s)
      (rw hp (apply_set-bcd c.freq_len c.st ra ctrl f t he p h)),
  rw (hp, radio_ack, pend_find_ack-sent true ra ctrl client f s) (ground arith),
)
radio_ack-sent false c ra ctrl client f s t he hp p h = (
  rw (hp, radio_ack, pend_find_ack-sent false ra ctrl client f s) refl,
  rw (hp, radio_ack, pend_find_ack-sent false ra ctrl client f s) (ground arith),
)

process_frame-verdict :
    (ok : Bool) (c : Civ) (ctrl t : ℕ)
    → (c.radio_addr == 0) ≡ false
    → (ctrl == 0) ≡ false
    → (ctrl == c.radio_addr) ≡ false
    → ((process_frame c radio 0 (verdict_frame ok c.radio_addr ctrl) t).st
        ≡ (radio_ack (begin_frame c t) (verdict_frame ok c.radio_addr ctrl) t).st)
      × ((process_frame c radio 0 (verdict_frame ok c.radio_addr ctrl) t).pend
          ≡ (radio_ack (begin_frame c t) (verdict_frame ok c.radio_addr ctrl) t).pend)
unfolding process_frame dispatch_frame process_radio_frame
process_frame-verdict true c ctrl t ha hc hr = (ground arith, ground arith)
process_frame-verdict false c ctrl t ha hc hr = (ground arith, ground arith)

-- A set of the frequency and its answer. A client's set, sent while nothing else waits to a radio whose
-- address is known, and the radio's answer within two seconds: the frequency, any from 1 Hz to the
-- largest of 32 bits, is taken over at the time of the answer if the radio accepts it, and the state
-- stays as it was if the radio refuses it; either way nothing waits any more. The controller's
-- address is neither 0 nor the radio's, and the clock does not wrap.
pub set-verdict :
    (ok : Bool) (c : Civ) (client ctrl f s t : ℕ)
    → (c.radio_addr == 0) ≡ false
    → (ctrl == 0) ≡ false
    → (ctrl == c.radio_addr) ≡ false
    → c.freq_len ≡ 5
    → c.pend ≡ []
    → t ≤ s + 2000
    → s + 2000 < 2 ^ 64
    → 0 < f
    → f < 2 ^ 32
    → let c1 = process_frame c host client (set_frame c.radio_addr ctrl f) s in
      let c2 = process_frame c1 radio 0 (verdict_frame ok c.radio_addr ctrl) t in
      (c2.st ≡ (if ok then set_freq c.st 0 f t else c.st)) × (c2.pend ≡ [])
set-verdict ok c client ctrl f s t ha hc hr he hp w b p h =
    subst
      (λ a.
        let c2 = process_frame c1 radio 0 (verdict_frame ok a ctrl) t in
        (c2.st ≡ (if ok then set_freq c.st 0 f t else c.st)) × (c2.pend ≡ []))
      kept.0
      (steps.0 ∙ found.0 ∙ ap (λ x. if ok then set_freq x 0 f t else x) kept.2, steps.1 ∙ found.1)
  where
    c1 : Civ
    c1 = process_frame c host client (set_frame c.radio_addr ctrl f) s

    kept : (c1.radio_addr ≡ c.radio_addr) × (c1.freq_len ≡ c.freq_len) × (c1.st ≡ c.st)
    kept = process_frame-kept c client ctrl f s ha

    waits : pend_expire c1.pend t ≡ sent c1.radio_addr ctrl f client s ∷ []
    waits =
        rw (kept.0, process_frame-set c client ctrl f s ha hc hp)
          (pend_expire-sent c.radio_addr ctrl f client s t w b)

    steps :
        ((process_frame c1 radio 0 (verdict_frame ok c1.radio_addr ctrl) t).st
          ≡ (radio_ack (begin_frame c1 t) (verdict_frame ok c1.radio_addr ctrl) t).st)
        × ((process_frame c1 radio 0 (verdict_frame ok c1.radio_addr ctrl) t).pend
            ≡ (radio_ack (begin_frame c1 t) (verdict_frame ok c1.radio_addr ctrl) t).pend)
    steps = process_frame-verdict ok c1 ctrl t (rw kept.0 ha) hc (rw kept.0 hr)

    found :
        ((radio_ack (begin_frame c1 t) (verdict_frame ok c1.radio_addr ctrl) t).st
          ≡ (if ok then set_freq c1.st 0 f t else c1.st))
        × ((radio_ack (begin_frame c1 t) (verdict_frame ok c1.radio_addr ctrl) t).pend ≡ [])
    found =
        radio_ack-sent ok (begin_frame c1 t) c1.radio_addr ctrl client f s t (kept.1 ∙ he) waits p h
