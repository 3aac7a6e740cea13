-- ===== src/Civ/Query.antt =====
-- src/cat_civ.c: a query of the frequency and the radio's reply to it.
use mathlib.Core.Path.{subst}
use mhuxd.Base.{
  ℕ, ◌%◌, ◌^◌, ◌+◌, ◌≤◌, ◌<◌, ◌≡◌, refl, ap, ◌∙◌, true, false, List, [], ◌∷◌, ◌++◌, arith, ◌==◌,
  some,
}
use mhuxd.Cat.{host, radio}
use mhuxd.CatState.{CatState, rx_freq, set_freq}
use mhuxd.Civ.State.{Civ, Pending, emit}
use mhuxd.Civ.Decode.{apply_reply, apply_freq, has_sub, intent}
use mhuxd.Civ.Pending.{pend_expire, pend_add, pend_consume, consume_loop, pend_find_query, answers}
use mhuxd.Civ.Classify.{
  process_frame, dispatch_frame, process_radio_frame, radio_reply, begin_frame,
}
use mhuxd.Civ.Bcd.{bcd, dec_freq-bcd}

-- 03: the query of the frequency, from the controller `ctrl` to the radio `ra`
abbrev pub query_frame : ℕ → ℕ → List ℕ
query_frame ra ctrl = 254 ∷ 254 ∷ ra ∷ ctrl ∷ 3 ∷ 253 ∷ []

-- its reply
abbrev pub reply_frame : ℕ → ℕ → ℕ → List ℕ
reply_frame ra ctrl f = 254 ∷ 254 ∷ ctrl ∷ ra ∷ 3 ∷ bcd 5 f ++ 253 ∷ []

abbrev asked : ℕ → ℕ → ℕ → ℕ → Pending
asked ra ctrl client t = record {
  buf = query_frame ra ctrl;
  t_ms = t;
  from_host = true;
  echoed = false;
  own = false;
  client = client % 256;
  lost = false;
  resends = 0;
}

process_frame-query :
    (c : Civ) (client ctrl t : ℕ)
    → (c.radio_addr == 0) ≡ false
    → (ctrl == 0) ≡ false
    → c.pend ≡ []
    → (process_frame c host client (query_frame c.radio_addr ctrl) t).pend
      ≡ asked c.radio_addr ctrl client t ∷ []
unfolding process_frame dispatch_frame pend_expire pend_add emit
process_frame-query c client ctrl t ha hc hp = ground arith

process_frame-kept :
    (c : Civ) (client ctrl t : ℕ)
    → (c.radio_addr == 0) ≡ false
    → ((process_frame c host client (query_frame c.radio_addr ctrl) t).radio_addr ≡ c.radio_addr)
      × ((process_frame c host client (query_frame c.radio_addr ctrl) t).freq_len ≡ c.freq_len)
unfolding process_frame dispatch_frame emit
process_frame-kept c client ctrl t ha = (ground arith, ground arith)

apply_freq-bcd :
    (st : CatState) (f t : ℕ) → 0 < f → f < 2 ^ 32 → rx_freq (apply_freq 5 st 0 (bcd 5 f) t).1 ≡ f
unfolding apply_freq set_freq rx_freq
apply_freq-bcd st f t p h = rw (dec_freq-bcd f p h, apply_freq) refl

apply_reply-bcd :
    (c : Civ) (ra ctrl f t : ℕ)
    → c.freq_len ≡ 5
    → 0 < f
    → f < 2 ^ 32
    → rx_freq (apply_reply c.freq_len c.st (reply_frame ra ctrl f) t).1 ≡ f
unfolding apply_reply
apply_reply-bcd c ra ctrl f t e p h = rw e (apply_freq-bcd c.st f t p h)

pend_find_query-asked :
    (ra ctrl client f t : ℕ)
    → pend_find_query (asked ra ctrl client t ∷ []) (reply_frame ra ctrl f) ≡ some 0
unfolding pend_find_query answers has_sub intent
pend_find_query-asked ra ctrl client f t = ground arith

pend_expire-asked :
    (ra ctrl client s t : ℕ)
    → t ≤ s + 2000
    → s + 2000 < 2 ^ 64
    → pend_expire (asked ra ctrl client s ∷ []) t ≡ asked ra ctrl client s ∷ []
unfolding pend_expire
pend_expire-asked ra ctrl client s t w b = ground arith

radio_reply-asked :
    (c : Civ) (ra ctrl client f s t : ℕ)
    → c.freq_len ≡ 5
    → c.pend ≡ asked ra ctrl client s ∷ []
    → 0 < f
    → f < 2 ^ 32
    → (rx_freq (radio_reply c (reply_frame ra ctrl f) t).st ≡ f)
      × ((radio_reply c (reply_frame ra ctrl f) t).pend ≡ [])
unfolding radio_reply pend_consume consume_loop emit
radio_reply-asked c ra ctrl client f s t he hp p h = (
  rw (hp, radio_reply, pend_find_query-asked ra ctrl client f s)
      (apply_reply-bcd c ra ctrl f t he p h),
  rw (hp, radio_reply, pend_find_query-asked ra ctrl client f s) (ground arith),
)

process_frame-reply :
    (c : Civ) (ctrl f t : ℕ)
    → (c.radio_addr == 0) ≡ false
    → (ctrl == 0) ≡ false
    → (ctrl == c.radio_addr) ≡ false
    → ((process_frame c radio 0 (reply_frame c.radio_addr ctrl f) t).st
        ≡ (radio_reply (begin_frame c t) (reply_frame c.radio_addr ctrl f) t).st)
      × ((process_frame c radio 0 (reply_frame c.radio_addr ctrl f) t).pend
          ≡ (radio_reply (begin_frame c t) (reply_frame c.radio_addr ctrl f) t).pend)
unfolding process_frame dispatch_frame process_radio_frame
process_frame-reply c ctrl f t ha hc hr = (ground arith, ground arith)

-- The whole exchange. A client's query of the frequency, sent while nothing else waits to a radio whose
-- address is known, and the radio's reply within two seconds: afterwards the receive frequency is the
-- one that the reply names, any from 1 Hz to the largest of 32 bits in five bytes of BCD, and nothing
-- waits any more. The controller's address is neither 0 nor the radio's, and the clock does not wrap.
pub query-reply :
    (c : Civ) (client ctrl f s t : ℕ)
    → (c.radio_addr == 0) ≡ false
    → (ctrl == 0) ≡ false
    → (ctrl == c.radio_addr) ≡ false
    → c.freq_len ≡ 5
    → c.pend ≡ []
    → t ≤ s + 2000
    → s + 2000 < 2 ^ 64
    → 0 < f
    → f < 2 ^ 32
    → let c1 = process_frame c host client (query_frame c.radio_addr ctrl) s in
      let c2 = process_frame c1 radio 0 (reply_frame c.radio_addr ctrl f) t in
      (rx_freq c2.st ≡ f) × (c2.pend ≡ [])
query-reply c client ctrl f s t ha hc hr he hp w b p h =
    subst
      (λ a.
        let c2 = process_frame c1 radio 0 (reply_frame a ctrl f) t in
        (rx_freq c2.st ≡ f) × (c2.pend ≡ []))
      ra (ap rx_freq steps.0 ∙ found.0, steps.1 ∙ found.1)
  where
    c1 : Civ
    c1 = process_frame c host client (query_frame c.radio_addr ctrl) s

    ra : c1.radio_addr ≡ c.radio_addr
    ra = (process_frame-kept c client ctrl s ha).0

    waits : pend_expire c1.pend t ≡ asked c1.radio_addr ctrl client s ∷ []
    waits =
        rw (ra, process_frame-query c client ctrl s ha hc hp)
          (pend_expire-asked c.radio_addr ctrl client s t w b)

    steps :
        ((process_frame c1 radio 0 (reply_frame c1.radio_addr ctrl f) t).st
          ≡ (radio_reply (begin_frame c1 t) (reply_frame c1.radio_addr ctrl f) t).st)
        × ((process_frame c1 radio 0 (reply_frame c1.radio_addr ctrl f) t).pend
            ≡ (radio_reply (begin_frame c1 t) (reply_frame c1.radio_addr ctrl f) t).pend)
    steps = process_frame-reply c1 ctrl f t (rw ra ha) hc (rw ra hr)

    found :
        (rx_freq (radio_reply (begin_frame c1 t) (reply_frame c1.radio_addr ctrl f) t).st ≡ f)
        × ((radio_reply (begin_frame c1 t) (reply_frame c1.radio_addr ctrl f) t).pend ≡ [])
    found =
        radio_reply-asked (begin_frame c1 t) c1.radio_addr ctrl client f s t
          ((process_frame-kept c client ctrl s ha).1 ∙ he) waits p h
