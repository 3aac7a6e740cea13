-- ===== src/Ybin/Exchange.antt =====
-- src/cat_ybin.c: a query of the FT-817 and the FT-847 and its answer.
use mhuxd.Base.{
  ℕ, ◌+◌, ◌-◌, ◌*◌, ◌%◌, ◌≤◌, ◌<◌, ◌^◌, ◌≡◌, refl, ◌∙◌, ap, Bool, true, false, not, ◌&&◌, ◌||◌,
  List, [], ◌∷◌, ◌++◌, arith, ◌==◌, length, if◌then◌else◌, if_false, Bool-cases, inl, inr, ltb,
  none, some, u32,
}
use mhuxd.Cat.{host, radio, cmd, nothing, updated, is_updated, is_invalid, bad, bad_client}
use mhuxd.CatState
use mhuxd.CatState.{CatState, rx_freq, is_unknown, select_vfo}
use mhuxd.CatState.Modes.{Mode, mode_eq, with_data}
use mhuxd.Ybin.Models.{Family, fam_817, fam_847, Model, fam_of, is_fam_817, is_fam_847}
use mhuxd.Ybin.Lengths.{Length, answer_len, len_in, len_817, len_847}
use mhuxd.Ybin.Commands.{apply_command, command_817}
use mhuxd.Ybin.Modes.{mode_817}
use mhuxd.Ybin.Fields.{Applied, Memory, put}
use mhuxd.Ybin.Answers.{apply_answer, apply_in, apply_817, put_status}
use mhuxd.Ybin.State.{Ybin, Pending, emit, bin_frame, with_buf}
use mhuxd.Ybin.Pending.{
  pend_live, end_oldest, pend_expire, expire_loop, pend_giveup, giveup_loop, pend_add, new_pending,
  answer_complete,
}
use mhuxd.Ybin.Framer.{assume_vfo, set_pacing, await, take_command, command, radio_loop, feed}
use mhuxd.Ybin.Bcd.{bcd4, dec_bcd-bcd4}
use mhuxd.Ybin.HostFraming.{host_loop-whole}
use mhuxd.Ybin.Framing.{part_of, radio_loop-valid, assume_vfo-valid_after}

-- The command 0x03.
abbrev pub ask : List ℕ
ask = 0 ∷ 0 ∷ 0 ∷ 0 ∷ 3 ∷ []

abbrev pub is_817 : Model → Bool
is_817 m = is_fam_817 (fam_of m) || is_fam_847 (fam_of m)

abbrev pub asked : ℕ → ℕ → Pending
asked client s = new_pending ask (5, false) false client s

answer_len-ask : (m : Model) → is_817 m ≡ true → answer_len m ask ≡ (5, false)
unfolding answer_len len_in len_817 len_847
answer_len-ask m h = ground (arith, h)

none_expires : (y : Ybin) (t : ℕ) → y.pend ≡ [] → pend_giveup (pend_expire y t) t ≡ y
unfolding pend_expire expire_loop pend_giveup giveup_loop
none_expires y t h =
    ap (λ z. pend_giveup z t) (ap (λ ps. expire_loop (length ps) y t) h)
    ∙ ap (λ ps. giveup_loop (length ps) y t) h

pend_add-empty :
    (y : Ybin) (c : List ℕ) (l : Length) (own : Bool) (client t : ℕ)
    → y.pend ≡ []
    → pend_add y c l own client t ≡ record y { pend = new_pending c l own client t ∷ [] }
unfolding pend_add
pend_add-empty y c l own client t h =
    ap with_new (if_false (length y.pend == 8) (end_oldest y t) y (rw h refl))
    ∙ ap (λ ps. put_pend (ps ++ new_pending c l own client t ∷ [])) h
  where
    put_pend : List Pending → Ybin
    put_pend ps = record y { pend = ps }

    with_new : Ybin → Ybin
    with_new z = record z { pend = z.pend ++ new_pending c l own client t ∷ [] }

apply_command-ask :
    (m : Model) (st : CatState) (t : ℕ) → is_817 m ≡ true → apply_command m st ask t ≡ (nothing, st)
unfolding apply_command command_817
apply_command-ask m st t h = ground (arith, h)

-- The decoder that has been asked.
abbrev waiting : Ybin → ℕ → ℕ → Ybin
waiting y client s =
    emit (record y { pend = asked client s ∷ [] }) (bin_frame cmd host ask false false client s)

assume_vfo-st : (y : Ybin) (t : ℕ) → assume_vfo y t ≡ record y { st = (assume_vfo y t).st }
unfolding assume_vfo
assume_vfo-st y t = elim (Bool-cases y.st.vfo_ab.valid) [ inl e ↦ rw e refl | inr e ↦ rw e refl ]

command-ask :
    (y : Ybin) (client s : ℕ)
    → is_817 y.model ≡ true
    → y.pend ≡ []
    → command y host client ask s ≡ waiting (record y { st = (assume_vfo y s).st }) client s
unfolding command take_command await
command-ask y client s m h =
    ap (λ z. sent (set_pacing (pend_giveup (pend_expire z s) s) ask) (answer_len y.model ask))
      (assume_vfo-st y s)
    ∙ ap (λ z. sent (set_pacing z ask) (answer_len y.model ask)) (none_expires y1 s h)
    ∙ ap (sent y1) (answer_len-ask y.model m)
    ∙ ap (λ z. take_command z host client ask s) (pend_add-empty y1 ask (5, false) false client s h)
    ∙ ap effect (apply_command-ask y.model y1.st s m)
  where
    y1 : Ybin
    y1 = record y { st = (assume_vfo y s).st }

    sent : Ybin → Length → Ybin
    sent z l = take_command (await z ask l false client s) host client ask s

    effect : Applied → Ybin
    effect r =
        emit (record y1 { pend = asked client s ∷ []; st = r.1 })
          (bin_frame (if is_invalid r.0 then bad else cmd) host ask (is_updated r.0) false client s)

-- The answer to it: a frequency and a mode code.
abbrev pub status : ℕ → ℕ → List ℕ
status v md = bcd4 true v ++ md ∷ []

-- A mode code that the radio has.
abbrev pub knows : Model → ℕ → Bool
knows m md = not (is_unknown (mode_817 md) || is_fam_847 (fam_of m) && ltb 8 (md % 128))

apply_in-817 :
    (fam : Family) (m : Model) (st : CatState) (filler : Memory) (c a : List ℕ) (t : ℕ)
    → (is_fam_817 fam || is_fam_847 fam) ≡ true
    → apply_in fam m st filler c a t ≡ apply_817 m st filler c a t
unfolding apply_in
apply_in-817 fam_817 m st filler c a t h = refl
apply_in-817 fam_847 m st filler c a t h = refl
apply_in-817 fam m st filler c a t h = cc

put_status-some :
    (st : CatState) (v : ℕ) (b : Bool) (mode : Mode) (t : ℕ)
    → 0 < v
    → v < 10 ^ 8
    → not (is_unknown mode || b) ≡ true
    → put_status st (some v) b mode t ≡ (updated, put st none (v * 10) mode t)
unfolding put_status
put_status-some st v b mode t p l k =
    if_false (v == 0 || is_unknown mode || b) _ _ (ground (arith, k, p))
    ∙ ap (λ hz. (updated, put st none hz mode t)) fits
  where
    fits : u32 (v * 10) ≡ v * 10
    fits = ground (arith, l)

apply_answer-status :
    (m : Model) (st : CatState) (filler : Memory) (v md t : ℕ)
    → is_817 m ≡ true
    → 0 < v
    → v < 10 ^ 8
    → knows m md ≡ true
    → apply_answer m st filler ask (status v md) t ≡ (updated, put st none (v * 10) (mode_817 md) t)
unfolding apply_answer apply_817
apply_answer-status m st filler v md t h p l k =
    apply_in-817 (fam_of m) m st filler ask (status v md) t h
    ∙ ap (λ o. put_status st o (is_fam_847 (fam_of m) && ltb 8 (md % 128)) (mode_817 md) t)
        (dec_bcd-bcd4 true v l)
    ∙ put_status-some st v (is_fam_847 (fam_of m) && ltb 8 (md % 128)) (mode_817 md) t p l k

rx_freq-set_mode :
    (st : CatState) (mode : Mode) (t : ℕ) → rx_freq (CatState.set_mode st 0 mode t) ≡ rx_freq st
unfolding rx_freq CatState.set_mode CatState.vfo_set_mode
rx_freq-set_mode st mode t = ground arith

rx_freq-put : (st : CatState) (hz : ℕ) (mode : Mode) (t : ℕ) → rx_freq (put st none hz mode t) ≡ hz
unfolding rx_freq put CatState.set_data CatState.set_freq
rx_freq-put st hz mode t =
    either (not (mode_eq (with_data mode true) mode))
      (CatState.set_data (CatState.set_mode (CatState.set_freq st 0 hz t) 0 mode t) 0 false t)
      (CatState.set_mode (CatState.set_freq st 0 hz t) 0 mode t) kept kept
  where
    either :
        (b : Bool) (p q : CatState)
        → rx_freq p ≡ hz
        → rx_freq q ≡ hz
        → rx_freq (if b then p else q) ≡ hz
    either true p q h k = h
    either false p q h k = k

    kept : rx_freq (CatState.set_mode (CatState.set_freq st 0 hz t) 0 mode t) ≡ hz
    kept = rx_freq-set_mode (CatState.set_freq st 0 hz t) mode t

answer_complete-status :
    (y : Ybin) (client s v md t : ℕ)
    → is_817 y.model ≡ true
    → 0 < v
    → v < 10 ^ 8
    → knows y.model md ≡ true
    → let z = answer_complete (part_of y (asked client s) [] (status v md) t) t in
      (rx_freq z.st ≡ v * 10) × (z.pend ≡ [])
unfolding answer_complete
answer_complete-status y client s v md t h p l k = (
  ap (λ r. rx_freq r.1) (apply_answer-status y.model y.st y.filler v md t h p l k)
      ∙ rx_freq-put y.st (v * 10) (mode_817 md) t,
  refl,
)

in_time :
    (s t pacing client : ℕ)
    → s ≤ t
    → t ≤ s + 1000
    → t + 1000 + pacing < 2 ^ 64
    → pend_live pacing (asked client s) t ≡ true
unfolding pend_live
in_time s t pacing client w i c = ground (arith, w, i, c)

abbrev with_ans : Ybin → List ℕ → Ybin
with_ans y a = record y { ans = a }

-- The whole exchange of a radio of the FT-817 family or the FT-847. A client that has sent nothing
-- else asks for frequency and mode while nothing waits, and the answer comes within a second: then
-- the receive frequency is the one that the answer names, any of eight digits but 0 in units of
-- 10 Hz, and nothing waits any more. The mode code is one that the radio has, and the clock does not
-- wrap.
pub feed-status :
    (y : Ybin) (client s v md t : ℕ)
    → is_817 y.model ≡ true
    → bad_client client ≡ false
    → (y.rx (client - 1)).buf ≡ []
    → y.pend ≡ []
    → y.ans ≡ []
    → s ≤ t
    → t ≤ s + 1000
    → t + 1000 + y.pacing_ms < 2 ^ 64
    → 0 < v
    → v < 10 ^ 8
    → knows y.model md ≡ true
    → let z = feed (feed y host client ask s) radio 0 (status v md) t in
      (rx_freq z.st ≡ v * 10) × (z.pend ≡ [])
unfolding feed
feed-status y client s v md t m b e h a w i c p l k =
    (ap (λ z. rx_freq z.st) steps ∙ done.0, ap (λ z. z.pend) steps ∙ done.1)
  where
    y0 : Ybin
    y0 = with_buf y (client - 1) [] s

    y1 : Ybin
    y1 = waiting (record y0 { st = (assume_vfo y0 s).st }) client s

    sent : feed y host client ask s ≡ y1
    sent =
        if_false (bad_client client) _ _ b
        ∙ host_loop-whole host client (client - 1) s (omega (arith, w, c)) y 0 0 0 0 3 e
        ∙ command-ask y0 client s m h

    live : pend_live y.pacing_ms (asked client s) t ≡ true
    live = in_time s t y.pacing_ms client w i c

    steps :
        feed (feed y host client ask s) radio 0 (status v md) t
        ≡ answer_complete (part_of y1 (asked client s) [] (status v md) t) t
    steps =
        ap (λ z. radio_loop z (status v md) t) (sent ∙ ap (λ x. with_ans y1 x) a)
        ∙ radio_loop-valid y1 [] t (assume_vfo-valid_after y0 s) (asked client s) [] _ _
            (omega (arith, c)) (omega arith) refl refl live

    done :
        (rx_freq (answer_complete (part_of y1 (asked client s) [] (status v md) t) t).st ≡ v * 10)
        × ((answer_complete (part_of y1 (asked client s) [] (status v md) t) t).pend ≡ [])
    done = answer_complete-status y1 client s v md t m p l k
