-- ===== src/Civ/Framing.antt =====
-- src/cat_civ.c: the framer of one source, over a whole frame.
use mathlib.Core.Path.{fun_ext}
use mhuxd.Base.{
  ℕ, ◌+◌, ◌≤◌, ◌<◌, ◌≡◌, refl, ◌∙◌, sym, ap, true, false, List, [], ◌∷◌, arith, ◌==◌, ◌++◌, leb,
  append-nil, lt→ltb, length, length-append, append_assoc, All, update,
}
use mhuxd.Cat.{Dir}
use mhuxd.Civ.State.{Civ, Rx, RxState, idle, pre, inside}
use mhuxd.Civ.Classify.{process_frame}
use mhuxd.Civ.Bounds.Frames.{process_frame-rx, IsPlain}
use mhuxd.Civ.Framer.{
  rx_inside, rx_switch, rx_byte, rx_complete, stamped, feed_loop, put_rx, with_buf, to_state,
}

abbrev pub framer : List ℕ → RxState → ℕ → Rx
framer b s t = record { buf = b; state = s; t_ms = t }

put_rx_twice : (c : Civ) (i : ℕ) (r s : Rx) → put_rx (put_rx c i r) i s ≡ put_rx c i s
put_rx_twice c i r s = ap (λ f. record c { rx = f }) (fun_ext once)
  where
    once : (j : ℕ) → update (update c.rx i r) i s j ≡ update c.rx i s j
    once j = ground arith

put_rx_self : (c : Civ) (i : ℕ) → put_rx c i (c.rx i) ≡ c
put_rx_self c i = ap (λ f. record c { rx = f }) (fun_ext same)
  where
    same : (j : ℕ) → update c.rx i (c.rx i) j ≡ c.rx j
    same j = ground arith

rx-put_rx : (c : Civ) (i : ℕ) (r : Rx) → (put_rx c i r).rx i ≡ r
rx-put_rx c i r = ground arith

with_buf-put_rx :
    (c : Civ) (i : ℕ) (b b' : List ℕ) (s : RxState) (t : ℕ)
    → with_buf (put_rx c i (framer b s t)) i b' ≡ put_rx c i (framer b' s t)
with_buf-put_rx c i b b' s t =
    ap
      (λ r.
        put_rx (put_rx c i (framer b s t)) i (record { buf = b'; state = r.state; t_ms = r.t_ms }))
      (rx-put_rx c i (framer b s t))
    ∙ put_rx_twice c i _ _

to_state-put_rx :
    (c : Civ) (i : ℕ) (b : List ℕ) (s s' : RxState) (t : ℕ)
    → to_state (put_rx c i (framer b s t)) i s' ≡ put_rx c i (framer b s' t)
to_state-put_rx c i b s s' t =
    ap
      (λ r.
        put_rx (put_rx c i (framer b s t)) i (record { buf = r.buf; state = s'; t_ms = r.t_ms }))
      (rx-put_rx c i (framer b s t))
    ∙ put_rx_twice c i _ _

stamped-put_rx :
    (c : Civ) (i : ℕ) (b : List ℕ) (s : RxState) (t t' : ℕ)
    → stamped (put_rx c i (framer b s t)) i t' ≡ put_rx c i (framer b s t')
stamped-put_rx c i b s t t' =
    ap
      (λ r.
        put_rx (put_rx c i (framer b s t)) i (record { buf = r.buf; state = r.state; t_ms = t' }))
      (rx-put_rx c i (framer b s t))
    ∙ put_rx_twice c i _ _

module _ (dir : Dir) (client i t : ℕ) where
  -- A byte that is no jam goes to its state's case.
  rx_byte-switch :
      (c : Civ) (b : ℕ) (f : List ℕ) (s : RxState) (t' : ℕ)
      → (b == 252) ≡ false
      → rx_byte (put_rx c i (framer f s t')) dir client i b t
        ≡ rx_switch s (put_rx c i (framer f s t)) dir client i b t
  unfolding rx_byte
  rx_byte-switch c b f s t' h = rw h (
      ap (λ x. rx_switch (x.rx i).state x dir client i b t) (stamped-put_rx c i f s t' t)
      ∙ ap (λ r. rx_switch r.state (put_rx c i (framer f s t)) dir client i b t)
          (rx-put_rx c i (framer f s t)))

  rx_byte-plain :
      (c : Civ) (b : ℕ) (f : List ℕ)
      → IsPlain b
      → length f + 1 < 64
      → rx_byte (put_rx c i (framer f inside t)) dir client i b t
        ≡ put_rx c i (framer (f ++ b ∷ []) inside t)
  unfolding rx_switch rx_inside
  rx_byte-plain c b f hb hl =
      rx_byte-switch c b f inside t hb.0
      ∙ rw (hb.1, hb.2, rx-put_rx c i (framer f inside t), lt→ltb (length f + 1) 64 hl)
          (put_rx_twice c i _ _)

  feed_loop-plain :
      (c : Civ) (f bs : List ℕ)
      → All IsPlain bs
      → length f + length bs < 64
      → feed_loop (put_rx c i (framer f inside t)) dir client i bs t
        ≡ put_rx c i (framer (f ++ bs) inside t)
  unfolding feed_loop
  feed_loop-plain c f [] h l = ap (λ g. put_rx c i (framer g inside t)) (sym (append-nil f))
  feed_loop-plain c f (b ∷ bs) h l =
      ap (λ c'. feed_loop c' dir client i bs t) (rx_byte-plain c b f h.0 (omega (arith, l)))
      ∙ feed_loop-plain c (f ++ b ∷ []) bs h.1 (omega (arith, l, length-append {0} f (b ∷ [])))
      ∙ ap (λ g. put_rx c i (framer g inside t)) (append_assoc f (b ∷ []) bs)

  feed_loop-append :
      (c : Civ) (xs ys : List ℕ)
      → feed_loop c dir client i (xs ++ ys) t
        ≡ feed_loop (feed_loop c dir client i xs t) dir client i ys t
  unfolding feed_loop
  feed_loop-append c [] ys = refl
  feed_loop-append c (x ∷ xs) ys = feed_loop-append (rx_byte c dir client i x t) xs ys

  rx_byte-end :
      (c : Civ) (f : List ℕ)
      → 5 ≤ length f
      → rx_byte (put_rx c i (framer f inside t)) dir client i 253 t
        ≡ rx_complete (put_rx c i (framer f inside t)) dir client i (f ++ 253 ∷ []) t
  unfolding rx_switch rx_inside
  rx_byte-end c f l =
      rx_byte-switch c 253 f inside t refl ∙ rw (rx-put_rx c i (framer f inside t), long) refl
    where
      long : leb 6 (length f + 1) ≡ true
      long = ground (arith, l)

  rx_complete-put_rx :
      (c : Civ) (f g : List ℕ)
      → rx_complete (put_rx c i (framer f inside t)) dir client i g t
        ≡ put_rx
            (process_frame (put_rx c i (framer g inside t)) dir client g t)
            i
            (framer [] idle t)
  rx_complete-put_rx c f g =
      ap (λ x. to_state (with_buf (process_frame x dir client g t) i []) i idle)
        (with_buf-put_rx c i f g inside t)
      ∙ ap (λ r. to_state (put_rx p i (record { buf = []; state = r.state; t_ms = r.t_ms })) i idle)
          (ap (λ x. x i) (process_frame-rx (put_rx c i (framer g inside t)) dir client g t)
            ∙ rx-put_rx c i (framer g inside t))
      ∙ to_state-put_rx p i [] inside idle t
    where
      p : Civ
      p = process_frame (put_rx c i (framer g inside t)) dir client g t

  -- The preamble takes an idle framer into a frame.
  feed_loop-preamble :
      (c : Civ) (t' : ℕ) (bs : List ℕ)
      → feed_loop (put_rx c i (framer [] idle t')) dir client i (254 ∷ 254 ∷ bs) t
        ≡ feed_loop (put_rx c i (framer (254 ∷ 254 ∷ []) inside t)) dir client i bs t
  unfolding feed_loop rx_switch
  feed_loop-preamble c t' bs =
      ap (λ x. feed_loop (rx_byte x dir client i 254 t) dir client i bs t)
        (rx_byte-switch c 254 [] idle t' refl ∙ to_state-put_rx c i [] idle pre t)
      ∙ ap (λ x. feed_loop x dir client i bs t)
          (rx_byte-switch c 254 [] pre t refl
            ∙ ap (λ x. to_state x i inside) (with_buf-put_rx c i [] (254 ∷ 254 ∷ []) pre t)
            ∙ to_state-put_rx c i (254 ∷ 254 ∷ []) pre inside t)

-- A whole frame that arrives at an idle framer is processed once, as the frame that it is, and the
-- framer is idle again. Its bytes are a preamble of two, at least three and at most 61 bytes, any but a
-- preamble FE, an end FD and a jam FC, and the end.
pub feed_loop-frame :
    (dir : Dir) (client i t : ℕ) (c : Civ) (body : List ℕ) (t' : ℕ)
    → c.rx i ≡ framer [] idle t'
    → All IsPlain body
    → 3 ≤ length body
    → length body ≤ 61
    → feed_loop c dir client i (254 ∷ 254 ∷ body ++ 253 ∷ []) t
      ≡ put_rx
          (process_frame
            (put_rx c i (framer (254 ∷ 254 ∷ body ++ 253 ∷ []) inside t))
            dir
            client
            (254 ∷ 254 ∷ body ++ 253 ∷ [])
            t)
          i
          (framer [] idle t)
unfolding feed_loop
feed_loop-frame dir client i t c body t' e h l u =
    ap (λ x. feed_loop x dir client i (254 ∷ 254 ∷ body ++ 253 ∷ []) t)
      (sym (put_rx_self c i) ∙ ap (λ r. put_rx c i r) e)
    ∙ feed_loop-preamble dir client i t c t' (body ++ 253 ∷ [])
    ∙ feed_loop-append dir client i t (put_rx c i (framer (254 ∷ 254 ∷ []) inside t)) body
        (253 ∷ [])
    ∙ ap (λ x. rx_byte x dir client i 253 t)
        (feed_loop-plain dir client i t c (254 ∷ 254 ∷ []) body h (omega (arith, u)))
    ∙ rx_byte-end dir client i t c (254 ∷ 254 ∷ body) (omega (arith, l))
    ∙ rx_complete-put_rx dir client i t c (254 ∷ 254 ∷ body) (254 ∷ 254 ∷ body ++ 253 ∷ [])
