-- ===== src/Civ/Bounds.antt =====
-- src/cat_civ.c: the representation invariant of the decoder, the bounds of its arrays.
mod Table
pub mod Frames
use mhuxd.Base.{
  ap, ap₂, All-append, ==_iff, ℕ, zero, suc, ◌+◌, ◌-◌, ◌≤◌, ◌<◌, ◌≡◌, refl, ◌∙◌, sym, Bool, true,
  false, List, [], ◌∷◌, Option, none, some, arith, if◌then◌else◌, leb, not, Bool-cases,
  Option-cases, inl, inr, ◌==◌, ◌++◌, ◌⊎◌, length, length-append, All, update, ltb, get_or, set,
  bytes_eq,
}
use mhuxd.Cat.{Dir, host, own_query, radio, is_radio, is_own, cmd, foreign, bad_client}
use mhuxd.CatState.{CatState}
use mhuxd.Civ.State.{
  Civ, Rx, RxState, idle, pre, inside, skip, emit, create, Pending, f_to, f_from, f_cmd, civ_ok,
}
use mhuxd.Civ.Pending.{
  mark_lost, pend_expire, pend_add, pend_consume, pend_at, pend_find_ack, pend_find_query,
  pend_find_echo,
}
use mhuxd.Civ.Classify.{
  learn_addr, dispatch_frame, process_frame, begin_frame, known_addr, process_radio_frame,
  radio_broadcast, radio_ack, radio_reply, radio_command,
}
use mhuxd.Civ.Framer.{
  put_rx, rx_drop, rx_jam, rx_inside, rx_switch, rx_byte, rx_complete, stamped, feed_loop, feed,
  with_buf, to_state, dropped_emitted, jam_marked,
}
use Table.{
  IsTable, IsFrame, IsPlain, IsBegun, IsWhole, expire-IsTable, add-IsTable, consume-IsTable,
  mark-IsTable, set-IsTable,
}
use Frames.{IsLast, process_frame-IsTable, process_frame-last, process_frame-rx}

-- A framer's buffer has room for the byte that ends a frame, and inside one it holds the frame as it has
-- begun.
pub record IsRx (r : Rx) : Type 0 where
  pub room : length r.buf < 64
  pub preamble : r.state ≡ inside → IsBegun r.buf

pub record IsCiv (c : Civ) : Type 0 where
  pub table : IsTable c.pend
  pub framers : (i : ℕ) → IsRx (c.rx i)
  pub previous : IsLast c.last

-- Of every framer but the i-th.
abbrev Others : Civ → ℕ → Type 0
Others c i = (j : ℕ) → (i == j) ≡ false → IsRx (c.rx j)

-- A decoder whose i-th framer is about to be set.
record IsUnsettled (c : Civ) (i : ℕ) : Type 0 where
  table : IsTable c.pend
  others : Others c i
  previous : IsLast c.last

unsettled : (c : Civ) (i : ℕ) → IsCiv c → IsUnsettled c i
unsettled c i h = record { table = h.table; others = λ j e. h.framers j; previous = h.previous }

put_rx-IsCiv : (c : Civ) (i : ℕ) (r : Rx) → IsUnsettled c i → IsRx r → IsCiv (put_rx c i r)
put_rx-IsCiv c i r h hr = record {
  table = h.table;
  framers = λ j. elim (Bool-cases (i == j)) [ inl e ↦ rw e hr | inr e ↦ rw e (h.others j e) ];
  previous = h.previous;
}

put_rx-IsUnsettled : (c : Civ) (i : ℕ) (r : Rx) → IsUnsettled c i → IsUnsettled (put_rx c i r) i
put_rx-IsUnsettled c i r h = record {
  table = h.table;
  others = λ j e. rw e (h.others j e);
  previous = h.previous;
}

rx_drop-IsUnsettled :
    (c : Civ) (dir : Dir) (client i t : ℕ)
    → IsUnsettled c i
    → IsUnsettled (rx_drop c dir client i t) i
unfolding rx_drop emit
rx_drop-IsUnsettled c dir client i t h =
    put_rx-IsUnsettled (dropped_emitted c dir client i t) i _ (record {
      table = ground (arith, h.table);
      others = ground (arith, h.others);
      previous = ground (arith, h.previous);
    })

length-rx_drop :
    (c : Civ) (dir : Dir) (client i t : ℕ) → length ((rx_drop c dir client i t).rx i).buf ≡ 0
unfolding rx_drop emit
length-rx_drop c dir client i t = ground arith

-- A framer left outside a frame may hold anything that is not full.
outside :
    (c : Civ) (i : ℕ) (s : RxState)
    → IsUnsettled c i
    → length (c.rx i).buf < 64
    → (s ≡ inside → IsBegun (c.rx i).buf)
    → IsCiv (to_state c i s)
outside c i s h l p = put_rx-IsCiv c i _ h (record { room = l; preamble = p })

rx_complete-IsCiv :
    (c : Civ) (dir : Dir) (client i : ℕ) (f : List ℕ) (t : ℕ)
    → IsFrame f
    → IsCiv c
    → IsCiv (rx_complete c dir client i f t)
rx_complete-IsCiv c dir client i f t hf h =
    put_rx-IsCiv (with_buf (process_frame c1 dir client f t) i []) i _
      (put_rx-IsUnsettled (process_frame c1 dir client f t) i _ (record {
        table = process_frame-IsTable c1 dir client f t hf h.previous h.table;
        others = rw (process_frame-rx c1 dir client f t) (h1.others);
        previous = rw (process_frame-last c1 dir client f t) (inr hf);
      }))
      (record { room = ground arith; preamble = ground arith })
  where
    c1 : Civ
    c1 = with_buf c i f

    h1 : IsUnsettled c1 i
    h1 = put_rx-IsUnsettled c i _ (unsettled c i h)

if_IsCiv :
    (b : Bool) {x y : Civ}
    → (b ≡ true → IsCiv x)
    → (b ≡ false → IsCiv y)
    → IsCiv (if b then x else y)
if_IsCiv true p q = p refl
if_IsCiv false p q = q refl

-- One more byte of a frame, and its end.
longer : {f : List ℕ} (b : ℕ) → IsBegun f → IsPlain b → IsBegun (f ++ b ∷ [])
longer b (body, e, h) plain =
    (body ++ b ∷ [], ap (λ g. g ++ b ∷ []) e, All-append IsPlain body (b ∷ []) h (plain, _))

closed : {f : List ℕ} (b : ℕ) → IsBegun f → (b == 253) ≡ true → IsWhole (f ++ b ∷ [])
closed b (body, e, h) end = (body, ap₂ (λ g x. g ++ x ∷ []) e ((==_iff _ _).0 end), h)

module _ (dir : Dir) (client i t : ℕ) (c : Civ) (h : IsCiv c) where
  dropped-IsCiv : (s : RxState) → (s ≡ inside → ⊥) → IsCiv (to_state (rx_drop c dir client i t) i s)
  dropped-IsCiv s p =
      outside (rx_drop c dir client i t) i s
        (rx_drop-IsUnsettled c dir client i t (unsettled c i h))
        (omega (arith, length-rx_drop c dir client i t)) (λ e. absurd (p e))

  rx_inside-IsCiv :
      (b : ℕ) → (b == 252) ≡ false → IsBegun (c.rx i).buf → IsCiv (rx_inside c dir client i b t)
  unfolding rx_inside
  rx_inside-IsCiv b nj p =
      if_IsCiv (b == 254)
        (λ _.
          if_IsCiv (ltb 2 (length (c.rx i).buf)) (λ _. dropped-IsCiv pre (λ e. ground arith))
            (λ _. h))
        (λ np.
          if_IsCiv (b == 253)
            (λ e.
              if_IsCiv (leb 6 (length (c.rx i).buf + 1))
                (λ l. rx_complete-IsCiv c dir client i ((c.rx i).buf ++ b ∷ []) t (whole e l) h)
                (λ _. dropped-IsCiv idle (λ e. ground arith)))
            (λ ne.
              if_IsCiv (ltb (length (c.rx i).buf + 1) 64)
                (λ l. put_rx-IsCiv c i _ (unsettled c i h) (record {
                  room = ground (arith, l, grown);
                  preamble = λ _. longer b p (nj, np, ne);
                }))
                (λ _. dropped-IsCiv skip (λ e. ground arith))))
    where
      grown : length ((c.rx i).buf ++ b ∷ []) ≡ length (c.rx i).buf + 1
      grown = length-append {0} (c.rx i).buf (b ∷ [])

      whole :
          (b == 253) ≡ true
          → leb 6 (length (c.rx i).buf + 1) ≡ true
          → IsFrame ((c.rx i).buf ++ b ∷ [])
      whole e l = (closed b p e, ground (arith, l, grown), omega (arith, grown, (h.framers i).room))

  rx_switch-IsCiv :
      (b : ℕ) → (b == 252) ≡ false → IsCiv (rx_switch (c.rx i).state c dir client i b t)
  unfolding rx_switch
  rx_switch-IsCiv b nj = go (c.rx i).state refl
    where
      kept : (s : RxState) → (s ≡ inside → IsBegun (c.rx i).buf) → IsCiv (to_state c i s)
      kept s p = outside c i s (unsettled c i h) (h.framers i).room p

      go : (s : RxState) → (c.rx i).state ≡ s → IsCiv (rx_switch s c dir client i b t)
      go idle e = if_IsCiv (b == 254) (λ _. kept pre (λ x. ground arith)) (λ _. h)
      go pre e =
          if_IsCiv (b == 254)
            (λ _.
              put_rx-IsCiv (with_buf c i (254 ∷ 254 ∷ [])) i _
                (put_rx-IsUnsettled c i _ (unsettled c i h))
                (record { room = ground arith; preamble = λ x. ([], ground arith, _) }))
            (λ _. kept idle (λ x. ground arith))
      go inside e = rx_inside-IsCiv b nj ((h.framers i).preamble e)
      go skip e =
          if_IsCiv (b == 253) (λ _. kept idle (λ x. ground arith))
            (λ _. if_IsCiv (b == 254) (λ _. kept pre (λ x. ground arith)) (λ _. h))

stamped-IsCiv : (c : Civ) (i t : ℕ) → IsCiv c → IsCiv (stamped c i t)
stamped-IsCiv c i t h =
    put_rx-IsCiv c i _ (unsettled c i h)
      (record { room = (h.framers i).room; preamble = (h.framers i).preamble })

jam_marked-IsCiv : (c : Civ) (dir : Dir) (t : ℕ) → IsCiv c → IsCiv (jam_marked c dir t)
jam_marked-IsCiv c dir t h =
    if_IsCiv (is_radio dir)
      (λ _. record {
        table = mark-IsTable c.pend t h.table;
        framers = h.framers;
        previous = h.previous;
      })
      (λ _. h)

rx_jam-IsCiv : (c : Civ) (dir : Dir) (client i t : ℕ) → IsCiv c → IsCiv (rx_jam c dir client i t)
unfolding rx_jam emit
rx_jam-IsCiv c dir client i t h =
    outside (emit (rx_drop (jam_marked c dir t) dir client i t) _) i idle
      (record { table = u.table; others = u.others; previous = u.previous })
      (omega (arith, length-rx_drop (jam_marked c dir t) dir client i t)) (λ e. ground arith)
  where
    u : IsUnsettled (rx_drop (jam_marked c dir t) dir client i t) i
    u =
        rx_drop-IsUnsettled (jam_marked c dir t) dir client i t
          (unsettled (jam_marked c dir t) i (jam_marked-IsCiv c dir t h))

rx_byte-IsCiv :
    (c : Civ) (dir : Dir) (client i b t : ℕ) → IsCiv c → IsCiv (rx_byte c dir client i b t)
unfolding rx_byte
rx_byte-IsCiv c dir client i b t h =
    if_IsCiv (b == 252) (λ _. rx_jam-IsCiv (stamped c i t) dir client i t (stamped-IsCiv c i t h))
      (λ nj. rx_switch-IsCiv dir client i t (stamped c i t) (stamped-IsCiv c i t h) b nj)

feed_loop-IsCiv :
    (c : Civ) (dir : Dir) (client i : ℕ) (bs : List ℕ) (t : ℕ)
    → IsCiv c
    → IsCiv (feed_loop c dir client i bs t)
unfolding feed_loop
feed_loop-IsCiv c dir client i [] t h = h
feed_loop-IsCiv c dir client i (b ∷ bs) t h =
    feed_loop-IsCiv (rx_byte c dir client i b t) dir client i bs t
      (rx_byte-IsCiv c dir client i b t h)

-- A decoder that is within its bounds stays within them however many bytes arrive, from whichever
-- source and whatever they are: every framer holds fewer than 64 bytes, and inside a frame the two bytes
-- FE of the preamble and then none that is a preamble, an end or a jam; at most eight commands wait; and
-- each of them, like the previous frame if there is one, is of 6 to 64 bytes, the preamble, such bytes,
-- and FD at its end.
pub feed-IsCiv :
    (c : Civ) (dir : Dir) (client : ℕ) (bs : List ℕ) (t : ℕ)
    → IsCiv c
    → IsCiv (feed c dir client bs t)
unfolding feed
feed-IsCiv c host client bs t h =
    if_IsCiv (bad_client client) (λ _. h) (λ _. feed_loop-IsCiv c host client (client - 1) bs t h)
feed-IsCiv c own_query client bs t h = feed_loop-IsCiv c own_query 0 9 bs t h
feed-IsCiv c radio client bs t h = feed_loop-IsCiv c radio 0 10 bs t h

-- A new decoder satisfies the bounds that every call keeps, whatever address, frequency length and
-- state it is given.
pub create-IsCiv : (addr freq_len : ℕ) (st : CatState) → IsCiv (create addr freq_len st)
unfolding create
create-IsCiv addr freq_len st = record {
  table = record { fits = ground arith; frames = tt };
  framers = λ i. record { room = ground arith; preamble = λ e. ground arith };
  previous = inl refl;
}
