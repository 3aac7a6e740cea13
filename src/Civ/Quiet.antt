-- ===== src/Civ/Quiet.antt =====
-- src/cat_civ.c: the bytes that go to the radio, and the decoded state.
use mhuxd.Base.{ℕ, ◌≡◌, refl, ◌∙◌, false, List, [], ◌∷◌, arith, ◌-◌, ◌++◌}
use mhuxd.Cat.{Dir, host, own_query, radio, is_radio}
use mhuxd.Civ.State.{Civ, RxState, idle, pre, inside, skip, emit}
use mhuxd.Civ.Classify.{learn_addr, dispatch_frame, process_frame}
use mhuxd.Civ.Framer.{
  rx_drop, rx_jam, rx_inside, rx_switch, rx_byte, stamped, feed_loop, feed, with_buf, jam_marked,
}

module _ (dir : Dir) (to : is_radio dir ≡ false) where
  process_frame_quiet :
      (c : Civ) (client : ℕ) (f : List ℕ) (t : ℕ) → (process_frame c dir client f t).st ≡ c.st
  unfolding process_frame dispatch_frame learn_addr emit
  process_frame_quiet c client f t = ground arith

  rx_drop_quiet : (c : Civ) (client i t : ℕ) → (rx_drop c dir client i t).st ≡ c.st
  unfolding rx_drop emit
  rx_drop_quiet c client i t = ground arith

  rx_inside_quiet : (c : Civ) (client i b t : ℕ) → (rx_inside c dir client i b t).st ≡ c.st
  unfolding rx_inside
  rx_inside_quiet c client i b t = ground (
    arith,
    rx_drop_quiet c client i t,
    process_frame_quiet (with_buf c i ((c.rx i).buf ++ b ∷ [])) client ((c.rx i).buf ++ b ∷ []) t,
  )

  rx_switch_quiet :
      (s : RxState) (c : Civ) (client i b t : ℕ) → (rx_switch s c dir client i b t).st ≡ c.st
  unfolding rx_switch
  rx_switch_quiet idle c client i b t = ground arith
  rx_switch_quiet pre c client i b t = ground arith
  rx_switch_quiet inside c client i b t = rx_inside_quiet c client i b t
  rx_switch_quiet skip c client i b t = ground arith

  rx_byte_quiet : (c : Civ) (client i b t : ℕ) → (rx_byte c dir client i b t).st ≡ c.st
  unfolding rx_byte rx_jam emit
  rx_byte_quiet c client i b t = ground (
    arith,
    rx_drop_quiet (jam_marked (stamped c i t) dir t) client i t,
    rx_switch_quiet ((stamped c i t).rx i).state (stamped c i t) client i b t,
  )

  feed_loop_quiet :
      (c : Civ) (client i : ℕ) (bs : List ℕ) (t : ℕ) → (feed_loop c dir client i bs t).st ≡ c.st
  unfolding feed_loop
  feed_loop_quiet c client i [] t = refl
  feed_loop_quiet c client i (b ∷ bs) t =
      feed_loop_quiet (rx_byte c dir client i b t) client i bs t ∙ rx_byte_quiet c client i b t

-- Bytes from a client and from mhuxd itself, whatever they are, leave the decoded state of the radio
-- as it is: only frames of the radio change it.
pub feed_quiet :
    (c : Civ) (dir : Dir) (client : ℕ) (bs : List ℕ) (t : ℕ)
    → is_radio dir ≡ false
    → (feed c dir client bs t).st ≡ c.st
unfolding feed
feed_quiet c host client bs t h =
    ground (arith, feed_loop_quiet host refl c client (client - 1) bs t)
feed_quiet c own_query client bs t h = feed_loop_quiet own_query refl c 0 9 bs t
feed_quiet c radio client bs t h = cc
