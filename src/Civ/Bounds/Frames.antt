-- ===== src/Civ/Bounds/Frames.antt =====
-- src/cat_civ.c: the bounds, over the handling of one frame.
use mhuxd.Base.{ℕ, ◌≡◌, refl, List, arith, Bool-cases, Option-cases, inl, inr, ◌==◌, ◌⊎◌, length}
use mhuxd.Cat.{Dir, radio}
use mhuxd.Civ.State.{Civ, emit, f_to, f_cmd, civ_ok}
use mhuxd.Civ.Pending.{pend_find_ack, pend_find_query, pend_find_echo}
use mhuxd.Civ.Classify.{
  learn_addr, dispatch_frame, process_frame, begin_frame, known_addr, process_radio_frame,
  radio_broadcast, radio_ack, radio_reply, radio_command,
}
pub use mhuxd.Civ.Bounds.Table.{IsPlain}
use mhuxd.Civ.Bounds.Table.{
  IsTable, IsFrame, expire-IsTable, add-IsTable, consume-IsTable, set-IsTable,
}

abbrev pub IsLast : List ℕ → Type 0
IsLast f = (length f ≡ 0) ⊎ IsFrame f

learn_addr-IsTable :
    (c : Civ) (dir : Dir) (f : List ℕ) (t : ℕ)
    → IsLast c.last
    → IsTable c.pend
    → IsTable (learn_addr c dir f t).pend
unfolding learn_addr
learn_addr-IsTable c dir f t (inl e) h = ground (arith, h)
learn_addr-IsTable c dir f t (inr l) h =
    ground (arith, h, add-IsTable c.pend c.last c.last_dir c.last_client t l h)

module _ (c : Civ) (f : List ℕ) (t : ℕ) (h : IsTable c.pend) where
  radio_ack-IsTable : IsTable (radio_ack c f t).pend
  unfolding radio_ack emit
  radio_ack-IsTable = elim (Option-cases (pend_find_ack c.pend (f_to f) (f_cmd f == civ_ok))) [
    | inl e ↦ rw (e, radio_ack) h
    | inr (i, e) ↦ rw (e, radio_ack) (consume-IsTable c.pend i h)
  ]

  radio_reply-IsTable : IsTable (radio_reply c f t).pend
  unfolding radio_reply emit
  radio_reply-IsTable = elim (Option-cases (pend_find_query c.pend f)) [
    | inl e ↦ rw (e, radio_reply) h
    | inr (i, e) ↦ rw (e, radio_reply) (consume-IsTable c.pend i h)
  ]

  radio_command-IsTable : IsFrame f → IsTable (radio_command c f t).pend
  unfolding radio_command emit
  radio_command-IsTable hf = elim (Option-cases (pend_find_echo c.pend f)) [
    | inl e ↦ rw (e, radio_command) (add-IsTable c.pend f radio 0 t hf h)
    | inr (i, e) ↦ rw (e, radio_command) (set-IsTable c.pend i _ refl h)
  ]

  process_radio_frame-IsTable : IsFrame f → IsTable (process_radio_frame c f t).pend
  unfolding process_radio_frame radio_broadcast emit
  process_radio_frame-IsTable hf =
      ground (arith, h, radio_ack-IsTable, radio_reply-IsTable, radio_command-IsTable hf)

  dispatch_frame-IsTable :
      (dir : Dir) (client : ℕ) → IsFrame f → IsTable (dispatch_frame c dir client f t).pend
  unfolding dispatch_frame emit
  dispatch_frame-IsTable dir client hf =
      ground (arith, h, process_radio_frame-IsTable hf, add-IsTable c.pend f dir client t hf h)

pub process_frame-IsTable :
    (c : Civ) (dir : Dir) (client : ℕ) (f : List ℕ) (t : ℕ)
    → IsFrame f
    → IsLast c.last
    → IsTable c.pend
    → IsTable (process_frame c dir client f t).pend
unfolding process_frame
process_frame-IsTable c dir client f t hf hl h =
    dispatch_frame-IsTable (known_addr (begin_frame c t) dir f t) f t
      (elim (Bool-cases (c.radio_addr == 0)) [
        | inl e ↦ rw e (learn_addr-IsTable (begin_frame c t) dir f t hl (expire-IsTable c.pend t h))
        | inr e ↦ rw e (expire-IsTable c.pend t h)
      ])
      dir client hf

pub process_frame-last :
    (c : Civ) (dir : Dir) (client : ℕ) (f : List ℕ) (t : ℕ)
    → (process_frame c dir client f t).last ≡ f
unfolding process_frame
process_frame-last c dir client f t = refl

module _ (c : Civ) (f : List ℕ) (t : ℕ) where
  radio_ack-rx : (radio_ack c f t).rx ≡ c.rx
  unfolding radio_ack emit
  radio_ack-rx = ground arith

  radio_reply-rx : (radio_reply c f t).rx ≡ c.rx
  unfolding radio_reply emit
  radio_reply-rx = ground arith

  radio_command-rx : (radio_command c f t).rx ≡ c.rx
  unfolding radio_command emit
  radio_command-rx = ground arith

  process_radio_frame-rx : (process_radio_frame c f t).rx ≡ c.rx
  unfolding process_radio_frame radio_broadcast emit
  process_radio_frame-rx = ground (arith, radio_ack-rx, radio_reply-rx, radio_command-rx)

pub process_frame-rx :
    (c : Civ) (dir : Dir) (client : ℕ) (f : List ℕ) (t : ℕ)
    → (process_frame c dir client f t).rx ≡ c.rx
unfolding process_frame dispatch_frame learn_addr emit
process_frame-rx c dir client f t =
    ground (arith, process_radio_frame-rx (known_addr (begin_frame c t) dir f t) f t)
