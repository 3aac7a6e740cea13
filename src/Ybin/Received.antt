-- ===== src/Ybin/Received.antt =====
-- src/cat_ybin.c: the outcome depends on the bytes received only. Sent is the part that reads no answer.
pub mod Sent
use mhuxd.Base.{
  ℕ, zero, suc, ◌+◌, ◌-◌, ◌≤◌, ◌<◌, ◌≡◌, refl, sym, ◌∙◌, ap, arith, Bool, true, false, not, ◌&&◌,
  ◌||◌, List, [], ◌∷◌, ◌++◌, length, if◌then◌else◌, ◌==◌, ltb, leb, u64,
}
use mhuxd.Cat.{
  Dir, host, own_query, radio, unmatched, bad_client, is_own, FrameKind, Frame, reply, is_invalid,
  is_updated, ack, bad,
}
use mhuxd.CatState.{select_vfo}
use mhuxd.Ybin.Lengths.{Length, answer_len, op_of, u_of, has_pacing}
use mhuxd.Ybin.Fields.{Applied, Memory}
use mhuxd.Ybin.Answers.{apply_answer}
use mhuxd.Ybin.Filler.{apply_answer-filler}
use mhuxd.Ybin.State.{Ybin, Pending, emit, with_buf, ybin_cmd_gap_ms, giveup_ms, bin_frame}
use mhuxd.Ybin.Pending.{
  pend_at, is_empty, is_ack, pend_remove, pend_live, next_due, emit_answer, answer_ended,
  answer_complete, end_oldest, expire_loop, pend_expire, giveup_loop, pend_giveup, pend_add,
  new_pending,
}
use mhuxd.Ybin.Framer.{
  assume_vfo, set_pacing, await, take_command, command, count_byte, answer_byte, radio_byte,
  rx_expire, host_byte, host_loop, radio_loop, feed,
}
use mhuxd.Ybin.Bounds.{IsYbin, radio_byte-IsYbin}
use mhuxd.Ybin.Bounds.Table.{IsTable, counted_whole}
use mhuxd.Ybin.Bounds.Answers.{pend_expire-Keeps, assume_vfo-Keeps}
use mhuxd.Ybin.Bounds.Steps.{assume_vfo-pend}
use Sent.*

-- The decoder after a complete answer that had an effect.
abbrev decoded : Ybin → Pending → List ℕ → ℕ → Applied → Ybin
decoded y p a t r =
    emit_answer (record y { st = r.1 })
      (if is_invalid r.0 then bad else if is_ack y.model p.cmd then ack else reply) a
      (is_updated r.0) p t

answer_complete-filler :
    (g : Memory) (y : Ybin) (t : ℕ)
    → ((pend_at y.pend 0).len ≤ 80 → length y.ans ≡ (answer_len y.model (pend_at y.pend 0).cmd).0)
    → answer_complete (with_filler g y) t ≡ with_filler g (answer_complete y t)
unfolding answer_complete next_due pend_remove
answer_complete-filler g y t h =
    if_filler g (ltb 80 p.len) (emit_answer (next_due y t) reply y.ans false p t) _ _ _
      (λ _. emit_answer-filler g (next_due y t) reply y.ans false p t)
      (λ e.
        ap (decoded (next_due (with_filler g y) t) p y.ans t)
          (apply_answer-filler y.model y.st g y.filler p.cmd y.ans t (h (ground (arith, e))))
        ∙ emit_answer-filler g _ _ y.ans _ p t)
  where
    p : Pending
    p = pend_at y.pend 0

-- A byte of the oldest answer, in a table within its bounds.
answer_byte-filler :
    (g : Memory) (y : Ybin) (b t : ℕ)
    → IsTable y.model y.pend y.ans
    → is_empty y.pend ≡ false
    → answer_byte (with_filler g y) b t ≡ with_filler g (answer_byte y b t)
unfolding answer_byte emit
answer_byte-filler g y b t h i =
    if_filler g ((pend_at (count_byte t y.pend) 0).got == (pend_at (count_byte t y.pend) 0).len)
      (answer_complete z t) _ _ _
      (λ e. answer_complete-filler g z t (counted_whole y.model y.pend y.ans b t h i e))
      (λ _. if_filler g (length (y.ans ++ b ∷ []) == 80) _ z _ _ (λ _. refl) (λ _. refl))
  where
    z : Ybin
    z = record y { ans = y.ans ++ b ∷ []; pend = count_byte t y.pend }

radio_byte-filler :
    (g : Memory) (y : Ybin) (b t : ℕ)
    → IsYbin y
    → radio_byte (with_filler g y) b t ≡ with_filler g (radio_byte y b t)
unfolding radio_byte pend_expire
radio_byte-filler g y b t h =
    ap (λ z. if is_empty z.pend then emit z f else answer_byte (assume_vfo z t) b t)
      (expire_loop-filler g (length y.pend) y t)
    ∙ if_filler g (is_empty y1.pend) (emit y1 f) (answer_byte y2 b t) _ _ (λ _. emit_filler g y1 f)
        (λ e.
          ap (λ z. answer_byte z b t) (assume_vfo-filler g y1 t)
          ∙ answer_byte-filler g y2 b t
              ((assume_vfo-Keeps y1 t).table ((pend_expire-Keeps y t).table h.table))
              (rw (assume_vfo-pend y1 t) e))
  where
    f : Frame
    f = bin_frame unmatched radio (b ∷ []) false false 0 t

    y1 : Ybin
    y1 = pend_expire y t

    y2 : Ybin
    y2 = assume_vfo y1 t

radio_loop-filler :
    (g : Memory) (y : Ybin) (bs : List ℕ) (t : ℕ)
    → IsYbin y
    → radio_loop (with_filler g y) bs t ≡ with_filler g (radio_loop y bs t)
unfolding radio_loop
radio_loop-filler g y [] t h = refl
radio_loop-filler g y (b ∷ bs) t h =
    ap (λ z. radio_loop z bs t) (radio_byte-filler g y b t h)
    ∙ radio_loop-filler g (radio_byte y b t) bs t (radio_byte-IsYbin y b t h)

-- Whatever the memory behind the bytes of an answer holds, byte by byte, a decoder within its bounds ends
-- in the same state, with the same frames and the same statistics: what is there has no influence.
pub feed-with_filler :
    (g : Memory) (y : Ybin) (dir : Dir) (client : ℕ) (bs : List ℕ) (t : ℕ)
    → IsYbin y
    → feed (with_filler g y) dir client bs t ≡ with_filler g (feed y dir client bs t)
unfolding feed
feed-with_filler g y host client bs t h =
    if_filler g (bad_client client) y (host_loop y host client (client - 1) bs t) _ _ (λ _. refl)
      (λ _. host_loop-filler g y host client (client - 1) bs t)
feed-with_filler g y own_query client bs t h = host_loop-filler g y own_query 0 9 bs t
feed-with_filler g y radio client bs t h = radio_loop-filler g y bs t h
