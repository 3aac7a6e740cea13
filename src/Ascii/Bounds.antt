-- ===== src/Ascii/Bounds.antt =====
-- src/cat_ascii.c: the representation invariant of the decoder, the bounds of its arrays.
use mhuxd.Base.{
  ℕ, zero, suc, ◌+◌, ◌-◌, ◌≤◌, ◌<◌, ◌≡◌, refl, Bool, true, false, List, [], ◌∷◌, ◌++◌, arith,
  if◌then◌else◌, Bool-cases, inl, inr, ◌==◌, ◌||◌, ◌&&◌, ltb, leb, length, length-append,
  length-erase_idx-le, erase_idx, find_idx, Option-cases,
}
use mhuxd.Cat.{Dir, host, own_query, radio, is_own, bad_client}
use mhuxd.CatState.{CatState}
use mhuxd.Ascii.State.{Dialect, Ascii, Pending, emit, create}
use mhuxd.Ascii.Pending.{
  Answer, error_reply, frame_of, pend_add, expire_loop, drop_oldest, pend_take, take_oldest,
  live_query, live_fit, prefix_of,
}
use mhuxd.Ascii.Framer.{
  begin_frame, client_frame, error_frame, radio_frame, process_frame, with_buf, rx_byte, feed_loop,
  feed, is_empty, is_blank,
}

pub record IsAscii (a : Ascii) : Type 0 where
  pub table : length a.pend ≤ 8
  pub framers : (i : ℕ) → length (a.rx i).buf < 64

length-expire_loop : (n : ℕ) (ps : List Pending) (t : ℕ) → length (expire_loop n ps t) ≤ length ps
unfolding expire_loop
length-expire_loop zero ps t = omega arith
length-expire_loop (suc n) ps t = ground (
  arith,
  length-expire_loop n ps t,
  length-expire_loop n (erase_idx ps n) t,
  length-erase_idx-le {0} ps n,
)

length-drop_oldest : (ps : List Pending) → length ps ≤ 8 → length (drop_oldest ps) ≤ 7
length-drop_oldest [] h = omega arith
length-drop_oldest (p ∷ ps) h = ground arith

length-pend_add :
    (ps : List Pending) (buf prefix : List ℕ) (own : Bool) (client t : ℕ)
    → length ps ≤ 8
    → length (pend_add ps buf prefix own client t) ≤ 8
unfolding pend_add
length-pend_add ps buf prefix own client t h = omega (
  arith,
  length-append {0} (drop_oldest (expire_loop (length ps) ps t)) (_ ∷ []),
  length-drop_oldest (expire_loop (length ps) ps t)
      (omega (arith, length-expire_loop (length ps) ps t, h)),
)

length-take_oldest :
    (ps : List Pending) (a : Answer) (t : ℕ) → length (take_oldest ps a t).1 ≤ length ps
unfolding take_oldest
length-take_oldest ps a t = elim (Option-cases (find_idx (live_fit a t) ps)) [
  | inl e ↦ rw (e, take_oldest) (omega arith)
  | inr (i, e) ↦ ground (arith, e, length-erase_idx-le {0} ps i)
]

length-pend_take :
    (ps : List Pending) (a : Answer) (t : ℕ) → length (pend_take ps a t).1 ≤ length ps
unfolding pend_take
length-pend_take ps a t = elim (Option-cases (find_idx (live_query a t) ps)) [
  | inl e ↦ rw (e, pend_take) (length-take_oldest ps a t)
  | inr (i, e) ↦ ground (arith, e, length-erase_idx-le {0} ps i)
]

process_frame-table :
    (a : Ascii) (dir : Dir) (client : ℕ) (s : List ℕ) (t : ℕ)
    → length a.pend ≤ 8
    → length (process_frame a dir client s t).pend ≤ 8
unfolding process_frame client_frame error_frame radio_frame begin_frame emit
process_frame-table a dir client s t h = ground (
  arith,
  length-pend_add a.pend (s ++ 59 ∷ []) (prefix_of s) (is_own dir) client t,
  length-pend_take a.pend error_reply t,
  length-pend_take a.pend (frame_of (prefix_of s) (s ++ 59 ∷ [])) t,
)

process_frame-rx :
    (a : Ascii) (dir : Dir) (client : ℕ) (s : List ℕ) (t : ℕ)
    → (process_frame a dir client s t).rx ≡ a.rx
unfolding process_frame client_frame error_frame radio_frame begin_frame emit
process_frame-rx a dir client s t = ground arith

-- A framer set anew keeps the others'.
with_buf-IsAscii :
    (a : Ascii) (i : ℕ) (b : List ℕ) (t : ℕ)
    → length a.pend ≤ 8
    → ((j : ℕ) → (i == j) ≡ false → length (a.rx j).buf < 64)
    → length b < 64
    → IsAscii (with_buf a i b t)
with_buf-IsAscii a i b t h o l = record {
  table = h;
  framers = λ j. elim (Bool-cases (i == j)) [ inl e ↦ rw e l | inr e ↦ rw e (o j e) ];
}

if_IsAscii :
    (b : Bool) {x y : Ascii}
    → (b ≡ true → IsAscii x)
    → (b ≡ false → IsAscii y)
    → IsAscii (if b then x else y)
if_IsAscii true p q = p refl
if_IsAscii false p q = q refl

process_frame-framers :
    (a : Ascii) (dir : Dir) (client i : ℕ) (f s : List ℕ) (t : ℕ)
    → IsAscii a
    → (j : ℕ) → (i == j) ≡ false
    → length ((process_frame (with_buf a i f t) dir client s t).rx j).buf < 64
process_frame-framers a dir client i f s t h j e =
    rw (process_frame-rx (with_buf a i f t) dir client s t) (rw e (h.framers j))

rx_byte-IsAscii :
    (a : Ascii) (dir : Dir) (client i b t : ℕ) → IsAscii a → IsAscii (rx_byte a dir client i b t)
unfolding rx_byte emit
rx_byte-IsAscii a dir client i b t h =
    if_IsAscii (b == 59)
      (λ _.
        with_buf-IsAscii (process_frame (with_buf a i (buf ++ b ∷ []) t) dir client buf t) i [] t
          (process_frame-table (with_buf a i (buf ++ b ∷ []) t) dir client buf t h.table)
          (process_frame-framers a dir client i (buf ++ b ∷ []) buf t h) (omega arith))
      (λ _.
        if_IsAscii (is_empty buf && is_blank b)
          (λ _. with_buf-IsAscii a i buf t h.table (λ j e. h.framers j) (h.framers i))
          (λ _.
            if_IsAscii (ltb b 32 || leb 127 b || leb 64 (length buf + 1))
              (λ _. with_buf-IsAscii (emit a _) i [] t h.table (λ j e. h.framers j) (omega arith))
              (λ e.
                with_buf-IsAscii a i (buf ++ b ∷ []) t h.table (λ j d. h.framers j)
                  (ground (arith, e, length-append {0} buf (b ∷ []))))))
  where
    buf : List ℕ
    buf = (a.rx i).buf

feed_loop-IsAscii :
    (a : Ascii) (dir : Dir) (client i : ℕ) (bs : List ℕ) (t : ℕ)
    → IsAscii a
    → IsAscii (feed_loop a dir client i bs t)
unfolding feed_loop
feed_loop-IsAscii a dir client i [] t h = h
feed_loop-IsAscii a dir client i (b ∷ bs) t h =
    feed_loop-IsAscii (rx_byte a dir client i b t) dir client i bs t
      (rx_byte-IsAscii a dir client i b t h)

-- A text decoder that is within its bounds stays within them however many bytes arrive, from
-- whichever source and whatever they are: every framer holds fewer than 64 bytes, and at most eight
-- commands wait.
pub feed-IsAscii :
    (a : Ascii) (dir : Dir) (client : ℕ) (bs : List ℕ) (t : ℕ)
    → IsAscii a
    → IsAscii (feed a dir client bs t)
unfolding feed
feed-IsAscii a host client bs t h =
    if_IsAscii (bad_client client) (λ _. h)
      (λ _. feed_loop-IsAscii a host client (client - 1) bs t h)
feed-IsAscii a own_query client bs t h = feed_loop-IsAscii a own_query 0 9 bs t h
feed-IsAscii a radio client bs t h = feed_loop-IsAscii a radio 0 10 bs t h

pub create-IsAscii :
    (dialect : Dialect) (no_data : Bool) (st : CatState) → IsAscii (create dialect no_data st)
unfolding create
create-IsAscii dialect no_data st = record { table = ground arith; framers = λ i. ground arith }
