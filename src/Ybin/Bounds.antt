-- ===== src/Ybin/Bounds.antt =====
-- src/cat_ybin.c: the representation invariant of the decoder. Table holds the lemmas on the table of
-- pending commands, Sizes those on the lengths of answers, Answers and Steps those on the calls that
-- change the table.
pub mod Sizes
pub mod Table
pub mod Answers
pub mod Steps
use mhuxd.Base.{
  ℕ, zero, suc, ◌+◌, ◌-◌, ◌≤◌, ◌<◌, ◌≡◌, refl, arith, Bool, true, false, List, [], ◌∷◌, ◌++◌,
  if◌then◌else◌, Bool-cases, inl, inr, ◌==◌, ◌||◌, leb, u64, length, length-append, update,
}
use mhuxd.Cat.{Dir, host, own_query, radio, bad_client}
use mhuxd.CatState.{CatState}
use mhuxd.Ybin.Models.{Model}
use mhuxd.Ybin.Fields.{Memory}
use mhuxd.Ybin.State.{Ybin, Rx, emit, create, set_frame_cb, with_buf, ybin_cmd_gap_ms}
use mhuxd.Ybin.Pending.{is_empty}
use mhuxd.Ybin.Framer.{
  command, radio_byte, rx_expire, store_byte, host_byte, host_loop, radio_loop, feed, expire_rx,
  expire, client_discard,
}
use Table.{IsTable}
use Answers.{Keeps, emit-Keeps, pend_expire-Keeps}
use Steps.{command-Keeps, radio_byte-Keeps, discard_loop-Keeps}

pub record IsYbin (y : Ybin) : Type 0 where
  pub table : IsTable y.model y.pend y.ans
  pub framers : (i : ℕ) → length (y.rx i).buf < 5

Keeps-IsYbin : (y z : Ybin) → Keeps y z → IsYbin y → IsYbin z
Keeps-IsYbin y z k h = record { table = k.table h.table; framers = rw k.rx h.framers }

if_IsYbin :
    (b : Bool) {x y : Ybin}
    → (b ≡ true → IsYbin x)
    → (b ≡ false → IsYbin y)
    → IsYbin (if b then x else y)
if_IsYbin true p q = p refl
if_IsYbin false p q = q refl

-- A framer set anew keeps the others'.
with_buf-IsYbin :
    (y : Ybin) (i : ℕ) (b : List ℕ) (t : ℕ) → length b < 5 → IsYbin y → IsYbin (with_buf y i b t)
with_buf-IsYbin y i b t l h = record {
  table = h.table;
  framers = λ j. elim (Bool-cases (i == j)) [ inl e ↦ rw e l | inr e ↦ rw e (h.framers j) ];
}

rx_expire-IsYbin : (y : Ybin) (i t : ℕ) → IsYbin y → IsYbin (rx_expire y i t)
unfolding rx_expire
rx_expire-IsYbin y i t h =
    if_IsYbin (is_empty (y.rx i).buf || leb t (u64 ((y.rx i).t_ms + ybin_cmd_gap_ms))) (λ _. h)
      (λ _.
        with_buf-IsYbin (emit y _) i [] (y.rx i).t_ms (omega arith)
          (Keeps-IsYbin y (emit y _) (emit-Keeps y _) h))

host_byte-IsYbin :
    (y : Ybin) (dir : Dir) (client i b t : ℕ) → IsYbin y → IsYbin (host_byte y dir client i b t)
unfolding host_byte store_byte
host_byte-IsYbin y dir client i b t h =
    if_IsYbin (length (((rx_expire y i t).rx i).buf ++ b ∷ []) == 5)
      (λ _.
        Keeps-IsYbin (with_buf (rx_expire y i t) i [] t) _
          (command-Keeps (with_buf (rx_expire y i t) i [] t) dir client
            (((rx_expire y i t).rx i).buf ++ b ∷ []) t)
          (with_buf-IsYbin (rx_expire y i t) i [] t (omega arith) (rx_expire-IsYbin y i t h)))
      (λ e.
        with_buf-IsYbin (rx_expire y i t) i (((rx_expire y i t).rx i).buf ++ b ∷ []) t
          (ground (
            arith,
            e,
            length-append {0} ((rx_expire y i t).rx i).buf (b ∷ []),
            (rx_expire-IsYbin y i t h).framers i,
          ))
          (rx_expire-IsYbin y i t h))

host_loop-IsYbin :
    (y : Ybin) (dir : Dir) (client i : ℕ) (bs : List ℕ) (t : ℕ)
    → IsYbin y
    → IsYbin (host_loop y dir client i bs t)
unfolding host_loop
host_loop-IsYbin y dir client i [] t h = h
host_loop-IsYbin y dir client i (b ∷ bs) t h =
    host_loop-IsYbin (host_byte y dir client i b t) dir client i bs t
      (host_byte-IsYbin y dir client i b t h)

pub radio_byte-IsYbin : (y : Ybin) (b t : ℕ) → IsYbin y → IsYbin (radio_byte y b t)
radio_byte-IsYbin y b t h = Keeps-IsYbin y (radio_byte y b t) (radio_byte-Keeps y b t) h

radio_loop-IsYbin : (y : Ybin) (bs : List ℕ) (t : ℕ) → IsYbin y → IsYbin (radio_loop y bs t)
unfolding radio_loop
radio_loop-IsYbin y [] t h = h
radio_loop-IsYbin y (b ∷ bs) t h =
    radio_loop-IsYbin (radio_byte y b t) bs t (radio_byte-IsYbin y b t h)

feed-IsYbin :
    (y : Ybin) (dir : Dir) (client : ℕ) (bs : List ℕ) (t : ℕ)
    → IsYbin y
    → IsYbin (feed y dir client bs t)
unfolding feed
feed-IsYbin y host client bs t h =
    if_IsYbin (bad_client client) (λ _. h) (λ _. host_loop-IsYbin y host client (client - 1) bs t h)
feed-IsYbin y own_query client bs t h = host_loop-IsYbin y own_query 0 9 bs t h
feed-IsYbin y radio client bs t h = radio_loop-IsYbin y bs t h

expire_rx-IsYbin : (n i : ℕ) (y : Ybin) (t : ℕ) → IsYbin y → IsYbin (expire_rx n i y t)
unfolding expire_rx
expire_rx-IsYbin zero i y t h = h
expire_rx-IsYbin (suc n) i y t h =
    expire_rx-IsYbin n (i + 1) (rx_expire y i t) t (rx_expire-IsYbin y i t h)

expire-IsYbin : (y : Ybin) (t : ℕ) → IsYbin y → IsYbin (expire y t)
unfolding expire
expire-IsYbin y t h =
    Keeps-IsYbin (expire_rx 10 0 y t) _ (pend_expire-Keeps (expire_rx 10 0 y t) t)
      (expire_rx-IsYbin 10 0 y t h)

client_discard-IsYbin : (y : Ybin) (client : ℕ) → IsYbin y → IsYbin (client_discard y client)
unfolding client_discard
client_discard-IsYbin y client h =
    if_IsYbin (bad_client client) (λ _. h)
      (λ _.
        Keeps-IsYbin z _ (discard_loop-Keeps client (length y.pend) z)
          (record { table = w.table; framers = w.framers }))
  where
    w : IsYbin (with_buf y (client - 1) [] (y.rx (client - 1)).t_ms)
    w = with_buf-IsYbin y (client - 1) [] (y.rx (client - 1)).t_ms (omega arith) h

    z : Ybin
    z = record (with_buf y (client - 1) [] (y.rx (client - 1)).t_ms) {
      hold = update y.hold client 0;
    }

create-IsYbin : (model : Model) (st : CatState) (filler : Memory) → IsYbin (create model st filler)
unfolding create
create-IsYbin model st filler = record {
  table = record { few = omega arith; awaits = refl };
  framers = λ i. omega arith;
}

-- The states of a decoder: the calls that change it, in any order.
pub data Reachable : Ybin → Type 0 where
  created : (model : Model) (st : CatState) (filler : Memory) → Reachable (create model st filler)
  listened : (y : Ybin) (on : Bool) → Reachable y → Reachable (set_frame_cb y on)
  fed :
      (y : Ybin) (dir : Dir) (client : ℕ) (bs : List ℕ) (t : ℕ)
      → Reachable y
      → Reachable (feed y dir client bs t)
  expired : (y : Ybin) (t : ℕ) → Reachable y → Reachable (expire y t)
  discarded : (y : Ybin) (client : ℕ) → Reachable y → Reachable (client_discard y client)

-- However a new decoder is used, with whatever bytes, it stays within its bounds: no framer holds a
-- whole command, at most eight commands wait, each with the length of its own answer, and of the
-- answer to the oldest one fewer than 80 bytes are held, which are all that came where the answer
-- fits 80 bytes.
pub Reachable-IsYbin : (y : Ybin) → Reachable y → IsYbin y
unfolding set_frame_cb
Reachable-IsYbin y (created model st filler) = create-IsYbin model st filler
Reachable-IsYbin y (listened x on r) = record {
  table = (Reachable-IsYbin x r).table;
  framers = (Reachable-IsYbin x r).framers;
}
Reachable-IsYbin y (fed x dir client bs t r) = feed-IsYbin x dir client bs t (Reachable-IsYbin x r)
Reachable-IsYbin y (expired x t r) = expire-IsYbin x t (Reachable-IsYbin x r)
Reachable-IsYbin y (discarded x client r) = client_discard-IsYbin x client (Reachable-IsYbin x r)
