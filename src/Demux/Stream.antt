-- ===== src/Demux/Stream.antt =====
-- src/mux.c and src/demux.c: a frame packed and taken apart.
use mhuxd.Base.{
  ℕ, ◌+◌, ◌/◌, ◌%◌, ◌^◌, ◌≤◌, ◌<◌, ◌≡◌, refl, ap, ◌∙◌, ◌≢◌, Bool, true, false, not, ◌&&◌, Option,
  none, some, List, [], ◌∷◌, ◌++◌, arith, ◌==◌, ◌⊎◌, bit, join_msb,
}
use mhuxd.Channel.{r1, r2}
use mhuxd.Buffer.{get_c}
use mhuxd.Mux.{Inputs, frame_bytes, is_some, shared_channel, fill_frame}
use mhuxd.Mux.Frames.{built, as_sums, built-eq-as_sums, IsByte, msb, low}
use mhuxd.Mux.SyncBits.{SyncBits, sync_bits}
use mhuxd.Demux.{Dmx, demux, payload, start_frame, payload_byte, synced}

-- The bytes that arrive, by channel. (A control command's bytes stand in its buffer instead.)
abbrev pub Event : Type 0
Event = ℕ × ℕ

abbrev pub event : Option ℕ → Dmx → List Event
event none d = []
event (some channel) d = (channel, d.result_byte) ∷ []

pub run : Dmx → List ℕ → List Event × Dmx
run d [] = ([], d)
run d (c ∷ cs) = let (r, d1) = demux d c in let (es, d2) = run d1 cs in (event r d1 ++ es, d2)

-- what a byte that was read for a channel should become
abbrev pub sent : ℕ → Option ℕ → List Event
sent channel none = []
sent channel (some c) = (channel, c) ∷ []

-- The low bits of a payload byte and the top bit in the sync byte are the byte again.
payload_lem :
    (c sync k : ℕ) → c < 256 → sync / 2 ^ k % 2 ≡ c / 128 → payload (128 + c % 128) sync k ≡ c
unfolding payload
payload_lem c sync k h b =
    let e : (128 + c % 128) % 128 ≡ c % 128 = omega arith in rw (e, b) (join_msb c h)

demux_payload :
    (d : Dmx) (s c : ℕ)
    → 128 ≤ c
    → c < 256
    → d.sync_byte ≡ some s
    → d.frame_no < 4
    → demux d c ≡ payload_byte (record d { byte_no = d.byte_no + 1 }) s c
unfolding demux synced
demux_payload d s c lo hi e f = ground arith

-- A payload byte in its place: the byte that was sent, if its validity bit is set.
abbrev received : Option ℕ → ℕ → ℕ
received none r = r
received (some c) r = c

abbrev channel_if : Option ℕ → ℕ → Option ℕ
channel_if none k = none
channel_if (some c) k = some k

r1_byte :
    (o : Option ℕ) (d : Dmx) (s : ℕ)
    → IsByte o
    → d.byte_no ≡ 1
    → bit 5 s ≡ is_some o
    → s / 4 % 2 ≡ msb o
    → payload_byte d s (128 + low o)
      ≡ (channel_if o r1, record d { result_byte = received o d.result_byte })
unfolding payload_byte
r1_byte none d s h b v t = ground arith
r1_byte (some c) d s h b v t = ground (arith, payload_lem c s 2)

r2_byte :
    (o : Option ℕ) (d : Dmx) (s : ℕ)
    → IsByte o
    → d.byte_no ≡ 2
    → bit 4 s ≡ is_some o
    → s / 2 % 2 ≡ msb o
    → payload_byte d s (128 + low o)
      ≡ (channel_if o r2, record d { result_byte = received o d.result_byte })
unfolding payload_byte
r2_byte none d s h b v t = ground arith
r2_byte (some c) d s h b v t = ground (arith, payload_lem c s 1)

shared_byte :
    (o : Option ℕ) (d : Dmx) (s : ℕ)
    → IsByte o
    → d.byte_no ≡ 3
    → d.frame_no ≢ 1
    → bit 3 s ≡ is_some o
    → s / 1 % 2 ≡ msb o
    → payload_byte d s (128 + low o)
      ≡ (channel_if o d.frame_no, record d { result_byte = received o d.result_byte })
unfolding payload_byte
shared_byte none d s h b g v t = ground arith
shared_byte (some c) d s h b g v t = ground (arith, payload_lem c s 0)

&&-true : (b : Bool) → (b && true) ≡ b
&&-true true = refl
&&-true false = refl

abbrev at_byte : Dmx → ℕ → Option ℕ → Dmx
at_byte d k o = record d { byte_no = k; result_byte = received o d.result_byte }

low_byte : (o : Option ℕ) → (128 ≤ 128 + low o) × (128 + low o < 256)
low_byte none = omega arith
low_byte (some c) = omega arith

module _ (n s : ℕ) (o1 o2 o3 : Option ℕ) (bits : SyncBits n true o1 o2 o3 s) (d : Dmx)
    (e : d.sync_byte ≡ some s) (f : d.frame_no ≡ n) (lt : n < 4) where
  r1_received :
      IsByte o1 → d.byte_no ≡ 0 → demux d (128 + low o1) ≡ (channel_if o1 r1, at_byte d 1 o1)
  r1_received h b =
      demux_payload d s (128 + low o1) (low_byte o1).0 (low_byte o1).1 e (omega arith)
      ∙ ground
          (arith, r1_byte o1 (record d { byte_no = d.byte_no + 1 }) s h, bits.valid1, bits.top1)

  r2_received :
      IsByte o2 → d.byte_no ≡ 1 → demux d (128 + low o2) ≡ (channel_if o2 r2, at_byte d 2 o2)
  r2_received h b =
      demux_payload d s (128 + low o2) (low_byte o2).0 (low_byte o2).1 e (omega arith)
      ∙ ground
          (arith, r2_byte o2 (record d { byte_no = d.byte_no + 1 }) s h, bits.valid2, bits.top2)

  shared_received :
      IsByte o3 → d.byte_no ≡ 2 → n ≢ 1 → demux d (128 + low o3) ≡ (channel_if o3 n, at_byte d 3 o3)
  shared_received h b ne =
      demux_payload d s (128 + low o3) (low_byte o3).0 (low_byte o3).1 e (omega arith)
      ∙ ground (
        arith,
        shared_byte o3 (record d { byte_no = d.byte_no + 1 }) s h,
        bits.valid3,
        bits.top3,
        &&-true (is_some o3),
      )

event-sent : (o : Option ℕ) (k j : ℕ) (d : Dmx) → event (channel_if o k) (at_byte d j o) ≡ sent k o
event-sent none k j d = refl
event-sent (some c) k j d = refl

demux_sync : (d : Dmx) (s : ℕ) → s < 128 → demux d s ≡ (none, start_frame d s)
unfolding demux
demux_sync d s h = ground arith

start_frame_no :
    (d : Dmx) (n s : ℕ)
    → bit 6 s ≡ not (n == 0)
    → (n ≡ 0) ⊎ (n ≡ d.frame_no + 1)
    → (start_frame d s).frame_no ≡ n
start_frame_no d n s h e = ground arith

module _ (n : ℕ) (o1 o2 o3 : Option ℕ) (d : Dmx) (lt : n < 4) (ne : n ≢ 1) (h1 : IsByte o1)
    (h2 : IsByte o2) (h3 : IsByte o3) (next : (n ≡ 0) ⊎ (n ≡ d.frame_no + 1)) where
  abbrev sync : ℕ
  sync = (as_sums n true o1 o2 o3).sync

  abbrev d0 : Dmx
  d0 = start_frame d sync

  bits : SyncBits n true o1 o2 o3 sync
  bits = sync_bits n true o1 o2 o3 h1 h2 h3

  frame : d0.frame_no ≡ n
  frame = start_frame_no d n sync bits.later next

  abbrev d3 : Dmx
  d3 = at_byte (at_byte (at_byte d0 1 o1) 2 o2) 3 o3

  run_frame :
      run d (frame_bytes (as_sums n true o1 o2 o3))
      ≡ (sent r1 o1 ++ (sent r2 o2 ++ (sent n o3 ++ [])), d3)
  unfolding run
  run_frame =
      rw
        (
          demux_sync d sync bits.below,
          r1_received n sync o1 o2 o3 bits d0 refl frame lt h1 refl,
          r2_received n sync o1 o2 o3 bits (at_byte d0 1 o1) refl frame lt h2 refl,
          shared_received n sync o1 o2 o3 bits (at_byte (at_byte d0 1 o1) 2 o2) refl frame lt h3
              refl ne,
          event-sent o1 r1 1 d0,
          event-sent o2 r2 2 (at_byte d0 1 o1),
          event-sent o3 n 3 (at_byte (at_byte d0 1 o1) 2 o2),
        )
        refl

frame-fill_frame :
    (n : ℕ) (ibuf : Inputs)
    → n < 4
    → n ≢ 1
    → (fill_frame n ibuf).frame
      ≡ built n true (get_c (ibuf r1)).0 (get_c (ibuf r2)).0 (get_c (ibuf (shared_channel n))).0
unfolding fill_frame
frame-fill_frame n ibuf lt ne = ground arith

-- The demultiplexer takes out of a frame exactly what the loop body of the multiplexer read for it:
-- the byte of R1, that of R2 and that of the shared channel, each if there was one, in this order.
-- It holds of the frames 0, 2 and 3, of any bytes, and of a demultiplexer that stands at the start
-- of a sequence or before this frame. (Frame 1 carries control commands; frame 4 is not sent by a
-- keyer.)
pub run-fill_frame :
    (n : ℕ) (ibuf : Inputs) (d : Dmx)
    → n < 4
    → n ≢ 1
    → (n ≡ 0) ⊎ (n ≡ d.frame_no + 1)
    → IsByte (get_c (ibuf r1)).0
    → IsByte (get_c (ibuf r2)).0
    → IsByte (get_c (ibuf (shared_channel n))).0
    → let (es, d') = run d (frame_bytes (fill_frame n ibuf).frame) in
      (es
        ≡ sent r1 (get_c (ibuf r1)).0
          ++ (sent r2 (get_c (ibuf r2)).0 ++ (sent n (get_c (ibuf (shared_channel n))).0 ++ [])))
      × (d'.frame_no ≡ n)
run-fill_frame n ibuf d lt ne next h1 h2 h3 =
    let o1 = (get_c (ibuf r1)).0 in
    let o2 = (get_c (ibuf r2)).0 in
    let o3 = (get_c (ibuf (shared_channel n))).0 in
    let e = run_frame n o1 o2 o3 d lt ne h1 h2 h3 next in
    rw (frame-fill_frame n ibuf lt ne, built-eq-as_sums n true o1 o2 o3 h1 h2 h3)
      (ap (λ r. r.0) e, ap (λ r. r.1.frame_no) e ∙ frame n o1 o2 o3 d lt ne h1 h2 h3 next)
