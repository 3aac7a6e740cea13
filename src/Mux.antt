-- ===== src/Mux.antt =====
-- src/mux.c: the channels' buffers merged into the stream for the keyer. A sequence has up to five
-- frames of a sync byte and three payload bytes, R1, R2 and the channel shared by the frame's
-- number; payload bytes carry the top bit set, and the sync byte carries the bytes' own top bits.
pub mod Frames
pub mod SyncBits
pub mod Total
use mhuxd.Base.{
  ℕ, zero, suc, ◌+◌, ◌*◌, ◌/◌, Bool, true, false, not, ◌&&◌, ◌||◌, Option, none, some, List, [],
  ◌∷◌, ◌++◌, if◌then◌else◌, ◌==◌, ltb, take, update, bit_or,
}
use mhuxd.Channel.{flags, control, winkey, r1, r2, r1_fsk, r2_fsk}
use mhuxd.Buffer.{Buffer, size_avail, append, get_c}

-- `ibuf`, a buffer for each channel
abbrev pub Inputs : Type 0
Inputs = ℕ → Buffer

-- the four bytes `seq[frame_no * 4 ..]`
pub record Frame : Type 0 where
  pub sync : ℕ
  pub byte1 : ℕ
  pub byte2 : ℕ
  pub byte3 : ℕ

abbrev pub frame_bytes : Frame → List ℕ
frame_bytes f = f.sync ∷ f.byte1 ∷ f.byte2 ∷ f.byte3 ∷ []

-- A frame before its payload: the sync bit but in the first frame, and the payload markers.
abbrev pub empty_frame : ℕ → Frame
empty_frame n = record { sync = if n == 0 then 0 else 64; byte1 = 128; byte2 = 128; byte3 = 128 }

unfoldable pub put_r1 : Option ℕ → Frame → Frame
put_r1 none f = f
put_r1 (some c) f = record f {
  sync = bit_or (bit_or f.sync 32) (c / 128 * 4);
  byte1 = bit_or f.byte1 c;
}

unfoldable pub put_r2 : Option ℕ → Frame → Frame
put_r2 none f = f
put_r2 (some c) f = record f {
  sync = bit_or (bit_or f.sync 16) (c / 128 * 2);
  byte2 = bit_or f.byte2 c;
}

-- The flag is the condition under which the validity bit is set.
unfoldable pub put_shared : Bool → Option ℕ → Frame → Frame
put_shared valid none f = f
put_shared valid (some c) f = record f {
  sync = bit_or (if valid then bit_or f.sync 8 else f.sync) (c / 128 * 1);
  byte3 = bit_or f.byte3 c;
}

-- `switch(frame_no)`
abbrev pub shared_channel : ℕ → ℕ
shared_channel n =
    if n == 0
    then flags
    else if n == 1
    then control
    else if n == 2
    then winkey
    else if n == 3
    then r1_fsk
    else r2_fsk

abbrev pub is_some : Option ℕ → Bool
is_some none = false
is_some (some c) = true

-- `channel != MH_CHANNEL_CONTROL || (b->rpos > 1 && b->rpos < b->size)`, read after `buf_get_c`:
-- the first byte of a command has been read to 1, and the last has reset the buffer.
abbrev pub shared_valid : ℕ → Buffer → Bool
shared_valid channel b = not (channel == control) || (ltb 1 b.rpos && ltb b.rpos b.size)

-- What a frame takes from the buffers, and what it leaves there.
pub record Fill : Type 0 where
  pub frame : Frame
  pub used : Bool
  pub rest : Inputs

-- The body of the `for` loop.
unfoldable pub fill_frame : ℕ → Inputs → Fill
unfolding put_r1 put_r2 put_shared
fill_frame n ibuf =
    let (c1, b1) = get_c (ibuf r1) in
    let (c2, b2) = get_c (ibuf r2) in
    let channel = shared_channel n in
    let (c3, b3) = get_c (ibuf channel) in
    record {
      frame = put_shared (shared_valid channel b3) c3 (put_r2 c2 (put_r1 c1 (empty_frame n)));
      used = is_some c1 || is_some c2 || is_some c3;
      rest = update (update (update ibuf r1 b1) r2 b2) channel b3;
    }

-- `for(frame_no = n; frame_no <= 4; frame_no++)` with `k` rounds left: the bytes of the frames, how
-- many of them count (`none` for -1), and the buffers.
unfoldable pub fill_frames : ℕ → ℕ → Option ℕ → Inputs → List ℕ × Option ℕ × Inputs
fill_frames zero n size ibuf = ([], size, ibuf)
fill_frames (suc k) n size ibuf =
    let f = fill_frame n ibuf in
    let (seq, size', ibuf') =
      fill_frames k (n + 1) (if f.used then some ((n + 1) * 4) else size) f.rest in
    (frame_bytes f.frame ++ seq, size', ibuf')

abbrev pub max_sequence_size : ℕ
max_sequence_size = 20

abbrev pub MuxResult : Type 0
MuxResult = Option (ℕ × Buffer × Inputs)

-- The end of a round, with the sequence that it built: `goes_on` is the next round.
unfoldable pub end_round :
    (ℕ → Buffer → Inputs → MuxResult) → ℕ → Buffer → List ℕ → Option ℕ → Inputs → MuxResult
end_round goes_on out_size bout seq none ibuf = some (out_size, bout, ibuf)
end_round goes_on out_size bout seq (some n) ibuf =
    let bout' = (append bout (take n seq)).1 in
    elim (ltb (size_avail bout') max_sequence_size) [
      | true ↦ some (out_size + n, bout', ibuf)
      | false ↦ goes_on (out_size + n) bout' ibuf
    ]

-- `do … while`, with fuel; `none` means that the fuel ran out. The result is `out_size`.
unfoldable pub mux_loop : ℕ → ℕ → Buffer → Inputs → MuxResult
unfolding end_round
mux_loop zero out_size bout ibuf = none
mux_loop (suc k) out_size bout ibuf =
    let (seq, size, ibuf') = fill_frames 5 0 none ibuf in
    end_round (mux_loop k) out_size bout seq size ibuf'

-- `mx_mux`. A round that goes on puts four bytes or more into the 4096 of the buffer.
unfoldable pub mux : Buffer → Inputs → MuxResult
unfolding mux_loop
mux bout ibuf =
    if ltb (size_avail bout) max_sequence_size
    then some (0, bout, ibuf)
    else mux_loop 1025 0 bout ibuf
