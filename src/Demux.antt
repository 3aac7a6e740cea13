-- ===== src/Demux.antt =====
-- src/demux.c, src/demux.h: the keyer's stream taken apart into channels. A frame is a sync byte
-- (top bit clear) and three payload bytes (top bit set), one for R1, one for R2 and one for the
-- channel that the frame's number selects.
pub mod Stream
pub mod Bounds
use mhuxd.Base.{
  ℕ, ◌+◌, ◌*◌, ◌/◌, ◌%◌, ◌^◌, Bool, false, not, Option, none, some, List, if◌then◌else◌, ◌==◌, ltb,
  set, bit, bit_or, replicate,
}
use mhuxd.Channel.{control, r1, r2}

-- `struct dmx`. `sync_byte` and `cmd` are `none` where the source has -1.
pub record Dmx : Type 0 where
  pub frame_no : ℕ
  pub byte_no : ℕ
  pub sync_byte : Option ℕ
  pub result_byte : ℕ
  pub cmd_buffer : List ℕ
  pub cmd_length : ℕ
  pub cmd : Option ℕ

-- `dmx_create`: `calloc` gives zeros.
abbrev pub create : Dmx
create = record {
  frame_no = 0;
  byte_no = 0;
  sync_byte = some 0;
  result_byte = 0;
  cmd_buffer = replicate 4096 0;
  cmd_length = 0;
  cmd = some 0;
}

-- `(c & 0x7f) | (((sync >> k) & 1) << 7)`
unfoldable pub payload : ℕ → ℕ → ℕ → ℕ
payload c sync k = bit_or (c % 128) (sync / 2 ^ k % 2 * 128)

-- A sync byte starts a sequence, or its next frame.
abbrev pub start_frame : Dmx → ℕ → Dmx
start_frame d c = record d {
  frame_no = if bit 6 c then d.frame_no + 1 else 0;
  byte_no = 0;
  sync_byte = some c;
}

-- `byte == (cmd | (1 << 7))`; -1 has every bit set and equals no byte.
unfoldable pub closes : Option ℕ → ℕ → Bool
closes none byte = false
closes (some c) byte = byte == bit_or c 128

-- A control byte without the validity bit: the first (top bit clear) or the last of a command.
-- The flag is `rv == MH_CHANNEL_CONTROL`.
unfoldable pub mark_command : Dmx → ℕ → ℕ → Bool × Dmx
mark_command d sync byte =
    if bit 3 sync
    then (false, d)
    else if not (bit 7 byte)
    then (false, record d { cmd = some byte; cmd_length = 0 })
    else (closes d.cmd byte, d)

-- `if(dmx->cmd != -1)`: the byte is added to the command unless its buffer is full.
unfoldable pub store_command : Option ℕ → Bool × Dmx → ℕ → Option ℕ × Dmx
store_command none (done, d) byte = (if done then some control else none, d)
store_command (some _) (done, d) byte =
    if d.cmd_length == 4096
    then (none, d)
    else let d' = record d {
      cmd_buffer = set d.cmd_buffer d.cmd_length byte;
      cmd_length = d.cmd_length + 1;
    } in
      if done then (some control, record d' { cmd = none }) else (none, d')

abbrev pub control_byte : Dmx → ℕ → ℕ → Option ℕ × Dmx
control_byte d sync byte = let r = mark_command d sync byte in store_command r.1.cmd r byte

-- `switch(dmx->byte_no)`
unfoldable pub payload_byte : Dmx → ℕ → ℕ → Option ℕ × Dmx
payload_byte d sync c =
    if d.byte_no == 1
    then if bit 5 sync then (some r1, record d { result_byte = payload c sync 2 }) else (none, d)
    else if d.byte_no == 2
    then if bit 4 sync then (some r2, record d { result_byte = payload c sync 1 }) else (none, d)
    else if d.byte_no == 3
    then if not (d.frame_no == 1)
      then if bit 3 sync
        then (some d.frame_no, record d { result_byte = payload c sync 0 })
        else (none, d)
      else control_byte d sync (payload c sync 0)
    else (none, d)

unfoldable pub synced : Option ℕ → Dmx → ℕ → Option ℕ × Dmx
synced none d c = (none, d)
synced (some sync) d c =
    if ltb 3 d.frame_no then (none, record d { sync_byte = none }) else payload_byte d sync c

-- `dmx_demux`: the channel that a byte completes, `none` for -1.
unfoldable pub demux : Dmx → ℕ → Option ℕ × Dmx
demux d c =
    if not (bit 7 c)
    then (none, start_frame d c)
    else let d' = record d { byte_no = d.byte_no + 1 } in synced d'.sync_byte d' c
