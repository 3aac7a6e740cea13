-- ===== src/Demux/Bounds.antt =====
-- src/demux.c: the bounds of the command buffer.
use mhuxd.Base.{
  ℕ, ◌+◌, ◌≤◌, ◌≡◌, Bool, Option, none, some, arith, length, length-set, if◌then◌else◌, bit, not,
}
use mhuxd.Demux.{
  Dmx, demux, payload, start_frame, mark_command, store_command, payload_byte, synced,
}

pub record IsDmx (d : Dmx) : Type 0 where
  pub storage : length d.cmd_buffer ≡ 4096
  pub fits : d.cmd_length ≤ 4096

mark_command-IsDmx : (d : Dmx) (sync byte : ℕ) → IsDmx d → IsDmx (mark_command d sync byte).1
unfolding mark_command
mark_command-IsDmx d sync byte h = ground arith

store_command-IsDmx :
    (o : Option ℕ) (done : Bool) (d : Dmx) (byte : ℕ)
    → IsDmx d
    → IsDmx (store_command o (done, d) byte).1
unfolding store_command
store_command-IsDmx none done d byte h = h
store_command-IsDmx (some c) done d byte h =
    ground (arith, length-set d.cmd_buffer d.cmd_length byte)

payload_byte-IsDmx : (d : Dmx) (sync c : ℕ) → IsDmx d → IsDmx (payload_byte d sync c).1
unfolding payload_byte
payload_byte-IsDmx d sync c h =
    let r = mark_command d sync (payload c sync 0) in
    ground (
      arith,
      store_command-IsDmx r.1.cmd r.0 r.1 (payload c sync 0)
          (mark_command-IsDmx d sync (payload c sync 0) h),
    )

-- Every byte keeps the command buffer at its 4096 bytes and the length of the command within it, so
-- no byte is stored out of bounds.
pub demux-IsDmx : (d : Dmx) (c : ℕ) → IsDmx d → IsDmx (demux d c).1
unfolding demux synced
demux-IsDmx d c h = split d.sync_byte
  where
    d' : Dmx
    d' = record d { byte_no = d.byte_no + 1 }

    split :
        (o : Option ℕ) → IsDmx (if not (bit 7 c) then (none, start_frame d c) else synced o d' c).1
    split none = ground arith
    split (some sync) =
        ground (arith, payload_byte-IsDmx d' sync c (record { storage = h.storage; fits = h.fits }))
