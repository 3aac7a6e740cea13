-- ===== src/Tests/Streams.antt =====
-- src/buffer.c, src/channel.c, src/demux.c, src/mux.c, run on a few bytes.
use mhuxd.Base.{
  ℕ, ◌-◌, ◌≡◌, refl, inl, false, [], ◌∷◌, ◌++◌, some, arith, length-replicate, take, min,
}
use mhuxd.Buffer.{Buffer, alloc, append, get_c, taken, write}
use mhuxd.Buffer.Contents.{
  IsValid, unread, Front, alloc-IsValid, append-IsValid, append_refines, get_c_refines,
}
use mhuxd.Channel.{channel2str, channel2str_new, str2channel}
use mhuxd.Channel.Names.{str2channel-channel2str}
use mhuxd.Demux.{create, demux}
use mhuxd.Demux.Bounds.{IsDmx, demux-IsDmx}
use mhuxd.Demux.Stream.{run, run-fill_frame, sent}
use mhuxd.Mux.{Inputs, fill_frame, frame_bytes, mux}
use mhuxd.Mux.Total.{IsDone, mux_total}

-- a buffer that three bytes were appended to
abbrev three : Buffer
three = (append alloc (10 ∷ 200 ∷ 30 ∷ [])).1

three-IsValid : IsValid three
three-IsValid = append-IsValid (10 ∷ 200 ∷ 30 ∷ []) alloc-IsValid.0 (omega arith)

append_refines_example :
    ((append three (7 ∷ 8 ∷ [])).0 ≡ min 2 (4096 - three.size))
    × (unread (append three (7 ∷ 8 ∷ [])).1
        ≡ unread three ++ take (append three (7 ∷ 8 ∷ [])).0 (7 ∷ 8 ∷ []))
    × IsValid (append three (7 ∷ 8 ∷ [])).1
append_refines_example = append_refines (7 ∷ 8 ∷ []) three-IsValid (omega arith)

get_c_refines_example : IsValid (get_c three).1 × Front (get_c three).0 three (get_c three).1
get_c_refines_example = get_c_refines three-IsValid

str2channel-channel2str_example :
    (str2channel (channel2str 5) ≡ some 5) × (str2channel (channel2str_new 5 false) ≡ some 5)
str2channel-channel2str_example = str2channel-channel2str 5 false refl

demux-IsDmx_example : IsDmx (demux create 8).1
demux-IsDmx_example =
    demux-IsDmx create 8 (record { storage = length-replicate {A = ℕ} 4096 0; fits = omega arith })

-- every channel holds the three bytes
abbrev inputs : Inputs
inputs _ = three

run-fill_frame_example :
    let (es, d') = run create (frame_bytes (fill_frame 0 inputs).frame) in
    (es ≡ sent 4 (get_c three).0 ++ (sent 5 (get_c three).0 ++ (sent 0 (get_c three).0 ++ [])))
    × (d'.frame_no ≡ 0)
unfolding get_c append alloc taken write
run-fill_frame_example =
    run-fill_frame 0 inputs create (omega arith) (omega arith) (inl refl) (omega arith)
      (omega arith) (omega arith)

mux_total_example : IsDone alloc 0 (mux alloc inputs)
mux_total_example = mux_total alloc inputs alloc-IsValid.0
