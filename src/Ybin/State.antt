-- ===== src/Ybin/State.antt =====
-- src/cat_ybin.c: `struct cat_ybin`, its parts, and `emit`.
use mhuxd.Base.{ℕ, ◌+◌, Bool, false, List, [], ◌∷◌, ◌++◌, if◌then◌else◌, u32, update}
use mhuxd.Cat.{
  Dir, FrameKind, reply, bad, dropped, unmatched, Frame, Stats, zero_stats, count_frame,
}
use mhuxd.CatState.{CatState}
use mhuxd.Ybin.Models.{Model}
use mhuxd.Ybin.Fields.{Memory}

abbrev pub pend_max : ℕ
pend_max = 8

abbrev pub giveup_ms : ℕ
giveup_ms = 200

abbrev pub ybin_cmd_gap_ms : ℕ
ybin_cmd_gap_ms = 300

abbrev pub ybin_hold_ms : ℕ
ybin_hold_ms = 100

abbrev pub ybin_answer_ms : ℕ
ybin_answer_ms = 1000

abbrev pub ybin_byte_gap_ms : ℕ
ybin_byte_gap_ms = 100

-- `struct ybin_rx`; `buf` holds its first `len` bytes.
pub record Rx : Type 0 where
  pub buf : List ℕ
  pub t_ms : ℕ

-- `struct ybin_pending`
pub record Pending : Type 0 where
  pub cmd : List ℕ
  pub len : ℕ
  pub var : Bool
  pub own : Bool
  pub client : ℕ
  pub got : ℕ
  pub t_ms : ℕ
  pub t_last : ℕ

-- `struct cat_ybin`; `listening` and `log` stand for the callback, `ans` holds the first `ans_len`
-- bytes. `filler` is what the array of `answer_done` holds behind the bytes copied to it.
pub record Ybin : Type 0 where
  pub model : Model
  pub st : CatState
  pub listening : Bool
  pub log : List Frame
  pub rx : ℕ → Rx
  pub pend : List Pending
  pub ans : List ℕ
  pub hold : ℕ → ℕ
  pub pacing_ms : ℕ
  pub stats : Stats
  pub filler : Memory

-- `RX_OWN`, `RX_NUM`
abbrev pub rx_own : ℕ
rx_own = 9

abbrev pub rx_num : ℕ
rx_num = 10

-- `cat_ybin_create`, of a valid configuration
unfoldable pub create : Model → CatState → Memory → Ybin
create model st filler = record {
  model = model;
  st = st;
  listening = false;
  log = [];
  rx = λ i. record { buf = []; t_ms = 0 };
  pend = [];
  ans = [];
  hold = λ i. 0;
  pacing_ms = 0;
  stats = zero_stats;
  filler = filler;
}

-- `cat_ybin_set_frame_cb`
unfoldable pub set_frame_cb : Ybin → Bool → Ybin
set_frame_cb y on = record y { listening = on }

-- the `switch` of `emit`
unfoldable pub count_kind : FrameKind → Stats → Stats
count_kind reply s = record s { replies = u32 (s.replies + 1) }
count_kind bad s = record s { bad = u32 (s.bad + 1) }
count_kind dropped s = record s { dropped = u32 (s.dropped + 1) }
count_kind unmatched s = record s { unmatched = u32 (s.unmatched + 1) }
count_kind _ s = s

abbrev count_one : Stats → Stats
count_one s = record s { frames = u32 (s.frames + 1) }

-- a frame as `emit` is given it
abbrev pub bin_frame : FrameKind → Dir → List ℕ → Bool → Bool → ℕ → ℕ → Frame
bin_frame kind dir buf applied own client t = record {
  kind = kind;
  dir = dir;
  t_ms = t;
  buf = buf;
  applied = applied;
  text = false;
  own = own;
  client = client;
}

-- `emit`
unfoldable pub emit : Ybin → Frame → Ybin
emit y f = record y {
  stats = count_frame f (count_kind f.kind (count_one y.stats));
  log = if y.listening then y.log ++ f ∷ [] else y.log;
}

abbrev pub put_rx : Ybin → ℕ → Rx → Ybin
put_rx y i r = record y { rx = update y.rx i r }

abbrev pub with_buf : Ybin → ℕ → List ℕ → ℕ → Ybin
with_buf y i b t = put_rx y i (record { buf = b; t_ms = t })
