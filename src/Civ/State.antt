-- ===== src/Civ/State.antt =====
-- src/cat_civ.c: `struct cat_civ`, its parts, and `emit`.
use mhuxd.Base.{
  ℕ, ◌+◌, ◌-◌, Bool, false, List, [], ◌∷◌, ◌++◌, if◌then◌else◌, u32, get_or, take, drop, length,
  ◌==◌,
}
use mhuxd.Cat.{
  Dir, host, Frame, FrameKind, reply, unmatched, bad, jam, dropped, foreign, Stats, zero_stats,
  count_frame,
}
use mhuxd.CatState.{CatState}

abbrev pub civ_pre : ℕ
civ_pre = 0xfe

abbrev pub civ_eom : ℕ
civ_eom = 0xfd

abbrev pub civ_col : ℕ
civ_col = 0xfc

abbrev pub civ_ok : ℕ
civ_ok = 0xfb

abbrev pub civ_ng : ℕ
civ_ng = 0xfa

abbrev pub civ_bcast : ℕ
civ_bcast = 0

abbrev pub civ_min_len : ℕ
civ_min_len = 6

abbrev pub civ_max_frame : ℕ
civ_max_frame = 64

abbrev pub pend_max : ℕ
pend_max = 8

abbrev pub pend_timeout_ms : ℕ
pend_timeout_ms = 2000

abbrev pub civ_collision_ms : ℕ
civ_collision_ms = 150

-- A frame: FE FE to from cmd data… FD.
abbrev pub f_to : List ℕ → ℕ
f_to f = get_or f 2 0

abbrev pub f_from : List ℕ → ℕ
f_from f = get_or f 3 0

abbrev pub f_cmd : List ℕ → ℕ
f_cmd f = get_or f 4 0

-- `F_DATA` with `F_DLEN` bytes
abbrev pub f_data : List ℕ → List ℕ
f_data f = take (length f - 6) (drop 5 f)

pub data RxState : Type 0 where
  idle pre inside skip : RxState

-- `struct civ_rx`; `buf` holds its first `len` bytes.
pub record Rx : Type 0 where
  pub buf : List ℕ
  pub state : RxState
  pub t_ms : ℕ

-- `struct civ_pending`
pub record Pending : Type 0 where
  pub buf : List ℕ
  pub t_ms : ℕ
  pub from_host : Bool
  pub echoed : Bool
  pub own : Bool
  pub client : ℕ
  pub lost : Bool
  pub resends : ℕ

-- `struct cat_civ`. `pend` holds its first `npend` entries and `last` its first `last_len` bytes;
-- `listening` tells whether a callback is set, and `log` holds its calls, oldest first.
pub record Civ : Type 0 where
  pub radio_addr : ℕ
  pub freq_len : ℕ
  pub st : CatState
  pub listening : Bool
  pub log : List Frame
  pub rx : ℕ → Rx
  pub pend : List Pending
  pub last : List ℕ
  pub last_dir : Dir
  pub last_client : ℕ
  pub stats : Stats

-- `RX_OWN`, `RX_RADIO`: the framers behind those of the clients
abbrev pub rx_own : ℕ
rx_own = 9

abbrev pub rx_radio : ℕ
rx_radio = 10

-- `cat_civ_create`, with the address and the frequency length of the configuration
unfoldable pub create : ℕ → ℕ → CatState → Civ
create addr freq_len st = record {
  radio_addr = addr;
  freq_len = if freq_len == 0 then 5 else freq_len;
  st = st;
  listening = false;
  log = [];
  rx = λ i. record { buf = []; state = idle; t_ms = 0 };
  pend = [];
  last = [];
  last_dir = host;
  last_client = 0;
  stats = zero_stats;
}

-- `cat_civ_set_frame_cb`
unfoldable pub set_frame_cb : Civ → Bool → Civ
set_frame_cb c on = record c { listening = on }

-- the `switch` of `emit`
unfoldable pub count_kind : FrameKind → Stats → Stats
count_kind reply s = record s { replies = u32 (s.replies + 1) }
count_kind unmatched s = record s { unmatched = u32 (s.unmatched + 1) }
count_kind bad s = record s { bad = u32 (s.bad + 1) }
count_kind jam s = record s { jams = u32 (s.jams + 1) }
count_kind dropped s = record s { dropped = u32 (s.dropped + 1) }
count_kind foreign s = record s { foreign = u32 (s.foreign + 1) }
count_kind _ s = s

-- `emit`
unfoldable pub emit : Civ → Frame → Civ
emit c f = record c {
  stats = count_frame f (count_kind f.kind c.stats);
  log = if c.listening then c.log ++ f ∷ [] else c.log;
}

-- a CI-V frame as `emit` is given it
abbrev pub civ_frame : FrameKind → Dir → List ℕ → Bool → Bool → ℕ → ℕ → Frame
civ_frame kind dir buf applied own client t = record {
  kind = kind;
  dir = dir;
  t_ms = t;
  buf = buf;
  applied = applied;
  text = false;
  own = own;
  client = client;
}
