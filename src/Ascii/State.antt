-- ===== src/Ascii/State.antt =====
-- src/cat_ascii.c: `struct cat_ascii`, its parts, and `emit`.
use mhuxd.Base.{
  ℕ, ◌+◌, Bool, true, false, Option, none, List, [], ◌∷◌, ◌++◌, if◌then◌else◌, u32, bool_eq,
}
use mhuxd.Cat.{FrameKind, reply, bad, dropped, error, Frame, Stats, zero_stats, count_frame}
use mhuxd.CatState.{CatState}

-- `enum cat_ascii_dialect`
pub data Dialect : Type 0 where
  kenwood elecraft yaesu flex : Dialect

abbrev pub is_kenwood : Dialect → Bool
is_kenwood kenwood = true
is_kenwood _ = false

abbrev pub is_elecraft : Dialect → Bool
is_elecraft elecraft = true
is_elecraft _ = false

abbrev pub is_yaesu : Dialect → Bool
is_yaesu yaesu = true
is_yaesu _ = false

abbrev pub is_flex : Dialect → Bool
is_flex flex = true
is_flex _ = false

abbrev pub ascii_max_frame : ℕ
ascii_max_frame = 64

abbrev pub pend_max : ℕ
pend_max = 8

abbrev pub pend_timeout_ms : ℕ
pend_timeout_ms = 2000

abbrev pub set_wait_ms : ℕ
set_wait_ms = 200

-- `struct ascii_rx`; `buf` holds its first `len` bytes.
pub record Rx : Type 0 where
  pub buf : List ℕ
  pub t_ms : ℕ

-- `struct ascii_pending`
pub record Pending : Type 0 where
  pub prefix : List ℕ
  pub frame : List ℕ
  pub t_ms : ℕ
  pub own : Bool
  pub client : ℕ
  pub query : Bool

-- The part of `struct cat_ascii` that frames are decoded with: the configuration, the state, and
-- what is remembered between frames. VFOs are truth values, true for B; a mode code 0 is unknown,
-- and so is `tx_ab` as `none`.
pub record Decoder : Type 0 where
  pub dialect : Dialect
  pub no_data : Bool
  pub st : CatState
  pub k3_md : Bool → ℕ
  pub k3_dt : Bool → ℕ
  pub tx_ab : Option Bool

-- `struct cat_ascii`; `listening` and `log` stand for the callback.
pub record Ascii : Type 0 where
  pub dec : Decoder
  pub listening : Bool
  pub log : List Frame
  pub rx : ℕ → Rx
  pub pend : List Pending
  pub stats : Stats

-- `RX_OWN`, `RX_RADIO`
abbrev pub rx_own : ℕ
rx_own = 9

abbrev pub rx_radio : ℕ
rx_radio = 10

-- `cat_ascii_create`
unfoldable pub create : Dialect → Bool → CatState → Ascii
create dialect no_data st = record {
  dec = record {
    dialect = dialect;
    no_data = no_data;
    st = st;
    k3_md = λ _. 0;
    k3_dt = λ _. 0;
    tx_ab = none;
  };
  listening = false;
  log = [];
  rx = λ i. record { buf = []; t_ms = 0 };
  pend = [];
  stats = zero_stats;
}

-- `cat_ascii_set_frame_cb`
unfoldable pub set_frame_cb : Ascii → Bool → Ascii
set_frame_cb a on = record a { listening = on }

-- the `switch` of `emit`
unfoldable pub count_kind : FrameKind → Stats → Stats
count_kind reply s = record s { replies = u32 (s.replies + 1) }
count_kind bad s = record s { bad = u32 (s.bad + 1) }
count_kind dropped s = record s { dropped = u32 (s.dropped + 1) }
count_kind error s = record s { errors = u32 (s.errors + 1) }
count_kind _ s = s

-- `emit`
unfoldable pub emit : Ascii → Frame → Ascii
emit a f = record a {
  stats = count_frame f (count_kind f.kind a.stats);
  log = if a.listening then a.log ++ f ∷ [] else a.log;
}

-- `slot[ab] = c`
abbrev pub put_ab : (Bool → ℕ) → Bool → ℕ → Bool → ℕ
put_ab f ab c x = if bool_eq ab x then c else f x
