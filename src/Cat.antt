-- ===== src/Cat.antt =====
-- src/cat.h: the types that the CAT decoders share. A decoder's frame callback is a log of its
-- calls.
use mhuxd.Base.{ℕ, ◌+◌, Bool, true, false, List, if◌then◌else◌, u32, ltb, ◌||◌, ◌==◌}

-- `enum cat_dir`
pub data Dir : Type 0 where
  host own_query radio : Dir

abbrev pub is_radio : Dir → Bool
is_radio radio = true
is_radio _ = false

abbrev pub is_own : Dir → Bool
is_own own_query = true
is_own _ = false

abbrev pub is_host : Dir → Bool
is_host host = true
is_host _ = false

abbrev pub cat_max_clients : ℕ
cat_max_clients = 9

-- `client < 1 || client > CAT_MAX_CLIENTS`
abbrev pub bad_client : ℕ → Bool
bad_client client = client == 0 || ltb cat_max_clients client

-- `enum cat_frame_kind`
pub data FrameKind : Type 0 where
  cmd echo reply ack nak unsolicited unmatched foreign bad jam dropped error : FrameKind

-- `struct cat_frame`
pub record Frame : Type 0 where
  pub kind : FrameKind
  pub dir : Dir
  pub t_ms : ℕ
  pub buf : List ℕ
  pub applied : Bool
  pub text : Bool
  pub own : Bool
  pub client : ℕ

-- `struct cat_stats`; the counters are `uint32_t`.
pub record Stats : Type 0 where
  pub frames : ℕ
  pub replies : ℕ
  pub applied : ℕ
  pub unmatched : ℕ
  pub bad : ℕ
  pub jams : ℕ
  pub dropped : ℕ
  pub foreign : ℕ
  pub errors : ℕ
  pub own : ℕ

abbrev pub zero_stats : Stats
zero_stats = record {
  frames = 0;
  replies = 0;
  applied = 0;
  unmatched = 0;
  bad = 0;
  jams = 0;
  dropped = 0;
  foreign = 0;
  errors = 0;
  own = 0;
}

-- The two tests after the `switch` of each decoder's `emit`.
abbrev pub count_frame : Frame → Stats → Stats
count_frame f s =
    let s' = if f.applied then record s { applied = u32 (s.applied + 1) } else s in
    if f.own then (if is_radio f.dir then record s' { own = u32 (s'.own + 1) } else s') else s'

-- What a frame did to the state: 1, 0 and -1 of the decoders.
pub data Outcome : Type 0 where
  updated nothing invalid : Outcome

abbrev pub is_updated : Outcome → Bool
is_updated updated = true
is_updated _ = false

abbrev pub is_invalid : Outcome → Bool
is_invalid invalid = true
is_invalid _ = false

-- the `CAT_PENDING_*` flags
pub record Waiting : Type 0 where
  pub client : Bool
  pub own : Bool
