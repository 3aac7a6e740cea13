-- ===== src/Router/State.antt =====
-- src/mhrouter.c: `struct mh_router` and its parts.
use mhuxd.Base.{ℕ, Bool, true, false, not, ◌&&◌, Option, none, some, List, [], ◌==◌, leb, update}
use mhuxd.Buffer.{Buffer, alloc}

-- `ALL_NUM_CHANNELS`
abbrev pub all_num_channels : ℕ
all_num_channels = 14

-- `channel < 0 || channel >= ALL_NUM_CHANNELS`; a channel here is not negative.
abbrev pub bad_channel : ℕ → Bool
bad_channel channel = leb all_num_channels channel

-- `struct Producer`; its channel is the list that it is in. `reading` says whether its watcher is
-- started.
pub record Producer : Type 0 where
  pub fd : ℕ
  pub tag : Option (List ℕ)
  pub ptt_mask : ℕ
  pub reading : Bool

-- `struct Consumer`, in the same way
pub record Consumer : Type 0 where
  pub fd : ℕ
  pub tag : Option (List ℕ)
  pub buf : Buffer
  pub flags : ℕ
  pub writing : Bool

-- `struct mh_router`. A file descriptor of -1 is `none`, `out` is `channel_buf_out`, `writing` says
-- whether the watcher `w_out` is started, and `closed` lists the descriptors that were closed.
pub record Router : Type 0 where
  pub consumers : ℕ → List Consumer
  pub producers : ℕ → List Producer
  pub out : ℕ → Buffer
  pub fd : Option ℕ
  pub writing : Bool
  pub hold : ℕ → Bool
  pub turn : ℕ → Option ℕ
  pub intercept : ℕ → Bool
  pub wflag : ℕ
  pub has_flags_channel : Bool
  pub wk_tx_focus : ℕ
  pub closed : List ℕ

-- `mhr_create`
unfoldable pub create : Bool → Router
create has_flags_channel = record {
  consumers = λ ch. [];
  producers = λ ch. [];
  out = λ ch. alloc;
  fd = none;
  writing = false;
  hold = λ ch. false;
  turn = λ ch. none;
  intercept = λ ch. false;
  wflag = 0;
  has_flags_channel = has_flags_channel;
  wk_tx_focus = 0;
  closed = [];
}

abbrev pub is_open : Option ℕ → Bool
is_open none = false
is_open (some fd) = true

-- `a == b` of two descriptors
abbrev pub fd_eq : Option ℕ → Option ℕ → Bool
fd_eq none none = true
fd_eq (some a) (some b) = a == b
fd_eq _ _ = false

-- `turn == -1 || turn == fd`
abbrev pub has_turn : Option ℕ → ℕ → Bool
has_turn none fd = true
has_turn (some turn) fd = turn == fd

-- `producer_may_read`, of the producer with a descriptor
unfoldable pub may_read : Router → ℕ → ℕ → Bool
may_read r channel fd = not (r.hold channel) && has_turn (r.turn channel) fd

abbrev pub put_producers : Router → ℕ → List Producer → Router
put_producers r channel ps = record r { producers = update r.producers channel ps }

abbrev pub put_consumers : Router → ℕ → List Consumer → Router
put_consumers r channel cs = record r { consumers = update r.consumers channel cs }

-- `mhr_set_wk_tx_focus`
unfoldable pub set_wk_tx_focus : Router → ℕ → Router
set_wk_tx_focus r focus = record r { wk_tx_focus = focus }
