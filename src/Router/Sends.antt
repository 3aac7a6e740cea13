-- ===== src/Router/Sends.antt =====
-- src/mhrouter.c: data to the keyer and to the connectors.
use mhuxd.Base.{
  ℕ, Bool, true, false, not, ◌&&◌, ◌||◌, Option, none, some, List, if◌then◌else◌, ◌==◌, ltb, leb,
  length, map, update, ◌%◌,
}
use mhuxd.Buffer.{buffer_capacity, size_avail, append}
use mhuxd.Channel
use mhuxd.Router.State.{Router, Consumer, bad_channel, is_open, put_consumers}

-- `mhr_send_in`; `none` for -1
unfoldable pub send_in : Router → List ℕ → ℕ → Option ℕ × Router
unfolding append
send_in r bytes channel =
    let (n, b) = append (r.out channel) bytes in
    if bad_channel channel
    then (none, r)
    else if channel == Channel.flags && not r.has_flags_channel
    then (none, r)
    else if ltb buffer_capacity (length bytes)
    then (none, r)
    else if not (is_open r.fd)
    then (none, r)
    else if ltb (size_avail (r.out channel)) (length bytes)
    then (none, r)
    else (some n, record r { out = update r.out channel b; writing = true })

-- `buf_append` and `ev_io_start`, unless the data do not fit
unfoldable pub give : List ℕ → Consumer → Consumer
unfolding append
give bytes c =
    if leb (length bytes) (size_avail c.buf)
    then record c { buf = (append c.buf bytes).1; writing = true }
    else c

-- `mhr_send_out`, what it does to consumers
unfoldable pub send_out : Router → List ℕ → ℕ → Router
unfolding give
send_out r bytes channel =
    if bad_channel channel
    then r
    else put_consumers r channel (map (give bytes) (r.consumers channel))

-- whom `mhr_pass_out` passes data on to: `MHR_ALL`, `MHR_UNSOLICITED` or one descriptor
pub data Target : Type 0 where
  all unsolicited : Target
  only : ℕ → Target

-- `MHR_CNS_NO_UNSOLICITED`, bit 0 of the flags
abbrev pub no_unsolicited : ℕ → Bool
no_unsolicited flags = flags % 2 == 1

-- the condition of the `continue`
abbrev pub skips : Target → Consumer → Bool
skips all c = false
skips unsolicited c = no_unsolicited c.flags
skips (only fd) c = not (c.fd == fd)

abbrev pub pass : Target → List ℕ → Consumer → Consumer
pass to bytes c = if skips to c then c else give bytes c

-- `mhr_pass_out`
unfoldable pub pass_out : Router → List ℕ → ℕ → Target → Router
unfolding give
pass_out r bytes channel to =
    if bad_channel channel || length bytes == 0
    then r
    else put_consumers r channel (map (pass to bytes) (r.consumers channel))
