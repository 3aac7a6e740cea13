-- ===== src/Control/Queue.antt =====
-- src/mhcontrol.c: the queue of commands, of which the first is sent and waits for its answer.
use mhuxd.Base.{
  ℕ, Bool, true, false, not, ◌&&◌, Option, none, some, List, [], ◌∷◌, ◌++◌, if◌then◌else◌, ◌==◌,
  ltb, length, get_or, bit_or,
}
use mhuxd.Channel
use mhuxd.Router.Sends.{send_in}
use mhuxd.Control.Numbers
use mhuxd.Control.State.{
  Control, Command, Owner, generic, CmdResult, max_cmd_len, max_cmd_queue_size, is_connected,
}

-- `defer_callback`
unfoldable pub defer_callback : Control → Option Owner → CmdResult → Control
defer_callback c none result = c
defer_callback c (some o) result = record c { deferred = c.deferred ++ (o, result) ∷ [] }

-- `r == cmd->len` for what mhr_send_in returns
abbrev pub all_sent : Option ℕ → Command → Bool
all_sent none m = false
all_sent (some n) m = n == length m.bytes

-- push_cmds, on the commands that wait
unfoldable pub push_loop : Control → List Command → Control
unfolding send_in
push_loop c [] = record c { cmds = [] }
push_loop c (m ∷ ms) =
    let (r, router) = send_in c.router m.bytes Channel.control in
    let rest =
      push_loop
        (record c { router = router; deferred = c.deferred ++ (m.owner, CmdResult.error) ∷ [] })
        ms in
    if m.sent
    then record c { cmds = m ∷ ms }
    else if all_sent r m
    then record c {
      router = router;
      cmd_timeout_timer = true;
      cmds = record m { sent = true } ∷ ms;
    }
    else rest

-- `push_cmds`
unfoldable pub push_cmds : Control → Control
push_cmds c = push_loop c c.cmds

abbrev pub owner_of : Option Owner → Owner
owner_of none = generic
owner_of (some o) = o

-- `PG_AddTail`
abbrev pub enqueue : Control → Command → Control
enqueue c m = record c { cmds = c.cmds ++ m ∷ [] }

-- `submit_cmd`
unfoldable pub submit_cmd : Control → List ℕ → Option Owner → Control
submit_cmd c bytes cb =
    if not (length bytes == 0)
      && (not (get_or bytes 0 0 == Numbers.are_you_there) && not (is_connected c))
    then defer_callback c cb CmdResult.offline
    else if ltb max_cmd_len (length bytes)
    then defer_callback c cb CmdResult.error
    else if ltb max_cmd_queue_size (length c.cmds)
    then defer_callback c cb CmdResult.error
    else push_cmds (enqueue c (record { bytes = bytes; sent = false; owner = owner_of cb }))

-- A command of a number, its parameters, and the number with its top bit.
abbrev pub framed : ℕ → List ℕ → List ℕ
framed cmd params = cmd ∷ (params ++ bit_or cmd 128 ∷ [])

-- `submit_cmd_simple`
unfoldable pub submit_cmd_simple : Control → ℕ → Option Owner → Control
submit_cmd_simple c cmd cb = submit_cmd c (framed cmd []) cb
