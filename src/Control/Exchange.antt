-- ===== src/Control/Exchange.antt =====
-- src/mhcontrol.c: one command and its answer, from the call to the completion callback.
use mhuxd.Base.{
  ℕ, ◌≡◌, ◌≤◌, refl, ◌∙◌, arith, true, false, not, ◌&&◌, some, List, [], ◌∷◌, ◌==◌, ltb, length,
  get_or, if_true, if_false, ==_iff,
}
use mhuxd.Channel
use mhuxd.Router.Sends.{send_in}
use mhuxd.Control.Numbers
use mhuxd.Control.State.{
  Control, Command, CtlState, CmdResult, Owner, client, max_cmd_len, max_cmd_queue_size,
  is_connected, is_state,
}
use mhuxd.Control.Queue.{push_loop, push_cmds, submit_cmd, all_sent}
use mhuxd.Control.Start.{complete, callback}
use mhuxd.Control.Receive.{
  sent_cmd, remove_first, end_first, answer_or_report, wake, control_channel_cb, cmd_timeout_cb,
}

-- A command that can be sent at once: it fits its buffer, the keyer is connected, nothing waits, and the
-- router takes it.
pub record IsReady (c : Control) (bytes : List ℕ) : Type 0 where
  pub idle : c.cmds ≡ []
  pub connected : is_connected c ≡ true
  pub short : length bytes ≤ max_cmd_len
  pub taken : (send_in c.router bytes Channel.control).0 ≡ some (length bytes)

-- the connection once the command is sent
abbrev waits_for : Control → List ℕ → Owner → Control
waits_for c bytes o = record c {
  cmds = record { bytes = bytes; sent = true; owner = o } ∷ [];
  router = (send_in c.router bytes Channel.control).1;
  cmd_timeout_timer = true;
}

submit_cmd-sent :
    (c : Control) (bytes : List ℕ) (o : Owner)
    → IsReady c bytes
    → submit_cmd c bytes (some o) ≡ waits_for c bytes o
unfolding submit_cmd push_cmds push_loop
submit_cmd-sent c bytes o h =
    if_false _ _ _ online
    ∙ if_false _ _ _ fits
    ∙ if_false _ _ _ room
    ∙ rw h.idle (if_true _ _ _ whole)
  where
    m : Command
    m = record { bytes = bytes; sent = false; owner = o }

    online :
        (not (length bytes == 0)
          && (not (get_or bytes 0 0 == Numbers.are_you_there) && not (is_connected c)))
        ≡ false
    online = ground (arith, h.connected)

    fits : ltb max_cmd_len (length bytes) ≡ false
    fits = ground (arith, h.short)

    room : ltb max_cmd_queue_size (length c.cmds) ≡ false
    room = rw h.idle refl

    whole : all_sent (send_in c.router bytes Channel.control).0 m ≡ true
    whole = rw h.taken ((==_iff _ _).1 refl)

not_off :
    (s : CtlState)
    → (not (is_state s CtlState.disc) && not (is_state s CtlState.off)) ≡ true
    → is_state s CtlState.off ≡ false
not_off s e = ground arith

-- the connection once a client's command has come to its end
abbrev pub ended : Control → List ℕ → ℕ → CmdResult → Control
ended c bytes n result = record c {
  cmds = [];
  router = (send_in c.router bytes Channel.control).1;
  cmd_timeout_timer = false;
  completed = (client n, result) ∷ c.completed;
}

module _ (c : Control) (bytes : List ℕ) (n : ℕ) (on : is_connected c ≡ true) where
  control_channel_cb-answer :
      (reply : List ℕ) (t : ℕ)
      → (get_or reply 0 0 == get_or bytes 0 0) ≡ true
      → control_channel_cb (waits_for c bytes (client n)) reply t ≡ ended c bytes n CmdResult.ok
  unfolding control_channel_cb answer_or_report sent_cmd end_first remove_first complete callback
      wake push_cmds push_loop is_connected
  control_channel_cb-answer reply t same = rw same (rw (not_off c.state on) refl)

  control_channel_cb-refusal :
      (reply : List ℕ) (t : ℕ)
      → (get_or reply 0 0 == get_or bytes 0 0) ≡ false
      → (get_or reply 0 0 == Numbers.not_supported) ≡ true
      → control_channel_cb (waits_for c bytes (client n)) reply t
        ≡ ended c bytes n CmdResult.not_supported
  unfolding control_channel_cb answer_or_report sent_cmd end_first remove_first complete callback
      wake push_cmds push_loop is_connected
  control_channel_cb-refusal reply t other refused =
      rw other (rw refused (rw (not_off c.state on) refl))

  cmd_timeout_cb-waits_for :
      cmd_timeout_cb (waits_for c bytes (client n)) ≡ ended c bytes n CmdResult.timeout
  unfolding cmd_timeout_cb sent_cmd end_first remove_first complete callback push_cmds push_loop
  cmd_timeout_cb-waits_for = refl

-- A command of a client that can be sent at once, and what comes next: an answer with the command's number,
-- the answer that it is not supported, or the timeout. Its callback is called, with the result that fits,
-- no command waits and no timer runs any more, and nothing else of the connection changes, but that the
-- router has taken the command.
pub submit_cmd-ended :
    (c : Control) (bytes : List ℕ) (n : ℕ) (reply refusal : List ℕ) (t : ℕ)
    → IsReady c bytes
    → (get_or reply 0 0 == get_or bytes 0 0) ≡ true
    → (get_or refusal 0 0 == get_or bytes 0 0) ≡ false
    → (get_or refusal 0 0 == Numbers.not_supported) ≡ true
    → (control_channel_cb (submit_cmd c bytes (some (client n))) reply t
        ≡ ended c bytes n CmdResult.ok)
      × (control_channel_cb (submit_cmd c bytes (some (client n))) refusal t
          ≡ ended c bytes n CmdResult.not_supported)
      × (cmd_timeout_cb (submit_cmd c bytes (some (client n))) ≡ ended c bytes n CmdResult.timeout)
submit_cmd-ended c bytes n reply refusal t h same other refused =
    rw (submit_cmd-sent c bytes (client n) h) (
      control_channel_cb-answer c bytes n h.connected reply t same,
      control_channel_cb-refusal c bytes n h.connected refusal t other refused,
      cmd_timeout_cb-waits_for c bytes n h.connected,
    )
